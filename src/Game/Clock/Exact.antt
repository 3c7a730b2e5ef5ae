-- ===== src/Game/Clock/Exact.antt =====
-- `Clock` of server/internal/game/text_snapshot.go is the first time at which `advance` has work.
use knowoff.Prelude.{
  ℕ, ◌<◌, true, false, ◌&&◌, ◌≡◌, ◌↔◌, none, some, ltb, refl, sym, ap, ◌∙◌, arith,
}
use knowoff.Game.State.{TextMatch, TextPending, ok}
use knowoff.Game.Endings.{absence_end}
use knowoff.Game.Advance.{advance_loop, advance, record_absences}
use knowoff.Game.Advance.Absences.{append_nil}
use knowoff.Game.Clock.{is_verdict, phase_wakeup, earliest_grace, match_clock, Idle}
use knowoff.Game.Clock.Wakes.{
  all_present, pressing, early, all_present-mark_absences, all_present-new_abandons,
  mark_absences-all_present, ltb-earliest_grace, ltb-phase_wakeup, early-advance_in,
  advance_in-early,
}

module _ (m : TextMatch) (p : TextPending) where
  record_absences-present :
      (now : ℕ) → all_present now p.state.players ≡ true → record_absences m p now ≡ p
  unfolding record_absences
  record_absences-present now h =
      rw
        (
          all_present-mark_absences m now p.state.players h,
          all_present-new_abandons m now 0 p.state.players h,
          append_nil p.abandons,
        )
        refl

  record_absences-all_present :
      (now : ℕ) → record_absences m p now ≡ p → all_present now p.state.players ≡ true
  unfolding record_absences
  record_absences-all_present now h =
      mark_absences-all_present m now p.state.players (ap (λ q. q.state.players) h)

  -- Whether absences end a match does not depend on the time.
  absence_end-none : (t now : ℕ) → absence_end m p t ≡ none → absence_end m p now ≡ none
  unfolding absence_end
  absence_end-none t now h = ground arith

  -- A match with nothing to do is left as it is.
  Idle-loop : (now : ℕ) → Idle m p now → advance_loop 12 m p now ≡ ok p
  unfolding advance_loop
  Idle-loop now idle = rw (idle.nothing_due, advance_loop) refl

  -- A match with nothing to do is left as it is.
  Idle-advance : (now : ℕ) → p.state.result ≡ none → Idle m p now → advance m p now ≡ ok p
  unfolding advance
  Idle-advance now u idle = simp (advance, u, idle.present, idle.populated, Idle-loop now idle)

  Idle-pressing :
      (t : ℕ)
      → p.state.result ≡ none
      → is_verdict p.state.phase ≡ false
      → Idle m p t
      → pressing m p.state p.state.phase ≡ false
  Idle-pressing t u v idle = (advance_in-early m p t p.state.phase u v idle.nothing_due).0

  match_clock-early :
      (now w : ℕ)
      → match_clock p.state ≡ some w
      → (is_verdict p.state.phase ≡ false)
        × (ltb now w ≡ (early p.state p.state.phase now && all_present now p.state.players))
  unfolding match_clock
  match_clock-early now w h =
      let e = ltb-earliest_grace now (phase_wakeup p.state) p.state.players in
      let f = ltb-phase_wakeup p.state now in
      let over : is_verdict p.state.phase ≡ false = ground arith in
      let is_w : earliest_grace (phase_wakeup p.state) p.state.players ≡ w = ground (arith, over) in
      (
        over,
        ap (λ x. ltb now x) (sym is_w) ∙ (e ∙ ap (λ b. b && all_present now p.state.players) f),
      )

  early-Idle :
      (t now : ℕ)
      → p.state.result ≡ none
      → is_verdict p.state.phase ≡ false
      → Idle m p t
      → (early p.state p.state.phase now && all_present now p.state.players) ≡ true
      → Idle m p now
  early-Idle t now u v idle h = record {
    present = record_absences-present now (ground arith);
    populated = absence_end-none t now idle.populated;
    nothing_due = early-advance_in m p now p.state.phase (Idle-pressing t u v idle) (ground arith);
  }

  Idle-early :
      (now : ℕ)
      → p.state.result ≡ none
      → is_verdict p.state.phase ≡ false
      → Idle m p now
      → (early p.state p.state.phase now && all_present now p.state.players) ≡ true
  Idle-early now u v idle =
      let in_time = (advance_in-early m p now p.state.phase u v idle.nothing_due).1 in
      let here = record_absences-all_present now idle.present in ground (arith, in_time, here)

-- For a running match that at some time had no work left for `advance`, the clock of its state is
-- the exact limit of its rest: there is no work, and `advance` leaves the match as it is, exactly at
-- the times before the clock.
pub match_clock-Idle :
    (m : TextMatch) (p : TextPending) (t now w : ℕ)
    → p.state.result ≡ none
    → match_clock p.state ≡ some w
    → Idle m p t
    → (Idle m p now × (advance m p now ≡ ok p)) ↔ (now < w)
match_clock-Idle m p t now w u h idle =
    let (v, e) = match_clock-early m p now w h in
    (
      λ rest. let before = e ∙ Idle-early m p now u v rest.0 in ground (arith, before),
      λ before.
          let rest = early-Idle m p t now u v idle (sym e ∙ ground arith) in
          (rest, Idle-advance m p now u rest),
    )
