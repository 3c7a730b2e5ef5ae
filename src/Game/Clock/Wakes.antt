-- ===== src/Game/Clock/Wakes.antt =====
-- Why `Clock` of server/internal/game/text_snapshot.go wakes the server neither early nor late.
use knowoff.Prelude.{
  ℕ, suc, Bool, true, false, ◌&&◌, ◌||◌, ◌≡◌, none, List, [], ◌∷◌, not, ltb, leb, all, refl, ap,
  ◌∙◌, arith, if◌then◌else◌,
}
use knowoff.Contract.{Phase, Reason, Resolution}
use knowoff.Game.State.{TextState, TextPlayer, TextMatch, TextPending, Result, ok, err}
use knowoff.Game.Endings.{finalize_vote}
use knowoff.Game.Offers.{resolve_offer}
use knowoff.Game.Ballots.{resolve_vote}
use knowoff.Game.Turns.{stranded, next_turn, auto_pass}
use knowoff.Game.Advance.{
  Progress, done, more, go_on, with_state, reveal_result, open_ballot, grace_expired, mark_absent,
  mark_absences, new_abandons, advance_in, advance_play, all_ready, closing, finalized,
}
use knowoff.Game.Clock.{in_grace, is_verdict, is_result, phase_wakeup, earliest_grace}

abbrev pub all_present : ℕ → List TextPlayer → Bool
all_present now ps = all (λ v. not (grace_expired now v)) ps

mark_absent-present :
    (m : TextMatch) (now : ℕ) (v : TextPlayer)
    → (mark_absent m now v ≡ v → grace_expired now v ≡ false)
unfolding mark_absent
mark_absent-present m now v h = let e = ap (λ q. q.absent) h in ground arith

pub all_present-mark_absences :
    (m : TextMatch) (now : ℕ) (ps : List TextPlayer)
    → all_present now ps ≡ true
    → mark_absences m now ps ≡ ps
unfolding mark_absences mark_absent
all_present-mark_absences m now [] h = refl
all_present-mark_absences m now (v ∷ ps) h = ground (arith, all_present-mark_absences m now ps)

pub all_present-new_abandons :
    (m : TextMatch) (now i : ℕ) (ps : List TextPlayer)
    → all_present now ps ≡ true
    → new_abandons m now i ps ≡ []
unfolding new_abandons
all_present-new_abandons m now i [] h = refl
all_present-new_abandons m now i (v ∷ ps) h =
    ground (arith, all_present-new_abandons m now (suc i) ps)

pub mark_absences-all_present :
    (m : TextMatch) (now : ℕ) (ps : List TextPlayer)
    → mark_absences m now ps ≡ ps
    → all_present now ps ≡ true
unfolding mark_absences
mark_absences-all_present m now [] h = refl
mark_absences-all_present m now (v ∷ ps) h =
    let e : mark_absent m now v ≡ v = cc in
    let rest : mark_absences m now ps ≡ ps = cc in
    ground (arith, mark_absent-present m now v e, mark_absences-all_present m now ps rest)

ltb-sooner :
    (now next : ℕ) (v : TextPlayer)
    → ltb now (if in_grace v && ltb v.grace_deadline next then v.grace_deadline else next)
      ≡ (ltb now next && not (grace_expired now v))
ltb-sooner now next v = ground arith

and_assoc : (a b c : Bool) → ((a && b) && c) ≡ (a && (b && c))
and_assoc true b c = refl
and_assoc false b c = refl

-- Before the earliest grace of a list nobody's grace has run out, and only before it.
pub ltb-earliest_grace :
    (now next : ℕ) (ps : List TextPlayer)
    → ltb now (earliest_grace next ps) ≡ (ltb now next && all_present now ps)
unfolding earliest_grace
ltb-earliest_grace now next [] = ground arith
ltb-earliest_grace now next (v ∷ ps) =
    ltb-earliest_grace now
      (if in_grace v && ltb v.grace_deadline next then v.grace_deadline else next) ps
    ∙ (ap (λ b. b && all_present now ps) (ltb-sooner now next v)
        ∙ and_assoc (ltb now next) (not (grace_expired now v)) (all_present now ps))

-- What a phase waits for besides the time.
abbrev pub pressing : TextMatch → TextState → Phase → Bool
pressing m s Phase.round_start = false
pressing m s Phase.play = stranded m s
pressing m s Phase.trade_response = false
pressing m s Phase.verdict = false
pressing m s _ = all_ready s

pub ltb-phase_wakeup :
    (s : TextState) (now : ℕ)
    → ltb now (phase_wakeup s) ≡ (
        ltb now s.deadline
        && not (is_result s.phase && (not s.result_revealed && leb s.result_reveal_at now)))
unfolding phase_wakeup
ltb-phase_wakeup s now = ground arith

go_on-ends : (p q : TextPending) → p.state.result ≡ none → go_on q ≡ done p → ⊥
go_on-ends p q h e = ground arith

done-inj : (p q : TextPending) → done p ≡ done q → p ≡ q
done-inj p q h = cc

-- Is there time left before the phase changes?
abbrev pub early : TextState → Phase → ℕ → Bool
early s phase now =
    ltb now s.deadline
    && not (is_result phase && (not s.result_revealed && leb s.result_reveal_at now))

module _ (m : TextMatch) (p : TextPending) (now : ℕ) where
  pub early-advance_in :
      (phase : Phase)
      → pressing m p.state phase ≡ false
      → early p.state phase now ≡ true
      → advance_in phase m p now ≡ done p
  unfolding advance_in advance_play
  early-advance_in Phase.round_start h e = ground arith
  early-advance_in Phase.play h e = ground arith
  early-advance_in Phase.trade_response h e = ground arith
  early-advance_in Phase.discussion h e = ground arith
  early-advance_in Phase.knowoff_ballot h e = ground arith
  early-advance_in Phase.runoff h e = ground arith
  early-advance_in Phase.result_window h e =
      let late : closing p.state now ≡ false = ground arith in
      let shown : (p.state.result_revealed || leb p.state.result_reveal_at now)
          ≡ p.state.result_revealed =
        ground arith in
      rw late (ap (λ b. done (with_state p (record p.state { result_revealed = b }))) shown)
  early-advance_in Phase.verdict h e = refl

  finalized-ends : (r : Result TextPending) → p.state.result ≡ none → finalized r ≡ done p → ⊥
  finalized-ends (ok q) h e = go_on-ends p q h e
  finalized-ends (err x) h e = cc

  not_yet :
      (b : Bool) (x y : Progress)
      → (x ≡ done p → ⊥)
      → (if b then x else y) ≡ done p
      → (b ≡ false) × (y ≡ done p)
  not_yet true x y ends h = absurd (ends h)
  not_yet false x y ends h = (refl, h)

  go_on-waits :
      (b : Bool) (q : TextPending)
      → p.state.result ≡ none
      → (if b then go_on q else done p) ≡ done p
      → b ≡ false
  go_on-waits b q u h = (not_yet b (go_on q) (done p) (go_on-ends p q u) h).0

  pub advance_in-early :
      (phase : Phase)
      → p.state.result ≡ none
      → is_verdict phase ≡ false
      → advance_in phase m p now ≡ done p
      → (pressing m p.state phase ≡ false) × (early p.state phase now ≡ true)
  unfolding advance_in advance_play
  advance_in-early Phase.round_start u v h =
      let waits =
        go_on-waits (leb p.state.deadline now) (with_state p (next_turn m p.state now)) u h in
      ground arith
  advance_in-early Phase.play u v h =
      let passed = auto_pass m p.state Reason.no_recipient now in
      let timed_out = with_state p (auto_pass m p.state Reason.timeout now) in
      let late = leb p.state.deadline now in
      let (company, rest) =
        not_yet (stranded m p.state) (more (with_state p passed))
          (if late then go_on timed_out else done p) (λ e. cc) h in
      let waits = go_on-waits late timed_out u rest in (company, ground arith)
  advance_in-early Phase.trade_response u v h =
      let waits =
        go_on-waits (leb p.state.deadline now)
          (with_state p (resolve_offer m p.state none Resolution.timed_out Reason.timeout now)) u
          h in
      ground arith
  advance_in-early Phase.discussion u v h =
      let waits =
        go_on-waits (closing p.state now) (with_state p (open_ballot m p.state now)) u h in
      ground arith
  advance_in-early Phase.knowoff_ballot u v h =
      let waits = go_on-waits (closing p.state now) (resolve_vote m p now) u h in ground arith
  advance_in-early Phase.runoff u v h =
      let waits = go_on-waits (closing p.state now) (resolve_vote m p now) u h in ground arith
  advance_in-early Phase.result_window u v h =
      let shown = with_state p (reveal_result p.state now) in
      let (waits, seen) =
        not_yet (closing p.state now) (finalized (finalize_vote m shown now)) (done shown)
          (finalized-ends (finalize_vote m shown now) u) h in
      let same = ap (λ q. q.state.result_revealed) (done-inj shown p seen) in
      (ground arith, ground arith)
  advance_in-early Phase.verdict u v h = cc
