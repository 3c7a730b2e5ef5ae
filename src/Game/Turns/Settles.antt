-- ===== src/Game/Turns/Settles.antt =====
-- Where `nextTurn`, `autoPass` and `beginRound` leave the match.
use knowoff.Prelude.{
  ℕ, zero, suc, ◌+◌, ◌-◌, ◌<◌, true, false, ◌≡◌, none, some, length, get_elem?-some, refl, ap, ◌∙◌,
  ◌⊎◌, inl, inr, arith, Option-cases, Bool-cases, ltb, ltb→lt,
}
use knowoff.Contract.{Phase, Reason}
use knowoff.Game.State.{TextState, TextMatch}
use knowoff.Game.Turns.{
  enter_phase, current, discard, next_turn_from, next_turn, auto_pass, to_play, skip_reason,
  stranded, to_discussion, event, retire, set_copy, set_player,
}

-- What turns and trades leave alone.
pub record Keeps (s t : TextState) : Type 0 where
  pub result : t.result ≡ s.result
  pub remaining_votes : t.remaining_votes ≡ s.remaining_votes
  pub round : t.round ≡ s.round

pub Keeps-refl : (s : TextState) → Keeps s s
Keeps-refl s = record { result = refl; remaining_votes = refl; round = refl }

pub Keeps-trans : {s t u : TextState} → Keeps s t → Keeps t u → Keeps s u
Keeps-trans a b = record {
  result = b.result ∙ a.result;
  remaining_votes = b.remaining_votes ∙ a.remaining_votes;
  round = b.round ∙ a.round;
}

record KeepsTurn (s t : TextState) : Type 0 where
  keeps : Keeps s t
  order : t.order ≡ s.order
  turn : t.turn ≡ s.turn

discard-KeepsTurn :
    (m : TextMatch) (s : TextState) (seat : ℕ) (reason : Reason) (now : ℕ)
    → KeepsTurn s (discard m s seat reason now)
unfolding discard event retire set_copy set_player
discard-KeepsTurn m s seat reason now = ground arith

-- A seat is on turn that can act, with time left.
pub record AtPlay (m : TextMatch) (now : ℕ) (s : TextState) : Type 0 where
  pub phase : s.phase ≡ Phase.play
  pub on_turn : (seat : ℕ) × (current s ≡ some seat)
  pub can_act : stranded m s ≡ false
  pub in_time : now < s.deadline

abbrev pub Landed : TextMatch → ℕ → TextState → Type 0
Landed m now s = (s.phase ≡ Phase.discussion) ⊎ AtPlay m now s

to_play-current :
    (m : TextMatch) (s : TextState) (now : ℕ)
    → s.turn < length s.order
    → (seat : ℕ) × (current (to_play m s now) ≡ some seat)
unfolding current enter_phase
to_play-current m s now h =
    let (seat, e) = get_elem?-some s.order s.turn h in (seat, ground (arith, e))

to_play-AtPlay :
    (m : TextMatch) (s : TextState) (now seat : ℕ)
    → 0 < m.timers.play_turn
    → current (to_play m s now) ≡ some seat
    → skip_reason m (to_play m s now) seat ≡ none
    → AtPlay m now (to_play m s now)
unfolding stranded skip_reason enter_phase
to_play-AtPlay m s now seat h e k = record {
  phase = refl;
  on_turn = (seat, e);
  can_act = ground (arith, e);
  in_time = omega arith;
}

abbrev pub Arrives : TextMatch → ℕ → TextState → TextState → Type 0
Arrives m now s t = Keeps s t × Landed m now t

module _ (m : TextMatch) (now fuel : ℕ) (s : TextState) where
  abbrev turned : TextState
  turned = next_turn_from m now (suc fuel) s

  turned-last : ltb s.turn (length s.order) ≡ false → turned ≡ to_discussion m s now
  unfolding next_turn_from
  turned-last h = rw h

  module _ (seat : ℕ) (left : ltb s.turn (length s.order) ≡ true)
      (here : current (to_play m s now) ≡ some seat) where
    turned-stop : skip_reason m (to_play m s now) seat ≡ none → turned ≡ to_play m s now
    unfolding next_turn_from
    turned-stop k = rw (left, here, k)

    turned-skip :
        (r : Reason)
        → skip_reason m (to_play m s now) seat ≡ some r
        → turned ≡ next_turn_from m now fuel (discard m (to_play m s now) seat r now)
    unfolding next_turn_from
    turned-skip r k = rw (left, here, k)

to_discussion-Arrives :
    (m : TextMatch) (now : ℕ) (s : TextState) → Arrives m now s (to_discussion m s now)
unfolding enter_phase
to_discussion-Arrives m now s =
    (record { result = refl; remaining_votes = refl; round = refl }, inl refl)

to_play-Keeps : (m : TextMatch) (s : TextState) (now : ℕ) → Keeps s (to_play m s now)
unfolding enter_phase
to_play-Keeps m s now = record { result = refl; remaining_votes = refl; round = refl }

to_play-order :
    (m : TextMatch) (s : TextState) (now : ℕ)
    → ((to_play m s now).order ≡ s.order) × ((to_play m s now).turn ≡ s.turn + 1)
unfolding enter_phase
to_play-order m s now = (refl, refl)

next_turn_from-Arrives :
    (m : TextMatch) (now fuel : ℕ) (s : TextState)
    → 0 < m.timers.play_turn
    → length s.order - s.turn < fuel
    → Arrives m now s (next_turn_from m now fuel s)
next_turn_from-Arrives m now zero s h f = elim f [ ]
next_turn_from-Arrives m now (suc fuel) s h f = elim (Bool-cases (ltb s.turn (length s.order))) [
  | inr last ↦ rw (turned-last m now fuel s last) (to_discussion-Arrives m now s)
  | inl left ↦
      let (seat, here) = to_play-current m s now (ltb→lt _ _ left) in
      elim (Option-cases (skip_reason m (to_play m s now) seat)) [
        | inl k ↦
            rw (turned-stop m now fuel s seat left here k)
              (to_play-Keeps m s now, inr (to_play-AtPlay m s now seat h here k))
        | inr (r, k) ↦
            let thrown = discard-KeepsTurn m (to_play m s now) seat r now in
            let later =
              next_turn_from-Arrives m now fuel (discard m (to_play m s now) seat r now) h (
                omega (
                  arith,
                  ltb→lt s.turn (length s.order) left,
                  ap length thrown.order,
                  thrown.turn,
                  ap length (to_play-order m s now).0,
                  (to_play-order m s now).1,
                )) in
            rw (turned-skip m now fuel s seat left here r k)
              (Keeps-trans (Keeps-trans (to_play-Keeps m s now) thrown.keeps) later.0, later.1)
      ]
]

-- With a positive turn length, `nextTurn` ends in the discussion, or in the play phase before its
-- deadline at a seat that is not stranded; result, votes left and round stay.
pub next_turn-Arrives :
    (m : TextMatch) (s : TextState) (now : ℕ)
    → 0 < m.timers.play_turn
    → Arrives m now s (next_turn m s now)
unfolding next_turn
next_turn-Arrives m s now h = next_turn_from-Arrives m now _ s h (omega arith)

pub auto_pass-Arrives :
    (m : TextMatch) (s : TextState) (reason : Reason) (now seat : ℕ)
    → 0 < m.timers.play_turn
    → current s ≡ some seat
    → Arrives m now s (auto_pass m s reason now)
unfolding auto_pass
auto_pass-Arrives m s reason now seat h e =
    let next = next_turn-Arrives m (discard m s seat reason now) now h in
    rw (e, auto_pass) (Keeps-trans (discard-KeepsTurn m s seat reason now).keeps next.0, next.1)
