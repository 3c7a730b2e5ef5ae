-- ===== src/Game/Specialty/Order.antt =====
-- Every specialty card leaves a running match running.
use knowoff.Prelude.{ℕ, suc, true, none, some, List, [], ◌∷◌, refl, arith, map}
use knowoff.Contract.{Action, Reason, Resolution, Card, EventKind}
use knowoff.Game.State.{TextState, TextMatch, ok, err, GameError, player_at}
use knowoff.Game.Turns.{
  current, event, plain, set_player, set_copy, bump_revision, enter_phase, next_turn,
}
use knowoff.Game.Turns.Settles.{Keeps, Keeps-refl, Keeps-trans, Arrives, next_turn-Arrives}
use knowoff.Game.Offers.{cancel_offer}
use knowoff.Game.Offers.Settles.{resolve_offer_forced-Keeps}
use knowoff.Game.Advance.Bound.{Live, Clocks, Arrives-Live}
use knowoff.Game.Advance.RunsOn.{RunsOn, ok-RunsOn, err-RunsOn, if-RunsOn, next_turn-Live}
use knowoff.Game.Specialty.{
  play_pass, play_revote, play_shuffle, turn_specialty, specialty, shuffle_specialty, reshuffled,
  shuffle_pool, shuffle_count, redeal, redeal_card, on_turn, holds, held_specialty, add_bonus,
  not_eliminated, take_hand, drop_card,
}
use knowoff.Game.Actions.Stays.{
  Stays, Stays-Live, talking-Live, view_reveal-Stays, play_reveal-Stays, play_free_card-Stays,
}

redeal_card-Keeps :
    (m : TextMatch) (active : List ℕ) (count i : ℕ) (dealt : TextState × List Card) (id : ℕ)
    → Keeps dealt.0 (redeal_card m active count i dealt id).0
unfolding redeal_card set_copy set_player
redeal_card-Keeps m active count i dealt id = ground arith

redeal-Keeps :
    (m : TextMatch) (active : List ℕ) (count i : ℕ) (dealt : TextState × List Card) (pool : List ℕ)
    → Keeps dealt.0 (redeal m active count i dealt pool).0
unfolding redeal
redeal-Keeps m active count i dealt [] = Keeps-refl dealt.0
redeal-Keeps m active count i dealt (id ∷ pool) =
    Keeps-trans (redeal_card-Keeps m active count i dealt id)
      (redeal-Keeps m active count (suc i) (redeal_card m active count i dealt id) pool)

Keeps-Arrives :
    (m : TextMatch) (now : ℕ) {s x t : TextState}
    → Keeps s x
    → Arrives m now x t
    → Arrives m now s t
Keeps-Arrives m now k a = (Keeps-trans k a.0, a.1)

add_bonus-Live : (m : TextMatch) (s : TextState) → Live m s → Live m (add_bonus m s)
unfolding current
add_bonus-Live m s run = Stays-Live m s (add_bonus m s) run (ground arith)

reshuffled-Keeps : (m : TextMatch) (s : TextState) (now : ℕ) → Keeps s (reshuffled m s now)
unfolding reshuffled event bump_revision
reshuffled-Keeps m s now =
    let cleared = record s {
      players = map take_hand s.players;
      board = record (bump_revision s).board { cards = [] };
    } in
    let dealt =
      redeal-Keeps m (not_eliminated s) (shuffle_count m.mode_id s) 0 (cleared, [])
        (shuffle_pool m s) in
    record { result = dealt.result; remaining_votes = dealt.remaining_votes; round = dealt.round }

passed-Stays :
    (s : TextState) (seat now : ℕ)
    → Stays s (
        event
          (set_player s seat drop_card)
          (some seat)
          EventKind.pass_event
          Reason.player
          now
          s.board.revision
          []
          plain)
unfolding event set_player
passed-Stays s seat now = ground arith

module _ (m : TextMatch) (clocks : Clocks m) where
  shuffle_specialty-RunsOn :
      (s x : TextState) (now : ℕ) → Live m s → Keeps s x → RunsOn m (shuffle_specialty m x now)
  unfolding shuffle_specialty
  shuffle_specialty-RunsOn s x now run keeps =
      let dealt = reshuffled m x now in
      let next = next_turn m dealt now in
      let arrives = next_turn-Arrives m dealt now clocks.turn in
      if-RunsOn m _ (err GameError.invalid_action) (ok (add_bonus m next))
        (err-RunsOn m GameError.invalid_action)
        (ok-RunsOn m (add_bonus m next) (
          add_bonus-Live m next (
            Arrives-Live m now s next run
              (Keeps-Arrives m now (Keeps-trans keeps (reshuffled-Keeps m x now)) arrives))))

  play_shuffle-RunsOn :
      (s : TextState) (seat now : ℕ) → Live m s → RunsOn m (play_shuffle m s seat now)
  unfolding play_shuffle set_player
  play_shuffle-RunsOn s seat now run =
      let spent = record (set_player (cancel_offer m s now) seat drop_card) {
        shuffle_used = true;
      } in
      let cancelled = resolve_offer_forced-Keeps m s none Resolution.cancel now in
      if-RunsOn m _ (err GameError.unauthorized) (shuffle_specialty m spent now)
        (err-RunsOn m GameError.unauthorized)
        (shuffle_specialty-RunsOn s spent now run (record {
          result = cancelled.result;
          remaining_votes = cancelled.remaining_votes;
          round = cancelled.round;
        }))

  play_revote-RunsOn :
      (s : TextState) (seat now : ℕ) → Live m s → RunsOn m (play_revote m s seat now)
  unfolding play_revote set_player event enter_phase
  play_revote-RunsOn s seat now run =
      if-RunsOn m _ (err GameError.unauthorized) _ (err-RunsOn m GameError.unauthorized) (
        ok-RunsOn m _ (
          talking-Live m s _ run (record { result = refl; remaining_votes = refl; round = refl })
            (λ e. cc) (λ e. cc) (λ e. cc)))

  play_pass-Live : (s : TextState) (seat now : ℕ) → Live m s → Live m (play_pass m s seat now)
  unfolding play_pass
  play_pass-Live s seat now run =
      next_turn-Live m clocks _ now (Stays-Live m s _ run (passed-Stays s seat now))

  turn_specialty-RunsOn :
      (s : TextState) (seat : ℕ) (a : Action) (now : ℕ)
      → Live m s
      → RunsOn m (turn_specialty m s seat a now)
  unfolding turn_specialty
  turn_specialty-RunsOn s seat Action.pass now run =
      ok-RunsOn m (play_pass m s seat now) (play_pass-Live s seat now run)
  turn_specialty-RunsOn s seat (Action.reveal target) now run =
      λ t h. Stays-Live m s t run (play_reveal-Stays m s t seat target now h)
  turn_specialty-RunsOn s seat Action.free_card now run =
      λ t h. Stays-Live m s t run (play_free_card-Stays s t seat now h)
  turn_specialty-RunsOn s seat _ now run = err-RunsOn m GameError.invalid_action

  held_specialty-RunsOn :
      (s : TextState) (seat : ℕ) (a : Action) (now : ℕ)
      → Live m s
      → RunsOn m (held_specialty m s seat a now)
  held_specialty-RunsOn s seat Action.shuffle now run = play_shuffle-RunsOn s seat now run
  held_specialty-RunsOn s seat Action.revote now run = play_revote-RunsOn s seat now run
  held_specialty-RunsOn s seat a now run =
      if-RunsOn m (on_turn s seat) (turn_specialty m s seat a now) (err GameError.unauthorized)
        (turn_specialty-RunsOn s seat a now run) (err-RunsOn m GameError.unauthorized)

  -- A specialty that may be played leaves a running match running.
  pub specialty-RunsOn :
      (s : TextState) (seat : ℕ) (a : Action) (now : ℕ)
      → Live m s
      → RunsOn m (specialty m s seat a now)
  unfolding specialty
  specialty-RunsOn s seat Action.view_reveal now run =
      λ t h. Stays-Live m s t run (view_reveal-Stays m s t seat now h)
  specialty-RunsOn s seat a now run =
      if-RunsOn m (holds (player_at s seat).specialty a) (held_specialty m s seat a now)
        (err GameError.unauthorized) (held_specialty-RunsOn s seat a now run)
        (err-RunsOn m GameError.unauthorized)
