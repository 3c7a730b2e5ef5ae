-- ===== src/Game/Turns.antt =====
-- Phases and turns: phase, current, actor, event, nextTurn, removeCopy and autoPass of
-- server/internal/game/text_actions.go.
pub mod Settles
pub mod Seeds
pub mod Rounds
use Prim.Native.String.{String}
use text.Mathlib.Text.{◌==◌ as str_eq}
use knowoff.Prelude.{
  ℕ, zero, suc, ◌+◌, ◌-◌, ◌*◌, Bool, true, false, ◌&&◌, ◌||◌, Option, none, some, List, [], ◌∷◌,
  ◌++◌, length, get_elem?, modify, insert, not, any, any_at, seats_where, ltb, ◌==◌, if◌then◌else◌,
  map,
}
use knowoff.Contract.{
  ModeId, Phase, Card, Actor, Reason, EventKind, Board, BoardCard, PublicAction, u64,
}
use knowoff.Game.State.{
  TextState, TextPlayer, TextCopy, TextMatch, Zone, Result, ok, err, GameError, copy_at, player_at,
  is_bad_bargains, is_active, ◌>>=◌,
}

-- `now.Add(seconds).UnixMilli()`
abbrev pub after : ℕ → ℕ → ℕ
after now seconds = now + seconds * 1000

unfoldable pub enter_phase : TextState → Phase → ℕ → ℕ → TextState
enter_phase s phase now seconds = record s {
  phase = phase;
  phase_serial = u64 (s.phase_serial + 1);
  phase_id = u64 (s.phase_serial + 1);
  deadline = after now seconds;
  ready = λ seat. false;
  result_reveal_at = 0;
  result_revealed = false;
}

-- `none` is -1.
unfoldable pub current : TextState → Option ℕ
current s = if s.turn == 0 then none else get_elem? s.order (s.turn - 1)

abbrev pub actor : Option ℕ → Actor
actor none = Actor.system
actor (some seat) = Actor.at_seat seat

-- The new event, whose optional fields the callers fill in by `decorate`.
unfoldable pub event :
    TextState
    → Option ℕ
    → EventKind
    → Reason
    → ℕ
    → ℕ
    → List Card
    → (PublicAction → PublicAction)
    → TextState
event s seat kind reason now before cards decorate = record s {
  history =
      s.history
      ++ decorate (record {
        event_id = length s.history + 1;
        evidence_seq = length s.history + 1;
        round = s.round;
        phase = s.phase;
        phase_id = s.phase_id;
        actor = actor seat;
        kind = kind;
        cards = cards;
        before_revision = before;
        after_revision = s.board.revision;
        reason = reason;
        server_time_ms = now;
        deadline_ms = none;
        count = none;
        rating = none;
        slot = none;
        target_seat = none;
        offer_id = none;
        resolution = none;
        phrase_id = "";
        text = "";
        ui_locale = "";
        ballot = none;
      })
        ∷ [];
}

abbrev pub plain : PublicAction → PublicAction
plain e = e

unfoldable pub set_copy : TextState → ℕ → TextCopy → TextState
set_copy s id c = record s { copies = insert id c s.copies }

unfoldable pub set_player : TextState → ℕ → (TextPlayer → TextPlayer) → TextState
set_player s seat f = record s { players = modify s.players seat f }

-- The copy leaves play for good.
unfoldable pub retire : TextState → ℕ → TextState
retire s id = set_copy s id (record (copy_at s id) { zone = Zone.spent; owner = none })

unfoldable pub remove_copy : List ℕ → ℕ → List ℕ
remove_copy [] id = []
remove_copy (v ∷ ids) id = if v == id then ids else v ∷ remove_copy ids id

unfoldable pub bump_revision : TextState → TextState
bump_revision s = record s { board = record s.board { revision = u64 (s.board.revision + 1) } }

abbrev pub recipient_exists : TextState → Option ℕ → Bool
recipient_exists s none = any is_active s.players
recipient_exists s (some seat) = any_at (λ i p. not (i == seat) && is_active p) 0 s.players

-- The seat on turn in Bad Bargains has nobody to trade with.
unfoldable pub stranded : TextMatch → TextState → Bool
stranded m s = is_bad_bargains m.mode_id && not (recipient_exists s (current s))

-- Why the turn of a seat is passed over at once.
unfoldable pub skip_reason : TextMatch → TextState → ℕ → Option Reason
skip_reason m s seat =
    if not (player_at s seat).connected
    then some Reason.disconnect
    else if is_bad_bargains m.mode_id && not (recipient_exists s (some seat))
    then some Reason.no_recipient
    else none

abbrev pub discards : Reason → Bool
discards Reason.no_recipient = false
discards _ = true

-- A forced pass costs a random card of the hand, unless nobody could be offered one.
unfoldable pub discard : TextMatch → TextState → ℕ → Reason → ℕ → TextState
discard m s seat reason now =
    let hand = (player_at s seat).hand in
    let pick = m.rng.intn (u64 (m.seed + length s.history * 104729 + seat)) (length hand) in
    elim (get_elem? hand pick) [
      | none ↦ event s (some seat) EventKind.auto_pass_event reason now s.board.revision [] plain
      | some id ↦
          if discards reason
          then event
              (set_player (retire s id) seat (λ p. record p { hand = remove_copy p.hand id }))
              (some seat) EventKind.auto_pass_event reason now s.board.revision
              ((copy_at s id).card ∷ []) plain
          else event s (some seat) EventKind.auto_pass_event reason now s.board.revision [] plain
    ]

abbrev pub to_discussion : TextMatch → TextState → ℕ → TextState
to_discussion m s now =
    enter_phase (record s { turn = length s.order }) Phase.discussion now
      (m.timers.discussion_per_player * m.original_size)

abbrev pub to_play : TextMatch → TextState → ℕ → TextState
to_play m s now = enter_phase (record s { turn = s.turn + 1 }) Phase.play now m.timers.play_turn

abbrev pub skip_of : TextMatch → TextState → Option ℕ → Option (ℕ × Reason)
skip_of m s none = none
skip_of m s (some seat) = elim (skip_reason m s seat) [ none ↦ none | some r ↦ some (seat, r) ]

-- `nextTurn` calls `autoPass`, which calls it again for the turn after: at most once for each
-- seat left in the order, which is the fuel.
unfoldable pub next_turn_from : TextMatch → ℕ → ℕ → TextState → TextState
next_turn_from m now zero s = s
next_turn_from m now (suc fuel) s =
    if ltb s.turn (length s.order)
    then (elim (skip_of m (to_play m s now) (current (to_play m s now))) [
      | none ↦ to_play m s now
      | some (seat, r) ↦ next_turn_from m now fuel (discard m (to_play m s now) seat r now)
    ])
    else to_discussion m s now

unfoldable pub next_turn : TextMatch → TextState → ℕ → TextState
next_turn m s now = next_turn_from m now (suc (length s.order - s.turn)) s

unfoldable pub auto_pass : TextMatch → TextState → Reason → ℕ → TextState
auto_pass m s reason now = elim (current s) [
  | none ↦ s
  | some seat ↦ next_turn m (discard m s seat reason now) now
]
