-- ===== src/Game/Actions.antt =====
-- Player actions: `act` of server/internal/game/text_actions.go, with its cases as functions of
-- their own.
pub mod Stays
pub mod Order
use Prim.Native.String.{String}
use knowoff.Prelude.{
  ℕ, zero, suc, ◌+◌, ◌-◌, ◌*◌, Bool, true, false, ◌&&◌, ◌||◌, Option, none, some, List, [], ◌∷◌,
  ◌++◌, length, take, drop, min, not, any, ltb, leb, ◌==◌, if◌then◌else◌, get_elem?, elem, lookup,
  map,
}
use knowoff.Prelude.Int.{pos, ◌-ℤ◌}
use knowoff.Contract.{
  Phase, Action, Actor, Reason, EventKind, Resolution, BoardCard, PublicAction, PendingOffer, Card,
}
use knowoff.Game.State.{
  TextState, TextPlayer, TextCopy, TextMatch, TextPending, PokeGroup, PokeKey, Zone, Result, ok,
  err, GameError, copy_at, player_at, ◌>>=◌,
}
use knowoff.Game.Turns.{
  enter_phase, event, plain, current, set_player, set_copy, retire, bump_revision, next_turn, after,
}
use knowoff.Game.Offers.{owned, owned_by, is_board, spend, resolve_offer}
use knowoff.Game.Specialty.{is_specialty_action, specialty, on_turn, is_seat}
use knowoff.Game.Advance.{advance, with_state}
use knowoff.Game.Votes.{put, cast_vote, poke}

abbrev pub takes_ready : Phase → Bool
takes_ready Phase.discussion = true
takes_ready Phase.knowoff_ballot = true
takes_ready Phase.runoff = true
takes_ready Phase.result_window = true
takes_ready _ = false

unfoldable pub take_one : TextState → ℕ → ℕ → TextState
take_one s seat id =
    set_player (set_copy s id (record (copy_at s id) { zone = Zone.in_hand })) seat
      λ p. record p { hand = p.hand ++ id ∷ [] }

-- The first `count` cards of the reserve become cards of the hand.
unfoldable pub take_reserve : TextState → ℕ → List ℕ → TextState
take_reserve s seat [] = s
take_reserve s seat (id ∷ ids) = take_reserve (take_one s seat id) seat ids

abbrev pub pay_draw : TextMatch → ℕ → TextPlayer → TextPlayer
pay_draw m count p =
    let free = min count p.free_draws in
    record p {
      reserve = drop count p.reserve;
      free_draws = p.free_draws - free;
      points = p.points -ℤ pos ((count - free) * m.points.draw_penalty);
    }

unfoldable pub draw : TextMatch → TextState → ℕ → ℕ → ℕ → Result TextState
draw m s seat count now =
    let reserve = (player_at s seat).reserve in
    if ltb (length reserve) count
    then err GameError.invalid_action
    else ok (
        event (set_player (take_reserve s seat (take count reserve)) seat (pay_draw m count))
          (some seat) EventKind.draw_event Reason.player now s.board.revision []
          (λ e. record e { count = some count }))

abbrev append_board : TextState → BoardCard → TextState
append_board s b = record s { board = record s.board { cards = s.board.cards ++ b ∷ [] } }

abbrev board_card : Card → ℕ → Option ℕ → Option ℕ → BoardCard
board_card c seat rating slot = record {
  card = c;
  actor = Actor.at_seat seat;
  rating = rating;
  slot = slot;
  seat = none;
}

-- `respond` and `place`.
unfoldable pub put_down : TextState → ℕ → TextCopy → EventKind → Option ℕ → ℕ → TextState
put_down s seat c kind rating now =
    event (append_board (bump_revision (spend s seat c none)) (board_card c.card seat rating none))
      (some seat) kind Reason.player now s.board.revision (c.card ∷ [])
      (λ e. record e { rating = rating })

-- The last board card in the slot, with its index.
unfoldable pub find_slot : ℕ → ℕ → List BoardCard → Option (ℕ × BoardCard)
find_slot slot i [] = none
find_slot slot i (b ∷ bs) =
    let rest = find_slot slot (suc i) bs in
    elim rest [ some found ↦ some found | none ↦ if is_seat b.slot slot then some (i, b) else none ]

unfoldable pub set_at : List BoardCard → ℕ → BoardCard → List BoardCard
set_at [] i b = []
set_at (x ∷ xs) zero b = b ∷ xs
set_at (x ∷ xs) (suc i) b = x ∷ set_at xs i b

unfoldable pub replace_card : TextState → ℕ → TextCopy → ℕ → ℕ → Result TextState
replace_card s seat c slot now = elim (find_slot slot 0 s.board.cards) [
  | none ↦ err GameError.invalid_action
  | some (index, old) ↦
      let spent = spend (retire s old.card.copy_id) seat c none in
      ok (
        event
          (bump_revision (record spent {
            board = record s.board {
              cards = set_at s.board.cards index (board_card c.card seat none (some slot));
            };
          }))
          (some seat) EventKind.replace_event Reason.player now s.board.revision
          (c.card ∷ old.card ∷ []) (λ e. record e { slot = some slot }))
]

unfoldable pub last_card : List BoardCard → Option BoardCard
last_card [] = none
last_card (b ∷ []) = some b
last_card (b ∷ c ∷ bs) = last_card (c ∷ bs)

unfoldable pub top_card : TextState → ℕ → TextCopy → ℕ → ℕ → Result TextState
top_card s seat c target now = elim (last_card s.board.cards) [
  | none ↦ err GameError.stale_revision
  | some old ↦
      if old.card.copy_id == target
      then ok (
          event
            (bump_revision (append_board (spend s seat c none) (board_card c.card seat none none)))
            (some seat) EventKind.top_event Reason.player now s.board.revision
            (c.card ∷ old.card ∷ []) plain)
      else err GameError.stale_revision
]

unfoldable pub make_offer : TextMatch → TextState → ℕ → TextCopy → ℕ → TextCopy → ℕ → TextState
make_offer m s seat c target requested now =
    let held = bump_revision (
      set_copy (set_copy s c.card.copy_id (record c { reserved = true })) requested.card.copy_id
        (record requested { reserved = true })) in
    let o : PendingOffer = record {
      offer_id = length s.history + 1;
      proposer_seat = seat;
      recipient_seat = target;
      offered_copy_id = c.card.copy_id;
      requested_copy_id = requested.card.copy_id;
      board_revision = held.board.revision;
      deadline_ms = after now m.timers.trade_response;
    } in
    let told =
      event held (some seat) EventKind.offer_event Reason.player now s.board.revision
        (c.card ∷ requested.card ∷ [])
        (λ e. record e {
          offer_id = some o.offer_id;
          target_seat = some target;
          deadline_ms = some o.deadline_ms;
        }) in
    enter_phase (record told { pending_offer = some o }) Phase.trade_response now
      m.timers.trade_response

-- The requested copy must stand free on the board before the target.
unfoldable pub offer_for :
    TextMatch → TextState → ℕ → TextCopy → ℕ → Option TextCopy → ℕ → Result TextState
offer_for m s seat c target none now = err GameError.stale_revision
offer_for m s seat c target (some requested) now =
    if is_board requested.zone && (owned_by requested.owner target && not requested.reserved)
    then ok (make_offer m s seat c target requested now)
    else err GameError.stale_revision

unfoldable pub offer_trade : TextMatch → TextState → ℕ → TextCopy → ℕ → ℕ → ℕ → Result TextState
offer_trade m s seat c target target_copy now =
    if leb (length s.players) target
      || ((target == seat)
          || (not (player_at s target).connected || (player_at s target).eliminated))
    then err GameError.unauthorized
    else offer_for m s seat c target (lookup target_copy s.copies) now

abbrev pub played_copy : Action → Option ℕ
played_copy (Action.respond id) = some id
played_copy (Action.place id rating) = some id
played_copy (Action.replace id slot) = some id
played_copy (Action.offer id target copy) = some id
played_copy (Action.top id target) = some id
played_copy _ = none

abbrev pub then_next : TextMatch → ℕ → Result TextState → Result TextState
then_next m now r = r >>= λ s. ok (next_turn m s now)

-- A card of the hand is played.
unfoldable pub play_card : TextMatch → TextState → ℕ → TextCopy → Action → ℕ → Result TextState
play_card m s seat c (Action.respond id) now =
    then_next m now (ok (put_down s seat c EventKind.respond_event none now))
play_card m s seat c (Action.place id rating) now =
    then_next m now (ok (put_down s seat c EventKind.place_event (some rating) now))
play_card m s seat c (Action.replace id slot) now = then_next m now (replace_card s seat c slot now)
play_card m s seat c (Action.top id target) now = then_next m now (top_card s seat c target now)
play_card m s seat c (Action.offer id target target_copy) now =
    offer_trade m s seat c target target_copy now
play_card m s seat c _ now = err GameError.invalid_action

abbrev pub play_owned : TextMatch → TextState → ℕ → Option ℕ → Action → ℕ → Result TextState
play_owned m s seat none a now = err GameError.invalid_action
play_owned m s seat (some id) a now = owned s seat id >>= λ c. play_card m s seat c a now

abbrev pub on_turn_action : TextMatch → TextState → ℕ → Action → ℕ → Result TextState
on_turn_action m s seat (Action.draw count) now = draw m s seat count now
on_turn_action m s seat a now =
    if ltb 0 (player_at s seat).free_draws
    then err GameError.invalid_action
    else play_owned m s seat (played_copy a) a now

-- The actions that a seat takes on its own turn.
unfoldable pub turn_action : TextMatch → TextState → ℕ → Action → ℕ → Result TextState
turn_action m s seat a now =
    if on_turn s seat then on_turn_action m s seat a now else err GameError.unauthorized

abbrev pub resolution_of : Bool → Resolution
resolution_of true = Resolution.accept
resolution_of false = Resolution.refuse

unfoldable pub answer_offer : TextMatch → TextState → ℕ → ℕ → Bool → ℕ → Result TextState
answer_offer m s seat offer_id accepts now = elim s.pending_offer [
  | none ↦ err GameError.unauthorized
  | some o ↦
      if (o.offer_id == offer_id) && (o.recipient_seat == seat)
      then ok (resolve_offer m s (some seat) (resolution_of accepts) Reason.player now)
      else err GameError.unauthorized
]

unfoldable pub set_ready : TextMatch → TextPending → ℕ → ℕ → Result TextPending
set_ready m p seat now =
    if takes_ready p.state.phase
    then advance m
        (with_state p (
          event (record p.state { ready = put p.state.ready seat true }) (some seat)
            EventKind.ready_event Reason.player now p.state.board.revision [] plain))
        now
    else err GameError.invalid_action

unfoldable pub say : TextState → ℕ → String → String → String → ℕ → TextState
say s seat phrase text locale now =
    event s (some seat) EventKind.chat_event Reason.player now s.board.revision []
      λ e. record e { text = text; phrase_id = phrase; ui_locale = locale }

abbrev pub updated : TextPending → Result TextState → Result TextPending
updated p r = r >>= λ s. ok (with_state p s)

unfoldable pub act : TextMatch → TextPending → ℕ → Action → ℕ → Result TextPending
act m p seat (Action.resolve_offer id accepts) now =
    updated p (answer_offer m p.state seat id accepts now)
act m p seat Action.ready now = set_ready m p seat now
act m p seat (Action.vote target) now = updated p (cast_vote p.state seat target now)
act m p seat (Action.poke target) now = updated p (poke p.state seat target now)
act m p seat (Action.chat phrase text locale) now =
    updated p (ok (say p.state seat phrase text locale now))
act m p seat a now = updated p (
    if is_specialty_action a
    then specialty m p.state seat a now
    else turn_action m p.state seat a now)
