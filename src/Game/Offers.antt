-- ===== src/Game/Offers.antt =====
-- Trades of Bad Bargains: `owned`, `spend` and `resolveOffer` of
-- server/internal/game/text_actions.go.
pub mod Settles
use knowoff.Prelude.{
  ℕ, ◌+◌, Bool, true, false, Option, none, some, List, [], ◌∷◌, ◌++◌, ◌&&◌, ◌||◌, map, not, ◌==◌,
  if◌then◌else◌, lookup,
}
use knowoff.Contract.{
  Card, Reason, EventKind, Resolution, BoardCard, PublicAction, PendingOffer, Actor,
}
use knowoff.Game.State.{
  TextState, TextPlayer, TextCopy, TextMatch, Zone, Result, ok, err, GameError, copy_at,
}
use knowoff.Game.Turns.{event, set_copy, set_player, remove_copy, bump_revision, next_turn}

abbrev pub is_hand : Zone → Bool
is_hand Zone.in_hand = true
is_hand _ = false

abbrev pub is_board : Zone → Bool
is_board Zone.on_board = true
is_board _ = false

abbrev pub owned_by : Option ℕ → ℕ → Bool
owned_by none seat = false
owned_by (some owner) seat = owner == seat

-- The copy, if it is a free card of that hand.
unfoldable pub owned : TextState → ℕ → ℕ → Result TextCopy
owned s seat id = elim (lookup id s.copies) [
  | none ↦ err GameError.unauthorized
  | some c ↦
      if is_hand c.zone && (owned_by c.owner seat && not c.reserved)
      then ok c
      else err GameError.unauthorized
]

-- A card of the hand goes to the board.
unfoldable pub spend : TextState → ℕ → TextCopy → Option ℕ → TextState
spend s seat c owner =
    set_copy (set_player s seat (λ p. record p { hand = remove_copy p.hand c.card.copy_id }))
      c.card.copy_id (record c { zone = Zone.on_board; owner = owner })

abbrev is_accept : Resolution → Bool
is_accept Resolution.accept = true
is_accept _ = false

-- The requested card's place on the board is taken by the offered card.
unfoldable pub put_in_place : PendingOffer → Card → BoardCard → BoardCard
put_in_place o offered b =
    if b.card.copy_id == o.requested_copy_id
    then record {
      card = offered;
      actor = Actor.at_seat o.proposer_seat;
      rating = none;
      slot = none;
      seat = some o.recipient_seat;
    }
    else b

-- What an accepted trade changes besides the registry: the proposer's hand and the board.
unfoldable pub exchange : TextState → PendingOffer → TextState
exchange s o =
    record (set_player s o.proposer_seat
      λ p. record p { hand = remove_copy p.hand o.offered_copy_id ++ o.requested_copy_id ∷ [] }) {
        board = record s.board {
          cards = map (put_in_place o (copy_at s o.offered_copy_id).card) s.board.cards;
        };
      }

abbrev moved : Bool → TextCopy → Zone → ℕ → TextCopy
moved true c zone owner = record c { zone = zone; owner = some owner; reserved = false }
moved false c zone owner = record c { reserved = false }

-- The trade itself, up to its event.
unfoldable pub settle_offer :
    TextState → PendingOffer → Option ℕ → Resolution → Reason → ℕ → TextState
settle_offer s o seat resolution reason now =
    let accepted = is_accept resolution in
    let offered = copy_at s o.offered_copy_id in
    let requested = copy_at s o.requested_copy_id in
    let traded = if accepted then exchange s o else s in
    let stored =
      set_copy
        (set_copy traded o.offered_copy_id (moved accepted offered Zone.on_board o.recipient_seat))
        o.requested_copy_id (moved accepted requested Zone.in_hand o.proposer_seat) in
    let told =
      event (bump_revision stored) seat EventKind.resolve_offer_event reason now s.board.revision
        (offered.card ∷ requested.card ∷ [])
        (λ e. record e { offer_id = some o.offer_id; resolution = some resolution }) in
    record told { pending_offer = none }

abbrev pub is_forced : Reason → Bool
is_forced Reason.forced_transition = true
is_forced _ = false

unfoldable pub resolve_offer :
    TextMatch → TextState → Option ℕ → Resolution → Reason → ℕ → TextState
resolve_offer m s seat resolution reason now = elim s.pending_offer [
  | none ↦ s
  | some o ↦
      if is_forced reason
      then settle_offer s o seat resolution reason now
      else next_turn m (settle_offer s o seat resolution reason now) now
]

abbrev pub cancel_offer : TextMatch → TextState → ℕ → TextState
cancel_offer m s now = resolve_offer m s none Resolution.cancel Reason.forced_transition now
