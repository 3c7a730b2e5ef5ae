-- ===== src/Game/Census/Trades.antt =====
-- A trade exchanges two cards and loses none: resolveOffer of server/internal/game/text_actions.go.
use knowoff.Prelude.{
  ℕ, ◌+◌, ◌*◌, ◌≤◌, ◌≡◌, Option, some, List, [], ◌∷◌, ◌++◌, map, get_elem?, count, count-append,
  refl, arith,
}
use knowoff.Contract.{BoardCard, Card, PendingOffer, Reason, Resolution}
use knowoff.Game.State.{TextState, TextPlayer, copy_at}
use knowoff.Game.Turns.{set_player, set_copy, event, remove_copy, bump_revision}
use knowoff.Game.Offers.{settle_offer, exchange, put_in_place}
use knowoff.Game.Census.{census, board_ids, one_if, total-modify, count-remove_copy, count_one}

-- The offered card is in the proposer's hand, the requested card once on the board, and the registry
-- knows the offered card by its own id.
pub record InPlace (s : TextState) (o : PendingOffer) : Type 0 where
  pub proposer : TextPlayer
  pub seated : get_elem? s.players o.proposer_seat ≡ some proposer
  pub offered_held : 1 ≤ count o.offered_copy_id proposer.hand
  pub requested_once : count o.requested_copy_id (board_ids s.board.cards) ≡ 1
  pub registered : (copy_at s o.offered_copy_id).card.copy_id ≡ o.offered_copy_id

put_in_place-count :
    (id : ℕ) (o : PendingOffer) (c : Card) (cards : List BoardCard)
    → count id (board_ids (map (put_in_place o c) cards))
        + one_if o.requested_copy_id id * count o.requested_copy_id (board_ids cards)
      ≡ count id (board_ids cards)
        + one_if c.copy_id id * count o.requested_copy_id (board_ids cards)
unfolding put_in_place count
put_in_place-count id o c [] = ground arith
put_in_place-count id o c (b ∷ cards) = ground (arith, put_in_place-count id o c cards)

exchanged : PendingOffer → TextPlayer → TextPlayer
exchanged o p = record p { hand = remove_copy p.hand o.offered_copy_id ++ o.requested_copy_id ∷ [] }

exchange-census :
    (s : TextState) (o : PendingOffer) (id : ℕ)
    → InPlace s o
    → census (exchange s o) id ≡ census s id
unfolding exchange set_player exchanged
exchange-census s o id place =
    let c = (copy_at s o.offered_copy_id).card in
    let swapped = put_in_place-count id o c s.board.cards in
    let board : count id (board_ids (map (put_in_place o c) s.board.cards))
          + one_if o.requested_copy_id id
        ≡ count id (board_ids s.board.cards) + one_if o.offered_copy_id id =
      omega (arith, rw (place.requested_once, place.registered) at swapped) in
    omega (
      arith,
      total-modify id (exchanged o) s.players o.proposer_seat place.proposer place.seated,
      count-append id (remove_copy place.proposer.hand o.offered_copy_id)
          (o.requested_copy_id ∷ []),
      count-remove_copy place.proposer.hand o.offered_copy_id id place.offered_held,
      count_one id o.requested_copy_id,
      board,
    )

-- For an offer whose offered card is in the hand of the proposer, known by its own id, and whose
-- requested card is once on the board: however it is resolved, every card is as often in the hands,
-- in the reserves and on the board as before.
pub settle_offer-census :
    (s : TextState) (o : PendingOffer) (seat : Option ℕ) (resolution : Resolution) (reason : Reason)
    (now id : ℕ)
    → InPlace s o
    → census (settle_offer s o seat resolution reason now) id ≡ census s id
unfolding settle_offer event bump_revision set_copy
settle_offer-census s o seat Resolution.accept reason now id place = exchange-census s o id place
settle_offer-census s o seat Resolution.refuse reason now id place = refl
settle_offer-census s o seat Resolution.cancel reason now id place = refl
settle_offer-census s o seat Resolution.timed_out reason now id place = refl
