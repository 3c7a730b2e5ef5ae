-- ===== src/Game/Census/Examples.antt =====
-- Cards on the move, at which the laws of the census are applied.
use knowoff.Prelude.{◌≡◌, none, some, [], ◌∷◌, get_elem?, count, modify, lookup, refl, arith}
use knowoff.Contract.{Actor, PendingOffer, Reason, Resolution}
use knowoff.Game.State.{TextState, TextPlayer, Result, ok, err, copy_at, player_at}
use knowoff.Game.Turns.{event, set_copy, set_player}
use knowoff.Game.Offers.{settle_offer}
use knowoff.Game.Actions.{draw, take_reserve, take_one}
use knowoff.Game.Census.{census}
use knowoff.Game.Census.Draws.{draw-census}
use knowoff.Game.Census.Trades.{InPlace, settle_offer-census}
use knowoff.Game.Examples.{sample_match, sample_state}

-- The first player has two cards in the reserve.
abbrev stocked : TextState
stocked = set_player sample_state 0 (λ p. record p { reserve = 20 ∷ 21 ∷ [] })

abbrev stocked_player : TextPlayer
stocked_player = player_at stocked 0

abbrev state_of : Result TextState → TextState
state_of (ok s) = s
state_of (err e) = sample_state

abbrev drawn : TextState
drawn = state_of (draw sample_match stocked 0 1 2000)

stocked_first : get_elem? stocked.players 0 ≡ some stocked_player
unfolding set_player modify
stocked_first = refl

drawn_ok : draw sample_match stocked 0 1 2000 ≡ ok drawn
unfolding draw set_player modify event take_reserve take_one set_copy
drawn_ok = refl

draw-census_example : census drawn 20 ≡ census stocked 20
draw-census_example =
    draw-census 0 20 sample_match stocked drawn stocked_player 1 2000 stocked_first drawn_ok

-- The second player's card lies on the board, and the first player offers one for it.
abbrev trading : TextState
trading = record sample_state {
  board = record sample_state.board {
    cards =
        record {
          card = (copy_at sample_state 11).card;
          actor = Actor.system;
          rating = none;
          slot = none;
          seat = some 1;
        }
        ∷ [];
  };
}

abbrev offer : PendingOffer
offer = record {
  offer_id = 1;
  proposer_seat = 0;
  recipient_seat = 1;
  offered_copy_id = 10;
  requested_copy_id = 11;
  board_revision = 1;
  deadline_ms = 16000;
}

trading-InPlace : InPlace trading offer
unfolding count copy_at lookup
trading-InPlace = record {
  proposer = player_at sample_state 0;
  seated = refl;
  offered_held = omega arith;
  requested_once = refl;
  registered = refl;
}

settle_offer-census_example :
    census (settle_offer trading offer (some 1) Resolution.accept Reason.player 2000) 10
    ≡ census trading 10
settle_offer-census_example =
    settle_offer-census trading offer (some 1) Resolution.accept Reason.player 2000 10
      trading-InPlace
