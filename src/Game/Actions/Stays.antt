-- ===== src/Game/Actions/Stays.antt =====
-- What the actions that move no turn leave alone.
use Prim.Native.String.{String}
use knowoff.Prelude.{ℕ, ◌≡◌, ◌≢◌, Option, List, [], ◌∷◌, take, sym, ◌∙◌, inl, inr, arith}
use knowoff.Contract.{Phase, EventKind}
use knowoff.Game.State.{TextState, TextCopy, TextMatch, ok, player_at}
use knowoff.Game.Turns.{current, event, set_player, set_copy, retire, bump_revision}
use knowoff.Game.Turns.Settles.{Keeps, Keeps-trans}
use knowoff.Game.Offers.{spend}
use knowoff.Game.Advance.Bound.{Running, Live}
use knowoff.Game.Specialty.{view_reveal, play_reveal, play_free_card}
use knowoff.Game.Actions.{take_one, take_reserve, draw, put_down, replace_card, top_card, say}
use knowoff.Game.Votes.{cast_vote, poke, poke_group, poke_in}

-- What most actions leave alone.
pub record Stays (s t : TextState) : Type 0 where
  pub keeps : Keeps s t
  pub phase : t.phase ≡ s.phase
  pub turn : t.turn ≡ s.turn
  pub order : t.order ≡ s.order
  pub pending_offer : t.pending_offer ≡ s.pending_offer

pub Stays-trans : {s t u : TextState} → Stays s t → Stays t u → Stays s u
Stays-trans a b = record {
  keeps = Keeps-trans a.keeps b.keeps;
  phase = b.phase ∙ a.phase;
  turn = b.turn ∙ a.turn;
  order = b.order ∙ a.order;
  pending_offer = b.pending_offer ∙ a.pending_offer;
}

pub current-Stays : {s t : TextState} → Stays s t → current t ≡ current s
unfolding current
current-Stays h = rw (h.turn, h.order)

pub Stays-Running : (m : TextMatch) (s t : TextState) → Running m s → Stays s t → Running m t
Stays-Running m s t run h = record {
  undecided = h.keeps.result ∙ run.undecided;
  votes_left = omega (arith, h.keeps.remaining_votes, run.votes_left);
  begun = omega (arith, h.keeps.round, run.begun);
  schedule = omega (arith, h.keeps.remaining_votes, h.keeps.round, run.schedule);
  not_over = λ e. run.not_over (sym h.phase ∙ e);
  seat_on_turn =
      λ e. let (seat, here) = run.seat_on_turn (sym h.phase ∙ e) in (seat, current-Stays h ∙ here);
  offer_open = λ e. let (o, here) = run.offer_open (sym h.phase ∙ e) in (o, h.pending_offer ∙ here);
}

pub Stays-Live : (m : TextMatch) (s t : TextState) → Live m s → Stays s t → Live m t
Stays-Live m s t (inl (r, e)) h = inl (r, h.keeps.result ∙ e)
Stays-Live m s t (inr run) h = inr (Stays-Running m s t run h)

-- A match that goes to a phase with no seat on turn, no open offer and no verdict.
pub talking-Live :
    (m : TextMatch) (s t : TextState)
    → Live m s
    → Keeps s t
    → t.phase ≢ Phase.verdict
    → t.phase ≢ Phase.play
    → t.phase ≢ Phase.trade_response
    → Live m t
talking-Live m s t (inl (r, e)) k no_verdict no_play no_trade = inl (r, k.result ∙ e)
talking-Live m s t (inr run) k no_verdict no_play no_trade = inr (record {
  undecided = k.result ∙ run.undecided;
  votes_left = omega (arith, k.remaining_votes, run.votes_left);
  begun = omega (arith, k.round, run.begun);
  schedule = omega (arith, k.remaining_votes, k.round, run.schedule);
  not_over = no_verdict;
  seat_on_turn = λ e. elim (no_play e) [ ];
  offer_open = λ e. elim (no_trade e) [ ];
})

pub cast_vote-Stays :
    (s t : TextState) (seat target now : ℕ) → cast_vote s seat target now ≡ ok t → Stays s t
unfolding cast_vote event
cast_vote-Stays s t seat target now h = ground arith

pub poke-Stays : (s t : TextState) (seat target now : ℕ) → poke s seat target now ≡ ok t → Stays s t
unfolding poke poke_group poke_in event set_player
poke-Stays s t seat target now h = ground arith

pub say-Stays :
    (s : TextState) (seat : ℕ) (phrase text locale : String) (now : ℕ)
    → Stays s (say s seat phrase text locale now)
unfolding say event
say-Stays s seat phrase text locale now = ground arith

pub take_one-Stays : (s : TextState) (seat id : ℕ) → Stays s (take_one s seat id)
unfolding take_one set_player set_copy
take_one-Stays s seat id = ground arith

pub Stays-refl : (s : TextState) → Stays s s
Stays-refl s = ground arith

pub take_reserve-Stays :
    (s : TextState) (seat : ℕ) (ids : List ℕ) → Stays s (take_reserve s seat ids)
unfolding take_reserve
take_reserve-Stays s seat [] = Stays-refl s
take_reserve-Stays s seat (id ∷ ids) =
    Stays-trans (take_one-Stays s seat id) (take_reserve-Stays (take_one s seat id) seat ids)

pub draw-Stays :
    (m : TextMatch) (s t : TextState) (seat count now : ℕ)
    → draw m s seat count now ≡ ok t
    → Stays s t
unfolding draw event set_player
draw-Stays m s t seat count now h =
    ground (arith, take_reserve-Stays s seat (take count (player_at s seat).reserve))

pub view_reveal-Stays :
    (m : TextMatch) (s t : TextState) (seat now : ℕ) → view_reveal m s seat now ≡ ok t → Stays s t
unfolding view_reveal set_player
view_reveal-Stays m s t seat now h = ground arith

pub play_reveal-Stays :
    (m : TextMatch) (s t : TextState) (seat target now : ℕ)
    → play_reveal m s seat target now ≡ ok t
    → Stays s t
unfolding play_reveal set_player event
play_reveal-Stays m s t seat target now h = ground arith

pub play_free_card-Stays :
    (s t : TextState) (seat now : ℕ) → play_free_card s seat now ≡ ok t → Stays s t
unfolding play_free_card set_player event
play_free_card-Stays s t seat now h = ground arith

pub put_down-Stays :
    (s : TextState) (seat : ℕ) (c : TextCopy) (kind : EventKind) (rating : Option ℕ) (now : ℕ)
    → Stays s (put_down s seat c kind rating now)
unfolding put_down spend set_player set_copy bump_revision event
put_down-Stays s seat c kind rating now = ground arith

pub replace_card-Stays :
    (s t : TextState) (seat : ℕ) (c : TextCopy) (slot now : ℕ)
    → replace_card s seat c slot now ≡ ok t
    → Stays s t
unfolding replace_card spend retire set_player set_copy bump_revision event
replace_card-Stays s t seat c slot now h = ground arith

pub top_card-Stays :
    (s t : TextState) (seat : ℕ) (c : TextCopy) (target now : ℕ)
    → top_card s seat c target now ≡ ok t
    → Stays s t
unfolding top_card spend set_player set_copy bump_revision event
top_card-Stays s t seat c target now h = ground arith
