-- ===== src/Game/Specialty.antt =====
-- Specialty cards: server/internal/game/text_specialty.go.
pub mod Order
use knowoff.Prelude.{
  ℕ, zero, suc, ◌+◌, ◌-◌, ◌*◌, ◌%◌, Bool, true, false, ◌&&◌, ◌||◌, Option, none, some, List, [],
  ◌∷◌, ◌++◌, length, get_or, map, not, ltb, leb, ◌==◌, if◌then◌else◌, seats_where, count_if,
}
use knowoff.Contract.{
  ModeId, Phase, Card, Role, Action, Actor, Reason, EventKind, Resolution, SpecialtyId, RevealView,
  BoardCard, PublicAction, u64,
}
use knowoff.Game.State.{
  TextState, TextPlayer, TextMatch, TextCopy, Zone, Result, ok, err, GameError, copy_at, player_at,
  is_donower, is_nower, ◌>>=◌,
}
use knowoff.Game.Turns.{
  enter_phase, event, plain, current, set_player, set_copy, bump_revision, next_turn, after,
}
use knowoff.Game.Rounds.{slot_of, seat_of}
use knowoff.Game.Offers.{cancel_offer}

abbrev pub is_specialty_action : Action → Bool
is_specialty_action Action.pass = true
is_specialty_action (Action.reveal t) = true
is_specialty_action Action.free_card = true
is_specialty_action Action.shuffle = true
is_specialty_action Action.revote = true
is_specialty_action Action.view_reveal = true
is_specialty_action _ = false

-- Does the seat hold the card that the action plays?
abbrev pub holds : SpecialtyId → Action → Bool
holds SpecialtyId.pass_card Action.pass = true
holds SpecialtyId.reveal_card (Action.reveal t) = true
holds SpecialtyId.free_card_card Action.free_card = true
holds SpecialtyId.shuffle_card Action.shuffle = true
holds SpecialtyId.revote_card Action.revote = true
holds _ _ = false

abbrev pub specialty_timer : ℕ → ℕ → ℕ
specialty_timer configured fallback = if ltb 0 configured then configured else fallback

abbrev pub is_play : Phase → Bool
is_play Phase.play = true
is_play _ = false

abbrev pub is_seat : Option ℕ → ℕ → Bool
is_seat none seat = false
is_seat (some k) seat = k == seat

-- The turn of that seat in the play phase.
abbrev pub on_turn : TextState → ℕ → Bool
on_turn s seat = is_play s.phase && is_seat (current s) seat

abbrev pub drop_card : TextPlayer → TextPlayer
drop_card p = record p { specialty = SpecialtyId.no_card }

unfoldable pub not_eliminated : TextState → List ℕ
not_eliminated s = seats_where (λ i p. not p.eliminated) 0 s.players

abbrev target_gone : TextState → Option ℕ → Bool
target_gone s none = true
target_gone s (some t) = (player_at s t).eliminated

unfoldable pub view_reveal : TextMatch → TextState → ℕ → ℕ → Result TextState
view_reveal m s seat now =
    if target_gone s s.reveal_target || (player_at s seat).reveal_used
    then err GameError.unauthorized
    else (let viewed = set_player s seat λ p. record p {
      reveal_used = true;
      reveal_until = after now (specialty_timer m.timers.reveal_view 3);
    } in
        if ltb m.limits.max_frame_bytes (m.projected_bytes viewed seat now + 128)
        then err GameError.frame_too_large
        else ok viewed)

-- The hands of the players still in, in seat order, and then the board.
unfoldable pub hands_of : List TextPlayer → List ℕ
hands_of [] = []
hands_of (p ∷ ps) = (if p.eliminated then [] else p.hand) ++ hands_of ps

abbrev copy_of : BoardCard → ℕ
copy_of b = b.card.copy_id

abbrev pub take_hand : TextPlayer → TextPlayer
take_hand p = if p.eliminated then p else record p { hand = [] }

unfoldable pub shuffle_count : ModeId → TextState → ℕ
shuffle_count ModeId.make_room s = 3
shuffle_count ModeId.top_that s = 1
shuffle_count ModeId.bad_bargains s = count_if (λ p. not p.eliminated) s.players
shuffle_count _ s = 0

abbrev board_seat : ModeId → List ℕ → ℕ → Option ℕ
board_seat ModeId.bad_bargains active i = some (get_or active i 0)
board_seat _ active i = none

-- The first `count` cards of the pool go to the board, the others round the table.
unfoldable pub redeal_card :
    TextMatch → List ℕ → ℕ → ℕ → TextState × List Card → ℕ → TextState × List Card
redeal_card m active count i (s, cards) id =
    let c = copy_at s id in
    if ltb i count
    then (
      record (set_copy s id (record c {
        zone = Zone.on_board;
        owner = board_seat m.mode_id active i;
        reserved = false;
      })) {
        board = record s.board {
          cards =
              s.board.cards
              ++ record {
                card = c.card;
                actor = Actor.system;
                rating = none;
                slot = slot_of m.mode_id i;
                seat = board_seat m.mode_id active i;
              }
                ∷ [];
        };
      },
      cards ++ c.card ∷ [],
    )
    else (let owner = get_or active ((i - count) % length active) 0 in
        (
          set_copy (set_player s owner (λ p. record p { hand = p.hand ++ id ∷ [] })) id
              (record c { zone = Zone.in_hand; owner = some owner; reserved = false }),
          cards,
        ))

unfoldable pub redeal :
    TextMatch → List ℕ → ℕ → ℕ → TextState × List Card → List ℕ → TextState × List Card
redeal m active count i dealt [] = dealt
redeal m active count i dealt (id ∷ pool) =
    redeal m active count (suc i) (redeal_card m active count i dealt id) pool

abbrev pub add_bonus : TextMatch → TextState → TextState
add_bonus m s =
    if is_play s.phase
    then record s {
      deadline = s.deadline + specialty_timer m.timers.shuffle_bonus_seconds 10 * 1000;
    }
    else s

unfoldable pub shuffle_pool : TextMatch → TextState → List ℕ
shuffle_pool m s =
    m.rng.shuffled (u64 (m.seed + length s.history * 32452843))
      (hands_of s.players ++ map copy_of s.board.cards)

-- The table after the shuffle, before its first turn.
unfoldable pub reshuffled : TextMatch → TextState → ℕ → TextState
reshuffled m s now =
    let cleared = record s {
      players = map take_hand s.players;
      board = record (bump_revision s).board { cards = [] };
    } in
    let dealt =
      redeal m (not_eliminated s) (shuffle_count m.mode_id s) 0 (cleared, []) (shuffle_pool m s) in
    record (event dealt.0 none EventKind.shuffle_event Reason.player now s.board.revision dealt.1
      plain) { turn = 0 }

unfoldable pub shuffle_specialty : TextMatch → TextState → ℕ → Result TextState
shuffle_specialty m s now =
    if ltb (length (shuffle_pool m s)) (shuffle_count m.mode_id s)
    then err GameError.invalid_action
    else ok (add_bonus m (next_turn m (reshuffled m s now) now))

unfoldable pub play_shuffle : TextMatch → TextState → ℕ → ℕ → Result TextState
play_shuffle m s seat now =
    if is_nower (player_at s seat).role || s.shuffle_used
    then err GameError.unauthorized
    else shuffle_specialty m
        (record (set_player (cancel_offer m s now) seat drop_card) { shuffle_used = true }) now

unfoldable pub play_revote : TextMatch → TextState → ℕ → ℕ → Result TextState
play_revote m s seat now =
    if is_donower (player_at s seat).role || s.revote_used
    then err GameError.unauthorized
    else (let told =
          event (record (set_player s seat drop_card) { revote_used = true }) (some seat)
            EventKind.revote_event Reason.player now s.board.revision [] plain in
        ok (
          enter_phase
            (record told {
              votes = λ k. none;
              candidates = not_eliminated s;
              ballot_result = none;
              ballot_kind = some Phase.knowoff_ballot;
            })
            Phase.knowoff_ballot now m.timers.knowoff_ballot_s))

abbrev cards_of : TextState → List ℕ → List Card
cards_of s ids = map (λ id. (copy_at s id).card) ids

abbrev hide_reveal : TextPlayer → TextPlayer
hide_reveal p = record p { reveal_used = false; reveal_until = 0 }

unfoldable pub play_reveal : TextMatch → TextState → ℕ → ℕ → ℕ → Result TextState
play_reveal m s seat target now =
    if leb (length s.players) target
      || ((target == seat)
          || ((player_at s target).eliminated
              || leb (s.deadline - now) (specialty_timer m.timers.reveal_lockout 5 * 1000)))
    then err GameError.unauthorized
    else (let spent = set_player s seat drop_card in
        let view : RevealView = record {
          target_seat = target;
          hand = cards_of spent (player_at spent target).hand;
          reserve = cards_of spent (player_at spent target).reserve;
          specialty = (player_at spent target).specialty;
        } in
        ok (
          event
            (record spent {
              players = map hide_reveal spent.players;
              reveal_target = some target;
              reveal_cards = some view;
            })
            (some seat) EventKind.reveal_event Reason.player now s.board.revision []
            (λ e. record e { target_seat = some target })))

abbrev is_empty : List ℕ → Bool
is_empty [] = true
is_empty (x ∷ xs) = false

unfoldable pub play_free_card : TextState → ℕ → ℕ → Result TextState
play_free_card s seat now =
    if is_empty (player_at s seat).reserve || ltb 0 (player_at s seat).free_draws
    then err GameError.invalid_action
    else ok (
        event (set_player s seat (λ p. record (drop_card p) { free_draws = 1 })) (some seat)
          EventKind.free_card_event Reason.player now s.board.revision [] plain)

unfoldable pub play_pass : TextMatch → TextState → ℕ → ℕ → TextState
play_pass m s seat now =
    next_turn m
      (event (set_player s seat drop_card) (some seat) EventKind.pass_event Reason.player now
        s.board.revision [] plain)
      now

-- The cards that want the seat's own turn; the guard is the caller's.
unfoldable pub turn_specialty : TextMatch → TextState → ℕ → Action → ℕ → Result TextState
turn_specialty m s seat Action.pass now = ok (play_pass m s seat now)
turn_specialty m s seat (Action.reveal target) now = play_reveal m s seat target now
turn_specialty m s seat Action.free_card now = play_free_card s seat now
turn_specialty m s seat _ now = err GameError.invalid_action

abbrev pub held_specialty : TextMatch → TextState → ℕ → Action → ℕ → Result TextState
held_specialty m s seat Action.shuffle now = play_shuffle m s seat now
held_specialty m s seat Action.revote now = play_revote m s seat now
held_specialty m s seat a now =
    if on_turn s seat then turn_specialty m s seat a now else err GameError.unauthorized

unfoldable pub specialty : TextMatch → TextState → ℕ → Action → ℕ → Result TextState
specialty m s seat Action.view_reveal now = view_reveal m s seat now
specialty m s seat a now =
    if holds (player_at s seat).specialty a
    then held_specialty m s seat a now
    else err GameError.unauthorized
