-- ===== src/Game/Rounds.antt =====
-- How a round begins: beginRound of server/internal/game/text_actions.go.
use Prim.Native.String.{String}
use text.Mathlib.Text.{◌==◌ as str_eq}
use knowoff.Prelude.{
  ℕ, ◌+◌, ◌-◌, ◌*◌, false, ◌&&◌, Option, none, some, List, [], ◌∷◌, ◌++◌, length, get_elem?, not,
  any, seats_where, ◌==◌, if◌then◌else◌, map,
}
use knowoff.Contract.{ModeId, Phase, Card, Actor, Reason, EventKind, BoardCard, u64}
use knowoff.Game.State.{
  TextState, TextPlayer, TextMatch, Zone, Result, ok, err, GameError, player_at, is_bad_bargains,
  ◌>>=◌,
}
use knowoff.Game.Turns.{enter_phase, event, plain, set_copy, retire, bump_revision}

unfoldable pub retire_board : TextState → List BoardCard → TextState
retire_board s [] = s
retire_board s (b ∷ bs) = retire_board (retire s b.card.copy_id) bs

-- The seeds that a round of each mode needs.
unfoldable pub seed_budget : ModeId → ℕ → ℕ
seed_budget ModeId.make_room size = 3
seed_budget ModeId.bad_bargains size = size
seed_budget ModeId.top_that size = 1
seed_budget _ size = 0

abbrev pub slot_of : ModeId → ℕ → Option ℕ
slot_of ModeId.make_room i = some i
slot_of _ i = none

abbrev pub seat_of : ModeId → ℕ → Option ℕ
seat_of ModeId.bad_bargains i = some i
seat_of _ i = none

-- A card that the system puts on the board.
unfoldable pub deal_to_board : TextMatch → TextState → ℕ → Card → TextState
deal_to_board m s i c =
    let placed =
      set_copy s c.copy_id (record {
        card = c;
        zone = Zone.on_board;
        owner = seat_of m.mode_id i;
        reserved = false;
      }) in
    record placed {
      board = record s.board {
        cards =
            s.board.cards
            ++ record {
              card = c;
              actor = Actor.system;
              rating = none;
              slot = slot_of m.mode_id i;
              seat = seat_of m.mode_id i;
            }
              ∷ [];
      };
    }

-- The loop over the seeds of a round, with the texts seen and the cards dealt so far.
unfoldable pub deal_seeds :
    TextMatch → TextState → ℕ → List String → List Card → List Card → Result (TextState × List Card)
deal_seeds m s i texts emitted [] = ok (s, emitted)
deal_seeds m s i texts emitted (c ∷ seeds) =
    let skip = is_bad_bargains m.mode_id && (player_at s i).eliminated in
    let rest =
      deal_seeds m (if skip then s else deal_to_board m s i c) (i + 1) (c.content.text ∷ texts)
        (if skip then emitted else emitted ++ c ∷ []) seeds in
    if any (str_eq c.content.text) texts then err GameError.seed_text else rest

abbrev pub clear_player : TextPlayer → TextPlayer
clear_player p = record p { free_draws = 0; reveal_until = 0; reveal_used = false }

-- Everything that a round starts afresh, the turn order last.
unfoldable pub clear_round : TextMatch → TextState → TextState
clear_round m s =
    let retired = retire_board s s.board.cards in
    record retired {
      reveal_target = none;
      reveal_cards = none;
      players = map clear_player s.players;
      board = record s.board { cards = [] };
      turn = 0;
      votes = λ seat. none;
      candidates = [];
      ballot_result = none;
      ballot_kind = none;
      poked = [];
      order =
          m.rng.shuffled (u64 (m.seed + s.round * 7919))
            (seats_where (λ i p. not p.eliminated) 0 s.players);
    }

abbrev pub emit_seeds : ℕ → ℕ → TextState × List Card → TextState
emit_seeds now before (s, []) = s
emit_seeds now before (s, c ∷ cards) =
    event s none EventKind.seed_event Reason.seed_reason now before (c ∷ cards) plain

abbrev pub deal_round : TextMatch → ℕ → TextState → Option (List Card) → Result TextState
deal_round m now s none = err GameError.index_panic
deal_round m now s (some seeds) =
    if length seeds == seed_budget m.mode_id m.original_size
    then (deal_seeds m (bump_revision s) 0 [] [] seeds >>= λ dealt.
        ok (emit_seeds now s.board.revision dealt))
    else err GameError.seed_budget

unfoldable pub begin_round : TextMatch → TextState → ℕ → Result TextState
begin_round m s now =
    deal_round m now
      (enter_phase (clear_round m s) Phase.round_start now m.timers.round_start_countdown)
      (get_elem? m.seeds (s.round - 1))
