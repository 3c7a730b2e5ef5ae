-- ===== src/Game/Examples.antt =====
-- A match of four in its first turn, and the laws of the match applied to it.
use Prim.Native.String.{String}
use knowoff.Prelude.{ℕ, true, false, none, some, [], ◌∷◌}
use knowoff.Prelude.Int.{pos}
use knowoff.Contract.{ModeId, Phase, Card, Role, SpecialtyId, Action, ActionRequest, Limits}
use knowoff.Game.State.{TextState, TextPlayer, TextCopy, TextMatch, TextPending, TimersTuning, Zone}

abbrev timers : TimersTuning
timers = record {
  round_start_countdown = 3;
  play_turn = 30;
  trade_response = 15;
  discussion_per_player = 20;
  knowoff_ballot_s = 30;
  knowoff_runoff = 20;
  vote_result_window = 8;
  vote_result_falling = 3;
  reveal_view = 10;
  reveal_lockout = 5;
  shuffle_bonus_seconds = 10;
}

abbrev limits : Limits
limits = record {
  max_frame_bytes = 65536;
  max_history_events = 2000;
  max_history_page_events = 100;
  max_text_bytes = 400;
  max_requests_per_seat = 300;
}

abbrev card : ℕ → String → Card
card id text = record {
  copy_id = id;
  content = record { content_id = text; revision = 1; text = text };
}

abbrev pub sample_match : TextMatch
sample_match = record {
  mode_id = ModeId.missed_the_briefing;
  original_size = 4;
  rewards = true;
  timers = timers;
  points = record { draw_penalty = 1; correct_vote = 2; nower_win_bonus = 3; donower_team_win = 4 };
  noin = record { correct_vote = 5; donower_vote_survived = 6 };
  grace_ms = 60000;
  penalize_abandon = true;
  seed = 7;
  rng = record { shuffled = λ seed xs. xs; intn = λ seed n. 0 };
  seeds = [] ∷ [] ∷ [];
  nowns = [];
  initial_copies = 4;
  all_copies =
      (10, card 10 "ice") ∷ (11, card 11 "tea") ∷ (12, card 12 "map") ∷ (13, card 13 "owl") ∷ [];
  match_id = 9;
  limits = limits;
  projected_bytes = λ s seat now. 100;
}

abbrev player : Role → ℕ → TextPlayer
player role id = record {
  specialty = SpecialtyId.no_card;
  free_draws = 0;
  reveal_until = 0;
  reveal_used = false;
  role = role;
  connected = true;
  eliminated = false;
  absent = false;
  grace_deadline = 0;
  abandon_recorded = false;
  points_before_result = pos 0;
  hand = id ∷ [];
  reserve = [];
  points = pos 0;
  correct_votes = 0;
  votes_cast = 0;
  survivals = 0;
  pokes = 0;
}

abbrev copy : ℕ → String → ℕ → ℕ × TextCopy
copy id text seat =
    (id, record { card = card id text; zone = Zone.in_hand; owner = some seat; reserved = false })

abbrev pub sample_state : TextState
sample_state = record {
  reveal_cards = none;
  reveal_target = none;
  shuffle_used = false;
  revote_used = false;
  round = 1;
  turn = 1;
  phase = Phase.play;
  phase_id = 2;
  phase_serial = 2;
  deadline = 31000;
  result_reveal_at = 0;
  result_revealed = false;
  board = record { mode_id = ModeId.missed_the_briefing; revision = 1; cards = [] };
  players =
      player Role.nower 10
      ∷ player Role.nower 11
      ∷ player Role.donower 12
      ∷ player Role.donower 13
      ∷ [];
  copies = copy 10 "ice" 0 ∷ copy 11 "tea" 1 ∷ copy 12 "map" 2 ∷ copy 13 "owl" 3 ∷ [];
  order = 0 ∷ 1 ∷ 2 ∷ 3 ∷ [];
  remaining_votes = 2;
  ready = λ seat. false;
  poked = [];
  votes = λ seat. none;
  ballot_kind = none;
  candidates = [];
  ballot_result = none;
  pending_offer = none;
  history = [];
  requests = [];
  result = none;
}

abbrev pub sample_pending : TextPending
sample_pending = record { state = sample_state; awards = []; abandons = []; settled = none }

abbrev pub sample_request : ActionRequest
sample_request = record {
  request_id = 77;
  match_id = 9;
  mode_id = ModeId.missed_the_briefing;
  round = 1;
  turn = 1;
  phase = Phase.play;
  phase_id = 2;
  expected_board_revision = 1;
  action = Action.chat "fit" "" "en";
}
