-- ===== src/Contract/Sequence/Examples.antt =====
-- Inputs at which the laws of the sequence checks are applied.
use knowoff.Prelude.{ℕ, true, ◌≡◌, ◌↔◌, none, [], ◌∷◌}
use knowoff.Contract.{ModeId, Phase, Action, ActionRequest}
use knowoff.Contract.Sequence.{
  Cursor, cursor_valid, check_next, ActionContext, check_action_context,
}
use knowoff.Contract.Sequence.Laws.{Follows, check_next-accepts}
use knowoff.Contract.Sequence.Contexts.{Timely, check_action_context-Timely}

abbrev cursor : ℕ → ℕ → Cursor
cursor recipient evidence = record {
  stream_epoch = 101 ∷ 49 ∷ [];
  recipient_seq = recipient;
  evidence_seq = evidence;
}

check_next-accepts_example : (check_next (cursor 4 2) (cursor 5 3) ≡ none) ↔ (
    (cursor_valid (cursor 4 2) ≡ true)
    × (cursor_valid (cursor 5 3) ≡ true)
    × Follows (cursor 4 2) (cursor 5 3))
check_next-accepts_example = check_next-accepts (cursor 4 2) (cursor 5 3)

abbrev request : ActionRequest
request = record {
  request_id = 7;
  match_id = 9;
  mode_id = ModeId.top_that;
  round = 1;
  turn = 2;
  phase = Phase.play;
  phase_id = 4;
  expected_board_revision = 3;
  action = Action.draw 1;
}

abbrev context : ActionContext
context = record {
  match_id = 9;
  mode_id = ModeId.top_that;
  round = 1;
  turn = 2;
  phase = Phase.play;
  phase_id = 4;
  board_revision = 3;
  deadline_ms = 31000;
  now_ms = 30999;
}

check_action_context-Timely_example :
    (check_action_context request context ≡ none) ↔ Timely request context
check_action_context-Timely_example = check_action_context-Timely request context
