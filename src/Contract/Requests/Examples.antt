-- ===== src/Contract/Requests/Examples.antt =====
-- Requests in order and out of it.
use knowoff.Prelude.{◌≡◌, ◌↔◌, refl, true, none, some}
use knowoff.Prelude.Int.{pos}
use knowoff.Contract.{ModeId, Phase, Action, ActionRequest, Limits, ErrorCode}
use knowoff.Contract.Requests.{request_error, permitted}
use knowoff.Contract.Requests.Forms.{raw_request, raw_action, RequestFits}
use knowoff.Contract.Requests.Exact.{request_error-exact}

abbrev limits : Limits
limits = record {
  max_frame_bytes = 65536;
  max_history_events = 2000;
  max_history_page_events = 100;
  max_text_bytes = 400;
  max_requests_per_seat = 300;
}

-- Seat 2 is to trade copy 31 for copy 40.
abbrev trade : ActionRequest
trade = record {
  request_id = 5;
  match_id = 9;
  mode_id = ModeId.bad_bargains;
  round = 2;
  turn = 3;
  phase = Phase.play;
  phase_id = 17;
  expected_board_revision = 12;
  action = Action.offer 31 2 40;
}

trade_passes : request_error (λ tag. true) (raw_request trade) limits ≡ none
unfolding request_error raw_action permitted
trade_passes = refl

-- A rating that no offer has, and a turn that has not begun.
rated_trade_fails :
    request_error
      (λ tag. true)
      (record (raw_request trade) {
        action = record (raw_action trade.action) { rating = some (pos 3) };
      })
      limits
    ≡ some ErrorCode.invalid_action
unfolding request_error raw_action permitted
rated_trade_fails = refl

early_trade_fails :
    request_error (λ tag. true) (record (raw_request trade) { turn = pos 0 }) limits
    ≡ some ErrorCode.invalid_action
unfolding request_error raw_action permitted
early_trade_fails = refl

request_error-exact_example : (request_error (λ tag. true) (raw_request trade) limits ≡ none) ↔ (
    (q : ActionRequest) × (raw_request trade ≡ raw_request q) × RequestFits (λ tag. true) limits q)
request_error-exact_example = request_error-exact (λ tag. true) limits (raw_request trade)
