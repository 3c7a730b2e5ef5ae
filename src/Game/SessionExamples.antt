-- ===== src/Game/SessionExamples.antt =====
-- Calls of one match, at which the laws of the session are applied.
use knowoff.Prelude.{
  ℕ, ◌<◌, true, false, ◌≡◌, Option, none, some, List, [], ◌∷◌, refl, arith, inr, modify,
}
use knowoff.Contract.{Action, ActionRequest, Phase}
use knowoff.Contract.Sequence.{
  check_action_context, check_request_budget, check_request_reuse, limits_valid,
}
use knowoff.Game.State.{TextState, TextPending, ok, err, GameError}
use knowoff.Game.Turns.{current, event, set_player}
use knowoff.Game.Endings.{absence_end, team_gone, low_population}
use knowoff.Game.Advance.{
  all_ready, advance, advance_loop, advance_in, record_absences, mark_absences, mark_absent,
  new_abandons, with_state,
}
use knowoff.Game.Advance.Bound.{Running, Live, Clocks}
use knowoff.Game.Actions.{act, say, set_ready}
use knowoff.Game.Actions.Order.{act-Live}
use knowoff.Game.Session.{
  Session, Candidate, TextHooks, ActionResult, new_pending, apply, apply_new, admit, find_request,
  persist, stored, add_record, request_candidate, duplicate_result,
}
use knowoff.Game.Session.Commands.{Command, SessionLive, run, run-SessionLive}
use knowoff.Game.Session.Retry.{accepting, retry-apply}
use knowoff.Game.Session.Repeats.{apply-again}
use knowoff.Game.Session.Admitted.{Admitted, apply-Admitted}
use knowoff.Game.Session.Errors.{Unharmed, apply-Unharmed}
use knowoff.Game.Examples.{sample_match, sample_state, sample_pending, sample_request}

abbrev accept_all : TextState → Option GameError
accept_all s = none

abbrev hash_of : ActionRequest → ℕ
hash_of r = r.request_id

abbrev failing : TextHooks
failing = record {
  abandon = λ e. false;
  award = λ e. false;
  settle = λ e. false;
  moderate = λ seat a. ok a;
}

abbrev working : TextHooks
working = accepting failing

abbrev start : Session
start = record { state = sample_state; pending = none }

-- Every award, abandonment and result is taken; `stored` refuses nothing here.
sample-Clocks : Clocks sample_match
sample-Clocks = record { turn = omega arith; runoff = omega arith }

sample_Running : Running sample_match sample_state
unfolding current
sample_Running = record {
  undecided = refl;
  votes_left = omega arith;
  begun = omega arith;
  schedule = refl;
  not_over = λ e. cc;
  seat_on_turn = λ e. (0, refl);
  offer_open = λ e. cc;
}

sample_SessionLive : SessionLive sample_match start
sample_SessionLive = record { committed = inr sample_Running; waiting = λ c e. cc }

abbrev sample_calls : List (TextHooks × Command)
sample_calls =
    (working, Command.request 0 sample_request 2000)
    ∷ (failing, Command.connection 0 false 3000)
    ∷ (working, Command.tick 90000)
    ∷ (working, Command.close 95000)
    ∷ []

run-SessionLive_example :
    SessionLive sample_match (run accept_all hash_of sample_match start sample_calls)
run-SessionLive_example =
    run-SessionLive accept_all hash_of sample_match start sample_calls sample-Clocks (omega arith)
      sample_SessionLive

abbrev told : TextPending
told = with_state (new_pending sample_state) (say sample_state 0 "fit" "" "en" 2000)

abbrev told_candidate : Candidate
told_candidate =
    request_candidate 0 sample_request 77 sample_state
      (add_record sample_match 0 sample_request 77 told)

abbrev told_session : Session
told_session = record { state = told_candidate.pending.state; pending = none }

abbrev told_result : ActionResult
told_result = record { duplicate = false; changed = true; public_events = told_candidate.events }

apply-again_example :
    apply accept_all hash_of sample_match failing told_session 0 sample_request 50000
    ≡ (told_session, ok duplicate_result)
unfolding apply apply_new admit find_request persist stored act say event check_action_context
    check_request_budget check_request_reuse limits_valid
apply-again_example =
    apply-again accept_all hash_of sample_match working start 0 sample_request 2000 failing
      told_session 50000 told_result refl refl

apply-Admitted_example :
    (0 < sample_match.original_size) × Admitted sample_match start.state 0 sample_request 2000
unfolding apply apply_new admit find_request persist stored act say event check_action_context
    check_request_budget check_request_reuse limits_valid
apply-Admitted_example =
    apply-Admitted accept_all hash_of sample_match working start told_session 0 sample_request 2000
      told_result refl refl refl

act-Live_example : Live sample_match (say sample_state 0 "fit" "" "en" 2000)
unfolding act
act-Live_example =
    act-Live sample_match sample-Clocks sample_pending told 0 (Action.chat "fit" "" "en") 2000
      (omega arith) (inr sample_Running) refl

-- In the discussion, a player whose grace has run out is to be recorded when another is ready.
abbrev talking : Session
talking = record {
  state =
      record (set_player sample_state 1
        (λ p. record p { connected = false; grace_deadline = 1500 })) { phase = Phase.discussion };
  pending = none;
}

abbrev ready_request : ActionRequest
ready_request = record sample_request { phase = Phase.discussion; action = Action.ready }

abbrev left_by : Option Candidate → Candidate
left_by none = told_candidate
left_by (some c) = c

abbrev ready_candidate : Candidate
ready_candidate =
    left_by (apply accept_all hash_of sample_match failing talking 0 ready_request 2000).0.pending

ready_left :
    (apply accept_all hash_of sample_match failing talking 0 ready_request 2000).0.pending
    ≡ some ready_candidate
unfolding apply apply_new admit find_request persist stored act set_ready event check_action_context
    check_request_budget check_request_reuse limits_valid set_player all_ready advance advance_loop
    advance_in record_absences mark_absences mark_absent new_abandons absence_end team_gone
    low_population modify
ready_left = refl

retry-apply_example :
    apply accept_all hash_of sample_match working
      (apply accept_all hash_of sample_match failing talking 0 ready_request 2000).0
      0
      ready_request
      70000
    ≡ apply accept_all hash_of sample_match working talking 0 ready_request 2000
retry-apply_example =
    retry-apply accept_all hash_of sample_match failing talking 0 ready_request 2000 ready_candidate
      refl 70000 ready_left

-- The call whose work cannot be stored: it fails, commits nothing, and keeps the candidate.
apply-Unharmed_example :
    Unharmed talking (apply accept_all hash_of sample_match failing talking 0 ready_request 2000)
apply-Unharmed_example =
    apply-Unharmed accept_all hash_of sample_match failing talking 0 ready_request 2000

ready_fails :
    (apply accept_all hash_of sample_match failing talking 0 ready_request 2000).1
    ≡ err GameError.persistence_failed
unfolding apply apply_new admit find_request persist stored act set_ready event check_action_context
    check_request_budget check_request_reuse limits_valid set_player all_ready advance advance_loop
    advance_in record_absences mark_absences mark_absent new_abandons absence_end team_gone
    low_population modify
ready_fails = refl
