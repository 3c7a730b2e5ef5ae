-- ===== src/Game/Session.antt =====
-- The committed match and its candidates: Apply of server/internal/game/text_match.go, over the
-- storing of Game/Session/Store. The hooks are the outside world: each answers whether it
-- stored its event. `state_check` stands for validateState, the `validate_state` of Game/Conservation:
-- whatever it refuses, the theorems hold.
mod Store
pub mod Order
pub mod Commands
pub mod Repeats
pub mod Errors
pub mod Retry
pub mod Admitted
unfoldable pub use Store.{stored, persist, system_from, system}
pub use Store.{
  new_pending, Candidate, Session, TextHooks, ActionResult, settles, unless, checked, commit,
  system_candidate, after_flush, system_waiting, advance_session, connect_session, close_session,
}
use knowoff.Prelude.{
  ℕ, Bool, true, false, ◌&&◌, ◌||◌, Option, none, some, List, [], ◌∷◌, length, not, leb, ◌==◌,
  if◌then◌else◌, count_if, drop,
}
use knowoff.Contract.{Action, ActionRequest, RequestRecord, ErrorCode}
use knowoff.Contract.Sequence.{
  Reuse, ActionContext, check_action_context, check_request_budget, check_request_reuse,
}
use knowoff.Game.State.{
  TextState, TextMatch, TextPending, Result, ok, err, GameError, player_at, ◌>>=◌,
}
use knowoff.Game.Advance.{with_state}
use knowoff.Game.Actions.{act}

-- The record of the request with this id of this seat.
unfoldable pub find_request : List RequestRecord → ℕ → ℕ → Option RequestRecord
find_request [] seat request_id = none
find_request (r ∷ rs) seat request_id =
    let rest = find_request rs seat request_id in
    if (r.seat == seat) && (r.request_id == request_id) then some r else rest

abbrev pub context_of : TextMatch → TextState → ℕ → ActionContext
context_of m s now = record {
  match_id = m.match_id;
  mode_id = m.mode_id;
  round = s.round;
  turn = s.turn;
  phase = s.phase;
  phase_id = s.phase_id;
  board_revision = s.board.revision;
  deadline_ms = s.deadline;
  now_ms = now;
}

-- What Apply checks before it acts, once the request id is known to be new.
unfoldable pub admit : TextMatch → TextState → ℕ → ActionRequest → ℕ → Option GameError
admit m s seat r now =
    elim (check_request_budget (count_if (λ q. q.seat == seat) s.requests) false m.limits) [
      | some e ↦ some (GameError.rejected e)
      | none ↦ elim (check_action_context r (context_of m s now)) [
        | some e ↦ some (GameError.rejected e)
        | none ↦
            if not (player_at s seat).connected || (player_at s seat).eliminated
            then some GameError.unauthorized
            else none
      ]
    ]

abbrev only_chat : Action → Result Action
only_chat (Action.chat phrase text locale) = ok (Action.chat phrase text locale)
only_chat a = err GameError.invalid_action

abbrev pub moderated : TextHooks → ℕ → Action → Result Action
moderated hooks seat (Action.chat phrase text locale) =
    hooks.moderate seat (Action.chat phrase text locale) >>= only_chat
moderated hooks seat a = ok a

abbrev pub add_record : TextMatch → ℕ → ActionRequest → ℕ → TextPending → TextPending
add_record m seat r hash p = with_state p (record p.state {
  requests =
      record { match_id = r.match_id; seat = seat; request_id = r.request_id; body_hash = hash }
      ∷ p.state.requests;
})

abbrev pub request_candidate : ℕ → ActionRequest → ℕ → TextState → TextPending → Candidate
request_candidate seat r hash before p = record {
  pending = p;
  key_seat = some seat;
  key_request = r.request_id;
  hash = hash;
  events = drop (length before.history) p.state.history;
}

abbrev pub apply_admitted :
    (TextState → Option GameError)
    → TextMatch
    → TextHooks
    → Session
    → ℕ
    → ActionRequest
    → ℕ
    → ℕ
    → Option GameError
    → Session × Result ActionResult
apply_admitted state_check m hooks g seat r hash now (some e) = (g, err e)
apply_admitted state_check m hooks g seat r hash now none = commit hooks g (
    checked state_check
      (moderated hooks seat r.action >>= λ a.
        act m (new_pending g.state) seat a now >>= λ p. ok (add_record m seat r hash p))
      (request_candidate seat r hash g.state))

-- A new request, acted on over the committed state.
unfoldable pub apply_new :
    (TextState → Option GameError)
    → TextMatch
    → TextHooks
    → Session
    → ℕ
    → ActionRequest
    → ℕ
    → ℕ
    → Session × Result ActionResult
apply_new state_check m hooks g seat r hash now =
    apply_admitted state_check m hooks g seat r hash now (admit m g.state seat r now)

abbrev pub duplicate_result : ActionResult
duplicate_result = record { duplicate = true; changed = false; public_events = [] }

abbrev pub apply_reuse :
    Session → Reuse → Session × Result ActionResult → Session × Result ActionResult
apply_reuse g Reuse.fresh fresh = fresh
apply_reuse g Reuse.repeated fresh = (g, ok duplicate_result)
apply_reuse g Reuse.conflict fresh = (g, err (GameError.rejected ErrorCode.request_conflict))

abbrev pub is_retry : Candidate → ℕ → ActionRequest → ℕ → Bool
is_retry c seat r hash = elim c.key_seat [
  | none ↦ false
  | some k ↦ (k == seat) && ((c.key_request == r.request_id) && (c.hash == hash))
]

-- A request while no candidate waits; `old` is the record of its id.
abbrev pub apply_idle :
    (TextState → Option GameError)
    → (ActionRequest → ℕ)
    → TextMatch
    → TextHooks
    → Session
    → ℕ
    → ActionRequest
    → ℕ
    → Option RequestRecord
    → Session × Result ActionResult
apply_idle state_check request_hash m hooks g seat r now none =
    apply_new state_check m hooks g seat r (request_hash r) now
apply_idle state_check request_hash m hooks g seat r now (some old) =
    apply_reuse g (check_request_reuse request_hash old r seat)
      (apply_new state_check m hooks g seat r (request_hash r) now)

-- While a candidate waits, only the same request again is served.
abbrev pub apply_waiting :
    (TextState → Option GameError)
    → (ActionRequest → ℕ)
    → TextMatch
    → TextHooks
    → Session
    → ℕ
    → ActionRequest
    → ℕ
    → Option Candidate
    → Session × Result ActionResult
apply_waiting state_check request_hash m hooks g seat r now none =
    apply_idle state_check request_hash m hooks g seat r now
      (find_request g.state.requests seat r.request_id)
apply_waiting state_check request_hash m hooks g seat r now (some c) =
    if is_retry c seat r (request_hash r)
    then persist hooks g c
    else (g, err GameError.persistence_pending)

-- `Apply`, for a request whose form `ActionRequest.Validate` accepts.
unfoldable pub apply :
    (TextState → Option GameError)
    → (ActionRequest → ℕ)
    → TextMatch
    → TextHooks
    → Session
    → ℕ
    → ActionRequest
    → ℕ
    → Session × Result ActionResult
apply state_check request_hash m hooks g seat r now =
    if leb m.original_size seat
    then (g, err GameError.unauthorized)
    else apply_waiting state_check request_hash m hooks g seat r now g.pending
