-- ===== src/Contract/Sequence/Contexts.antt =====
-- Which requests checkActionContext of server/internal/transport/v2/sequence.go lets through.
use knowoff.Prelude.{
  ℕ, ◌<◌, ◌≤◌, ◌≡◌, ◌↔◌, ◌==◌, ltb, none, refl, sym, ap, ◌∙◌, arith, if◌then◌else◌,
}
use knowoff.Contract.{ModeId, Phase, ActionRequest, RequestRecord, mode_rank, phase_rank}
use knowoff.Contract.Sequence.{
  ActionContext, check_action_context, max_safe_integer, Reuse, check_request_reuse,
}

mode_of : ℕ → ModeId
mode_of n =
    if n == 0
    then ModeId.missed_the_briefing
    else (if n == 1
        then ModeId.secret_scale
        else (if n == 2
            then ModeId.make_room
            else (if n == 3 then ModeId.bad_bargains else ModeId.top_that)))

mode_of-rank : (a : ModeId) → mode_of (mode_rank a) ≡ a
unfolding mode_of
mode_of-rank ModeId.missed_the_briefing = refl
mode_of-rank ModeId.secret_scale = refl
mode_of-rank ModeId.make_room = refl
mode_of-rank ModeId.bad_bargains = refl
mode_of-rank ModeId.top_that = refl

mode_rank-injective : (a b : ModeId) → mode_rank a ≡ mode_rank b → a ≡ b
mode_rank-injective a b e = sym (mode_of-rank a) ∙ ap mode_of e ∙ mode_of-rank b

phase_of : ℕ → Phase
phase_of n =
    if ltb n 4
    then (if ltb n 2
        then (if n == 0 then Phase.round_start else Phase.play)
        else (if n == 2 then Phase.trade_response else Phase.discussion))
    else (if ltb n 6
        then (if n == 4 then Phase.knowoff_ballot else Phase.runoff)
        else (if n == 6 then Phase.result_window else Phase.verdict))

phase_of-rank : (a : Phase) → phase_of (phase_rank a) ≡ a
unfolding phase_of
phase_of-rank Phase.round_start = refl
phase_of-rank Phase.play = refl
phase_of-rank Phase.trade_response = refl
phase_of-rank Phase.discussion = refl
phase_of-rank Phase.knowoff_ballot = refl
phase_of-rank Phase.runoff = refl
phase_of-rank Phase.result_window = refl
phase_of-rank Phase.verdict = refl

phase_rank-injective : (a b : Phase) → phase_rank a ≡ phase_rank b → a ≡ b
phase_rank-injective a b e = sym (phase_of-rank a) ∙ ap phase_of e ∙ phase_of-rank b

-- A request made in the very situation that the match is in, at a time before its deadline; both
-- are times that JSON carries exactly.
pub record Timely (r : ActionRequest) (current : ActionContext) : Type 0 where
  pub match_id : r.match_id ≡ current.match_id
  pub mode_id : r.mode_id ≡ current.mode_id
  pub round : r.round ≡ current.round
  pub turn : r.turn ≡ current.turn
  pub phase : r.phase ≡ current.phase
  pub phase_id : r.phase_id ≡ current.phase_id
  pub revision : r.expected_board_revision ≡ current.board_revision
  pub begun : 0 < current.now_ms
  pub before_deadline : current.now_ms < current.deadline_ms
  pub exact : current.deadline_ms ≤ max_safe_integer

-- A request is let through exactly when it was made for the present match, mode, round, turn,
-- phase, phase id and board revision, the time is positive and before the deadline, and the deadline
-- is at most 2 ^ 53 - 1, the largest integer that JSON carries exactly.
pub check_action_context-Timely :
    (r : ActionRequest) (current : ActionContext)
    → (check_action_context r current ≡ none) ↔ Timely r current
unfolding check_action_context
check_action_context-Timely r current = (
  λ h. record {
    match_id = ground arith;
    mode_id = mode_rank-injective r.mode_id current.mode_id (ground arith);
    round = ground arith;
    turn = ground arith;
    phase = phase_rank-injective r.phase current.phase (ground arith);
    phase_id = ground arith;
    revision = ground arith;
    begun = ground arith;
    before_deadline = ground arith;
    exact = ground arith;
  },
  λ h. ground (
    arith,
    h.match_id,
    ap mode_rank h.mode_id,
    h.round,
    h.turn,
    ap phase_rank h.phase,
    h.phase_id,
    h.revision,
    h.begun,
    h.before_deadline,
    h.exact,
  ),
)

-- Two requests of a seat under one id: the second is a repetition exactly if it is for the same
-- match and its hash is the recorded one.
pub check_request_reuse-repeated :
    (request_hash : ActionRequest → ℕ) (old : RequestRecord) (r : ActionRequest) (seat : ℕ)
    → (check_request_reuse request_hash old r seat ≡ Reuse.repeated) ↔ (
        (old.match_id ≡ r.match_id)
        × (old.seat ≡ seat)
        × (old.request_id ≡ r.request_id)
        × (old.body_hash ≡ request_hash r))
unfolding check_request_reuse
check_request_reuse-repeated request_hash old r seat = (λ h. ground arith, λ h. ground arith)
