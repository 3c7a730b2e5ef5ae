-- ===== src/Contract/Sequence.antt =====
-- Stream cursors, request budgets and action contexts: server/internal/transport/v2/sequence.go,
-- with the cursor and limit checks of validate.go and the identifier syntax of
-- server/pkg/gamecontract/mode.go. `none` is a nil error; an epoch is its list of runes.
pub mod Laws
pub mod Contexts
mod Examples
use knowoff.Prelude.{
  ℕ, ◌+◌, ◌-◌, ◌^◌, Bool, true, false, ◌&&◌, ◌||◌, Option, none, some, List, [], ◌∷◌, length, all,
  leb, ltb, ◌==◌, if◌then◌else◌, not,
}
use knowoff.Contract.{
  ModeId, Phase, ActionRequest, RequestRecord, Limits, ErrorCode, u64, mode_rank, phase_rank,
}

abbrev pub max_safe_integer : ℕ
max_safe_integer = 2 ^ 53 - 1

abbrev within : ℕ → ℕ → ℕ → Bool
within lo hi r = leb lo r && leb r hi

-- A rune of an identifier.
unfoldable pub identifier_rune : ℕ → Bool
identifier_rune r =
    leb r 127
    && (within b'a' b'z' r
        || (within b'A' b'Z' r
            || (within b'0' b'9' r
                || ((r == b'-') || ((r == b'_') || ((r == b'.') || (r == b':')))))))

-- An identifier of ASCII runes has as many bytes as runes; any other text is refused.
unfoldable pub valid_identifier : List ℕ → Bool
unfolding identifier_rune
valid_identifier value =
    ltb 0 (length value) && (leb (length value) 128 && all identifier_rune value)

abbrev pub safe : ℕ → Bool
safe n = leb n max_safe_integer

-- A time that JSON carries exactly.
abbrev pub clock : ℕ → Bool
clock n = ltb 0 n && safe n

pub record Cursor : Type 0 where
  pub stream_epoch : List ℕ
  pub recipient_seq : ℕ
  pub evidence_seq : ℕ

unfoldable pub cursor_valid : Cursor → Bool
unfolding valid_identifier
cursor_valid c =
    valid_identifier c.stream_epoch
    && (not (c.recipient_seq == 0) && (safe c.recipient_seq && safe c.evidence_seq))

unfoldable pub same_text : List ℕ → List ℕ → Bool
same_text [] [] = true
same_text (a ∷ as') (b ∷ bs) = (a == b) && same_text as' bs
same_text _ _ = false

unfoldable pub check_next : Cursor → Cursor → Option ErrorCode
unfolding cursor_valid same_text
check_next current next =
    if not (cursor_valid current)
    then some ErrorCode.malformed
    else (if not (cursor_valid next)
        then some ErrorCode.malformed
        else (if not (same_text current.stream_epoch next.stream_epoch)
            then some ErrorCode.stale_stream
            else (if leb next.recipient_seq current.recipient_seq
                then some ErrorCode.duplicate_event
                else (if not (next.recipient_seq == u64 (current.recipient_seq + 1))
                    then some ErrorCode.sequence_gap
                    else (if ltb next.evidence_seq current.evidence_seq
                        then some ErrorCode.stale_evidence
                        else (if ltb (u64 (current.evidence_seq + 1)) next.evidence_seq
                            then some ErrorCode.sequence_gap
                            else none))))))

unfoldable pub limits_valid : Limits → Bool
limits_valid l =
    ltb 0 l.max_frame_bytes
    && (ltb 0 l.max_history_events
        && (ltb 0 l.max_history_page_events
            && (leb l.max_history_page_events l.max_history_events
                && (ltb 0 l.max_text_bytes
                    && (leb l.max_text_bytes l.max_frame_bytes && ltb 0 l.max_requests_per_seat)))))

unfoldable pub check_request_budget : ℕ → Bool → Limits → Option ErrorCode
unfolding limits_valid
check_request_budget recorded duplicate l =
    if not (limits_valid l)
    then some ErrorCode.malformed
    else (if not duplicate && leb l.max_requests_per_seat recorded
        then some ErrorCode.request_limit
        else none)

-- What is known of a request's identity: a new one, a repetition, or another body.
pub data Reuse : Type 0 where
  fresh repeated : Reuse
  conflict : Reuse

unfoldable pub check_request_reuse : (ActionRequest → ℕ) → RequestRecord → ActionRequest → ℕ → Reuse
check_request_reuse request_hash previous request seat =
    if not (previous.match_id == request.match_id)
      || (not (previous.seat == seat) || not (previous.request_id == request.request_id))
    then Reuse.fresh
    else (if request_hash request == previous.body_hash then Reuse.repeated else Reuse.conflict)

pub record ActionContext : Type 0 where
  pub match_id : ℕ
  pub mode_id : ModeId
  pub round : ℕ
  pub turn : ℕ
  pub phase : Phase
  pub phase_id : ℕ
  pub board_revision : ℕ
  pub deadline_ms : ℕ
  pub now_ms : ℕ

unfoldable pub check_action_context : ActionRequest → ActionContext → Option ErrorCode
check_action_context r current =
    if not (r.match_id == current.match_id)
      || not (mode_rank r.mode_id == mode_rank current.mode_id)
    then some ErrorCode.stale_match
    else (if not (r.round == current.round)
          || (not (r.turn == current.turn)
              || (not (phase_rank r.phase == phase_rank current.phase)
                  || not (r.phase_id == current.phase_id)))
        then some ErrorCode.stale_phase
        else (if not (r.expected_board_revision == current.board_revision)
            then some ErrorCode.stale_revision
            else (if not (clock current.deadline_ms)
                  || (not (clock current.now_ms) || leb current.deadline_ms current.now_ms)
                then some ErrorCode.deadline_expired
                else none)))
