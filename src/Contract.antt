-- ===== src/Contract.antt =====
-- The wire contract of the text game: server/internal/transport/v2/contract.go and the mode
-- identities of server/pkg/gamecontract/mode.go. Copy ids are UUIDs, so numbers; the
-- formatted ids of events, phases and offers ("<match>.e7") are kept as the number that they
-- carry. A `*int` is an `Option`; a negative seat, which stands for the system, is `none`.
pub mod Sequence
pub mod Texts
pub mod Events
pub mod History
pub mod Snapshot
pub mod Requests
use Prim.Native.String.{String}
use knowoff.Prelude.{ℕ, ◌%◌, ◌^◌, Bool, true, false, Option, List}

-- uint64 counters wrap around.
abbrev pub u64 : ℕ → ℕ
u64 n = n % 2 ^ 64

pub data ModeId : Type 0 where
  missed_the_briefing secret_scale make_room bad_bargains top_that : ModeId

pub data Phase : Type 0 where
  round_start play trade_response discussion knowoff_ballot runoff result_window verdict : Phase

pub record TextContent : Type 0 where
  pub content_id : String
  pub revision : ℕ
  pub text : String

pub record Card : Type 0 where
  pub copy_id : ℕ
  pub content : TextContent

pub data Actor : Type 0 where
  system : Actor
  at_seat : ℕ → Actor

pub data Resolution : Type 0 where
  accept refuse cancel timed_out : Resolution

pub data Outcome : Type 0 where
  completed interrupted scored_low_population : Outcome

pub data Role : Type 0 where
  nower donower : Role

pub data SpecialtyId : Type 0 where
  no_card pass_card reveal_card free_card_card shuffle_card revote_card : SpecialtyId

-- An action that has passed `ActionRequest.Validate`: each variant with the fields it requires.
pub data Action : Type 0 where
  pass view_reveal free_card shuffle revote ready : Action
  reveal : ℕ → Action
  respond : ℕ → Action
  place : ℕ → ℕ → Action
  replace : ℕ → ℕ → Action
  offer : ℕ → ℕ → ℕ → Action
  resolve_offer : ℕ → Bool → Action
  top : ℕ → ℕ → Action
  draw : ℕ → Action
  vote : ℕ → Action
  poke : ℕ → Action
  chat : String → String → String → Action

pub data EventKind : Type 0 where
  seed_event auto_pass_event respond_event place_event replace_event top_event offer_event :
      EventKind
  resolve_offer_event draw_event vote_event ready_event poke_event chat_event : EventKind
  pass_event reveal_event free_card_event shuffle_event revote_event ballot_result_event : EventKind

pub data Reason : Type 0 where
  player timeout disconnect no_recipient seed_reason forced_transition : Reason

pub data BallotOutcome : Type 0 where
  to_runoff miss elimination : BallotOutcome

pub record BallotResult : Type 0 where
  pub outcome : BallotOutcome
  pub seat : Option ℕ
  pub revealed_role : Option Role

pub record BallotVote : Type 0 where
  pub seat : ℕ
  pub target_seat : ℕ

pub record BallotState : Type 0 where
  pub kind : Phase
  pub candidates : List ℕ
  pub votes : List BallotVote
  pub result : Option BallotResult

pub record PublicAction : Type 0 where
  pub event_id : ℕ
  pub evidence_seq : ℕ
  pub round : ℕ
  pub phase : Phase
  pub phase_id : ℕ
  pub actor : Actor
  pub kind : EventKind
  pub cards : List Card
  pub before_revision : ℕ
  pub after_revision : ℕ
  pub reason : Reason
  pub server_time_ms : ℕ
  pub deadline_ms : Option ℕ
  pub count : Option ℕ
  pub rating : Option ℕ
  pub slot : Option ℕ
  pub target_seat : Option ℕ
  pub offer_id : Option ℕ
  pub resolution : Option Resolution
  pub phrase_id : String
  pub text : String
  pub ui_locale : String
  pub ballot : Option BallotState

pub record BoardCard : Type 0 where
  pub card : Card
  pub actor : Actor
  pub rating : Option ℕ
  pub slot : Option ℕ
  pub seat : Option ℕ

pub record Board : Type 0 where
  pub mode_id : ModeId
  pub revision : ℕ
  pub cards : List BoardCard

pub record PendingOffer : Type 0 where
  pub offer_id : ℕ
  pub proposer_seat : ℕ
  pub recipient_seat : ℕ
  pub offered_copy_id : ℕ
  pub requested_copy_id : ℕ
  pub board_revision : ℕ
  pub deadline_ms : ℕ

pub record RevealView : Type 0 where
  pub target_seat : ℕ
  pub hand : List Card
  pub reserve : List Card
  pub specialty : SpecialtyId

pub data ErrorCode : Type 0 where
  malformed version frame_too_large invalid_action stale_match stale_phase : ErrorCode
  stale_revision deadline_expired request_conflict request_limit duplicate_event : ErrorCode
  sequence_gap stale_stream stale_evidence history_limit history_integrity unauthorized : ErrorCode
  persistence_pending rate_limited : ErrorCode

-- Rank functions, so that two modes or two phases can be compared.
abbrev pub mode_rank : ModeId → ℕ
mode_rank ModeId.missed_the_briefing = 0
mode_rank ModeId.secret_scale = 1
mode_rank ModeId.make_room = 2
mode_rank ModeId.bad_bargains = 3
mode_rank ModeId.top_that = 4

abbrev pub phase_rank : Phase → ℕ
phase_rank Phase.round_start = 0
phase_rank Phase.play = 1
phase_rank Phase.trade_response = 2
phase_rank Phase.discussion = 3
phase_rank Phase.knowoff_ballot = 4
phase_rank Phase.runoff = 5
phase_rank Phase.result_window = 6
phase_rank Phase.verdict = 7

-- A request whose form has been checked. Texts that are only compared are numbers.
pub record ActionRequest : Type 0 where
  pub request_id : ℕ
  pub match_id : ℕ
  pub mode_id : ModeId
  pub round : ℕ
  pub turn : ℕ
  pub phase : Phase
  pub phase_id : ℕ
  pub expected_board_revision : ℕ
  pub action : Action

-- `body_hash` is the SHA-256 of the encoded request.
pub record RequestRecord : Type 0 where
  pub match_id : ℕ
  pub seat : ℕ
  pub request_id : ℕ
  pub body_hash : ℕ

pub record Limits : Type 0 where
  pub max_frame_bytes : ℕ
  pub max_history_events : ℕ
  pub max_history_page_events : ℕ
  pub max_text_bytes : ℕ
  pub max_requests_per_seat : ℕ
