-- ===== src/Game/State.antt =====
-- The state of a text match: the types of server/internal/game/text_match.go.
-- Times are Unix milliseconds, durations in the configuration seconds. Go's maps keyed by seat
-- (`Ready`, `Votes`) are functions of the seat; the copy registry is an association list.
use knowoff.Prelude.{ℕ, Bool, true, false, ◌&&◌, Option, none, some, List, [], get_or, lookup, not}
use knowoff.Prelude.Int.{ℤ, pos}
pub use knowoff.Contract.{Outcome}
use knowoff.Contract.{
  ModeId, Phase, TextContent, Card, Role, SpecialtyId, Board, PublicAction, PendingOffer,
  RevealView, BallotResult, RequestRecord, Limits, ErrorCode,
}

pub data Zone : Type 0 where
  no_zone in_hand in_reserve on_board spent : Zone

-- `owner` is `none` for -1.
pub record TextCopy : Type 0 where
  pub card : Card
  pub zone : Zone
  pub owner : Option ℕ
  pub reserved : Bool

pub record TextPlayer : Type 0 where
  pub specialty : SpecialtyId
  pub free_draws : ℕ
  pub reveal_until : ℕ
  pub reveal_used : Bool
  pub role : Role
  pub connected : Bool
  pub eliminated : Bool
  pub absent : Bool
  pub grace_deadline : ℕ
  pub abandon_recorded : Bool
  pub points_before_result : ℤ
  pub hand : List ℕ
  pub reserve : List ℕ
  pub points : ℤ
  pub correct_votes : ℕ
  pub votes_cast : ℕ
  pub survivals : ℕ
  pub pokes : ℕ

-- `none` is the winner "none".
abbrev pub Winner : Type 0
Winner = Option Role

pub record TextPlayerResult : Type 0 where
  pub seat : ℕ
  pub role : Role
  pub points : ℤ
  pub correct_votes : ℕ
  pub votes_cast : ℕ
  pub survivals : ℕ
  pub pokes : ℕ
  pub won : Bool
  pub connected : Bool
  pub absent : Bool
  pub eliminated : Bool

pub record TextResult : Type 0 where
  pub outcome : Outcome
  pub winner : Winner
  pub occurred_at : ℕ
  pub original_human_count : ℕ
  pub players : List TextPlayerResult

pub data PokeGroup : Type 0 where
  play_group discussion_group voting_group : PokeGroup

pub record PokeKey : Type 0 where
  pub group : PokeGroup
  pub from_seat : ℕ
  pub to_seat : ℕ

pub record TextState : Type 0 where
  pub reveal_cards : Option RevealView
  pub reveal_target : Option ℕ
  pub shuffle_used : Bool
  pub revote_used : Bool
  pub round : ℕ
  pub turn : ℕ
  pub phase : Phase
  pub phase_id : ℕ
  pub phase_serial : ℕ
  pub deadline : ℕ
  pub result_reveal_at : ℕ
  pub result_revealed : Bool
  pub board : Board
  pub players : List TextPlayer
  pub copies : List (ℕ × TextCopy)
  pub order : List ℕ
  pub remaining_votes : ℕ
  pub ready : ℕ → Bool
  pub poked : List PokeKey
  pub votes : ℕ → Option ℕ
  pub ballot_kind : Option Phase
  pub candidates : List ℕ
  pub ballot_result : Option BallotResult
  pub pending_offer : Option PendingOffer
  pub history : List PublicAction
  pub requests : List RequestRecord
  pub result : Option TextResult

pub data AwardKind : Type 0 where
  correct_vote_award donower_vote_survived_award : AwardKind

pub record TextAwardEvent : Type 0 where
  pub seat : ℕ
  pub kind : AwardKind
  pub ordinal : ℕ
  pub occurred_at : ℕ
  pub amount : ℕ
  pub discreet : Bool

pub record TextAbandonEvent : Type 0 where
  pub seat : ℕ
  pub occurred_at : ℕ

-- A candidate state with the durable work that must be stored before it is committed.
pub record TextPending : Type 0 where
  pub state : TextState
  pub awards : List TextAwardEvent
  pub abandons : List TextAbandonEvent
  pub settled : Option TextResult

pub record TimersTuning : Type 0 where
  pub round_start_countdown : ℕ
  pub play_turn : ℕ
  pub trade_response : ℕ
  pub discussion_per_player : ℕ
  pub knowoff_ballot_s : ℕ
  pub knowoff_runoff : ℕ
  pub vote_result_window : ℕ
  pub vote_result_falling : ℕ
  pub reveal_view : ℕ
  pub reveal_lockout : ℕ
  pub shuffle_bonus_seconds : ℕ

pub record PointsTuning : Type 0 where
  pub draw_penalty : ℕ
  pub correct_vote : ℕ
  pub nower_win_bonus : ℕ
  pub donower_team_win : ℕ

pub record NoinTuning : Type 0 where
  pub correct_vote : ℕ
  pub donower_vote_survived : ℕ

-- math/rand seeded by an int64, read as its bit pattern.
pub record Rng : Type 0 where
  pub shuffled : ℕ → List ℕ → List ℕ
  pub intn : ℕ → ℕ → ℕ

-- The fields of `TextMatch` that never change during a match.
pub record TextMatch : Type 0 where
  pub mode_id : ModeId
  pub original_size : ℕ
  pub rewards : Bool
  pub timers : TimersTuning
  pub points : PointsTuning
  pub noin : NoinTuning
  pub grace_ms : ℕ
  pub penalize_abandon : Bool
  pub seed : ℕ
  pub rng : Rng
  pub seeds : List (List Card)
  pub nowns : List TextContent
  -- The cards that were dealt out at the start, and every card of the match by its copy id.
  pub initial_copies : ℕ
  pub all_copies : List (ℕ × Card)
  pub match_id : ℕ
  pub limits : Limits
  -- `len(json.Marshal(m.project(s, seat, now)))`
  pub projected_bytes : TextState → ℕ → ℕ → ℕ

-- `unauthorized` to `frame_too_large` are codes of `textError`, the next are other errors, and
-- `rejected` is an error of the contract's own checks.
pub data GameError : Type 0 where
  unauthorized invalid_action stale_revision frame_too_large : GameError
  seed_budget seed_text transition_bound index_panic : GameError
  persistence_pending persistence_failed copy_invariant : GameError
  rejected : ErrorCode → GameError

pub data Result {ℓ} (A : Type ℓ) : Type ℓ where
  ok : A → Result A
  err : GameError → Result A

infixl 5 ◌>>=◌
abbrev pub ◌>>=◌ {ℓ κ} : {A : Type ℓ} {B : Type κ} → Result A → (A → Result B) → Result B
ok a >>= f = f a
err e >>= f = err e

-- The zero values that Go gives for a missing map entry.
abbrev pub zero_card : Card
zero_card = record { copy_id = 0; content = record { content_id = ""; revision = 0; text = "" } }

abbrev pub zero_copy : TextCopy
zero_copy = record { card = zero_card; zone = no_zone; owner = some 0; reserved = false }

abbrev pub zero_player : TextPlayer
zero_player = record {
  specialty = SpecialtyId.no_card;
  free_draws = 0;
  reveal_until = 0;
  reveal_used = false;
  role = Role.nower;
  connected = false;
  eliminated = false;
  absent = false;
  grace_deadline = 0;
  abandon_recorded = false;
  points_before_result = pos 0;
  hand = [];
  reserve = [];
  points = pos 0;
  correct_votes = 0;
  votes_cast = 0;
  survivals = 0;
  pokes = 0;
}

-- `s.Copies[id]` and `s.Players[seat]`.
unfoldable pub copy_at : TextState → ℕ → TextCopy
copy_at s id = elim (lookup id s.copies) [ none ↦ zero_copy | some c ↦ c ]

abbrev pub player_at : TextState → ℕ → TextPlayer
player_at s seat = get_or s.players seat zero_player

abbrev pub is_nower : Role → Bool
is_nower Role.nower = true
is_nower Role.donower = false

abbrev pub is_donower : Role → Bool
is_donower r = not (is_nower r)

abbrev pub is_bad_bargains : ModeId → Bool
is_bad_bargains ModeId.bad_bargains = true
is_bad_bargains _ = false

-- Who can still act: connected and not eliminated.
abbrev pub is_active : TextPlayer → Bool
is_active p = p.connected && not p.eliminated
