-- ===== src/Contract/Snapshot.antt =====
-- What one seat is shown of a match: the types Snapshot, PrivateState, PublicSeat, MatchVerdict and
-- SeatScore of server/internal/transport/v2/contract.go, and the checks that snapshot.go makes of the
-- capabilities. The pinned contract and the stream cursor of a snapshot are left out: the one never
-- changes in a match, the other is set when it is sent.
use knowoff.Prelude.{
  ℕ, Bool, true, false, ◌&&◌, ◌||◌, Option, none, some, List, [], ◌∷◌, not, ◌==◌, if◌then◌else◌,
  all, any,
}
use knowoff.Prelude.Int.{ℤ}
use knowoff.Contract.{
  ModeId, Phase, Outcome, TextContent, Card, Role, SpecialtyId, Board, PublicAction, PendingOffer,
  RevealView, BallotState, mode_rank, phase_rank,
}

pub data ActionKind : Type 0 where
  pass_kind view_reveal_kind free_card_kind shuffle_kind revote_kind ready_kind : ActionKind
  reveal_kind respond_kind place_kind replace_kind offer_kind resolve_offer_kind : ActionKind
  top_kind draw_kind vote_kind poke_kind chat_kind : ActionKind

abbrev pub kind_rank : ActionKind → ℕ
kind_rank ActionKind.pass_kind = 0
kind_rank ActionKind.view_reveal_kind = 1
kind_rank ActionKind.free_card_kind = 2
kind_rank ActionKind.shuffle_kind = 3
kind_rank ActionKind.revote_kind = 4
kind_rank ActionKind.ready_kind = 5
kind_rank ActionKind.reveal_kind = 6
kind_rank ActionKind.respond_kind = 7
kind_rank ActionKind.place_kind = 8
kind_rank ActionKind.replace_kind = 9
kind_rank ActionKind.offer_kind = 10
kind_rank ActionKind.resolve_offer_kind = 11
kind_rank ActionKind.top_kind = 12
kind_rank ActionKind.draw_kind = 13
kind_rank ActionKind.vote_kind = 14
kind_rank ActionKind.poke_kind = 15
kind_rank ActionKind.chat_kind = 16

pub record PublicSeat : Type 0 where
  pub seat : ℕ
  pub connected : Bool
  pub eliminated : Bool
  pub revealed_role : Option Role

-- `RevealView` with the time until which it is shown.
pub record RevealShown : Type 0 where
  pub view : RevealView
  pub expires_at_ms : ℕ

pub record PrivateState : Type 0 where
  pub specialty : SpecialtyId
  pub free_draws : ℕ
  pub reveal : Option RevealShown
  pub points : ℕ
  pub seat : ℕ
  pub role : Role
  pub nown : Option TextContent
  pub hand : List Card
  pub reserve_count : ℕ
  pub capabilities : List ActionKind

pub record MatchVerdict : Type 0 where
  pub outcome : Outcome
  pub winner : Option Role

pub record SeatScore : Type 0 where
  pub seat : ℕ
  pub points : ℤ

pub record BegunNown : Type 0 where
  pub round : ℕ
  pub content : TextContent

-- `current_seat` is a pointer that may hold -1, the inner `none`. `serial` and `evidence_seq` are what
-- the formatted snapshot id says besides the match and the seat.
pub record Snapshot : Type 0 where
  pub serial : ℕ
  pub evidence_seq : ℕ
  pub reveal_target : Option ℕ
  pub scores : List SeatScore
  pub verdict : Option MatchVerdict
  pub round : ℕ
  pub turn : ℕ
  pub current_seat : Option (Option ℕ)
  pub phase : Phase
  pub phase_id : ℕ
  pub server_time_ms : ℕ
  pub deadline_ms : ℕ
  pub result_reveal_at_ms : Option ℕ
  pub board : Board
  pub seats : List PublicSeat
  pub ready_seats : List ℕ
  pub ballot : Option BallotState
  pub pending_offer : Option PendingOffer
  pub private : PrivateState
  pub history : List PublicAction
  pub verdict_nowns : List BegunNown

abbrev in_phase : Phase → Phase → Bool
in_phase a b = phase_rank a == phase_rank b

abbrev in_mode : ModeId → ModeId → Bool
in_mode a b = mode_rank a == mode_rank b

-- `capability`: the phases and the mode in which an action of a kind may be offered.
unfoldable pub capability : ActionKind → ModeId → Phase → Bool
capability k mode phase =
    let playing = in_phase phase Phase.play in
    let trading = in_phase phase Phase.trade_response in
    let voting = in_phase phase Phase.knowoff_ballot || in_phase phase Phase.runoff in
    let talking = in_phase phase Phase.discussion in
    let under_way = not (in_phase phase Phase.round_start) && not (in_phase phase Phase.verdict) in
    elim k [
      | ActionKind.pass_kind ↦ playing
      | ActionKind.reveal_kind ↦ playing
      | ActionKind.free_card_kind ↦ playing
      | ActionKind.view_reveal_kind ↦ under_way
      | ActionKind.shuffle_kind ↦ playing || trading
      | ActionKind.revote_kind ↦ voting
      | ActionKind.respond_kind ↦ in_mode mode ModeId.missed_the_briefing && playing
      | ActionKind.place_kind ↦ in_mode mode ModeId.secret_scale && playing
      | ActionKind.replace_kind ↦ in_mode mode ModeId.make_room && playing
      | ActionKind.offer_kind ↦ in_mode mode ModeId.bad_bargains && playing
      | ActionKind.top_kind ↦ in_mode mode ModeId.top_that && playing
      | ActionKind.resolve_offer_kind ↦ in_mode mode ModeId.bad_bargains && trading
      | ActionKind.draw_kind ↦ playing
      | ActionKind.vote_kind ↦ voting
      | ActionKind.ready_kind ↦ talking || (voting || in_phase phase Phase.result_window)
      | ActionKind.poke_kind ↦ playing || (trading || (talking || voting))
      | ActionKind.chat_kind ↦ under_way
    ]

abbrev same_specialty : SpecialtyId → SpecialtyId → Bool
same_specialty SpecialtyId.no_card SpecialtyId.no_card = true
same_specialty SpecialtyId.pass_card SpecialtyId.pass_card = true
same_specialty SpecialtyId.reveal_card SpecialtyId.reveal_card = true
same_specialty SpecialtyId.free_card_card SpecialtyId.free_card_card = true
same_specialty SpecialtyId.shuffle_card SpecialtyId.shuffle_card = true
same_specialty SpecialtyId.revote_card SpecialtyId.revote_card = true
same_specialty _ _ = false

abbrev pub no_seat : PublicSeat
no_seat = record { seat = 0; connected = false; eliminated = false; revealed_role = none }

-- The public seat of the recipient; a later entry of its number would win.
unfoldable pub recipient_of : List PublicSeat → ℕ → PublicSeat → PublicSeat
recipient_of [] seat found = found
recipient_of (p ∷ ps) seat found = recipient_of ps seat (if p.seat == seat then p else found)

abbrev is_role : Role → Role → Bool
is_role Role.nower Role.nower = true
is_role Role.donower Role.donower = true
is_role _ _ = false

abbrev pub some_target : Option ℕ → Bool
some_target none = false
some_target (some t) = true

-- What a kind wants besides its phase and mode: the card that it plays, a role, a reserve, no draw
-- that is still to be made.
unfoldable pub kind_fits : PrivateState → Option ℕ → ActionKind → Bool
kind_fits p target k = elim k [
  | ActionKind.pass_kind ↦ same_specialty p.specialty SpecialtyId.pass_card
  | ActionKind.reveal_kind ↦ same_specialty p.specialty SpecialtyId.reveal_card
  | ActionKind.shuffle_kind ↦
      same_specialty p.specialty SpecialtyId.shuffle_card && is_role p.role Role.donower
  | ActionKind.revote_kind ↦
      same_specialty p.specialty SpecialtyId.revote_card && is_role p.role Role.nower
  | ActionKind.free_card_kind ↦
      same_specialty p.specialty SpecialtyId.free_card_card
      && (not (p.reserve_count == 0) && (p.free_draws == 0))
  | ActionKind.view_reveal_kind ↦ some_target target
  | ActionKind.respond_kind ↦ p.free_draws == 0
  | ActionKind.place_kind ↦ p.free_draws == 0
  | ActionKind.replace_kind ↦ p.free_draws == 0
  | ActionKind.offer_kind ↦ p.free_draws == 0
  | ActionKind.top_kind ↦ p.free_draws == 0
  | _ ↦ true
]

-- The kinds that are for the seat on turn only.
abbrev pub wants_turn : ActionKind → Bool
wants_turn ActionKind.pass_kind = true
wants_turn ActionKind.reveal_kind = true
wants_turn ActionKind.free_card_kind = true
wants_turn ActionKind.respond_kind = true
wants_turn ActionKind.place_kind = true
wants_turn ActionKind.replace_kind = true
wants_turn ActionKind.offer_kind = true
wants_turn ActionKind.top_kind = true
wants_turn ActionKind.draw_kind = true
wants_turn _ = false

abbrev pub is_current : Option (Option ℕ) → ℕ → Bool
is_current (some (some k)) seat = k == seat
is_current _ seat = false

-- The loop over the capabilities in Snapshot.Validate accepts a kind.
unfoldable pub capability_fits : ModeId → Snapshot → ActionKind → Bool
unfolding capability kind_fits recipient_of
capability_fits mode s k =
    let r = recipient_of s.seats s.private.seat no_seat in
    not r.eliminated
    && (r.connected
        && (capability k mode s.phase
            && (kind_fits s.private s.reveal_target k
                && (not (wants_turn k) || is_current s.current_seat s.private.seat))))

unfoldable pub distinct_kinds : List ActionKind → Bool
distinct_kinds [] = true
distinct_kinds (k ∷ ks) =
    not (any (λ other. kind_rank other == kind_rank k) ks) && distinct_kinds ks

unfoldable pub capabilities_valid : ModeId → Snapshot → Bool
unfolding capability_fits distinct_kinds
capabilities_valid mode s =
    all (capability_fits mode s) s.private.capabilities && distinct_kinds s.private.capabilities
