-- ===== src/Game/Projection.antt =====
-- What a seat is shown: project of server/internal/game/text_snapshot.go. `moderates` says whether
-- the match has a ModerateChat hook. Where the source would index past the prompts of the match, the
-- prompt is missing here; a reveal target without its cards, which the source would dereference,
-- shows no cards.
pub mod Alike
pub mod Secrecy
mod Capabilities
pub mod Offered
pub mod Parts
mod Kinds
pub mod Accepted
use knowoff.Prelude.{
  ℕ, zero, suc, ◌+◌, ◌-◌, ◌*◌, ◌%◌, Bool, true, false, ◌&&◌, ◌||◌, Option, none, some, List, [],
  ◌∷◌, ◌++◌, length, get_elem?, map, not, ltb, ◌==◌, if◌then◌else◌, seats_where, take,
}
use knowoff.Prelude.Int.{ℤ, pos_part}
use knowoff.Contract.{
  ModeId, Phase, TextContent, Card, Role, SpecialtyId, RevealView, BallotResult, BallotVote,
  BallotState, PendingOffer,
}
use knowoff.Contract.Snapshot.{
  ActionKind, PublicSeat, RevealShown, PrivateState, MatchVerdict, SeatScore, BegunNown, Snapshot,
}
use knowoff.Game.Clock.{is_verdict, is_result}
use knowoff.Game.State.{
  TextState, TextPlayer, TextMatch, TextResult, TextPlayerResult, copy_at, player_at, is_nower,
  is_donower,
}
use knowoff.Game.Turns.{current}
use knowoff.Game.Specialty.{is_play, is_seat, on_turn, specialty_timer}

-- The phases of a round that has begun, up to the end of the match.
abbrev pub under_way : Phase → Bool
under_way Phase.round_start = false
under_way Phase.verdict = false
under_way _ = true

abbrev pub has_current : Phase → Bool
has_current Phase.play = true
has_current Phase.trade_response = true
has_current _ = false

abbrev pub has_ballot : Phase → Bool
has_ballot Phase.knowoff_ballot = true
has_ballot Phase.runoff = true
has_ballot Phase.result_window = true
has_ballot _ = false

-- The result of a ballot is known, and not yet to be seen.
abbrev pub veiled : TextState → ℕ → Bool
veiled s now = is_result s.phase && ltb now s.result_reveal_at

abbrev pub public_seat : ℕ → TextPlayer → PublicSeat
public_seat i p = record {
  seat = i;
  connected = p.connected;
  eliminated = p.eliminated;
  revealed_role = if p.eliminated then some p.role else none;
}

unfoldable pub public_seats : ℕ → List TextPlayer → List PublicSeat
public_seats i [] = []
public_seats i (p ∷ ps) = public_seat i p ∷ public_seats (suc i) ps

unfoldable pub ready_seats : TextState → List ℕ
ready_seats s = seats_where (λ i p. s.ready i && (not p.eliminated && p.connected)) 0 s.players

abbrev pub target_in : TextState → Option ℕ → Bool
target_in s none = false
target_in s (some t) = not (player_at s t).eliminated

abbrev pub shown_view : ℕ → Option RevealView → Option RevealShown
shown_view until none = none
shown_view until (some v) = some (record { view = v; expires_at_ms = until })

unfoldable pub shown_reveal : TextState → TextPlayer → ℕ → Option RevealShown
shown_reveal s p now =
    if under_way s.phase
      && (target_in s s.reveal_target
          && (not p.eliminated && (p.connected && ltb now p.reveal_until)))
    then shown_view p.reveal_until s.reveal_cards
    else none

unfoldable pub votes_cast_from : (ℕ → Option ℕ) → ℕ → List TextPlayer → List BallotVote
votes_cast_from votes i [] = []
votes_cast_from votes i (p ∷ ps) =
    let rest = votes_cast_from votes (suc i) ps in
    elim (votes i) [ none ↦ rest | some t ↦ record { seat = i; target_seat = t } ∷ rest ]

abbrev pub without_role : BallotResult → BallotResult
without_role r = record r { revealed_role = none }

abbrev pub shown_result : Bool → Option BallotResult → Option BallotResult
shown_result hidden none = none
shown_result true (some r) = some (without_role r)
shown_result false (some r) = some r

-- An empty kind, which no called ballot has, stands as that of the round's start.
abbrev ballot_kind_of : Option Phase → Phase
ballot_kind_of none = Phase.round_start
ballot_kind_of (some k) = k

unfoldable pub shown_ballot : TextState → ℕ → Option BallotState
unfolding votes_cast_from
shown_ballot s now =
    if has_ballot s.phase
    then some (record {
      kind = ballot_kind_of s.ballot_kind;
      candidates = s.candidates;
      votes = votes_cast_from s.votes 0 s.players;
      result = shown_result (veiled s now) s.ballot_result;
    })
    else none

abbrev score_of : TextPlayerResult → SeatScore
score_of r = record { seat = r.seat; points = r.points }

abbrev verdict_of : TextResult → MatchVerdict
verdict_of r = record { outcome = r.outcome; winner = r.winner }

abbrev ended_result : TextState → Option TextResult
ended_result s = if is_verdict s.phase then s.result else none

unfoldable pub begun_from : ℕ → List TextContent → List BegunNown
begun_from i [] = []
begun_from i (n ∷ ns) = record { round = i + 1; content = n } ∷ begun_from (suc i) ns

abbrev pub one_if : Bool → ActionKind → List ActionKind
one_if true k = k ∷ []
one_if false k = []

abbrev pub mode_kind : ModeId → ActionKind
mode_kind ModeId.missed_the_briefing = ActionKind.respond_kind
mode_kind ModeId.secret_scale = ActionKind.place_kind
mode_kind ModeId.make_room = ActionKind.replace_kind
mode_kind ModeId.bad_bargains = ActionKind.offer_kind
mode_kind ModeId.top_that = ActionKind.top_kind

-- The card that the seat on turn may play.
unfoldable pub held_capability : TextMatch → TextState → TextPlayer → ℕ → List ActionKind
held_capability m s p now = elim p.specialty [
  | SpecialtyId.pass_card ↦ ActionKind.pass_kind ∷ []
  | SpecialtyId.reveal_card ↦
      one_if (ltb (specialty_timer m.timers.reveal_lockout 5 * 1000) (s.deadline - now))
        ActionKind.reveal_kind
  | SpecialtyId.free_card_card ↦
      one_if (ltb 0 (length p.reserve) && (p.free_draws == 0)) ActionKind.free_card_kind
  | _ ↦ []
]

abbrev pub answers : Option PendingOffer → ℕ → Bool
answers none seat = false
answers (some o) seat = o.recipient_seat == seat

unfoldable pub phase_capabilities : TextMatch → TextState → TextPlayer → ℕ → List ActionKind
phase_capabilities m s p seat = elim s.phase [
  | Phase.play ↦
      ActionKind.poke_kind
      ∷ (one_if (is_seat (current s) seat && ltb 0 (length p.reserve)) ActionKind.draw_kind
          ++ one_if (is_seat (current s) seat && (ltb 0 (length p.hand) && (p.free_draws == 0)))
              (mode_kind m.mode_id))
  | Phase.trade_response ↦
      ActionKind.poke_kind ∷ one_if (answers s.pending_offer seat) ActionKind.resolve_offer_kind
  | Phase.discussion ↦ ActionKind.ready_kind ∷ ActionKind.poke_kind ∷ []
  | Phase.knowoff_ballot ↦ ActionKind.vote_kind ∷ ActionKind.ready_kind ∷ ActionKind.poke_kind ∷ []
  | Phase.runoff ↦ ActionKind.vote_kind ∷ ActionKind.ready_kind ∷ ActionKind.poke_kind ∷ []
  | Phase.result_window ↦ ActionKind.ready_kind ∷ []
  | _ ↦ []
]

abbrev pub is_shuffle_card : SpecialtyId → Bool
is_shuffle_card SpecialtyId.shuffle_card = true
is_shuffle_card _ = false

abbrev pub is_revote_card : SpecialtyId → Bool
is_revote_card SpecialtyId.revote_card = true
is_revote_card _ = false

abbrev pub votes_now : Phase → Bool
votes_now Phase.knowoff_ballot = true
votes_now Phase.runoff = true
votes_now _ = false

unfoldable pub capabilities : Bool → TextMatch → TextState → TextPlayer → ℕ → ℕ → List ActionKind
unfolding held_capability phase_capabilities
capabilities moderates m s p seat now =
    if p.connected && not p.eliminated
    then (one_if (moderates && under_way s.phase) ActionKind.chat_kind
        ++ (one_if (target_in s s.reveal_target && (not p.reveal_used && under_way s.phase))
              ActionKind.view_reveal_kind
            ++ (one_if
                  (is_shuffle_card p.specialty
                    && (is_donower p.role && (not s.shuffle_used && has_current s.phase)))
                  ActionKind.shuffle_kind
                ++ (one_if
                      (is_revote_card p.specialty
                        && (is_nower p.role && (not s.revote_used && votes_now s.phase)))
                      ActionKind.revote_kind
                    ++ ((if on_turn s seat then held_capability m s p now else [])
                        ++ phase_capabilities m s p seat)))))
    else []

unfoldable pub private_state : Bool → TextMatch → TextState → TextPlayer → ℕ → ℕ → PrivateState
unfolding shown_reveal capabilities
private_state moderates m s p seat now =
    let playing = not p.eliminated && not (is_verdict s.phase) in
    record {
      specialty = if playing then p.specialty else SpecialtyId.no_card;
      free_draws = if playing then p.free_draws else 0;
      reveal = shown_reveal s p now;
      points = pos_part (if veiled s now then p.points_before_result else p.points);
      seat = seat;
      role = p.role;
      nown = if is_nower p.role && playing then get_elem? m.nowns (s.round - 1) else none;
      hand = if p.eliminated then [] else map (λ id. (copy_at s id).card) p.hand;
      reserve_count = if p.eliminated then 0 else length p.reserve;
      capabilities = capabilities moderates m s p seat now;
    }

unfoldable pub project : Bool → TextMatch → TextState → ℕ → ℕ → Snapshot
unfolding private_state public_seats ready_seats shown_ballot begun_from
project moderates m s seat now = record {
  serial = s.phase_serial;
  evidence_seq = length s.history;
  reveal_target = if under_way s.phase then s.reveal_target else none;
  scores = elim (ended_result s) [ none ↦ [] | some r ↦ map score_of r.players ];
  verdict = elim (ended_result s) [ none ↦ none | some r ↦ some (verdict_of r) ];
  round = s.round;
  turn = s.turn;
  current_seat = if has_current s.phase then some (current s) else none;
  phase = s.phase;
  phase_id = s.phase_id;
  server_time_ms = now;
  deadline_ms = s.deadline;
  result_reveal_at_ms = if is_result s.phase then some s.result_reveal_at else none;
  board = s.board;
  seats = public_seats 0 s.players;
  ready_seats = ready_seats s;
  ballot = shown_ballot s now;
  pending_offer = s.pending_offer;
  private = private_state moderates m s (player_at s seat) seat now;
  history = s.history;
  verdict_nowns = elim (ended_result s) [
    | none ↦ []
    | some r ↦ begun_from 0 (take s.round m.nowns)
  ];
}
