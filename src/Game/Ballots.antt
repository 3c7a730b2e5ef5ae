-- ===== src/Game/Ballots.antt =====
-- Ballots: resolveVote, recordBallot and award of server/internal/game/text_actions.go. A vote's key is a seat, so the map of votes is read seat by seat.
pub mod Settles
pub mod Plurality
pub mod Points
use knowoff.Prelude.{
  ℕ, zero, suc, ◌+◌, ◌-◌, Bool, true, false, ◌&&◌, ◌||◌, Option, none, some, List, [], ◌∷◌, ◌++◌,
  length, not, ltb, leb, ◌==◌, if◌then◌else◌, count_if, seats_where, any,
}
use knowoff.Prelude.Int.{ℤ, pos, ◌+ℤ◌, clamp_low}
use knowoff.Contract.{
  Phase, Role, Reason, EventKind, Resolution, BallotResult, BallotState, BallotVote, BallotOutcome,
  PublicAction,
}
use knowoff.Game.State.{
  TextState, TextPlayer, TextMatch, TextPending, TextAwardEvent, AwardKind, TextResult,
  TextPlayerResult, Outcome, Winner, Result, ok, ◌>>=◌, player_at, is_active, is_donower, is_nower,
}
use knowoff.Game.Turns.{enter_phase, event, set_player, after}
use knowoff.Game.Rounds.{begin_round}
use knowoff.Game.Offers.{cancel_offer}

-- The ballot of a seat that may still vote.
unfoldable pub ballot_of : (ℕ → Option ℕ) → ℕ → TextPlayer → Option ℕ
ballot_of votes seat p = if is_active p then votes seat else none

-- `tally[target]`
unfoldable pub tally : (ℕ → Option ℕ) → ℕ → List TextPlayer → ℕ → ℕ
tally votes i [] target = 0
tally votes i (p ∷ ps) target =
    let rest = tally votes (suc i) ps target in
    elim (ballot_of votes i p) [ none ↦ rest | some t ↦ if t == target then suc rest else rest ]

abbrev pub tally_at : TextState → ℕ → ℕ
tally_at s = tally s.votes 0 s.players

abbrev larger : ℕ → ℕ → ℕ
larger a b = if ltb a b then b else a

-- The largest tally of a ballot cast, over the seats from `i` on.
unfoldable pub maximum_from : (ℕ → Option ℕ) → (ℕ → ℕ) → ℕ → List TextPlayer → ℕ
maximum_from votes votes_for i [] = 0
maximum_from votes votes_for i (p ∷ ps) =
    let rest = maximum_from votes votes_for (suc i) ps in
    elim (ballot_of votes i p) [ none ↦ rest | some t ↦ larger (votes_for t) rest ]

unfoldable pub tied_from : (ℕ → ℕ) → ℕ → ℕ → List TextPlayer → List ℕ
tied_from votes_for maximum i ps =
    seats_where (λ seat p. ltb 0 (votes_for seat) && (votes_for seat == maximum)) i ps

unfoldable pub tied : TextState → List ℕ
tied s = tied_from (tally_at s) (maximum_from s.votes (tally_at s) 0 s.players) 0 s.players

unfoldable pub ballot_votes : (ℕ → Option ℕ) → ℕ → List TextPlayer → List BallotVote
ballot_votes votes i [] = []
ballot_votes votes i (p ∷ ps) =
    let rest = ballot_votes votes (suc i) ps in
    elim (ballot_of votes i p) [
      | none ↦ rest
      | some target ↦ record { seat = i; target_seat = target } ∷ rest
    ]

-- The public record of a ballot never carries the role.
unfoldable pub record_ballot : TextState → BallotResult → ℕ → TextState
record_ballot s result now =
    event s none EventKind.ballot_result_event
      (if leb s.deadline now then Reason.timeout else Reason.player) now s.board.revision []
      λ e. record e {
        ballot = some (record {
          kind = s.phase;
          candidates = s.candidates;
          votes = ballot_votes s.votes 0 s.players;
          result = some (record result { revealed_role = none });
        });
      }

abbrev award_amount : TextMatch → ℕ → ℕ
award_amount m amount = if m.rewards then amount else 0

unfoldable pub award : TextMatch → TextPending → ℕ → AwardKind → ℕ → ℕ → Bool → ℕ → TextPending
award m p seat kind ordinal amount discreet now = record p {
  awards =
      p.awards
      ++ record {
        seat = seat;
        kind = kind;
        ordinal = ordinal;
        occurred_at = now;
        amount = award_amount m amount;
        discreet = discreet;
      }
        ∷ [];
}

-- The loop that scores the votes cast, over the seats from `i` on.
unfoldable pub score_vote : TextMatch → TextPending → ℕ → ℕ → TextPlayer → TextPending
score_vote m p now i v =
    let saved = set_player p.state i (λ q. record q { points_before_result = q.points }) in
    elim (ballot_of p.state.votes i v) [
      | none ↦ record p { state = saved }
      | some target ↦
          let cast = set_player saved i (λ q. record q { votes_cast = q.votes_cast + 1 }) in
          if is_donower (player_at p.state target).role
          then award m
              (record p {
                state = set_player cast i λ q. record q {
                  correct_votes = q.correct_votes + 1;
                  points = q.points +ℤ pos m.points.correct_vote;
                };
              })
              i AwardKind.correct_vote_award p.state.round m.noin.correct_vote false now
          else record p { state = cast }
    ]

unfoldable pub score_votes : TextMatch → TextPending → ℕ → ℕ → List TextPlayer → TextPending
score_votes m p now i [] = p
score_votes m p now i (v ∷ vs) = score_votes m (score_vote m p now i v) now (suc i) vs

-- A donower who is not voted out survives; `out` is the seat voted out, if any.
abbrev pub survives : Option ℕ → ℕ → TextPlayer → Bool
survives none i v = not v.eliminated && is_donower v.role
survives (some seat) i v = not v.eliminated && (is_donower v.role && not (seat == i))

unfoldable pub survived : TextMatch → TextPending → ℕ → ℕ → Bool → TextPending
survived m p now i true =
    award m
      (record p { state = set_player p.state i (λ q. record q { survivals = q.survivals + 1 }) }) i
      AwardKind.donower_vote_survived_award p.state.round m.noin.donower_vote_survived true now
survived m p now i false = p

unfoldable pub score_survivals :
    TextMatch → TextPending → Option ℕ → ℕ → ℕ → List TextPlayer → TextPending
score_survivals m p out now i [] = p
score_survivals m p out now i (v ∷ vs) =
    score_survivals m (survived m p now i (survives out i v)) out now (suc i) vs

-- The seat voted out, if the ballot has one winner.
abbrev pub voted_out : List ℕ → Option ℕ
voted_out (seat ∷ []) = some seat
voted_out _ = none

abbrev pub result_of : TextState → Option ℕ → BallotResult
result_of s none = record { outcome = BallotOutcome.miss; seat = none; revealed_role = none }
result_of s (some seat) = record {
  outcome = BallotOutcome.elimination;
  seat = some seat;
  revealed_role = some (player_at s seat).role;
}

abbrev pub is_knowoff : Phase → Bool
is_knowoff Phase.knowoff_ballot = true
is_knowoff _ = false

abbrev to_runoff_result : BallotResult
to_runoff_result = record { outcome = BallotOutcome.to_runoff; seat = none; revealed_role = none }

unfoldable pub start_runoff : TextMatch → TextState → List ℕ → ℕ → TextState
start_runoff m s tied_seats now =
    enter_phase
      (record (record_ballot s to_runoff_result now) {
        candidates = tied_seats;
        votes = λ seat. none;
        ballot_kind = some Phase.runoff;
      })
      Phase.runoff now m.timers.knowoff_runoff

unfoldable pub close_ballot : TextMatch → TextPending → Option ℕ → ℕ → TextPending
close_ballot m p out now =
    let s = p.state in
    let result = result_of s out in
    let told = record_ballot (record s { ballot_result = some result }) result now in
    let scored = score_votes m (record p { state = told }) now 0 told.players in
    let survived = score_survivals m scored out now 0 scored.state.players in
    let entered = enter_phase survived.state Phase.result_window now m.timers.vote_result_window in
    record survived {
      state = record entered { result_reveal_at = after now m.timers.vote_result_falling };
    }

unfoldable pub resolve_vote : TextMatch → TextPending → ℕ → TextPending
resolve_vote m p now =
    let seats = tied p.state in
    if ltb 1 (length seats) && is_knowoff p.state.phase
    then record p { state = start_runoff m p.state seats now }
    else close_ballot m p (voted_out seats) now
