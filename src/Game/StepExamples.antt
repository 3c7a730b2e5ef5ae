-- ===== src/Game/StepExamples.antt =====
-- Single steps of a match, at which the laws of turns, trades and ballots are applied.
use knowoff.Prelude.{
  ℕ, zero, suc, ◌<◌, true, false, ◌≡◌, ◌↔◌, Option, none, some, [], ◌∷◌, refl, arith, ◌⊎◌, elem,
  modify, get_elem?,
}
use knowoff.Contract.{Phase, BallotOutcome, Role}
use knowoff.Game.State.{
  TextState, TextMatch, TextPending, Result, ok, err, GameError, TextPlayer, Outcome, player_at,
}
use knowoff.Game.Turns.{next_turn, enter_phase, set_player}
use knowoff.Game.Rounds.{begin_round, clear_round, retire_board, seed_budget, deal_seeds}
use knowoff.Game.Turns.Settles.{Arrives, next_turn-Arrives}
use knowoff.Game.Turns.Seeds.{RoundError}
use knowoff.Game.Offers.{resolve_offer}
use knowoff.Game.Ballots.{tied, tally, ballot_of, tied_from, maximum_from, tally_at}
use knowoff.Game.Endings.{
  finalize_vote, absence_end, team_gone, low_population, finish, ended, settle_players,
}
use knowoff.Game.Ballots.Points.{Settled, finish-Settled}
use knowoff.Game.Ballots.Settles.{HasResult, NextRound, finalize_vote-leads, finalize_vote_error}
use knowoff.Game.Ballots.Plurality.{Leads, tied-Leads, voted_out-majority}
use knowoff.Game.Advance.{
  advance, record_absences, advance_in, mark_absences, new_abandons, mark_absent, all_ready,
}
use knowoff.Game.Clock.{Idle, match_clock, earliest_grace, phase_wakeup}
use knowoff.Game.Clock.Exact.{match_clock-Idle}
use knowoff.Game.Advance.Bound.{Running, Clocks}
use knowoff.Game.Advance.Total.{Succeeds, advance-Succeeds}
use knowoff.Game.Examples.{sample_match, sample_state, sample_pending}

step-Clocks : Clocks sample_match
step-Clocks = record { turn = omega arith; runoff = omega arith }

-- The discussion is over, with two votes left.
abbrev discussed : TextPending
discussed = record sample_pending {
  state = record sample_state { phase = Phase.discussion; turn = 4 };
}

discussed_Running : Running sample_match discussed.state
discussed_Running = record {
  undecided = refl;
  votes_left = omega arith;
  begun = omega arith;
  schedule = refl;
  not_over = λ e. cc;
  seat_on_turn = λ e. cc;
  offer_open = λ e. cc;
}

next_turn-Arrives_example :
    Arrives sample_match 2000 sample_state (next_turn sample_match sample_state 2000)
next_turn-Arrives_example = next_turn-Arrives sample_match sample_state 2000 (omega arith)

-- A discussion that runs until 30000, with a grace that ends at 20000, and nothing to do at 1000.
abbrev talking : TextPending
talking = record discussed {
  state =
      set_player (record discussed.state { deadline = 30000 }) 1
        (λ v. record v { connected = false; grace_deadline = 20000 });
}

talking-Idle : Idle sample_match talking 1000
unfolding record_absences absence_end advance_in mark_absences new_abandons mark_absent team_gone
    low_population all_ready set_player modify
talking-Idle = record { present = refl; populated = refl; nothing_due = refl }

talking_clock : match_clock talking.state ≡ some 20000
unfolding match_clock earliest_grace phase_wakeup set_player modify
talking_clock = refl

match_clock-Idle_example :
    (Idle sample_match talking 19999 × (advance sample_match talking 19999 ≡ ok talking))
    ↔ (19999 < 20000)
unfolding set_player modify
match_clock-Idle_example =
    match_clock-Idle sample_match talking 1000 19999 20000 refl talking_clock talking-Idle

-- Seats 0, 1 and 2 vote: two of them for seat 2.
abbrev votes : ℕ → Option ℕ
votes zero = some 2
votes (suc zero) = some 2
votes (suc (suc zero)) = some 0
votes _ = none

abbrev voted : TextState
voted = record sample_state { phase = Phase.knowoff_ballot; votes = votes }

tied-Leads_example : (elem 2 (tied voted) ≡ true) ↔ Leads voted 2
tied-Leads_example = tied-Leads voted 2

voted_out-majority_example : tally_at voted 0 < tally_at voted 2
unfolding tied tied_from maximum_from tally ballot_of
voted_out-majority_example = voted_out-majority voted 2 0 refl (omega arith) (λ e. omega (arith, e))

-- Seat 3 is voted out, and one donower is left.
abbrev counted : TextPending
counted = record sample_pending {
  state = record sample_state {
    phase = Phase.result_window;
    ballot_result =
        some (record { outcome = BallotOutcome.elimination; seat = some 3; revealed_role = none });
  };
}

abbrev pending_of : Result TextPending → TextPending
pending_of (ok p) = p
pending_of (err e) = sample_pending

abbrev next_round : TextPending
next_round = pending_of (finalize_vote sample_match counted 50000)

finalize_vote_ok : finalize_vote sample_match counted 50000 ≡ ok next_round
unfolding finalize_vote begin_round clear_round retire_board enter_phase seed_budget set_player
    modify deal_seeds
finalize_vote_ok = refl

finalize_vote-leads_example : HasResult next_round.state ⊎ NextRound counted.state next_round.state
finalize_vote-leads_example =
    finalize_vote-leads sample_match counted 50000 next_round finalize_vote_ok

-- A release whose second round has one seed too many.
abbrev bad_match : TextMatch
bad_match = record sample_match {
  seeds =
      []
      ∷ (record { copy_id = 90; content = record { content_id = "x"; revision = 1; text = "x" } }
          ∷ [])
      ∷ [];
}

finalize_vote_refused : finalize_vote bad_match counted 50000 ≡ err GameError.seed_budget
unfolding finalize_vote begin_round clear_round retire_board enter_phase seed_budget set_player
    modify deal_seeds
finalize_vote_refused = refl

finalize_vote_error_example : RoundError bad_match GameError.seed_budget
finalize_vote_error_example =
    finalize_vote_error bad_match counted 50000 GameError.seed_budget (omega arith)
      finalize_vote_refused

abbrev final_player : TextPlayer
final_player =
    player_at (finish sample_match counted Outcome.completed (some Role.nower) 60000).state 1

final_found :
    get_elem?
      (finish sample_match counted Outcome.completed (some Role.nower) 60000).state.players
      1
    ≡ some final_player
unfolding finish ended enter_phase settle_players resolve_offer
final_found = refl

finish-Settled_example :
    Settled sample_match Outcome.completed
      (some Role.nower)
      (finish sample_match counted Outcome.completed (some Role.nower) 60000)
      1
      final_player
finish-Settled_example =
    finish-Settled sample_match Outcome.completed (some Role.nower) counted 60000 1 final_player
      refl final_found

advance-Succeeds_example : Succeeds sample_match (advance sample_match discussed 40000)
unfolding seed_budget
advance-Succeeds_example =
    advance-Succeeds sample_match discussed 40000 step-Clocks (omega arith) refl discussed_Running
