-- ===== src/Game/ViewExamples.antt =====
-- Snapshots of the sample match, at which the theorems on projections and on places are applied.
use knowoff.Prelude.{◌≡◌, refl, true, Option, none, some, List, [], ◌∷◌, arith, modify, lookup}
use knowoff.Prelude.Int.{pos}
use knowoff.Contract.{ModeId, Phase, Card, Role, Action, SpecialtyId}
use knowoff.Contract.Snapshot.{RevealShown, ActionKind, capability, capabilities_valid}
use knowoff.Contract.Requests.Forms.{ranges_fit}
use knowoff.Game.State.{TextMatch, TextState, TextPending, Result, ok, err, GameError, copy_at}
use knowoff.Game.Turns.{current}
use knowoff.Game.Offers.{owned}
use knowoff.Game.Actions.{act, turn_action, play_card}
use knowoff.Game.Projection.{
  project, private_state, capabilities, phase_capabilities, shown_reveal, begun_from,
}
use knowoff.Game.Projection.Alike.{ViewAlike}
use knowoff.Game.Projection.Secrecy.{project-ViewAlike}
use knowoff.Game.Projection.Offered.{project-capabilities_valid}
use knowoff.Game.Projection.Parts.{Has}
use knowoff.Game.Projection.Accepted.{Askable, act-Has}
use knowoff.Game.VisibleText.{ContentRef, visible_text, in_cards, in_board, in_history, in_nowns}
use knowoff.Game.VisibleText.Shown.{Judged, visible_text-Judged}
use knowoff.Game.Conservation.{
  validate_state, check_players, check_copies, check_copy, check_board, copy_fits, seeded,
  check_snapshots,
}
use knowoff.Game.Conservation.Conserved.{Conserved, validate_state-Conserved}
use knowoff.Game.Examples.{sample_match, sample_state, sample_pending}

-- The same match with other prompts, and the same state with the roles of two seats exchanged, other
-- cards in their hands and another score: seat 3 cannot tell.
abbrev other_match : TextMatch
other_match = record sample_match {
  nowns = record { content_id = "n1"; revision = 1; text = "rain" } ∷ [];
  seed = 8;
}

abbrev other_state : TextState
other_state = record sample_state {
  players =
      modify
        (modify sample_state.players 1 (λ p. record p { role = Role.donower; hand = 12 ∷ 14 ∷ [] }))
        2
        (λ p. record p {
          role = Role.nower;
          hand = [];
          reserve = 11 ∷ [];
          points = pos 4;
          specialty = SpecialtyId.pass_card;
        });
}

sample-ViewAlike : ViewAlike sample_match other_match sample_state other_state 3 2000
unfolding modify lookup copy_at
sample-ViewAlike = record {
  mode = refl;
  timers = refl;
  table = record {
    round = refl;
    turn = refl;
    order = refl;
    phase = refl;
    phase_id = refl;
    phase_serial = refl;
    deadline = refl;
    result_reveal_at = refl;
    board = refl;
    history = refl;
    pending_offer = refl;
    reveal_target = refl;
    shuffle_used = refl;
    revote_used = refl;
    ready = refl;
    votes = refl;
    ballot_kind = refl;
    candidates = refl;
    ballot_result = tt;
    result = λ h. refl;
    players = (
      record { connected = refl; eliminated = refl; role = λ h. refl },
      (
        record { connected = refl; eliminated = refl; role = λ h. absurd (ground arith) },
        (
          record { connected = refl; eliminated = refl; role = λ h. absurd (ground arith) },
          (record { connected = refl; eliminated = refl; role = λ h. refl }, tt),
        ),
      ),
    );
  };
  own = record {
    role = refl;
    connected = refl;
    eliminated = refl;
    points = λ h. refl;
    points_before = λ h. refl;
    specialty = λ h. refl;
    free_draws = λ h. refl;
    reveal_used = λ h. refl;
    reveal_until = λ h. refl;
    hand = λ h. refl;
    reserve = λ h. refl;
  };
  reveal_cards = λ h k. refl;
  prompt = λ h. absurd (ground arith);
  prompts = λ h. absurd (ground arith);
}

project-ViewAlike_example :
    project true sample_match sample_state 3 2000 ≡ project true other_match other_state 3 2000
project-ViewAlike_example =
    project-ViewAlike sample_match other_match sample_state other_state 3 2000 sample-ViewAlike true

-- In Bad Bargains, seat 0 is to answer an offer of seat 1.
abbrev bargain_match : TextMatch
bargain_match = record sample_match { mode_id = ModeId.bad_bargains }

abbrev bargaining : TextState
bargaining = record sample_state {
  turn = 2;
  phase = Phase.trade_response;
  pending_offer = some (record {
    offer_id = 1;
    proposer_seat = 1;
    recipient_seat = 0;
    offered_copy_id = 11;
    requested_copy_id = 20;
    board_revision = 1;
    deadline_ms = 16000;
  });
}

bargain_offered :
    (project true bargain_match bargaining 0 2000).private.capabilities
    ≡ ActionKind.chat_kind ∷ ActionKind.poke_kind ∷ ActionKind.resolve_offer_kind ∷ []
unfolding project private_state capabilities phase_capabilities
bargain_offered = refl

project-capabilities_valid_example :
    capabilities_valid bargain_match.mode_id (project true bargain_match bargaining 0 2000) ≡ true
project-capabilities_valid_example =
    project-capabilities_valid true bargain_match bargaining 0 2000 (omega arith) (λ trading. refl)

sample_accepted : validate_state (λ snapshot. none) true sample_match sample_state 2000 ≡ none
unfolding validate_state check_players check_copies check_copy check_board copy_fits seeded lookup
    check_snapshots
sample_accepted = refl

validate_state-Conserved_example : Conserved sample_match sample_state
validate_state-Conserved_example =
    validate_state-Conserved sample_match sample_state (λ snapshot. none) true 2000 sample_accepted

sample-Conserved : Conserved sample_match sample_state
sample-Conserved =
    validate_state-Conserved sample_match sample_state (λ snapshot. none) true 2000 sample_accepted

abbrev pending_of : Result TextPending → TextPending
pending_of (ok p) = p
pending_of (err e) = sample_pending

abbrev responded : TextPending
responded = pending_of (act sample_match sample_pending 0 (Action.respond 10) 2000)

responded_ok : act sample_match sample_pending 0 (Action.respond 10) 2000 ≡ ok responded
unfolding act turn_action current owned lookup play_card
responded_ok = refl

respond-Askable : Askable true (λ tag. true) sample_match sample_state (Action.respond 10)
unfolding capability ranges_fit
respond-Askable = record { fits = refl; ranges = refl; moderated = λ h. absurd (ground arith) }

act-Has_example :
    Has ActionKind.respond_kind
      (project true sample_match sample_pending.state 0 2000).private.capabilities
act-Has_example =
    act-Has true (λ tag. true) sample_match sample_pending responded 0 2000 (Action.respond 10)
      sample-Conserved refl refl respond-Askable responded_ok

-- Seat 0 asks for a card of its hand.
abbrev asked : ContentRef
asked = record { content_id = "ice"; revision = 1 }

visible_text-Judged_example :
    Judged
      (project true sample_match sample_state 0 2000)
      asked
      (visible_text (λ v. none) true sample_match sample_state 0 asked 2000)
visible_text-Judged_example =
    visible_text-Judged (λ v. none) true sample_match sample_state 0 asked 2000 (omega arith) refl
      refl

-- Seat 0 looks at the cards of seat 1, and asks for one of them.
abbrev looking : TextState
looking = record sample_state {
  reveal_target = some 1;
  reveal_cards = some (record {
    target_seat = 1;
    hand = (copy_at sample_state 11).card ∷ [];
    reserve = [];
    specialty = SpecialtyId.no_card;
  });
  players = modify sample_state.players 0 (λ p. record p { reveal_until = 9000 });
}

abbrev looked_at : ContentRef
looked_at = record { content_id = "tea"; revision = 1 }

abbrev revealed_hand : Option RevealShown → List Card
revealed_hand none = []
revealed_hand (some r) = r.view.hand

looking_shown :
    revealed_hand (project true sample_match looking 0 2000).private.reveal
    ≡ (copy_at sample_state 11).card ∷ []
unfolding project private_state shown_reveal modify
looking_shown = refl

looked_at_unresolved :
    visible_text (λ v. none) true sample_match looking 0 looked_at 2000 ≡ err GameError.unauthorized
unfolding visible_text project private_state in_cards in_board in_history in_nowns begun_from modify
    copy_at lookup
looked_at_unresolved = refl
