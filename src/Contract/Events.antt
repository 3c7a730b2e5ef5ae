-- ===== src/Contract/Events.antt =====
-- The checks on one public event: PublicAction.validate and BallotState.validateEvidence of
-- server/internal/transport/v2/history.go. Every refusal has the code `malformed`, so a check is a
-- Boolean. A phase, a kind, a reason and a resolution are always among the known ones here, a list of
-- cards is never nil, and a formatted id always has the form of an identifier.
use Prim.Native.String.{String}
use knowoff.Prelude.{
  ℕ, Bool, true, false, ◌&&◌, ◌||◌, Option, none, some, List, [], ◌∷◌, length, not, ltb, leb, ◌==◌,
  if◌then◌else◌, all, elem, count_if, map,
}
use knowoff.Contract.{
  Phase, Card, Actor, Reason, EventKind, BallotOutcome, BallotResult, BallotVote, BallotState,
  PublicAction, Limits, phase_rank,
}
use knowoff.Contract.Sequence.{valid_identifier, safe, clock}
use knowoff.Contract.Texts.{codes, text_valid, card_valid, seat_valid, actor_valid}

abbrev pub phase_is : Phase → Phase → Bool
phase_is a b = phase_rank a == phase_rank b

abbrev pub at_some_seat : Actor → Bool
at_some_seat Actor.system = false
at_some_seat (Actor.at_seat n) = true

-- No number twice.
unfoldable pub no_repeats : List ℕ → Bool
no_repeats [] = true
no_repeats (x ∷ xs) = not (elem x xs) && no_repeats xs

abbrev pub present {ℓ} : {A : Type ℓ} → Option A → Bool
present none = false
present (some a) = true

abbrev optional : Option ℕ → (ℕ → Bool) → Bool
optional none test = true
optional (some n) test = test n

-- `ptrSeat(e.TargetSeat, 6) && *e.TargetSeat != *e.Actor.Seat`
abbrev pub other_target : Actor → Option ℕ → Bool
other_target Actor.system target = false
other_target (Actor.at_seat a) none = false
other_target (Actor.at_seat a) (some t) = seat_valid t 6 && not (t == a)

unfoldable pub votes_on : List BallotVote → ℕ → ℕ
votes_on votes candidate = count_if (λ v. v.target_seat == candidate) votes

unfoldable pub most_votes : List BallotVote → List ℕ → ℕ
unfolding votes_on
most_votes votes [] = 0
most_votes votes (c ∷ cs) =
    let rest = most_votes votes cs in if ltb rest (votes_on votes c) then votes_on votes c else rest

-- The candidates with a vote and the most votes.
unfoldable pub ballot_winners : List BallotVote → List ℕ → List ℕ → List ℕ
unfolding votes_on most_votes
ballot_winners votes candidates [] = []
ballot_winners votes candidates (c ∷ cs) =
    let rest = ballot_winners votes candidates cs in
    if ltb 0 (votes_on votes c) && (votes_on votes c == most_votes votes candidates)
    then c ∷ rest
    else rest

unfoldable pub outcome_fits : Phase → List ℕ → ℕ → BallotResult → Bool
outcome_fits kind winners maximum r = elim r.outcome [
  | BallotOutcome.elimination ↦ elim winners [
    | [] ↦ false
    | w ∷ more ↦ (length more == 0) && elim r.seat [ none ↦ false | some chosen ↦ chosen == w ]
  ]
  | BallotOutcome.to_runoff ↦
      phase_is kind Phase.knowoff_ballot && (leb 2 (length winners) && not (present r.seat))
  | BallotOutcome.miss ↦
      not (present r.seat)
      && (not (length winners == 1) && not (phase_is kind Phase.knowoff_ballot && ltb 0 maximum))
]

unfoldable pub evidence_result : BallotState → BallotResult → Bool
unfolding outcome_fits ballot_winners most_votes
evidence_result b r =
    not (present r.revealed_role)
    && outcome_fits b.kind (ballot_winners b.votes b.candidates b.candidates)
        (most_votes b.votes b.candidates) r

unfoldable pub vote_fits : BallotState → ℕ → BallotVote → Bool
vote_fits b size v =
    seat_valid v.seat size && (elem v.target_seat b.candidates && not (v.seat == v.target_seat))

-- `BallotState.validateEvidence`
unfoldable pub evidence_valid : BallotState → ℕ → Bool
unfolding evidence_result vote_fits no_repeats
evidence_valid b size =
    (phase_is b.kind Phase.knowoff_ballot || phase_is b.kind Phase.runoff)
    && (leb 2 (length b.candidates)
        && (leb (length b.candidates) size
            && (all (λ p. seat_valid p size) b.candidates
                && (no_repeats b.candidates
                    && (all (vote_fits b size) b.votes
                        && (no_repeats (map (λ v. v.seat) b.votes)
                            && elim b.result [ none ↦ false | some r ↦ evidence_result b r ]))))))

-- The optional fields of an event.
pub data Field : Type 0 where
  rating_field slot_field offer_field resolution_field count_field target_field : Field
  phrase_field text_field locale_field ballot_field : Field

unfoldable pub field_allowed : EventKind → Field → Bool
field_allowed EventKind.reveal_event Field.target_field = true
field_allowed EventKind.place_event Field.rating_field = true
field_allowed EventKind.replace_event Field.slot_field = true
field_allowed EventKind.offer_event Field.offer_field = true
field_allowed EventKind.offer_event Field.target_field = true
field_allowed EventKind.resolve_offer_event Field.offer_field = true
field_allowed EventKind.resolve_offer_event Field.resolution_field = true
field_allowed EventKind.draw_event Field.count_field = true
field_allowed EventKind.vote_event Field.target_field = true
field_allowed EventKind.poke_event Field.target_field = true
field_allowed EventKind.chat_event Field.phrase_field = true
field_allowed EventKind.chat_event Field.text_field = true
field_allowed EventKind.chat_event Field.locale_field = true
field_allowed EventKind.ballot_result_event Field.ballot_field = true
field_allowed _ _ = false

abbrev no_text : String → Bool
no_text s = length (codes s) == 0

unfoldable pub field_present : PublicAction → Field → Bool
field_present e Field.rating_field = present e.rating
field_present e Field.slot_field = present e.slot
field_present e Field.offer_field = present e.offer_id
field_present e Field.resolution_field = present e.resolution
field_present e Field.count_field = present e.count
field_present e Field.target_field = present e.target_seat
field_present e Field.phrase_field = not (no_text e.phrase_id)
field_present e Field.text_field = not (no_text e.text)
field_present e Field.locale_field = not (no_text e.ui_locale)
field_present e Field.ballot_field = present e.ballot

abbrev fields : List Field
fields =
    Field.rating_field ∷ Field.slot_field ∷ Field.offer_field ∷ Field.resolution_field
    ∷ Field.count_field ∷ Field.target_field ∷ Field.phrase_field ∷ Field.text_field
    ∷ Field.locale_field ∷ Field.ballot_field ∷ []

unfoldable pub fields_allowed : PublicAction → Bool
unfolding field_present field_allowed
fields_allowed e = all (λ f. not (field_present e f) || field_allowed e.kind f) fields

abbrev rating_in_range : ℕ → Bool
rating_in_range r = leb 1 r && leb r 5

abbrev auto_reason : Reason → List Card → Bool
auto_reason Reason.timeout cards = true
auto_reason Reason.disconnect cards = true
auto_reason Reason.no_recipient cards = length cards == 0
auto_reason _ cards = false

abbrev by_player : Reason → Bool
by_player Reason.player = true
by_player _ = false

abbrev by_seed : Reason → Bool
by_seed Reason.seed_reason = true
by_seed _ = false

unfoldable pub chat_fits : (String → Bool) → PublicAction → Limits → Bool
unfolding valid_identifier text_valid
chat_fits language_valid e l =
    by_player e.reason
    && (not (phase_is e.phase Phase.round_start)
        && (not (phase_is e.phase Phase.verdict)
            && (language_valid e.ui_locale
                && (valid_identifier (codes e.phrase_id) && no_text e.text
                    || no_text e.phrase_id && text_valid (codes e.text) l))))

-- The case of each kind, and the phase that some kinds need besides.
unfoldable pub variant_fits : (String → Bool) → EventKind → PublicAction → Limits → Bool
unfolding chat_fits evidence_valid
variant_fits language_valid k e l =
    let seat_acts = at_some_seat e.actor in
    let shown = length e.cards in
    let in_play = phase_is e.phase Phase.play in
    let voting = phase_is e.phase Phase.knowoff_ballot || phase_is e.phase Phase.runoff in
    let one_other = other_target e.actor e.target_seat in
    elim k [
      | EventKind.pass_event ↦ seat_acts && ((shown == 0) && in_play)
      | EventKind.free_card_event ↦ seat_acts && ((shown == 0) && in_play)
      | EventKind.reveal_event ↦ seat_acts && ((shown == 0) && (one_other && in_play))
      | EventKind.shuffle_event ↦
          not seat_acts && (leb shown 6 && (in_play || phase_is e.phase Phase.trade_response))
      | EventKind.revote_event ↦ seat_acts && ((shown == 0) && voting)
      | EventKind.seed_event ↦
          phase_is e.phase Phase.round_start
          && (not seat_acts && (by_seed e.reason && (ltb 0 shown && leb shown 6)))
      | EventKind.respond_event ↦ seat_acts && ((shown == 1) && in_play)
      | EventKind.place_event ↦
          seat_acts
          && ((shown == 1)
              && (elim e.rating [ none ↦ false | some r ↦ rating_in_range r ] && in_play))
      | EventKind.replace_event ↦
          seat_acts
          && ((shown == 2) && (elim e.slot [ none ↦ false | some n ↦ ltb n 3 ] && in_play))
      | EventKind.top_event ↦ seat_acts && ((shown == 2) && in_play)
      | EventKind.offer_event ↦
          seat_acts
          && ((shown == 2)
              && (present e.offer_id && (one_other && (present e.deadline_ms && in_play))))
      | EventKind.resolve_offer_event ↦
          present e.offer_id
          && ((shown == 2) && (present e.resolution && phase_is e.phase Phase.trade_response))
      | EventKind.draw_event ↦
          seat_acts
          && ((shown == 0)
              && (elim e.count [ none ↦ false | some n ↦ ltb 0 n && safe n ] && in_play))
      | EventKind.auto_pass_event ↦
          seat_acts && (leb shown 1 && (auto_reason e.reason e.cards && in_play))
      | EventKind.vote_event ↦ seat_acts && ((shown == 0) && (one_other && voting))
      | EventKind.poke_event ↦ seat_acts && ((shown == 0) && one_other)
      | EventKind.ready_event ↦ seat_acts && (shown == 0)
      | EventKind.chat_event ↦ seat_acts && ((shown == 0) && chat_fits language_valid e l)
      | EventKind.ballot_result_event ↦
          not seat_acts
          && ((shown == 0)
              && ((e.before_revision == e.after_revision) && elim e.ballot [
                | none ↦ false
                | some b ↦ phase_is b.kind e.phase && evidence_valid b 6
              ]))
    ]

-- `PublicAction.validate`
unfoldable pub event_valid : (String → Bool) → PublicAction → Limits → Bool
unfolding variant_fits fields_allowed card_valid no_repeats
event_valid language_valid e l =
    not (e.evidence_seq == 0)
    && (safe e.evidence_seq
        && (leb 1 e.round
            && (leb e.round 3
                && (safe e.before_revision
                    && (safe e.after_revision
                        && (leb e.before_revision e.after_revision
                            && (clock e.server_time_ms
                                && (optional e.deadline_ms clock
                                    && (actor_valid e.actor 6
                                        && (leb (length e.cards) l.max_history_events
                                            && (all (λ c. card_valid c l) e.cards
                                                && (no_repeats (map (λ c. c.copy_id) e.cards)
                                                    && (variant_fits language_valid e.kind e l
                                                        && fields_allowed e)))))))))))))
