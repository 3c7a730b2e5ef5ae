-- ===== src/Contract/History/Examples.antt =====
-- A short history, its pages, and the theorems on histories at it.
use knowoff.Prelude.{
  ℕ, ◌+◌, ◌*◌, ◌%◌, ◌≡◌, refl, true, none, some, List, [], ◌∷◌, length, arith, ◌⊎◌,
}
use knowoff.Contract.{Card, Actor, Phase, EventKind, Reason, PublicAction, Limits, ErrorCode}
use knowoff.Contract.Sequence.{limits_valid, valid_identifier, same_text}
use knowoff.Contract.Events.{event_valid}
use knowoff.Contract.Texts.{codes}
use knowoff.Contract.History.{
  Codec, IsCodec, HistoryPage, HistoryManifest, ok, err, validate_history, paginate_history,
  assemble_history, hash_limit, may_follow, fill_page, manifest_of, page_error, page_in_limits,
  page_cursor_valid,
}
use knowoff.Contract.History.Pages.{Names, NamesValid}
use knowoff.Contract.History.Gathering.{Oversized}
use knowoff.Contract.History.RoundTrip.{assemble_history-paginate_history}
use knowoff.Contract.History.Acceptance.{
  PagesAccepted, Accepted, HashesTell, assemble_history-Accepted, paginate_history-PagesAccepted,
  assemble_history_unique,
}

abbrev counting : Codec
counting = record {
  events_hash = λ es. length es % hash_limit;
  root_hash = λ hs. length hs % hash_limit;
  page_bytes = λ p. 100 * length p.events;
  language_valid = λ tag. true;
}

counting-IsCodec : IsCodec counting
counting-IsCodec = record {
  events_hash_fits = λ es. omega arith;
  root_hash_fits = λ hs. omega arith;
  page_bytes_hash = λ p h small small'. refl;
}

abbrev sample_limits : Limits
sample_limits = record {
  max_frame_bytes = 250;
  max_history_events = 10;
  max_history_page_events = 5;
  max_text_bytes = 40;
  max_requests_per_seat = 3;
}

abbrev card_one : Card
card_one = record {
  copy_id = 11;
  content = record { content_id = "c1"; revision = 1; text = "An umbrella" };
}

abbrev event_at : ℕ → Phase → Actor → EventKind → List Card → Reason → PublicAction
event_at n phase actor kind cards reason = record {
  event_id = n;
  evidence_seq = n;
  round = 1;
  phase = phase;
  phase_id = 1;
  actor = actor;
  kind = kind;
  cards = cards;
  before_revision = n;
  after_revision = n;
  reason = reason;
  server_time_ms = 1000 + n;
  deadline_ms = none;
  count = none;
  rating = none;
  slot = none;
  target_seat = none;
  offer_id = none;
  resolution = none;
  phrase_id = "";
  text = "";
  ui_locale = "";
  ballot = none;
}

abbrev sample_events : List PublicAction
sample_events =
    event_at 1 Phase.round_start Actor.system EventKind.seed_event (card_one ∷ [])
      Reason.seed_reason
    ∷ event_at 2 Phase.play (Actor.at_seat 0) EventKind.respond_event (card_one ∷ []) Reason.player
    ∷ event_at 3 Phase.play (Actor.at_seat 1) EventKind.auto_pass_event [] Reason.timeout
    ∷ []

abbrev sample_names : Names
sample_names = record { match_id = codes "m1"; snapshot_id = codes "m1.s4"; epoch = codes "ep" }

sample-NamesValid : NamesValid sample_names
unfolding valid_identifier
sample-NamesValid = record { match_valid = refl; snapshot_valid = refl; epoch_valid = refl }

sample_limits_valid : limits_valid sample_limits ≡ true
unfolding limits_valid
sample_limits_valid = refl

sample_history_valid : validate_history counting sample_limits 1 sample_events ≡ none
unfolding validate_history event_valid may_follow
sample_history_valid = refl

-- Two events fit a frame.
abbrev page_of : ℕ → ℕ → ℕ → List PublicAction → HistoryPage
page_of index from through es = record {
  version = 2;
  match_id = codes "m1";
  snapshot_id = codes "m1.s4";
  stream_epoch = codes "ep";
  index = index;
  from_evidence_seq = from;
  through_evidence_seq = through;
  events = es;
  sha256 = length es;
}

abbrev sample_pages : List HistoryPage
sample_pages =
    page_of 0 1 2 (
      event_at 1 Phase.round_start Actor.system EventKind.seed_event (card_one ∷ [])
        Reason.seed_reason
      ∷ event_at 2 Phase.play (Actor.at_seat 0) EventKind.respond_event (card_one ∷ [])
          Reason.player
      ∷ [])
    ∷ page_of 1 3 3
        (event_at 3 Phase.play (Actor.at_seat 1) EventKind.auto_pass_event [] Reason.timeout ∷ [])
    ∷ []

abbrev sample_manifest : HistoryManifest
sample_manifest = record {
  total_events = 3;
  page_count = 2;
  through_evidence_seq = 3;
  root_sha256 = 2;
}

sample_pages_made :
    paginate_history counting sample_limits (codes "m1") (codes "m1.s4") (codes "ep") sample_events
    ≡ some (ok (sample_manifest, sample_pages))
unfolding paginate_history limits_valid valid_identifier validate_history event_valid may_follow
    fill_page manifest_of
sample_pages_made = refl

sample_pages_assembled :
    assemble_history counting sample_limits sample_manifest sample_pages
      (codes "m1")
      (codes "m1.s4")
      (codes "ep")
    ≡ ok sample_events
unfolding assemble_history limits_valid page_error page_in_limits page_cursor_valid valid_identifier
    validate_history event_valid may_follow same_text
sample_pages_assembled = refl

assemble_history-paginate_history_example :
    ((paginate_history counting sample_limits
          (codes "m1")
          (codes "m1.s4")
          (codes "ep")
          sample_events
        ≡ some (err ErrorCode.frame_too_large))
      × Oversized counting sample_limits sample_names 0 sample_events)
    ⊎ ((manifest : HistoryManifest) × (pages : List HistoryPage) × (paginate_history counting
            sample_limits
            (codes "m1")
            (codes "m1.s4")
            (codes "ep")
            sample_events
          ≡ some (ok (manifest, pages)))
        × (assemble_history counting sample_limits manifest pages
              (codes "m1")
              (codes "m1.s4")
              (codes "ep")
            ≡ ok sample_events))
assemble_history-paginate_history_example =
    assemble_history-paginate_history counting sample_limits sample_names counting-IsCodec
      sample-NamesValid sample_limits_valid sample_events (omega arith) sample_history_valid

paginate_history-PagesAccepted_example :
    PagesAccepted counting sample_limits sample_names 0 sample_pages
paginate_history-PagesAccepted_example =
    paginate_history-PagesAccepted counting sample_limits sample_names counting-IsCodec
      sample-NamesValid sample_limits_valid sample_events (omega arith) sample_history_valid
      sample_manifest sample_pages sample_pages_made

assemble_history-Accepted_example :
    Accepted counting sample_limits sample_names sample_manifest sample_pages sample_events
assemble_history-Accepted_example =
    assemble_history-Accepted counting sample_limits sample_names sample_manifest sample_pages
      sample_events sample_pages_assembled

sample-HashesTell : HashesTell counting sample_limits sample_names sample_pages sample_pages
sample-HashesTell = record { by_page = (λ h. refl, (λ h. refl, tt)); by_root = λ h. refl }

assemble_history_unique_example : ◌≡◌ {A = List PublicAction} sample_events sample_events
assemble_history_unique_example =
    assemble_history_unique counting sample_limits sample_names sample_manifest sample_pages
      sample_pages sample_events sample_events sample-HashesTell sample_pages_assembled
      sample_pages_assembled
