-- ===== src/Contract/Requests/Exact.antt =====
-- The requests that pass ActionRequest.Validate are exactly those of `ActionRequest` in order.
use Prim.Native.String.{String}
use knowoff.Prelude.{
  ℕ, ◌≡◌, refl, ◌≤◌, ◌↔◌, Bool, true, false, ◌||◌, Option, none, some, not, ◌==◌, if◌then◌else◌,
  arith,
}
use knowoff.Prelude.Int.{ℤ, pos}
use knowoff.Contract.{ModeId, Phase, Action, ActionRequest, Limits, ErrorCode}
use knowoff.Contract.Snapshot.{ActionKind, capability}
use knowoff.Contract.Events.{phase_is}
use knowoff.Contract.Requests.{
  RawAction, RawRequest, is_id, in_range, permitted, no_other_field, variant_valid, words_fit,
  action_error, identified, checked_parts, request_error, RequestField,
}
use knowoff.Contract.Requests.Forms.{kind_of, raw_action, raw_request, ranges_fit, RequestFits}
use knowoff.Contract.Requests.Kinds.{read}
use knowoff.Contract.Requests.Reading.{no_other_field-Bare, is_id-ident, in_range-pos}

is_two : (v : ℕ) → (v == 2) ≡ true → v ≡ 2
is_two v h = ground arith

module _ (language_valid : String → Bool) (l : Limits) where
  -- The four checks of an action that passes.
  action_error-passes :
      (k : ActionKind) (mode : ModeId) (phase : Phase) (turn : ℤ) (a : RawAction)
      → action_error language_valid (some k) mode phase turn a l ≡ none
      → (variant_valid language_valid k mode phase a l ≡ true)
        × (no_other_field k a ≡ true)
        × (permitted k RequestField.copy_key ≡ true → is_id a.copy_id ≡ true)
        × ((phase_is phase Phase.play || phase_is phase Phase.trade_response) ≡ true
            → in_range 1 6 (some turn) ≡ true)
  unfolding action_error
  action_error-passes k mode phase turn a h =
      (ground arith, ground arith, λ p. ground arith, λ p. ground arith)

  action_error_known :
      (kind : Option ActionKind) (mode : ModeId) (phase : Phase) (turn : ℤ) (a : RawAction)
      → action_error language_valid kind mode phase turn a l ≡ none
      → (k : ActionKind) × (kind ≡ some k)
        × (action_error language_valid (some k) mode phase turn a l ≡ none)
  action_error_known none mode phase turn a h = absurd (unfold action_error in ground arith)
  action_error_known (some k) mode phase turn a h = (k, refl, h)

  action_error-raw_action :
      (mode : ModeId) (phase : Phase) (turn : ℕ) (a : Action)
      → capability (kind_of a) mode phase ≡ true
      → ranges_fit language_valid l a ≡ true
      → turn ≤ 6
      → ((phase_is phase Phase.play || phase_is phase Phase.trade_response) ≡ true → 1 ≤ turn)
      → action_error language_valid (some (kind_of a)) mode phase (pos turn) (raw_action a) l ≡ none
  unfolding action_error capability ranges_fit raw_action variant_valid words_fit no_other_field
      permitted
  action_error-raw_action mode phase turn Action.pass c r high low = ground (arith, low)
  action_error-raw_action mode phase turn a c r high low = ground (arith, low)

  -- What the checks before those of the action have seen.
  record Identified (r : RawRequest) : Type 0 where
    mode : ModeId
    phase : Phase
    is_version : r.version ≡ 2
    is_mode : r.mode_id ≡ some mode
    is_phase : r.phase ≡ some phase
    names : identified r ≡ true
    passes : action_error language_valid r.action.kind mode phase r.turn r.action l ≡ none

  checked_parts-passes :
      (r : RawRequest) (mode : Option ModeId) (phase : Option Phase)
      → checked_parts language_valid r l mode phase ≡ none
      → (md : ModeId) × (ph : Phase) × (mode ≡ some md)
        × (phase ≡ some ph)
        × (identified r ≡ true)
        × (action_error language_valid r.action.kind md ph r.turn r.action l ≡ none)
  checked_parts-passes r none none h = absurd (ground arith)
  checked_parts-passes r none (some ph) h = absurd (ground arith)
  checked_parts-passes r (some md) none h = absurd (ground arith)
  checked_parts-passes r (some md) (some ph) h = (md, ph, refl, refl, ground arith, ground arith)

  version_passes :
      (b : Bool) (rest : Option ErrorCode)
      → (if not b then some ErrorCode.version else rest) ≡ none
      → (b ≡ true) × (rest ≡ none)
  version_passes true rest h = (refl, h)
  version_passes false rest h = absurd (ground arith)

  request_error-Identified :
      (r : RawRequest) → request_error language_valid r l ≡ none → Identified r
  unfolding request_error
  request_error-Identified r h =
      let parts =
        version_passes (r.version == 2) (checked_parts language_valid r l r.mode_id r.phase) h in
      let (md, ph, is_md, is_ph, names, passes) =
        checked_parts-passes r r.mode_id r.phase parts.1 in
      record {
        mode = md;
        phase = ph;
        is_version = is_two r.version parts.0;
        is_mode = is_md;
        is_phase = is_ph;
        names = names;
        passes = passes;
      }

  read_request :
      (r : RawRequest)
      → request_error language_valid r l ≡ none
      → (q : ActionRequest) × (r ≡ raw_request q) × RequestFits language_valid l q
  read_request r h =
      let i = request_error-Identified r h in
      let (k, known, passes) =
        action_error_known r.action.kind i.mode i.phase r.turn r.action i.passes in
      let checks = action_error-passes k i.mode i.phase r.turn r.action passes in
      let a =
        read language_valid l i.mode i.phase r.action k known checks.0
          (no_other_field-Bare k r.action checks.1) checks.2 in
      let request = is_id-ident r.request_id (ground (arith, i.names)) in
      let match_name = is_id-ident r.match_id (ground (arith, i.names)) in
      let phase_name = is_id-ident r.phase_id (ground (arith, i.names)) in
      let round = in_range-pos 1 3 (some r.round) (ground (arith, i.names)) in
      let turn = in_range-pos 0 6 (some r.turn) (ground (arith, i.names)) in
      let late = checks.3 in
      (
        record {
          request_id = request.0;
          match_id = match_name.0;
          mode_id = i.mode;
          round = round.0;
          turn = turn.0;
          phase = i.phase;
          phase_id = phase_name.0;
          expected_board_revision = r.expected_board_revision;
          action = a.action;
        },
        ground (
          arith, i.is_version, i.is_mode, i.is_phase, request.1, match_name.1, phase_name.1,
          round.1, turn.1, a.same,
        ),
        record {
          round_low = round.2;
          round_high = round.3;
          turn_high = turn.3;
          revision = ground (arith, i.names);
          offered = rw (a.kind_same) (a.fits);
          ranges = a.ranges;
          turn_low = λ p. ground (arith, turn.1, late p);
        },
      )

  raw_action-kind : (a : Action) → (raw_action a).kind ≡ some (kind_of a)
  unfolding raw_action
  raw_action-kind Action.pass = refl
  raw_action-kind a = ground arith

  pass_request :
      (q : ActionRequest)
      → RequestFits language_valid l q
      → request_error language_valid (raw_request q) l ≡ none
  unfolding request_error
  pass_request q f =
      let low : identified (raw_request q) ≡ true = ground arith in
      let action =
        action_error-raw_action q.mode_id q.phase q.turn q.action f.offered f.ranges f.turn_high
          f.turn_low in
      rw (low, raw_action-kind q.action) action

  -- A decoded request passes the checks of its form exactly when it is one of `ActionRequest`, field
  -- by field, with an action that the table of capabilities allows in its mode and phase, with its
  -- numbers and texts in their ranges, and with a turn where one is under way.
  pub request_error-exact :
      (r : RawRequest)
      → (request_error language_valid r l ≡ none)
        ↔ ((q : ActionRequest) × (r ≡ raw_request q) × RequestFits language_valid l q)
  request_error-exact r = (read_request r, λ p. rw (p.1) (pass_request p.0 p.2))
