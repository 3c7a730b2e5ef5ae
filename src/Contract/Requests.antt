-- ===== src/Contract/Requests.antt =====
-- The form of a request: ActionRequest.Validate of server/internal/transport/v2/validate.go, over a
-- request as it is decoded, where every field may be missing or out of range. An `ActionRequest` of
-- these modules is a request that passes.
pub mod Forms
mod Reading
mod Kinds
mod Exact
mod Examples
use Prim.Native.String.{String}
use knowoff.Prelude.{
  ℕ, ◌+◌, Bool, true, false, ◌&&◌, ◌||◌, Option, none, some, List, [], ◌∷◌, length, not, ltb, leb,
  ◌==◌, if◌then◌else◌, all,
}
use knowoff.Prelude.Int.{ℤ, pos, negsuc}
use knowoff.Contract.{ModeId, Phase, Limits, ErrorCode, phase_rank, mode_rank}
use knowoff.Contract.Sequence.{valid_identifier, safe}
use knowoff.Contract.Texts.{codes, text_valid}
use knowoff.Contract.Snapshot.{ActionKind}
use knowoff.Contract.Events.{phase_is, present}

-- A text that should be an identifier: empty, no identifier, or one.
pub data IdText : Type 0 where
  absent malformed_id : IdText
  ident : ℕ → IdText

pub data ResolutionText : Type 0 where
  no_resolution says_accept says_refuse says_other : ResolutionText

pub record RawAction : Type 0 where
  -- `none` is a kind that is not known.
  pub kind : Option ActionKind
  pub copy_id : IdText
  pub rating : Option ℤ
  pub slot : Option ℤ
  pub target_seat : Option ℤ
  pub target_copy_id : IdText
  pub offer_id : IdText
  pub resolution : ResolutionText
  pub count : Option ℤ
  pub phrase_id : String
  pub text : String
  pub ui_locale : String

pub record RawRequest : Type 0 where
  pub version : ℕ
  pub request_id : IdText
  pub match_id : IdText
  pub mode_id : Option ModeId
  pub round : ℤ
  pub turn : ℤ
  pub phase : Option Phase
  pub phase_id : IdText
  pub expected_board_revision : ℕ
  pub action : RawAction

abbrev pub is_id : IdText → Bool
is_id (ident n) = true
is_id _ = false

abbrev pub given : IdText → Bool
given absent = false
given _ = true

abbrev pub same_id : IdText → IdText → Bool
same_id (ident a) (ident b) = a == b
same_id absent absent = true
same_id malformed_id malformed_id = true
same_id _ _ = false

-- Between two bounds.
abbrev pub in_range : ℕ → ℕ → Option ℤ → Bool
in_range lo hi (some (pos n)) = leb lo n && leb n hi
in_range lo hi _ = false

abbrev pub any_text : String → Bool
any_text s = ltb 0 (length (codes s))

-- The fields of an action beside its kind.
pub data RequestField : Type 0 where
  copy_key rating_key slot_key target_seat_key target_copy_key offer_key : RequestField
  resolution_key count_key phrase_key text_key locale_key : RequestField

unfoldable pub permitted : ActionKind → RequestField → Bool
permitted ActionKind.reveal_kind RequestField.target_seat_key = true
permitted ActionKind.respond_kind RequestField.copy_key = true
permitted ActionKind.place_kind RequestField.copy_key = true
permitted ActionKind.place_kind RequestField.rating_key = true
permitted ActionKind.replace_kind RequestField.copy_key = true
permitted ActionKind.replace_kind RequestField.slot_key = true
permitted ActionKind.offer_kind RequestField.copy_key = true
permitted ActionKind.offer_kind RequestField.target_seat_key = true
permitted ActionKind.offer_kind RequestField.target_copy_key = true
permitted ActionKind.resolve_offer_kind RequestField.offer_key = true
permitted ActionKind.resolve_offer_kind RequestField.resolution_key = true
permitted ActionKind.top_kind RequestField.copy_key = true
permitted ActionKind.top_kind RequestField.target_copy_key = true
permitted ActionKind.draw_kind RequestField.count_key = true
permitted ActionKind.vote_kind RequestField.target_seat_key = true
permitted ActionKind.poke_kind RequestField.target_seat_key = true
permitted ActionKind.chat_kind RequestField.phrase_key = true
permitted ActionKind.chat_kind RequestField.text_key = true
permitted ActionKind.chat_kind RequestField.locale_key = true
permitted _ _ = false

abbrev pub says_something : ResolutionText → Bool
says_something ResolutionText.no_resolution = false
says_something _ = true

unfoldable pub field_given : RawAction → RequestField → Bool
field_given a RequestField.copy_key = given a.copy_id
field_given a RequestField.rating_key = present a.rating
field_given a RequestField.slot_key = present a.slot
field_given a RequestField.target_seat_key = present a.target_seat
field_given a RequestField.target_copy_key = given a.target_copy_id
field_given a RequestField.offer_key = given a.offer_id
field_given a RequestField.resolution_key = says_something a.resolution
field_given a RequestField.count_key = present a.count
field_given a RequestField.phrase_key = any_text a.phrase_id
field_given a RequestField.text_key = any_text a.text
field_given a RequestField.locale_key = any_text a.ui_locale

abbrev pub request_fields : List RequestField
request_fields =
    RequestField.copy_key ∷ RequestField.rating_key ∷ RequestField.slot_key
    ∷ RequestField.target_seat_key ∷ RequestField.target_copy_key ∷ RequestField.offer_key
    ∷ RequestField.resolution_key ∷ RequestField.count_key ∷ RequestField.phrase_key
    ∷ RequestField.text_key ∷ RequestField.locale_key ∷ []

unfoldable pub no_other_field : ActionKind → RawAction → Bool
unfolding field_given permitted
no_other_field k a = all (λ f. not (field_given a f) || permitted k f) request_fields

abbrev pub seat_given : Option ℤ → Bool
seat_given n = in_range 0 5 n

abbrev pub count_given : Option ℤ → Bool
count_given (some (pos n)) = ltb 0 n && safe n
count_given _ = false

abbrev pub answered : ResolutionText → Bool
answered ResolutionText.says_accept = true
answered ResolutionText.says_refuse = true
answered _ = false

unfoldable pub words_fit : (String → Bool) → RawAction → Limits → Bool
unfolding valid_identifier text_valid
words_fit language_valid a l =
    language_valid a.ui_locale
    && (valid_identifier (codes a.phrase_id) && not (any_text a.text)
        || not (any_text a.phrase_id) && text_valid (codes a.text) l)

-- The switch over the kinds: the phase, the mode and the fields that a kind requires.
unfoldable pub variant_valid :
    (String → Bool) → ActionKind → ModeId → Phase → RawAction → Limits → Bool
unfolding words_fit
variant_valid language_valid k mode phase a l =
    let playing = phase_is phase Phase.play in
    let trading = phase_is phase Phase.trade_response in
    let voting = phase_is phase Phase.knowoff_ballot || phase_is phase Phase.runoff in
    let talking = phase_is phase Phase.discussion in
    let begun = not (phase_is phase Phase.round_start) && not (phase_is phase Phase.verdict) in
    elim k [
      | ActionKind.pass_kind ↦ playing
      | ActionKind.free_card_kind ↦ playing
      | ActionKind.reveal_kind ↦ playing && seat_given a.target_seat
      | ActionKind.view_reveal_kind ↦ begun
      | ActionKind.shuffle_kind ↦ playing || trading
      | ActionKind.revote_kind ↦ voting
      | ActionKind.respond_kind ↦
          (mode_rank mode == mode_rank ModeId.missed_the_briefing) && playing
      | ActionKind.place_kind ↦
          (mode_rank mode == mode_rank ModeId.secret_scale) && (playing && in_range 1 5 a.rating)
      | ActionKind.replace_kind ↦
          (mode_rank mode == mode_rank ModeId.make_room) && (playing && in_range 0 2 a.slot)
      | ActionKind.offer_kind ↦
          (mode_rank mode == mode_rank ModeId.bad_bargains)
          && (playing
              && (seat_given a.target_seat
                  && (is_id a.target_copy_id && not (same_id a.copy_id a.target_copy_id))))
      | ActionKind.resolve_offer_kind ↦
          (mode_rank mode == mode_rank ModeId.bad_bargains)
          && (trading && (is_id a.offer_id && answered a.resolution))
      | ActionKind.top_kind ↦
          (mode_rank mode == mode_rank ModeId.top_that)
          && (playing && (is_id a.target_copy_id && not (same_id a.copy_id a.target_copy_id)))
      | ActionKind.draw_kind ↦ playing && count_given a.count
      | ActionKind.vote_kind ↦ voting && seat_given a.target_seat
      | ActionKind.ready_kind ↦ talking || (voting || phase_is phase Phase.result_window)
      | ActionKind.poke_kind ↦
          (playing || (trading || (talking || voting))) && seat_given a.target_seat
      | ActionKind.chat_kind ↦ begun && words_fit language_valid a l
    ]

-- The checks of the action once its request is identified.
unfoldable pub action_error :
    (String → Bool) → Option ActionKind → ModeId → Phase → ℤ → RawAction → Limits → Option ErrorCode
unfolding variant_valid no_other_field
action_error language_valid none mode phase turn a l = some ErrorCode.invalid_action
action_error language_valid (some k) mode phase turn a l =
    if not (variant_valid language_valid k mode phase a l)
    then some ErrorCode.invalid_action
    else (if not (no_other_field k a)
        then some ErrorCode.invalid_action
        else (if permitted k RequestField.copy_key && not (is_id a.copy_id)
            then some ErrorCode.invalid_action
            else (if (phase_is phase Phase.play || phase_is phase Phase.trade_response)
                  && not (in_range 1 6 (some turn))
                then some ErrorCode.invalid_action
                else none)))

abbrev pub identified : RawRequest → Bool
identified r =
    is_id r.request_id
    && (is_id r.match_id
        && (in_range 1 3 (some r.round)
            && (in_range 0 6 (some r.turn)
                && (is_id r.phase_id && safe r.expected_board_revision))))

abbrev pub checked_parts :
    (String → Bool) → RawRequest → Limits → Option ModeId → Option Phase → Option ErrorCode
checked_parts language_valid r l (some mode) (some phase) =
    if identified r
    then action_error language_valid r.action.kind mode phase r.turn r.action l
    else some ErrorCode.malformed
checked_parts language_valid r l _ _ = some ErrorCode.malformed

-- `ActionRequest.Validate`
unfoldable pub request_error : (String → Bool) → RawRequest → Limits → Option ErrorCode
unfolding action_error
request_error language_valid r l =
    if not (r.version == 2)
    then some ErrorCode.version
    else checked_parts language_valid r l r.mode_id r.phase
