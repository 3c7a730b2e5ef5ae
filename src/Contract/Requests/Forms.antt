-- ===== src/Contract/Requests/Forms.antt =====
-- The requests as these modules take them, written out field by field, and when one is in order.
use Prim.Native.String.{String}
use knowoff.Prelude.{◌≡◌, ◌≤◌, Bool, true, false, ◌&&◌, ◌||◌, none, some, not, ltb, leb, ◌==◌}
use knowoff.Prelude.Int.{pos}
use knowoff.Contract.{Phase, Action, ActionRequest, Limits}
use knowoff.Contract.Sequence.{valid_identifier, safe}
use knowoff.Contract.Texts.{codes, text_valid}
use knowoff.Contract.Snapshot.{ActionKind, capability}
use knowoff.Contract.Events.{phase_is}
use knowoff.Contract.Requests.{absent, ident, ResolutionText, RawAction, RawRequest, any_text}

abbrev pub bare : ActionKind → RawAction
bare k = record {
  kind = some k;
  copy_id = absent;
  rating = none;
  slot = none;
  target_seat = none;
  target_copy_id = absent;
  offer_id = absent;
  resolution = ResolutionText.no_resolution;
  count = none;
  phrase_id = "";
  text = "";
  ui_locale = "";
}

abbrev pub resolution_text : Bool → ResolutionText
resolution_text true = ResolutionText.says_accept
resolution_text false = ResolutionText.says_refuse

abbrev pub kind_of : Action → ActionKind
kind_of Action.pass = ActionKind.pass_kind
kind_of Action.view_reveal = ActionKind.view_reveal_kind
kind_of Action.free_card = ActionKind.free_card_kind
kind_of Action.shuffle = ActionKind.shuffle_kind
kind_of Action.revote = ActionKind.revote_kind
kind_of Action.ready = ActionKind.ready_kind
kind_of (Action.reveal t) = ActionKind.reveal_kind
kind_of (Action.respond id) = ActionKind.respond_kind
kind_of (Action.place id rating) = ActionKind.place_kind
kind_of (Action.replace id slot) = ActionKind.replace_kind
kind_of (Action.offer id t copy) = ActionKind.offer_kind
kind_of (Action.resolve_offer o accepts) = ActionKind.resolve_offer_kind
kind_of (Action.top id copy) = ActionKind.top_kind
kind_of (Action.draw n) = ActionKind.draw_kind
kind_of (Action.vote t) = ActionKind.vote_kind
kind_of (Action.poke t) = ActionKind.poke_kind
kind_of (Action.chat phrase text locale) = ActionKind.chat_kind

-- The action as it is decoded.
unfoldable pub raw_action : Action → RawAction
raw_action (Action.reveal t) = record (bare ActionKind.reveal_kind) { target_seat = some (pos t) }
raw_action (Action.respond id) = record (bare ActionKind.respond_kind) { copy_id = ident id }
raw_action (Action.place id rating) = record (bare ActionKind.place_kind) {
  copy_id = ident id;
  rating = some (pos rating);
}
raw_action (Action.replace id slot) = record (bare ActionKind.replace_kind) {
  copy_id = ident id;
  slot = some (pos slot);
}
raw_action (Action.offer id t copy) = record (bare ActionKind.offer_kind) {
  copy_id = ident id;
  target_seat = some (pos t);
  target_copy_id = ident copy;
}
raw_action (Action.resolve_offer o accepts) = record (bare ActionKind.resolve_offer_kind) {
  offer_id = ident o;
  resolution = resolution_text accepts;
}
raw_action (Action.top id copy) = record (bare ActionKind.top_kind) {
  copy_id = ident id;
  target_copy_id = ident copy;
}
raw_action (Action.draw n) = record (bare ActionKind.draw_kind) { count = some (pos n) }
raw_action (Action.vote t) = record (bare ActionKind.vote_kind) { target_seat = some (pos t) }
raw_action (Action.poke t) = record (bare ActionKind.poke_kind) { target_seat = some (pos t) }
raw_action (Action.chat phrase text locale) = record (bare ActionKind.chat_kind) {
  phrase_id = phrase;
  text = text;
  ui_locale = locale;
}
raw_action Action.pass = bare ActionKind.pass_kind
raw_action Action.view_reveal = bare ActionKind.view_reveal_kind
raw_action Action.free_card = bare ActionKind.free_card_kind
raw_action Action.shuffle = bare ActionKind.shuffle_kind
raw_action Action.revote = bare ActionKind.revote_kind
raw_action Action.ready = bare ActionKind.ready_kind

abbrev pub raw_request : ActionRequest → RawRequest
raw_request q = record {
  version = 2;
  request_id = ident q.request_id;
  match_id = ident q.match_id;
  mode_id = some q.mode_id;
  round = pos q.round;
  turn = pos q.turn;
  phase = some q.phase;
  phase_id = ident q.phase_id;
  expected_board_revision = q.expected_board_revision;
  action = raw_action q.action;
}

-- The ranges of an action's own numbers and texts.
unfoldable pub ranges_fit : (String → Bool) → Limits → Action → Bool
unfolding valid_identifier text_valid
ranges_fit language_valid l (Action.reveal t) = ltb t 6
ranges_fit language_valid l (Action.place id rating) = leb 1 rating && leb rating 5
ranges_fit language_valid l (Action.replace id slot) = ltb slot 3
ranges_fit language_valid l (Action.offer id t copy) = ltb t 6 && not (id == copy)
ranges_fit language_valid l (Action.top id copy) = not (id == copy)
ranges_fit language_valid l (Action.draw n) = ltb 0 n && safe n
ranges_fit language_valid l (Action.vote t) = ltb t 6
ranges_fit language_valid l (Action.poke t) = ltb t 6
ranges_fit language_valid l (Action.chat phrase text locale) =
    language_valid locale
    && (valid_identifier (codes phrase) && not (any_text text)
        || not (any_text phrase) && text_valid (codes text) l)
ranges_fit language_valid l _ = true

-- A request in order: its action may be offered in its mode and phase, its numbers are in their
-- ranges, and a turn is named where one is under way.
pub record RequestFits (language_valid : String → Bool) (l : Limits) (q : ActionRequest)
    : Type 0 where
  pub round_low : 1 ≤ q.round
  pub round_high : q.round ≤ 3
  pub turn_high : q.turn ≤ 6
  pub revision : safe q.expected_board_revision ≡ true
  pub offered : capability (kind_of q.action) q.mode_id q.phase ≡ true
  pub ranges : ranges_fit language_valid l q.action ≡ true
  pub turn_low :
      (phase_is q.phase Phase.play || phase_is q.phase Phase.trade_response) ≡ true → 1 ≤ q.turn
