-- ===== src/Contract/Requests/Reading.antt =====
-- An action that passes its checks, read off its fields.
use Prim.Native.String.{String}
use knowoff.Prelude.{
  ℕ, ◌≡◌, refl, ◌≤◌, Bool, true, false, ◌&&◌, Option, none, some, ltb, arith, if◌then◌else◌,
}
use knowoff.Prelude.Int.{ℤ, pos, negsuc}
use knowoff.Contract.Sequence.{safe}
use knowoff.Contract.Snapshot.{ActionKind}
use knowoff.Contract.Events.{present}
use knowoff.Contract.Requests.{
  IdText, absent, malformed_id, ident, ResolutionText, RawAction, any_text, is_id, given, in_range,
  count_given, answered, permitted, no_other_field, RequestField,
}
use knowoff.Contract.Requests.Forms.{resolution_text}

empty_text : (s : String) → any_text s ≡ false → s ≡ ""
empty_text String.[] h = refl
empty_text (String.◌∷◌ c s) h = absurd (ground arith)

pub is_id-ident : (t : IdText) → is_id t ≡ true → (n : ℕ) × (t ≡ ident n)
is_id-ident absent h = absurd (ground arith)
is_id-ident malformed_id h = absurd (ground arith)
is_id-ident (ident n) h = (n, refl)

given-absent : (t : IdText) → given t ≡ false → t ≡ absent
given-absent t h = ground arith

pub in_range-pos :
    (lo hi : ℕ) (v : Option ℤ)
    → in_range lo hi v ≡ true
    → (n : ℕ) × (v ≡ some (pos n)) × (lo ≤ n) × (n ≤ hi)
in_range-pos lo hi none h = absurd (ground arith)
in_range-pos lo hi (some (pos n)) h = (n, refl, ground arith, ground arith)
in_range-pos lo hi (some (negsuc n)) h = absurd (ground arith)

pub count_given-pos :
    (v : Option ℤ)
    → count_given v ≡ true
    → (n : ℕ) × (v ≡ some (pos n)) × ((ltb 0 n && safe n) ≡ true)
count_given-pos none h = absurd (ground arith)
count_given-pos (some (pos n)) h = (n, refl, h)
count_given-pos (some (negsuc n)) h = absurd (ground arith)

present-none : (v : Option ℤ) → present v ≡ false → v ≡ none
present-none v h = ground arith

pub answered-text : (t : ResolutionText) → answered t ≡ true → (b : Bool) × (t ≡ resolution_text b)
answered-text ResolutionText.no_resolution h = absurd (ground arith)
answered-text ResolutionText.says_accept h = (true, refl)
answered-text ResolutionText.says_refuse h = (false, refl)
answered-text ResolutionText.says_other h = absurd (ground arith)

-- What the table of permitted fields leaves of an action of a kind.
pub record Bare (k : ActionKind) (a : RawAction) : Type 0 where
  pub copy : permitted k RequestField.copy_key ≡ false → a.copy_id ≡ absent
  pub rating : permitted k RequestField.rating_key ≡ false → a.rating ≡ none
  pub slot : permitted k RequestField.slot_key ≡ false → a.slot ≡ none
  pub target : permitted k RequestField.target_seat_key ≡ false → a.target_seat ≡ none
  pub target_copy : permitted k RequestField.target_copy_key ≡ false → a.target_copy_id ≡ absent
  pub offer : permitted k RequestField.offer_key ≡ false → a.offer_id ≡ absent
  pub resolution :
      permitted k RequestField.resolution_key ≡ false → a.resolution ≡ ResolutionText.no_resolution
  pub count : permitted k RequestField.count_key ≡ false → a.count ≡ none
  pub phrase : permitted k RequestField.phrase_key ≡ false → a.phrase_id ≡ ""
  pub text : permitted k RequestField.text_key ≡ false → a.text ≡ ""
  pub locale : permitted k RequestField.locale_key ≡ false → a.ui_locale ≡ ""

pub no_other_field-Bare : (k : ActionKind) (a : RawAction) → no_other_field k a ≡ true → Bare k a
unfolding no_other_field
no_other_field-Bare k a h = record {
  copy = λ p. given-absent a.copy_id (ground arith);
  rating = λ p. present-none a.rating (ground arith);
  slot = λ p. present-none a.slot (ground arith);
  target = λ p. present-none a.target_seat (ground arith);
  target_copy = λ p. given-absent a.target_copy_id (ground arith);
  offer = λ p. given-absent a.offer_id (ground arith);
  resolution = λ p. ground arith;
  count = λ p. present-none a.count (ground arith);
  phrase = λ p. empty_text a.phrase_id (ground arith);
  text = λ p. empty_text a.text (ground arith);
  locale = λ p. empty_text a.ui_locale (ground arith);
}

-- The action with the fields of its kind only.
abbrev pub restricted : ActionKind → RawAction → RawAction
restricted k a = record {
  kind = some k;
  copy_id = if permitted k RequestField.copy_key then a.copy_id else absent;
  rating = if permitted k RequestField.rating_key then a.rating else none;
  slot = if permitted k RequestField.slot_key then a.slot else none;
  target_seat = if permitted k RequestField.target_seat_key then a.target_seat else none;
  target_copy_id = if permitted k RequestField.target_copy_key then a.target_copy_id else absent;
  offer_id = if permitted k RequestField.offer_key then a.offer_id else absent;
  resolution =
      if permitted k RequestField.resolution_key
      then a.resolution
      else ResolutionText.no_resolution;
  count = if permitted k RequestField.count_key then a.count else none;
  phrase_id = if permitted k RequestField.phrase_key then a.phrase_id else "";
  text = if permitted k RequestField.text_key then a.text else "";
  ui_locale = if permitted k RequestField.locale_key then a.ui_locale else "";
}

-- A field that is taken if it is permitted, and is the default if it is not.
kept {ℓ} : {A : Type ℓ} (b : Bool) (v d : A) → (b ≡ false → v ≡ d) → v ≡ (if b then v else d)
kept true v d h = refl
kept false v d h = h refl

pub Bare-restricted :
    (k : ActionKind) (a : RawAction) → a.kind ≡ some k → Bare k a → a ≡ restricted k a
Bare-restricted k a e b = ground (
  arith,
  e,
  kept (permitted k RequestField.copy_key) a.copy_id absent b.copy,
  kept (permitted k RequestField.rating_key) a.rating none b.rating,
  kept (permitted k RequestField.slot_key) a.slot none b.slot,
  kept (permitted k RequestField.target_seat_key) a.target_seat none b.target,
  kept (permitted k RequestField.target_copy_key) a.target_copy_id absent b.target_copy,
  kept (permitted k RequestField.offer_key) a.offer_id absent b.offer,
  kept (permitted k RequestField.resolution_key) a.resolution ResolutionText.no_resolution
      b.resolution,
  kept (permitted k RequestField.count_key) a.count none b.count,
  kept (permitted k RequestField.phrase_key) a.phrase_id "" b.phrase,
  kept (permitted k RequestField.text_key) a.text "" b.text,
  kept (permitted k RequestField.locale_key) a.ui_locale "" b.locale,
)
