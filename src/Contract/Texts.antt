-- ===== src/Contract/Texts.antt =====
-- The checks on texts, cards and actors in server/internal/transport/v2/validate.go, and the
-- identifier and language syntax that they use. A text is its code points; ValidContentLanguage
-- asks a library for BCP 47 tags, so it is the parameter `language_valid` where it is needed.
use Prim.Native.String.{String}
use Prim.Native.Char.{code}
use knowoff.Prelude.{
  ℕ, ◌+◌, Bool, true, false, ◌&&◌, ◌||◌, Option, none, some, List, [], ◌∷◌, not, ltb, leb, ◌==◌,
  if◌then◌else◌, all, any,
}
use knowoff.Contract.{TextContent, Card, Actor, Limits}
use knowoff.Contract.Sequence.{valid_identifier, safe}

abbrev pub codes : String → List ℕ
codes String.[] = []
codes (String.◌∷◌ c s) = code c ∷ codes s

-- The bytes of a code point in UTF-8.
unfoldable pub rune_bytes : ℕ → ℕ
rune_bytes r =
    if leb r 0x7F then 1 else (if leb r 0x7FF then 2 else (if leb r 0xFFFF then 3 else 4))

unfoldable pub text_bytes : List ℕ → ℕ
unfolding rune_bytes
text_bytes [] = 0
text_bytes (r ∷ rs) = rune_bytes r + text_bytes rs

-- `unicode.IsSpace`, which `strings.TrimSpace` cuts at both ends.
unfoldable pub is_space : ℕ → Bool
is_space r =
    leb 9 r && leb r 13
    || (any (λ s. s == r)
          (0x20 ∷ 0x85 ∷ 0xA0 ∷ 0x1680 ∷ 0x2028 ∷ 0x2029 ∷ 0x202F ∷ 0x205F ∷ 0x3000 ∷ [])
        || leb 0x2000 r && leb r 0x200A)

unfoldable pub is_control : ℕ → Bool
is_control r = leb r 0x1F || leb 0x7F r && leb r 0x9F

-- The replacement character and the marks that change the direction of writing.
unfoldable pub is_refused : ℕ → Bool
unfolding is_control
is_refused r =
    is_control r
    || ((r == 0xFFFD) || (leb 0x202A r && leb r 0x202E || leb 0x2066 r && leb r 0x2069))

unfoldable pub text_valid : List ℕ → Limits → Bool
unfolding text_bytes is_space is_refused
text_valid rs l =
    not (all is_space rs)
    && (leb (text_bytes rs) l.max_text_bytes && all (λ r. not (is_refused r)) rs)

unfoldable pub content_valid : TextContent → Limits → Bool
unfolding valid_identifier text_valid
content_valid c l =
    valid_identifier (codes c.content_id)
    && (not (c.revision == 0) && (safe c.revision && text_valid (codes c.text) l))

-- A copy id is a UUID, whose form is always that of an identifier.
unfoldable pub card_valid : Card → Limits → Bool
unfolding content_valid
card_valid c l = content_valid c.content l

-- `seat` and `ptrSeat`.
abbrev pub seat_valid : ℕ → ℕ → Bool
seat_valid n size = ltb n size

abbrev pub some_seat : Option ℕ → ℕ → Bool
some_seat none size = false
some_seat (some n) size = seat_valid n size

abbrev pub actor_valid : Actor → ℕ → Bool
actor_valid Actor.system size = true
actor_valid (Actor.at_seat n) size = seat_valid n size
