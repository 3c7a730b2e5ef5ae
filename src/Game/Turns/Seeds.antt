-- ===== src/Game/Turns/Seeds.antt =====
-- Which seeds of a round `beginRound` of server/internal/game/text_actions.go refuses.
use Prim.Native.String.{String}
use text.Mathlib.Text.{◌==◌ as str_eq}
use text.Mathlib.TextEquality.{eq_iff}
use knowoff.Prelude.{
  ℕ, zero, suc, ◌+◌, Bool, true, false, ◌&&◌, ◌≡◌, ◌≢◌, List, [], ◌∷◌, ◌++◌, length, get_elem?,
  some, all, not, refl, sym, ◌∙◌, inl, inr, arith, Bool-cases, any, if◌then◌else◌, ◌==◌, ◌⊎◌,
}
use knowoff.Contract.{Card}
use knowoff.Game.State.{TextState, TextMatch, err, GameError, is_bad_bargains, player_at}
use knowoff.Game.Rounds.{seed_budget, deal_to_board, deal_seeds}

-- Seeds of which no two have the same text.
abbrev pub distinct_texts : List Card → Bool
distinct_texts [] = true
distinct_texts (c ∷ cs) =
    not (any (λ d. str_eq c.content.text d.content.text) cs) && distinct_texts cs

-- As many seeds as the mode needs, with different texts.
abbrev pub seeds_fit : TextMatch → List Card → Bool
seeds_fit m seeds = (length seeds == seed_budget m.mode_id m.original_size) && distinct_texts seeds

-- The ways a round can fail to begin, where the seeds of some round do not fit.
abbrev pub RoundError : TextMatch → GameError → Type 0
RoundError m e =
    ((e ≡ GameError.seed_text) ⊎ (e ≡ GameError.seed_budget)) × (all (seeds_fit m) m.seeds ≡ false)

abbrev pub apart : List String → List Card → Bool
apart texts seeds = all (λ c. not (any (str_eq c.content.text) texts)) seeds

str_sym : (a b : String) → str_eq a b ≡ str_eq b a
str_sym a b = elim (Bool-cases (str_eq a b)) [
  | inl same ↦ same ∙ sym ((eq_iff b a).1 (sym ((eq_iff a b).0 same)))
  | inr other ↦ elim (Bool-cases (str_eq b a)) [
    | inl back ↦ (eq_iff a b).1 (sym ((eq_iff b a).0 back)) ∙ sym back
    | inr also ↦ other ∙ sym also
  ]
]

apart-extend :
    (c : Card) (texts : List String) (seeds : List Card)
    → any (λ d. str_eq c.content.text d.content.text) seeds ≡ false
    → apart texts seeds ≡ true
    → apart (c.content.text ∷ texts) seeds ≡ true
apart-extend c texts [] h k = refl
apart-extend c texts (d ∷ seeds) h k =
    ground (arith, str_sym c.content.text d.content.text, apart-extend c texts seeds)

pub deal_seeds-distinct :
    (m : TextMatch) (s : TextState) (i : ℕ) (texts : List String) (emitted seeds : List Card)
    (e : GameError)
    → distinct_texts seeds ≡ true
    → apart texts seeds ≡ true
    → deal_seeds m s i texts emitted seeds ≢ err e
unfolding deal_seeds
deal_seeds-distinct m s i texts emitted [] e d k h = cc
deal_seeds-distinct m s i texts emitted (c ∷ seeds) e d k h =
    let skip = is_bad_bargains m.mode_id && (player_at s i).eliminated in
    let new : any (str_eq c.content.text) texts ≡ false = ground arith in
    deal_seeds-distinct m (if skip then s else deal_to_board m s i c) (i + 1)
      (c.content.text ∷ texts) (if skip then emitted else emitted ++ c ∷ []) seeds e (ground arith)
      (apart-extend c texts seeds (ground arith) (ground arith)) (rw (new, deal_seeds) at h)

pub apart-nothing : (seeds : List Card) → apart [] seeds ≡ true
apart-nothing [] = refl
apart-nothing (c ∷ seeds) = apart-nothing seeds

pub all-get_elem? :
    (p : List Card → Bool) (xs : List (List Card)) (i : ℕ) (x : List Card)
    → get_elem? xs i ≡ some x
    → p x ≡ false
    → all p xs ≡ false
all-get_elem? p [] i x h k = cc
all-get_elem? p (y ∷ xs) zero x h k = let e : y ≡ x = cc in rw (e, k)
all-get_elem? p (y ∷ xs) (suc i) x h k = ground (arith, all-get_elem? p xs i x h k)
