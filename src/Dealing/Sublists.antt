-- ===== src/Dealing/Sublists.antt =====
-- Cards taken from a pool in its order, and how much they contribute.
use knowoff.Prelude.{
  ℕ, ◌+◌, ◌≤◌, Bool, true, false, ◌≡◌, List, [], ◌∷◌, ◌++◌, length, leb, all, count_if, refl, ap,
  arith,
}
use knowoff.Dealing.{
  Bands, Dimension, TextDealTuning, dimensions, suffix, need, possible, covers, is_high, is_distant,
}

pub data Sublist : List ℕ → List ℕ → Type 0 where
  nothing : Sublist [] []
  leave : {xs ys : List ℕ} (y : ℕ) → Sublist xs ys → Sublist xs (y ∷ ys)
  keep : {xs ys : List ℕ} (y : ℕ) → Sublist xs ys → Sublist (y ∷ xs) (y ∷ ys)

pub length-Sublist : (xs ys : List ℕ) → Sublist xs ys → length xs ≤ length ys
length-Sublist _ _ nothing = omega arith
length-Sublist xs _ (leave y s) = omega (arith, length-Sublist _ _ s)
length-Sublist _ _ (keep y s) = omega (arith, length-Sublist _ _ s)

pub suffix-Sublist :
    (band : Bands) (d : Dimension) (xs ys : List ℕ)
    → Sublist xs ys
    → suffix band xs d ≤ suffix band ys d
unfolding suffix
suffix-Sublist band d _ _ nothing = omega arith
suffix-Sublist band d xs _ (leave y s) = omega (arith, suffix-Sublist band d _ _ s)
suffix-Sublist band d _ _ (keep y s) = omega (arith, suffix-Sublist band d _ _ s)

pub suffix-append :
    (band : Bands) (d : Dimension) (xs ys : List ℕ)
    → suffix band (xs ++ ys) d ≡ suffix band xs d + suffix band ys d
unfolding suffix
suffix-append band d [] ys = omega arith
suffix-append band d (x ∷ xs) ys = omega (arith, suffix-append band d xs ys)

empty_suffix : (band : Bands) (d : Dimension) → suffix band [] d ≡ 0
unfolding suffix
empty_suffix band d = refl

-- Enough cards of every dimension.
abbrev pub meets : Bands → TextDealTuning → List ℕ → List Dimension → Bool
meets band t cards ds = all (λ d. leb (need t d) (suffix band cards d)) ds

-- A full selection whose dimensions are all possible meets them.
pub possible-meets :
    (band : Bands) (t : TextDealTuning) (counts rest : Dimension → ℕ) (cards : List ℕ)
    (ds : List Dimension)
    → ((d : Dimension) → counts d ≡ suffix band cards d)
    → all (possible t true counts rest) ds ≡ true
    → meets band t cards ds ≡ true
possible-meets band t counts rest cards [] same h = refl
possible-meets band t counts rest cards (d ∷ ds) same h =
    ground (arith, same d, possible-meets band t counts rest cards ds same)

-- A selection that can be completed has all its dimensions possible.
pub meets-possible :
    (band : Bands) (t : TextDealTuning) (full : Bool) (counts : Dimension → ℕ)
    (cards extra pool : List ℕ) (ds : List Dimension)
    → ((d : Dimension) → counts d ≡ suffix band cards d)
    → Sublist extra pool
    → (full ≡ true → extra ≡ [])
    → meets band t (cards ++ extra) ds ≡ true
    → all (possible t full counts (suffix band pool)) ds ≡ true
meets-possible band t full counts cards extra pool [] same s ends h = refl
meets-possible band t true counts cards extra pool (d ∷ ds) same s ends h =
    let none_left = ap (λ x. suffix band x d) (ends refl) in
    ground (
      arith,
      same d,
      suffix-append band d cards extra,
      suffix-Sublist band d extra pool s,
      none_left,
      empty_suffix band d,
      meets-possible band t true counts cards extra pool ds same s ends,
    )
meets-possible band t false counts cards extra pool (d ∷ ds) same s ends h = ground (
  arith,
  same d,
  suffix-append band d cards extra,
  suffix-Sublist band d extra pool s,
  meets-possible band t false counts cards extra pool ds same s ends,
)

-- The search's dimensions say what the coverage check counts.
high_count :
    (band : Bands) (n : ℕ) (cards : List ℕ)
    → count_if (λ c. is_high (band n c)) cards ≡ suffix band cards (Dimension.high_of n)
unfolding suffix
high_count band n [] = refl
high_count band n (c ∷ cards) = ground (arith, high_count band n cards)

distant_count :
    (band : Bands) (n : ℕ) (cards : List ℕ)
    → count_if (λ c. is_distant (band n c)) cards ≡ suffix band cards (Dimension.distant_of n)
unfolding suffix
distant_count band n [] = refl
distant_count band n (c ∷ cards) = ground (arith, distant_count band n cards)

pub covers-meets :
    (band : Bands) (t : TextDealTuning) (schedule cards : List ℕ)
    → covers band schedule t cards ≡ meets band t cards (dimensions schedule)
unfolding covers dimensions
covers-meets band t [] cards = refl
covers-meets band t (n ∷ ns) cards =
    ground
      (arith, high_count band n cards, distant_count band n cards, covers-meets band t ns cards)
