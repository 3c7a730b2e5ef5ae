-- ===== src/Dealing/Seeds.antt =====
-- How Deal of server/pkg/media/text_dealing.go draws the seeds of a round. A card is its id, and
-- `text_of` gives its text, a number since texts are only compared.
use knowoff.Prelude.{
  ℕ, ◌≤◌, ◌<◌, Bool, true, false, ◌&&◌, ◌||◌, ◌≡◌, Option, none, some, List, [], ◌∷◌, ◌++◌, length,
  length-append, any, all, not, ◌==◌, if◌then◌else◌, refl, arith, Bool-cases, inl, inr,
}

abbrev pub same_text_as : (ℕ → ℕ) → ℕ → ℕ → Bool
same_text_as text_of card other = text_of other == text_of card

-- A card is taken if its text was not seen.
unfoldable pub with_new : (ℕ → ℕ) → List ℕ → ℕ → List ℕ
with_new text_of taken card =
    if any (same_text_as text_of card) taken then taken else taken ++ card ∷ []

-- The loop over the shuffled pool; the texts seen are those of the seeds taken.
unfoldable pub take_seeds : (ℕ → ℕ) → ℕ → List ℕ → List ℕ → List ℕ
take_seeds text_of wanted taken [] = taken
take_seeds text_of wanted taken (card ∷ cards) =
    let rest = take_seeds text_of wanted (with_new text_of taken card) cards in
    if length taken == wanted then taken else rest

-- The seeds of a round, or none if the pool is infeasible.
unfoldable pub draw_seeds : (ℕ → ℕ) → ℕ → List ℕ → Option (List ℕ)
draw_seeds text_of wanted pool =
    let seeds = take_seeds text_of wanted [] pool in
    if length seeds == wanted then some seeds else none

-- No text twice.
abbrev pub different : (ℕ → ℕ) → List ℕ → Bool
different text_of [] = true
different text_of (card ∷ cards) =
    not (any (same_text_as text_of card) cards) && different text_of cards

-- Every text of the pool is that of a seed.
abbrev pub all_seen : (ℕ → ℕ) → List ℕ → List ℕ → Bool
all_seen text_of taken pool = all (λ card. any (same_text_as text_of card) taken) pool

module _ (text_of : ℕ → ℕ) where
  any-append : (p : ℕ → Bool) (xs ys : List ℕ) → any p (xs ++ ys) ≡ (any p xs || any p ys)
  any-append p [] ys = refl
  any-append p (x ∷ xs) ys = ground (arith, any-append p xs ys)

  different-append :
      (taken : List ℕ) (card : ℕ)
      → different text_of taken ≡ true
      → any (same_text_as text_of card) taken ≡ false
      → different text_of (taken ++ card ∷ []) ≡ true
  different-append [] card h k = refl
  different-append (x ∷ taken) card h k =
      ground
        (arith, any-append (same_text_as text_of x) taken (card ∷ []), different-append taken card)

  with_new-different :
      (taken : List ℕ) (card : ℕ)
      → different text_of taken ≡ true
      → different text_of (with_new text_of taken card) ≡ true
  unfolding with_new
  with_new-different taken card h = ground (arith, different-append taken card h)

  take_seeds-different :
      (wanted : ℕ) (taken pool : List ℕ)
      → different text_of taken ≡ true
      → different text_of (take_seeds text_of wanted taken pool) ≡ true
  unfolding take_seeds
  take_seeds-different wanted taken [] h = h
  take_seeds-different wanted taken (card ∷ cards) h = ground (
    arith,
    take_seeds-different wanted (with_new text_of taken card) cards
        (with_new-different taken card h),
  )

  with_new-keeps :
      (p : ℕ → Bool) (taken : List ℕ) (card : ℕ)
      → any p taken ≡ true
      → any p (with_new text_of taken card) ≡ true
  unfolding with_new
  with_new-keeps p taken card h = ground (arith, any-append p taken (card ∷ []))

  take_seeds-keeps :
      (p : ℕ → Bool) (wanted : ℕ) (taken pool : List ℕ)
      → any p taken ≡ true
      → any p (take_seeds text_of wanted taken pool) ≡ true
  unfolding take_seeds
  take_seeds-keeps p wanted taken [] h = h
  take_seeds-keeps p wanted taken (card ∷ cards) h = ground (
    arith,
    take_seeds-keeps p wanted (with_new text_of taken card) cards (with_new-keeps p taken card h),
  )

  eq_refl : (n : ℕ) → (n == n) ≡ true
  eq_refl n = ground arith

  with_new-sees :
      (taken : List ℕ) (card : ℕ)
      → any (same_text_as text_of card) (with_new text_of taken card) ≡ true
  unfolding with_new
  with_new-sees taken card =
      ground
        (arith, any-append (same_text_as text_of card) taken (card ∷ []), eq_refl (text_of card))

  with_new-length :
      (taken : List ℕ) (card wanted : ℕ)
      → length taken < wanted
      → length (with_new text_of taken card) ≤ wanted
  unfolding with_new
  with_new-length taken card wanted h = ground (arith, length-append taken (card ∷ []))

  take_seeds-open :
      (wanted : ℕ) (taken : List ℕ) (card : ℕ) (cards : List ℕ)
      → (length taken == wanted) ≡ false
      → take_seeds text_of wanted taken (card ∷ cards)
        ≡ take_seeds text_of wanted (with_new text_of taken card) cards
  unfolding take_seeds
  take_seeds-open wanted taken card cards h = simp (take_seeds, h)

  -- At most the seeds wanted; if they are fewer, every text of the pool is among them.
  record Short (wanted : ℕ) (seeds pool : List ℕ) : Type 0 where
    bounded : length seeds ≤ wanted
    complete : (length seeds == wanted) ≡ false → all_seen text_of seeds pool ≡ true

  take_seeds-full :
      (wanted : ℕ) (taken : List ℕ) (card : ℕ) (cards : List ℕ)
      → (length taken == wanted) ≡ true
      → take_seeds text_of wanted taken (card ∷ cards) ≡ taken
  unfolding take_seeds
  take_seeds-full wanted taken card cards h = simp (take_seeds, h)

  take_seeds-Short :
      (wanted : ℕ) (taken pool : List ℕ)
      → length taken ≤ wanted
      → Short wanted (take_seeds text_of wanted taken pool) pool
  unfolding take_seeds
  take_seeds-Short wanted taken [] h = record { bounded = h; complete = λ e. refl }
  take_seeds-Short wanted taken (card ∷ cards) h = elim (Bool-cases (length taken == wanted)) [
    | inl full ↦
        rw (take_seeds-full wanted taken card cards full)
          (record { bounded = h; complete = λ e. cc (full, e) })
    | inr open_yet ↦
        let more = with_new text_of taken card in
        let rest =
          take_seeds-Short wanted more cards (with_new-length taken card wanted (ground arith)) in
        let seen =
          take_seeds-keeps (same_text_as text_of card) wanted more cards
            (with_new-sees taken card) in
        rw (take_seeds-open wanted taken card cards open_yet)
          (record { bounded = rest.bounded; complete = λ e. ground (arith, seen, rest.complete e) })
  ]

  -- The seeds that are drawn are as many as the mode needs, and no two have the same text.
  pub draw_seeds-different :
      (wanted : ℕ) (pool seeds : List ℕ)
      → draw_seeds text_of wanted pool ≡ some seeds
      → (length seeds ≡ wanted) × (different text_of seeds ≡ true)
  unfolding draw_seeds
  draw_seeds-different wanted pool seeds h =
      (ground arith, ground (arith, take_seeds-different wanted [] pool refl))

  -- If no seeds are drawn, fewer cards than the mode needs have all the texts of the pool.
  pub draw_seeds-infeasible :
      (wanted : ℕ) (pool : List ℕ)
      → draw_seeds text_of wanted pool ≡ none
      → (few : List ℕ) × (length few < wanted) × (all_seen text_of few pool ≡ true)
  unfolding draw_seeds
  draw_seeds-infeasible wanted pool h =
      let few = take_seeds text_of wanted [] pool in
      let short = take_seeds-Short wanted [] pool (ground arith) in
      let missing : (length few == wanted) ≡ false = ground arith in
      (few, ground (arith, short.bounded), short.complete missing)
