-- ===== src/Game/Conservation/Places.antt =====
-- The ids that the checks of a state meet, and where they stand.
use knowoff.Prelude.{
  ℕ, ◌+◌, ◌<◌, ◌≤◌, ◌≡◌, refl, true, false, ◌||◌, Option, none, some, List, [], ◌∷◌, ◌++◌, ◌==◌,
  arith, inl, inr, Bool-cases, elem, count, count-append, lookup, map,
}
use knowoff.Contract.{BoardCard}
use knowoff.Game.State.{TextState, TextPlayer, Zone}
use knowoff.Game.Conservation.{stands, check_copy, and_then, check_copies}

-- The ids in the hands and reserves, and then on the board.
abbrev pub held_ids : List TextPlayer → List ℕ
held_ids [] = []
held_ids (p ∷ ps) = p.hand ++ (p.reserve ++ held_ids ps)

abbrev pub board_ids : List BoardCard → List ℕ
board_ids bs = map (λ b. b.card.copy_id) bs

abbrev pub placed_ids : TextState → List ℕ
placed_ids s = held_ids s.players ++ board_ids s.board.cards

pub elem-count_zero : (x : ℕ) (xs : List ℕ) → elem x xs ≡ false → count x xs ≡ 0
unfolding count
elem-count_zero x [] h = refl
elem-count_zero x (y ∷ ys) h = ground (arith, elem-count_zero x ys)

pub elem-count_pos : (x : ℕ) (xs : List ℕ) → elem x xs ≡ true → 0 < count x xs
unfolding count
elem-count_pos x [] h = absurd (ground arith)
elem-count_pos x (y ∷ ys) h = ground (arith, elem-count_pos x ys)

pub count-elem_pos : (x : ℕ) (xs : List ℕ) → 0 < count x xs → elem x xs ≡ true
unfolding count
count-elem_pos x [] h = absurd (omega arith)
count-elem_pos x (y ∷ ys) h = ground (arith, count-elem_pos x ys)

pub elem-append : (x : ℕ) (xs ys : List ℕ) → elem x (xs ++ ys) ≡ (elem x xs || elem x ys)
elem-append x [] ys = refl
elem-append x (y ∷ xs) ys = ground (arith, elem-append x xs ys)

-- The ids met are those met before and these ones, none of them twice.
pub record Meets (ids seen met : List ℕ) : Type 0 where
  pub counts : (x : ℕ) → count x met ≡ count x ids + count x seen
  pub once : ((x : ℕ) → count x seen ≤ 1) → (x : ℕ) → count x met ≤ 1

pub Meets-none : (seen : List ℕ) → Meets [] seen seen
unfolding count
Meets-none seen = record { counts = λ x. omega arith; once = λ h. h }

pub Meets-append :
    (xs ys seen met after : List ℕ)
    → Meets xs seen met
    → Meets ys met after
    → Meets (xs ++ ys) seen after
Meets-append xs ys seen met after a b = record {
  counts = λ x. omega (arith, a.counts x, b.counts x, count-append x xs ys);
  once = λ h. b.once (a.once h);
}

module _ (s : TextState) where
  pub check_copy-some :
      (zone : Zone) (owner : Option ℕ) (seen met : List ℕ) (id : ℕ)
      → check_copy s zone owner seen id ≡ some met
      → (elem id seen ≡ false) × (stands (lookup id s.copies) zone owner ≡ true) × (met ≡ id ∷ seen)
  unfolding check_copy
  check_copy-some zone owner seen met id h = (ground arith, ground arith, ground arith)

  pub check_copy-Meets :
      (zone : Zone) (owner : Option ℕ) (seen met : List ℕ) (id : ℕ)
      → check_copy s zone owner seen id ≡ some met
      → Meets (id ∷ []) seen met
  unfolding count
  check_copy-Meets zone owner seen met id h =
      let c = check_copy-some zone owner seen met id h in
      rw (c.2) (record {
        counts = λ x. ground arith;
        once = λ few x. ground (arith, few x, elem-count_zero id seen c.0);
      })

  pub and_then-some :
      (m : Option (List ℕ)) (f : List ℕ → Option (List ℕ)) (met : List ℕ)
      → and_then m f ≡ some met
      → (between : List ℕ) × (m ≡ some between) × (f between ≡ some met)
  and_then-some none f met h = absurd (ground arith)
  and_then-some (some between) f met h = (between, refl, h)

  pub check_copies-Meets :
      (zone : Zone) (owner : Option ℕ) (seen met ids : List ℕ)
      → check_copies s zone owner seen ids ≡ some met
      → Meets ids seen met
  check_copies-Meets zone owner seen met [] h =
      let same : seen ≡ met = unfold check_copies in cc in rw (← same) (Meets-none seen)
  check_copies-Meets zone owner seen met (id ∷ ids) h =
      let (between, first, rest) =
        and_then-some (check_copy s zone owner seen id) (λ now. check_copies s zone owner now ids)
          met (unfold check_copies in h) in
      Meets-append (id ∷ []) ids seen between met
        (check_copy-Meets zone owner seen between id first)
        (check_copies-Meets zone owner between met ids rest)

  -- Each of the ids stands where it was looked for.
  pub check_copies-stands :
      (zone : Zone) (owner : Option ℕ) (seen met ids : List ℕ)
      → check_copies s zone owner seen ids ≡ some met
      → (x : ℕ) → elem x ids ≡ true
      → stands (lookup x s.copies) zone owner ≡ true
  check_copies-stands zone owner seen met [] h x e = absurd (ground arith)
  check_copies-stands zone owner seen met (id ∷ ids) h x e =
      let (between, first, rest) =
        and_then-some (check_copy s zone owner seen id) (λ now. check_copies s zone owner now ids)
          met (unfold check_copies in h) in
      let c = check_copy-some zone owner seen between id first in
      elim (Bool-cases (id == x)) [
        | inl same ↦ let e' : id ≡ x = ground arith in rw (← e') (c.1)
        | inr other ↦ check_copies-stands zone owner between met ids rest x (ground arith)
      ]
