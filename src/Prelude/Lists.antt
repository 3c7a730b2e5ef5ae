-- ===== src/Prelude/Lists.antt =====
-- Lists measured and indexed by native numbers, and association lists.
use Prim.Native.Nat.{ℕ, zero, suc, ◌+◌, ◌<◌}
use mathlib.Core.Path.{◌≡◌, refl, ap}
use mathlib.Core.Bool.{Bool, true, false, ◌&&◌, ◌||◌}
use mathlib.Core.List.{List, [], ◌∷◌, ◌++◌}
use mathlib.Core.Option.{Option, none, some}
use native.Mathlib.Omega.{arith}
use knowoff.Prelude.Tests.{◌==◌, if◌then◌else◌}

module _ {ℓ} {A : Type ℓ} where
  abbrev pub length : List A → ℕ
  length [] = 0
  length (x ∷ xs) = suc (length xs)

  abbrev pub get_elem? : List A → ℕ → Option A
  get_elem? [] i = none
  get_elem? (x ∷ xs) zero = some x
  get_elem? (x ∷ xs) (suc i) = get_elem? xs i

  abbrev pub get_or : List A → ℕ → A → A
  get_or [] i d = d
  get_or (x ∷ xs) zero d = x
  get_or (x ∷ xs) (suc i) d = get_or xs i d

  abbrev pub take : ℕ → List A → List A
  take zero xs = []
  take (suc n) [] = []
  take (suc n) (x ∷ xs) = x ∷ take n xs

  abbrev pub drop : ℕ → List A → List A
  drop zero xs = xs
  drop (suc n) [] = []
  drop (suc n) (x ∷ xs) = drop n xs

  -- The entry at an index replaced by its image; out of range nothing changes.
  unfoldable pub modify : List A → ℕ → (A → A) → List A
  modify [] i f = []
  modify (x ∷ xs) zero f = f x ∷ xs
  modify (x ∷ xs) (suc i) f = x ∷ modify xs i f

  pub length-append : (xs ys : List A) → length (xs ++ ys) ≡ length xs + length ys
  length-append [] ys = omega arith
  length-append (x ∷ xs) ys = omega (arith, length-append xs ys)

module _ {ℓ} {A : Type ℓ} where
  pub length-modify : (xs : List A) (i : ℕ) (f : A → A) → length (modify xs i f) ≡ length xs
  unfolding modify
  length-modify [] i f = refl
  length-modify (x ∷ xs) zero f = refl
  length-modify (x ∷ xs) (suc i) f = ap suc (length-modify xs i f)

  pub get_elem?-modify :
      (f : A → A) (xs : List A) (i : ℕ) (a : A)
      → get_elem? xs i ≡ some a
      → get_elem? (modify xs i f) i ≡ some (f a)
  unfolding modify
  get_elem?-modify f [] i a h = cc
  get_elem?-modify f (x ∷ xs) zero a h = cc
  get_elem?-modify f (x ∷ xs) (suc i) a h = get_elem?-modify f xs i a h

  pub get_elem?-modify_other :
      (f : A → A) (xs : List A) (i j : ℕ)
      → (i == j) ≡ false
      → get_elem? (modify xs j f) i ≡ get_elem? xs i
  unfolding modify
  get_elem?-modify_other f [] i j h = refl
  get_elem?-modify_other f (x ∷ xs) zero zero h = cc
  get_elem?-modify_other f (x ∷ xs) zero (suc j) h = refl
  get_elem?-modify_other f (x ∷ xs) (suc i) zero h = refl
  get_elem?-modify_other f (x ∷ xs) (suc i) (suc j) h =
      get_elem?-modify_other f xs i j (ground (arith, h))

  pub get_elem?-some : (xs : List A) (i : ℕ) → i < length xs → (a : A) × (get_elem? xs i ≡ some a)
  get_elem?-some [] i h = elim h [ ]
  get_elem?-some (x ∷ xs) zero h = (x, refl)
  get_elem?-some (x ∷ xs) (suc i) h = get_elem?-some xs i (omega arith)

  pub take-append-drop : (n : ℕ) (xs : List A) → take n xs ++ drop n xs ≡ xs
  take-append-drop zero xs = refl
  take-append-drop (suc n) [] = refl
  take-append-drop (suc n) (x ∷ xs) = rw (take-append-drop n xs)

  abbrev pub any : (A → Bool) → List A → Bool
  any p [] = false
  any p (x ∷ xs) = p x || any p xs

  abbrev pub all : (A → Bool) → List A → Bool
  all p [] = true
  all p (x ∷ xs) = p x && all p xs

  abbrev pub count_if : (A → Bool) → List A → ℕ
  count_if p [] = 0
  count_if p (x ∷ xs) = let rest = count_if p xs in if p x then suc rest else rest

  -- The entries that pass a test on their index and value, kept with their indices.
  abbrev pub seats_where : (ℕ → A → Bool) → ℕ → List A → List ℕ
  seats_where p i [] = []
  seats_where p i (x ∷ xs) = let rest = seats_where p (suc i) xs in if p i x then i ∷ rest else rest

-- Some entry passes a test on its index and value.
module _ {ℓ} {A : Type ℓ} where
  abbrev pub any_at : (ℕ → A → Bool) → ℕ → List A → Bool
  any_at p i [] = false
  any_at p i (x ∷ xs) = p i x || any_at p (suc i) xs

-- How often a number occurs.
unfoldable pub count : ℕ → List ℕ → ℕ
count a [] = 0
count a (x ∷ xs) = let rest = count a xs in if x == a then suc rest else rest

pub count-append : (a : ℕ) (xs ys : List ℕ) → count a (xs ++ ys) ≡ count a xs + count a ys
unfolding count
count-append a [] ys = omega arith
count-append a (x ∷ xs) ys = ground (arith, count-append a xs ys)

abbrev pub elem : ℕ → List ℕ → Bool
elem a xs = any (λ x. x == a) xs

-- A map with numeric keys: a write replaces the entry in place or adds one at the end.
module _ {ℓ} {Entry : Type ℓ} where
  unfoldable pub lookup : ℕ → List (ℕ × Entry) → Option Entry
  lookup id [] = none
  lookup id ((key, entry) ∷ rest) = if key == id then some entry else lookup id rest

  unfoldable pub insert : ℕ → Entry → List (ℕ × Entry) → List (ℕ × Entry)
  insert id new [] = (id, new) ∷ []
  insert id new ((key, entry) ∷ rest) =
      if key == id then (id, new) ∷ rest else (key, entry) ∷ insert id new rest

  -- What a map holds at each key after a write.
  pub lookup-insert :
      (id : ℕ) (new : Entry) (entries : List (ℕ × Entry)) (other : ℕ)
      → lookup other (insert id new entries)
        ≡ (if id == other then some new else lookup other entries)
  unfolding lookup insert
  lookup-insert id new [] other = refl
  lookup-insert id new ((key, entry) ∷ rest) other = ground (arith, lookup-insert id new rest other)
