-- ===== src/Dealing.antt =====
-- The search for a seat's cards: textRetained and the relation counts of CheckTextCoverage in
-- server/pkg/media/text_dealing.go. `band nown card` is the snapshot's table of relations.
pub mod Sublists
pub mod Search
pub mod Retained
pub mod Budget
pub mod Seeds
mod Examples
use knowoff.Prelude.{
  ℕ, suc, ◌+◌, Bool, true, false, ◌&&◌, ◌||◌, Option, none, some, List, [], ◌∷◌, ◌++◌, length, not,
  ltb, leb, ◌==◌, if◌then◌else◌, all, count_if,
}

pub data Band : Type 0 where
  high distant chaos : Band

-- What `s.bands` says of a Nown and a card, each by its id; `none` for a pair with no entry.
abbrev pub Bands : Type 0
Bands = ℕ → ℕ → Option Band

pub record TextDealTuning : Type 0 where
  pub hand_size : ℕ
  pub reserve_size : ℕ
  pub min_high : ℕ
  pub min_distant : ℕ
  pub max_search_nodes : ℕ

abbrev pub is_high : Option Band → Bool
is_high (some Band.high) = true
is_high _ = false

abbrev pub is_distant : Option Band → Bool
is_distant (some Band.distant) = true
is_distant _ = false

-- A dimension of the search: a scheduled Nown with one of the two bands. The arrays that the source
-- indexes by `2 * n` and `2 * n + 1` are functions of the dimension.
pub data Dimension : Type 0 where
  high_of distant_of : ℕ → Dimension

unfoldable pub dimensions : List ℕ → List Dimension
dimensions [] = []
dimensions (n ∷ ns) = Dimension.high_of n ∷ Dimension.distant_of n ∷ dimensions ns

abbrev pub contributes : Bands → Dimension → ℕ → Bool
contributes band (Dimension.high_of n) card = is_high (band n card)
contributes band (Dimension.distant_of n) card = is_distant (band n card)

abbrev one_if : Bool → ℕ
one_if true = 1
one_if false = 0

abbrev pub contribution : Bands → ℕ → Dimension → ℕ
contribution band card d = one_if (contributes band d card)

-- `suffix[index]`, of the cards still to come.
unfoldable pub suffix : Bands → List ℕ → Dimension → ℕ
suffix band [] d = 0
suffix band (card ∷ cards) d = suffix band cards d + contribution band card d

abbrev pub need : TextDealTuning → Dimension → ℕ
need t (Dimension.high_of n) = t.min_high
need t (Dimension.distant_of n) = t.min_distant

abbrev pub budget_of : TextDealTuning → ℕ
budget_of t = t.hand_size + t.reserve_size

-- A dimension that can still be met, and is met if the selection is full.
abbrev pub possible : TextDealTuning → Bool → (Dimension → ℕ) → (Dimension → ℕ) → Dimension → Bool
possible t full counts rest d =
    leb (need t d) (counts d + rest d) && (not full || leb (need t d) (counts d))

pub data Found : Type 0 where
  selection : List ℕ → Found
  infeasible exhausted : Found

-- The nodes visited so far with the outcome.
abbrev pub Visited : Type 0
Visited = ℕ × Found

-- The search at one node, for the cards still to come; `with_card` is the search of the branch
-- that takes the first of them, and `without` that of the branch that leaves it out.
abbrev pub else_try : Visited → (ℕ → Visited) → Visited
else_try (nodes, selection cards) without = (nodes, selection cards)
else_try (nodes, exhausted) without = (nodes, exhausted)
else_try (nodes, infeasible) without = without nodes

abbrev pub out_of_range : TextDealTuning → ℕ → ℕ → Bool
out_of_range t chosen left = ltb (budget_of t) chosen || ltb (chosen + left) (budget_of t)

-- Why a node is answered at once, or `none`.
unfoldable pub prune :
    Bands → List ℕ → TextDealTuning → ℕ → List ℕ → (Dimension → ℕ) → List ℕ → Option Found
prune band schedule t nodes selected counts pool =
    if ltb t.max_search_nodes nodes
    then some exhausted
    else (if out_of_range t (length selected) (length pool)
        then some infeasible
        else (if not (
              all (possible t (length selected == budget_of t) counts (suffix band pool))
                (dimensions schedule))
            then some infeasible
            else (if length selected == budget_of t then some (selection selected) else none)))

abbrev pub add_counts : Bands → (Dimension → ℕ) → ℕ → Dimension → ℕ
add_counts band counts card d = counts d + contribution band card d

-- `search`, at a node that is not answered at once where `pruned` is `none`.
unfoldable pub search_from :
    Bands → List ℕ → TextDealTuning → List ℕ → ℕ → List ℕ → (Dimension → ℕ) → Visited
search_from band schedule t [] nodes selected counts =
    elim (prune band schedule t (suc nodes) selected counts []) [
      | some found ↦ (suc nodes, found)
      | none ↦ (suc nodes, infeasible)
    ]
search_from band schedule t (card ∷ cards) nodes selected counts =
    elim (prune band schedule t (suc nodes) selected counts (card ∷ cards)) [
      | some found ↦ (suc nodes, found)
      | none ↦
          else_try
            (search_from band schedule t cards (suc nodes) (selected ++ card ∷ [])
              (add_counts band counts card))
            (λ visited. search_from band schedule t cards visited selected counts)
    ]

-- `textRetained`, for the pool of a seat in its shuffled order.
unfoldable pub text_retained : Bands → List ℕ → TextDealTuning → List ℕ → ℕ → Visited
text_retained band schedule t pool nodes = search_from band schedule t pool nodes [] (λ d. 0)

-- What CheckTextCoverage counts: every scheduled Nown has enough high and enough distant cards. A
-- pair with no entry, of which a loaded pack has none and which the source reports, counts for neither.
unfoldable pub covers : Bands → List ℕ → TextDealTuning → List ℕ → Bool
covers band schedule t cards =
    all
      (λ n.
        leb t.min_high (count_if (λ c. is_high (band n c)) cards)
        && leb t.min_distant (count_if (λ c. is_distant (band n c)) cards))
      schedule
