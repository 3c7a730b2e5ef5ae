-- ===== src/Dealing/Budget.antt =====
-- How many nodes the search of textRetained visits: server/pkg/media/text_dealing.go.
use knowoff.Prelude.{
  ℕ, suc, zero, ◌+◌, ◌^◌, ◌≤◌, ◌<◌, ◌≡◌, ◌≢◌, some, List, [], ◌∷◌, ◌++◌, length, ap, ◌∙◌, arith,
  inl, inr, Option-cases,
}
use knowoff.Dealing.{
  Bands, Dimension, TextDealTuning, Found, selection, infeasible, exhausted, Visited, prune,
  search_from, else_try, add_counts, text_retained,
}
use knowoff.Dealing.Search.{
  search_from-pruned, search_from-open, branch_with, prune-exhausted, prune-open,
}

double : (n : ℕ) → 2 ^ suc n ≡ 2 ^ n + 2 ^ n
double n = omega arith

module _ (band : Bands) (schedule : List ℕ) (t : TextDealTuning) where
  -- A search below a full binary tree, which gives up only past the limit.
  record Within (left nodes : ℕ) (v : Visited) : Type 0 where
    few : suc v.0 ≤ nodes + 2 ^ suc left
    gives_up : v.1 ≡ exhausted → t.max_search_nodes < v.0

  power_positive : (n : ℕ) → 1 ≤ 2 ^ n
  power_positive zero = omega arith
  power_positive (suc n) = omega (arith, power_positive n, double n)

  pruned-Within :
      (pool : List ℕ) (nodes : ℕ) (selected : List ℕ) (counts : Dimension → ℕ) (left : ℕ)
      (found : Found)
      → prune band schedule t (suc nodes) selected counts pool ≡ some found
      → Within left nodes (suc nodes, found)
  pruned-Within pool nodes selected counts left found e = record {
    few = omega (arith, power_positive left, double left);
    gives_up =
        λ h. prune-exhausted band schedule t (suc nodes) selected counts pool (e ∙ ap some h);
  }

  try-Within :
      (left nodes : ℕ) (first : Visited) (without : ℕ → Visited)
      → Within left (suc nodes) first
      → ((visited : ℕ) → Within left visited (without visited))
      → Within (suc left) nodes (else_try first without)
  try-Within left nodes (v, selection cards) without a b = record {
    few = omega (arith, a.few, double left, double (suc left), power_positive left);
    gives_up = a.gives_up;
  }
  try-Within left nodes (v, exhausted) without a b = record {
    few = omega (arith, a.few, double left, double (suc left), power_positive left);
    gives_up = a.gives_up;
  }
  try-Within left nodes (v, infeasible) without a b = record {
    few = omega (arith, a.few, (b v).few, double (suc left));
    gives_up = (b v).gives_up;
  }

  search_from-Within :
      (pool : List ℕ) (nodes : ℕ) (selected : List ℕ) (counts : Dimension → ℕ)
      → Within (length pool) nodes (search_from band schedule t pool nodes selected counts)
  search_from-Within [] nodes selected counts =
      elim (Option-cases (prune band schedule t (suc nodes) selected counts [])) [
        | inr (found, e) ↦
            rw (search_from-pruned band schedule t [] nodes selected counts found e)
              (pruned-Within [] nodes selected counts 0 found e)
        | inl e ↦ ground (arith, prune-open band schedule t (suc nodes) selected counts [] e)
      ]
  search_from-Within (card ∷ cards) nodes selected counts =
      elim (Option-cases (prune band schedule t (suc nodes) selected counts (card ∷ cards))) [
        | inr (found, e) ↦
            rw (search_from-pruned band schedule t (card ∷ cards) nodes selected counts found e)
              (pruned-Within (card ∷ cards) nodes selected counts (suc (length cards)) found e)
        | inl e ↦ rw (search_from-open band schedule t card cards nodes selected counts e) (
            try-Within (length cards) nodes
              (branch_with band schedule t cards card nodes selected counts)
              (λ visited. search_from band schedule t cards visited selected counts)
              (search_from-Within cards (suc nodes) (selected ++ card ∷ [])
                (add_counts band counts card))
              (λ visited. search_from-Within cards visited selected counts))
      ]

  -- A limit as large as a full binary tree over the pool, counted on top of the nodes that the
  -- seats before have used, is never exhausted.
  pub text_retained-enough :
      (pool : List ℕ) (nodes : ℕ)
      → nodes + 2 ^ suc (length pool) ≤ suc t.max_search_nodes
      → (text_retained band schedule t pool nodes).1 ≢ exhausted
  unfolding text_retained
  text_retained-enough pool nodes enough h =
      let within = search_from-Within pool nodes [] (λ d. 0) in
      omega (arith, within.few, within.gives_up h, enough)
