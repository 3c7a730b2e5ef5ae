-- ===== src/Dealing/Search.antt =====
-- textRetained of server/pkg/media/text_dealing.go prunes its search without losing a selection.
use knowoff.Prelude.{
  ℕ, suc, ◌+◌, ◌≤◌, ◌<◌, true, ◌≡◌, ◌≢◌, ◌==◌, none, some, List, [], ◌∷◌, ◌++◌, length, all, refl,
  sym, ap, ◌∙◌, arith, inl, inr, Option-cases, length-append,
}
use knowoff.Dealing.{
  Bands, Dimension, TextDealTuning, Found, selection, infeasible, exhausted, Visited, dimensions,
  suffix, possible, budget_of, prune, search_from, else_try, add_counts,
}
use knowoff.Dealing.Sublists.{
  Sublist, nothing, leave, keep, length-Sublist, suffix-append, meets, possible-meets,
  meets-possible,
}

append_nil : (xs : List ℕ) → xs ++ [] ≡ xs
append_nil [] = refl
append_nil (x ∷ xs) = ap (λ r. x ∷ r) (append_nil xs)

append_assoc : (xs ys zs : List ℕ) → (xs ++ ys) ++ zs ≡ xs ++ (ys ++ zs)
append_assoc [] ys zs = refl
append_assoc (x ∷ xs) ys zs = ap (λ r. x ∷ r) (append_assoc xs ys zs)

length_zero : (xs : List ℕ) → length xs ≡ 0 → xs ≡ []
length_zero [] h = refl
length_zero (x ∷ xs) h = ground arith

module _ (band : Bands) (schedule : List ℕ) (t : TextDealTuning) where
  -- The counts of a node are those of its selection.
  abbrev Counted : List ℕ → (Dimension → ℕ) → Type 0
  Counted selected counts = (d : Dimension) → counts d ≡ suffix band selected d

  add_counts-Counted :
      (selected : List ℕ) (counts : Dimension → ℕ) (card : ℕ)
      → Counted selected counts
      → Counted (selected ++ card ∷ []) (add_counts band counts card)
  unfolding suffix
  add_counts-Counted selected counts card same d =
      omega (arith, same d, suffix-append band d selected (card ∷ []))

  -- How `extra` cards complete a selection.
  pub record Completes (selected extra : List ℕ) : Type 0 where
    pub full : length (selected ++ extra) ≡ budget_of t
    pub met : meets band t (selected ++ extra) (dimensions schedule) ≡ true

  prune-selection :
      (nodes : ℕ) (selected : List ℕ) (counts : Dimension → ℕ) (pool cards : List ℕ)
      → Counted selected counts
      → prune band schedule t nodes selected counts pool ≡ some (selection cards)
      → (cards ≡ selected) × Completes selected []
  unfolding prune
  prune-selection nodes selected counts pool cards same h =
      let full : (length selected == budget_of t) ≡ true = ground arith in
      let checks : all (possible t true counts (suffix band pool)) (dimensions schedule) ≡ true =
        rw (← full) (ground arith) in
      (
        ground arith,
        record {
          full = rw (append_nil selected) (ground arith);
          met = rw (append_nil selected) (
              possible-meets band t counts (suffix band pool) selected (dimensions schedule) same
                checks);
        },
      )

  -- A node that some cards still to come would complete is not given up.
  prune-infeasible :
      (nodes : ℕ) (selected extra : List ℕ) (counts : Dimension → ℕ) (pool : List ℕ)
      → Counted selected counts
      → Sublist extra pool
      → Completes selected extra
      → prune band schedule t nodes selected counts pool ≢ some infeasible
  unfolding prune
  prune-infeasible nodes selected extra counts pool same s complete h =
      let checks : all (possible t (length selected == budget_of t) counts (suffix band pool))
            (dimensions schedule)
          ≡ true =
        meets-possible band t (length selected == budget_of t) counts selected extra pool
          (dimensions schedule) same s
          (λ e. length_zero extra (ground (arith, length-append selected extra, complete.full)))
          complete.met in
      ground
        (arith, checks, length-Sublist extra pool s, length-append selected extra, complete.full)

  pub prune-open :
      (nodes : ℕ) (selected : List ℕ) (counts : Dimension → ℕ) (pool : List ℕ)
      → prune band schedule t nodes selected counts pool ≡ none
      → (nodes ≤ t.max_search_nodes)
        × (length selected < budget_of t)
        × (budget_of t ≤ length selected + length pool)
  unfolding prune
  prune-open nodes selected counts pool h = ground arith

  pub prune-exhausted :
      (nodes : ℕ) (selected : List ℕ) (counts : Dimension → ℕ) (pool : List ℕ)
      → prune band schedule t nodes selected counts pool ≡ some exhausted
      → t.max_search_nodes < nodes
  unfolding prune
  prune-exhausted nodes selected counts pool h = ground arith

  pub search_from-pruned :
      (pool : List ℕ) (nodes : ℕ) (selected : List ℕ) (counts : Dimension → ℕ) (found : Found)
      → prune band schedule t (suc nodes) selected counts pool ≡ some found
      → search_from band schedule t pool nodes selected counts ≡ (suc nodes, found)
  unfolding search_from
  search_from-pruned [] nodes selected counts found e = simp (search_from, e)
  search_from-pruned (card ∷ cards) nodes selected counts found e = simp (search_from, e)

  abbrev pub branch_with : List ℕ → ℕ → ℕ → List ℕ → (Dimension → ℕ) → Visited
  branch_with cards card nodes selected counts =
      search_from band schedule t cards (suc nodes) (selected ++ card ∷ [])
        (add_counts band counts card)

  pub search_from-open :
      (card : ℕ) (cards : List ℕ) (nodes : ℕ) (selected : List ℕ) (counts : Dimension → ℕ)
      → prune band schedule t (suc nodes) selected counts (card ∷ cards) ≡ none
      → search_from band schedule t (card ∷ cards) nodes selected counts
        ≡ else_try
            (branch_with cards card nodes selected counts)
            (λ visited. search_from band schedule t cards visited selected counts)
  unfolding search_from
  search_from-open card cards nodes selected counts e = simp (search_from, e)

  -- What the answer of a node says of the cards still to come.
  abbrev pub Answers : List ℕ → List ℕ → Found → Type 0
  Answers selected pool (selection cards) =
      (extra : List ℕ) × (cards ≡ selected ++ extra) × Sublist extra pool × Completes selected extra
  Answers selected pool infeasible =
      (extra : List ℕ) → Sublist extra pool → ¬ Completes selected extra
  Answers selected pool exhausted = Unit {0}

  nothing_sub : (pool : List ℕ) → Sublist [] pool
  nothing_sub [] = nothing
  nothing_sub (y ∷ ys) = leave y (nothing_sub ys)

  pruned-Answers :
      (pool : List ℕ) (nodes : ℕ) (selected : List ℕ) (counts : Dimension → ℕ) (found : Found)
      → Counted selected counts
      → prune band schedule t nodes selected counts pool ≡ some found
      → Answers selected pool found
  pruned-Answers pool nodes selected counts (selection cards) same e =
      let (own, complete) = prune-selection nodes selected counts pool cards same e in
      ([], own ∙ sym (append_nil selected), nothing_sub pool, complete)
  pruned-Answers pool nodes selected counts infeasible same e =
      λ extra s complete. prune-infeasible nodes selected extra counts pool same s complete e
  pruned-Answers pool nodes selected counts exhausted same e = tt

  shift :
      {selected extra : List ℕ} (card : ℕ)
      → Completes (selected ++ card ∷ []) extra
      → Completes selected (card ∷ extra)
  shift {selected} {extra} card complete =
      let e = append_assoc selected (card ∷ []) extra in
      record { full = rw (e) at complete.full; met = rw (e) at complete.met }

  unshift :
      {selected extra : List ℕ} (card : ℕ)
      → Completes selected (card ∷ extra)
      → Completes (selected ++ card ∷ []) extra
  unshift {selected} {extra} card complete =
      let e = append_assoc selected (card ∷ []) extra in
      record { full = rw (e) complete.full; met = rw (e) complete.met }

  without-Answers :
      (card : ℕ) (cards selected : List ℕ) (found : Found)
      → Answers (selected ++ card ∷ []) cards infeasible
      → Answers selected cards found
      → Answers selected (card ∷ cards) found
  without-Answers card cards selected (selection xs) taken (extra, e, s, complete) =
      (extra, e, leave card s, complete)
  without-Answers card cards selected exhausted taken left = tt
  without-Answers card cards selected infeasible taken left =
      λ extra s complete. split extra s complete
    where
      split : (extra : List ℕ) → Sublist extra (card ∷ cards) → ¬ Completes selected extra
      split extra (leave _ s) complete = left extra s complete
      split _ (keep {xs} _ s) complete = taken xs s (unshift card complete)

  try-Answers :
      (card : ℕ) (cards selected : List ℕ) (first : Visited) (without : ℕ → Visited)
      → Answers (selected ++ card ∷ []) cards first.1
      → ((visited : ℕ) → Answers selected cards (without visited).1)
      → Answers selected (card ∷ cards) (else_try first without).1
  try-Answers card cards selected (nodes, selection xs) without (extra, e, s, complete) left =
      (card ∷ extra, e ∙ append_assoc selected (card ∷ []) extra, keep card s, shift card complete)
  try-Answers card cards selected (nodes, exhausted) without taken left = tt
  try-Answers card cards selected (nodes, infeasible) without taken left =
      without-Answers card cards selected (without nodes).1 taken (left nodes)

  pub search_from-Answers :
      (pool : List ℕ) (nodes : ℕ) (selected : List ℕ) (counts : Dimension → ℕ)
      → Counted selected counts
      → Answers selected pool (search_from band schedule t pool nodes selected counts).1
  search_from-Answers [] nodes selected counts same =
      elim (Option-cases (prune band schedule t (suc nodes) selected counts [])) [
        | inr (found, e) ↦
            rw (search_from-pruned [] nodes selected counts found e)
              (pruned-Answers [] (suc nodes) selected counts found same e)
        | inl e ↦ ground (arith, prune-open (suc nodes) selected counts [] e)
      ]
  search_from-Answers (card ∷ cards) nodes selected counts same =
      elim (Option-cases (prune band schedule t (suc nodes) selected counts (card ∷ cards))) [
        | inr (found, e) ↦
            rw (search_from-pruned (card ∷ cards) nodes selected counts found e)
              (pruned-Answers (card ∷ cards) (suc nodes) selected counts found same e)
        | inl e ↦ rw (search_from-open card cards nodes selected counts e) (
            try-Answers card cards selected (branch_with cards card nodes selected counts)
              (λ visited. search_from band schedule t cards visited selected counts)
              (search_from-Answers cards (suc nodes) (selected ++ card ∷ [])
                (add_counts band counts card) (add_counts-Counted selected counts card same))
              (λ visited. search_from-Answers cards visited selected counts same))
      ]
