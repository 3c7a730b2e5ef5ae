-- ===== src/Dealing/Retained.antt =====
-- What textRetained of server/pkg/media/text_dealing.go answers, in the terms of the coverage check,
-- and how many nodes its search needs.
use knowoff.Prelude.{ℕ, true, ◌≡◌, List, [], length, refl, sym, ◌∙◌}
use knowoff.Dealing.{
  Bands, Dimension, TextDealTuning, selection, infeasible, suffix, budget_of, text_retained, covers,
}
use knowoff.Dealing.Sublists.{Sublist, covers-meets}
use knowoff.Dealing.Search.{Answers, search_from-Answers}

-- A choice that a seat may keep: as many cards as the hand and the reserve hold, taken from the
-- pool in its order, with enough high and enough distant cards for every scheduled Nown.
pub record Suitable (band : Bands) (schedule : List ℕ) (t : TextDealTuning) (pool cards : List ℕ)
    : Type 0 where
  pub taken : Sublist cards pool
  pub size : length cards ≡ budget_of t
  pub covering : covers band schedule t cards ≡ true

module _ (band : Bands) (schedule : List ℕ) (t : TextDealTuning) (pool : List ℕ) (nodes : ℕ) where
  retained-Answers : Answers band schedule t [] pool (text_retained band schedule t pool nodes).1
  unfolding text_retained suffix
  retained-Answers = search_from-Answers band schedule t pool nodes [] (λ d. 0) (λ d. empty d)
    where
      empty : (d : Dimension) → 0 ≡ suffix band [] d
      empty d = refl

  Answers-Suitable :
      (v : ℕ) (cards : List ℕ)
      → text_retained band schedule t pool nodes ≡ (v, selection cards)
      → Answers band schedule t [] pool (selection cards)
  Answers-Suitable v cards h = rw (h) at retained-Answers

  -- The cards that the search answers with are a choice that the seat may keep.
  pub text_retained-Suitable :
      (v : ℕ) (cards : List ℕ)
      → text_retained band schedule t pool nodes ≡ (v, selection cards)
      → Suitable band schedule t pool cards
  text_retained-Suitable v cards h =
      let (extra, e, s, complete) = Answers-Suitable v cards h in
      rw (e) (record {
        taken = s;
        size = complete.full;
        covering = covers-meets band t schedule extra ∙ complete.met;
      })

  -- The search reports that the setup is infeasible only if no choice of cards is suitable.
  pub text_retained-infeasible :
      (v : ℕ) (cards : List ℕ)
      → text_retained band schedule t pool nodes ≡ (v, infeasible)
      → ¬ Suitable band schedule t pool cards
  text_retained-infeasible v cards h suitable =
      let answers : Answers band schedule t [] pool infeasible = rw (h) at retained-Answers in
      answers cards suitable.taken (record {
        full = suitable.size;
        met = sym (covers-meets band t schedule cards) ∙ suitable.covering;
      })
