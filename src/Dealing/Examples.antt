-- ===== src/Dealing/Examples.antt =====
-- Inputs at which the laws of the search are applied: one Nown, for which cards 1 and 3 are high and
-- cards 2 and 4 are distant.
use knowoff.Prelude.{
  length, none, ◌<◌, true, ℕ, zero, suc, ◌≡◌, ◌≢◌, Option, some, List, [], ◌∷◌, refl, arith,
}
use knowoff.Dealing.{
  Bands, Band, TextDealTuning, selection, infeasible, exhausted, text_retained, search_from, prune,
  suffix, dimensions,
}
use knowoff.Dealing.Retained.{Suitable, text_retained-Suitable, text_retained-infeasible}
use knowoff.Dealing.Budget.{text_retained-enough}
use knowoff.Dealing.Seeds.{
  draw_seeds, take_seeds, with_new, different, all_seen, draw_seeds-different,
  draw_seeds-infeasible,
}

abbrev band_of : ℕ → Option Band
band_of zero = some Band.chaos
band_of (suc zero) = some Band.high
band_of (suc (suc zero)) = some Band.distant
band_of (suc (suc (suc zero))) = some Band.high
band_of _ = some Band.distant

abbrev bands : Bands
bands nown card = band_of card

abbrev tuning : TextDealTuning
tuning = record {
  hand_size = 2;
  reserve_size = 1;
  min_high = 1;
  min_distant = 1;
  max_search_nodes = 100;
}

abbrev pool : List ℕ
pool = 1 ∷ 3 ∷ 2 ∷ 4 ∷ []

retained : text_retained bands (0 ∷ []) tuning pool 5 ≡ (9, selection (1 ∷ 3 ∷ 2 ∷ []))
unfolding text_retained search_from prune suffix dimensions
retained = refl

text_retained-Suitable_example : Suitable bands (0 ∷ []) tuning pool (1 ∷ 3 ∷ 2 ∷ [])
text_retained-Suitable_example =
    text_retained-Suitable bands (0 ∷ []) tuning pool 5 9 (1 ∷ 3 ∷ 2 ∷ []) retained

abbrev short_pool : List ℕ
short_pool = 1 ∷ 3 ∷ 1 ∷ []

short : text_retained bands (0 ∷ []) tuning short_pool 5 ≡ (6, infeasible)
unfolding text_retained search_from prune suffix dimensions
short = refl

text_retained-infeasible_example : ¬ Suitable bands (0 ∷ []) tuning short_pool (1 ∷ 3 ∷ 1 ∷ [])
text_retained-infeasible_example =
    text_retained-infeasible bands (0 ∷ []) tuning short_pool 5 6 (1 ∷ 3 ∷ 1 ∷ []) short

text_retained-enough_example : (text_retained bands (0 ∷ []) tuning pool 5).1 ≢ exhausted
text_retained-enough_example = text_retained-enough bands (0 ∷ []) tuning pool 5 (omega arith)

-- Cards 1 and 2 have the same text.
abbrev text_number : ℕ → ℕ
text_number zero = 0
text_number (suc zero) = 7
text_number (suc (suc zero)) = 7
text_number n = n

abbrev first_seeds : List ℕ
first_seeds = 1 ∷ 3 ∷ 4 ∷ []

drawn_seeds : draw_seeds text_number 3 (1 ∷ 2 ∷ 3 ∷ 4 ∷ 5 ∷ []) ≡ some first_seeds
unfolding draw_seeds take_seeds with_new
drawn_seeds = refl

draw_seeds-different_example : (length first_seeds ≡ 3) × (different text_number first_seeds ≡ true)
draw_seeds-different_example =
    draw_seeds-different text_number 3 (1 ∷ 2 ∷ 3 ∷ 4 ∷ 5 ∷ []) first_seeds drawn_seeds

no_seeds : draw_seeds text_number 3 (1 ∷ 2 ∷ 3 ∷ []) ≡ none
unfolding draw_seeds take_seeds with_new
no_seeds = refl

draw_seeds-infeasible_example :
    (few : List ℕ) × (length few < 3) × (all_seen text_number few (1 ∷ 2 ∷ 3 ∷ []) ≡ true)
draw_seeds-infeasible_example = draw_seeds-infeasible text_number 3 (1 ∷ 2 ∷ 3 ∷ []) no_seeds
