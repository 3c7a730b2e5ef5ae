-- ===== src/Game/Conservation/Located.antt =====
-- The cards of the players as the checks meet them.
use knowoff.Prelude.{
  ℕ, zero, suc, ◌+◌, ◌≡◌, true, some, List, [], ◌∷◌, ◌++◌, arith, ◌⊎◌, inl, inr, Bool-cases, elem,
  lookup, get_or,
}
use knowoff.Game.State.{TextState, TextPlayer, Zone, zero_player}
use knowoff.Game.Conservation.{stands, and_then, check_copies, check_players}
use knowoff.Game.Conservation.Places.{
  held_ids, elem-append, Meets, Meets-none, Meets-append, and_then-some, check_copies-Meets,
  check_copies-stands,
}

module _ (s : TextState) where
  record PlayerChecked (seat : ℕ) (p : TextPlayer) (ps : List TextPlayer) (seen met : List ℕ)
      : Type 0 where
    after_hand : List ℕ
    after_reserve : List ℕ
    hand : check_copies s Zone.in_hand (some seat) seen p.hand ≡ some after_hand
    reserve : check_copies s Zone.in_reserve (some seat) after_hand p.reserve ≡ some after_reserve
    others : check_players s (suc seat) ps after_reserve ≡ some met

  check_players-PlayerChecked :
      (seat : ℕ) (p : TextPlayer) (ps : List TextPlayer) (seen met : List ℕ)
      → check_players s seat (p ∷ ps) seen ≡ some met
      → PlayerChecked seat p ps seen met
  unfolding check_players
  check_players-PlayerChecked seat p ps seen met h =
      let (after_hand, hand, more) =
        and_then-some s (check_copies s Zone.in_hand (some seat) seen p.hand)
          (λ now.
            and_then (check_copies s Zone.in_reserve (some seat) now p.reserve)
              (λ later. check_players s (suc seat) ps later))
          met h in
      let (after_reserve, reserve, others) =
        and_then-some s (check_copies s Zone.in_reserve (some seat) after_hand p.reserve)
          (λ later. check_players s (suc seat) ps later) met more in
      record {
        after_hand = after_hand;
        after_reserve = after_reserve;
        hand = hand;
        reserve = reserve;
        others = others;
      }

  pub check_players-Meets :
      (seat : ℕ) (ps : List TextPlayer) (seen met : List ℕ)
      → check_players s seat ps seen ≡ some met
      → Meets (held_ids ps) seen met
  check_players-Meets seat [] seen met h =
      let same : seen ≡ met = unfold check_players in cc in rw (← same) (Meets-none seen)
  check_players-Meets seat (p ∷ ps) seen met h =
      let c = check_players-PlayerChecked seat p ps seen met h in
      Meets-append p.hand (p.reserve ++ held_ids ps) seen c.after_hand met
        (check_copies-Meets s Zone.in_hand (some seat) seen c.after_hand p.hand c.hand)
        (Meets-append p.reserve (held_ids ps) c.after_hand c.after_reserve met
          (check_copies-Meets s Zone.in_reserve (some seat) c.after_hand c.after_reserve p.reserve
            c.reserve)
          (check_players-Meets (suc seat) ps c.after_reserve met c.others))

  pub check_players-hand :
      (seat k : ℕ) (ps : List TextPlayer) (seen met : List ℕ)
      → check_players s seat ps seen ≡ some met
      → (x : ℕ) → elem x (get_or ps k zero_player).hand ≡ true
      → stands (lookup x s.copies) Zone.in_hand (some (seat + k)) ≡ true
  check_players-hand seat k [] seen met h x e = absurd (ground arith)
  check_players-hand seat zero (p ∷ ps) seen met h x e =
      let c = check_players-PlayerChecked seat p ps seen met h in
      let same : seat + 0 ≡ seat = omega arith in
      rw same (check_copies-stands s Zone.in_hand (some seat) seen c.after_hand p.hand c.hand x e)
  check_players-hand seat (suc k) (p ∷ ps) seen met h x e =
      let c = check_players-PlayerChecked seat p ps seen met h in
      let same : seat + suc k ≡ suc seat + k = omega arith in
      rw same (check_players-hand (suc seat) k ps c.after_reserve met c.others x e)

  pub check_players-reserve :
      (seat k : ℕ) (ps : List TextPlayer) (seen met : List ℕ)
      → check_players s seat ps seen ≡ some met
      → (x : ℕ) → elem x (get_or ps k zero_player).reserve ≡ true
      → stands (lookup x s.copies) Zone.in_reserve (some (seat + k)) ≡ true
  check_players-reserve seat k [] seen met h x e = absurd (ground arith)
  check_players-reserve seat zero (p ∷ ps) seen met h x e =
      let c = check_players-PlayerChecked seat p ps seen met h in
      let same : seat + 0 ≡ seat = omega arith in
      rw same (
        check_copies-stands s Zone.in_reserve (some seat) c.after_hand c.after_reserve p.reserve
          c.reserve x e)
  check_players-reserve seat (suc k) (p ∷ ps) seen met h x e =
      let c = check_players-PlayerChecked seat p ps seen met h in
      let same : seat + suc k ≡ suc seat + k = omega arith in
      rw same (check_players-reserve (suc seat) k ps c.after_reserve met c.others x e)

-- Who holds a card: some seat has it in the hand or in the reserve.
pub held_by :
    (x : ℕ) (ps : List TextPlayer)
    → elem x (held_ids ps) ≡ true
    → (k : ℕ) × ((elem x (get_or ps k zero_player).hand ≡ true)
        ⊎ (elem x (get_or ps k zero_player).reserve ≡ true))
held_by x [] h = absurd (ground arith)
held_by x (p ∷ ps) h = elim (Bool-cases (elem x p.hand)) [
  | inl in_hand ↦ (0, inl in_hand)
  | inr no_hand ↦ elim (Bool-cases (elem x p.reserve)) [
    | inl in_reserve ↦ (0, inr in_reserve)
    | inr no_reserve ↦
        let r = held_by x ps (
          ground (
            arith,
            elem-append x p.hand (p.reserve ++ held_ids ps),
            elem-append x p.reserve (held_ids ps),
          )) in
        (suc r.0, r.1)
  ]
]
