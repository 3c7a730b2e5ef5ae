-- ===== src/Game/Ballots/Plurality.antt =====
-- Who leads a ballot: the tally and the tied seats of `resolveVote`.
use knowoff.Prelude.{
  ℕ, suc, ◌+◌, ◌≤◌, ◌<◌, ◌==◌, Bool, true, false, ◌&&◌, ◌≡◌, ◌≢◌, ◌↔◌, Option, some, List, [], ◌∷◌,
  length, elem, seats_where, any_at, ltb, leb, inl, inr, arith, Option-cases, Bool-cases,
}
use knowoff.Game.State.{TextState, TextPlayer, is_active}
use knowoff.Game.Ballots.{ballot_of, tally, tally_at, maximum_from, tied_from, tied, voted_out}

-- A seat with a vote has a vote of a player who can act.
pub tally-active :
    (votes : ℕ → Option ℕ) (i : ℕ) (ps : List TextPlayer) (target : ℕ)
    → 0 < tally votes i ps target
    → any_at (λ k p. is_active p) i ps ≡ true
unfolding tally ballot_of
tally-active votes i [] target h = absurd (omega arith)
tally-active votes i (p ∷ ps) target h = ground (arith, tally-active votes (suc i) ps target)

-- A seat with a vote is counted in the maximum.
votes-le-maximum :
    (votes : ℕ → Option ℕ) (votes_for : ℕ → ℕ) (i : ℕ) (ps : List TextPlayer) (target : ℕ)
    → 0 < tally votes i ps target
    → votes_for target ≤ maximum_from votes votes_for i ps
unfolding tally maximum_from
votes-le-maximum votes votes_for i [] target h = absurd (omega arith)
votes-le-maximum votes votes_for i (p ∷ ps) target h =
    ground (arith, votes-le-maximum votes votes_for (suc i) ps target)

elem-seats_where :
    (test : ℕ → Bool) (i : ℕ) (ps : List TextPlayer) (seat : ℕ)
    → elem seat (seats_where (λ k p. test k) i ps)
      ≡ (leb i seat && (ltb seat (i + length ps) && test seat))
elem-seats_where test i [] seat = ground arith
elem-seats_where test i (p ∷ ps) seat = ground (arith, elem-seats_where test (suc i) ps seat)

abbrev top_votes : TextState → ℕ
top_votes s = maximum_from s.votes (tally_at s) 0 s.players

tally-le-top : (s : TextState) (target : ℕ) → tally_at s target ≤ top_votes s
tally-le-top s target = elim (Bool-cases (ltb 0 (tally_at s target))) [
  | inl voted ↦ votes-le-maximum s.votes (tally_at s) 0 s.players target (ground arith)
  | inr unvoted ↦ ground arith
]

abbrev pub Leads : TextState → ℕ → Type 0
Leads s seat =
    (seat < length s.players)
    × (0 < tally_at s seat)
    × ((other : ℕ) → tally_at s other ≤ tally_at s seat)

abbrev at_top : TextState → ℕ → Bool
at_top s seat = ltb 0 (tally_at s seat) && (tally_at s seat == top_votes s)

elem-tied :
    (s : TextState) (seat : ℕ)
    → elem seat (tied s) ≡ (leb 0 seat && (ltb seat (0 + length s.players) && at_top s seat))
unfolding tied tied_from
elem-tied s seat = elem-seats_where (at_top s) 0 s.players seat

maximum_from-le :
    (votes : ℕ → Option ℕ) (votes_for : ℕ → ℕ) (i : ℕ) (ps : List TextPlayer) (bound : ℕ)
    → ((target : ℕ) → votes_for target ≤ bound)
    → maximum_from votes votes_for i ps ≤ bound
unfolding maximum_from
maximum_from-le votes votes_for i [] bound h = omega arith
maximum_from-le votes votes_for i (p ∷ ps) bound h = elim (Option-cases (ballot_of votes i p)) [
  | inl e ↦ rw (e, maximum_from) (maximum_from-le votes votes_for (suc i) ps bound h)
  | inr (t, e) ↦
      rw (e, maximum_from) (ground (arith, h t, maximum_from-le votes votes_for (suc i) ps bound h))
]

-- The tied seats are exactly the seats of the table that have a vote and no fewer votes than any
-- other.
pub tied-Leads : (s : TextState) (seat : ℕ) → (elem seat (tied s) ≡ true) ↔ Leads s seat
tied-Leads s seat =
    let e = elem-tied s seat in
    (
      λ h. (ground arith, ground arith, λ other. ground (arith, tally-le-top s other)),
      λ h. ground (
        arith,
        tally-le-top s seat,
        maximum_from-le s.votes (tally_at s) 0 s.players (tally_at s seat) h.2,
      ),
    )

voted_out-elem : (seats : List ℕ) (seat : ℕ) → voted_out seats ≡ some seat → seats ≡ seat ∷ []
voted_out-elem [] seat h = cc
voted_out-elem (x ∷ []) seat h = ground arith
voted_out-elem (x ∷ y ∷ seats) seat h = cc

elem-single : (other seat : ℕ) → other ≢ seat → elem other (seat ∷ []) ≡ false
elem-single other seat h = ground arith

-- If one seat is voted out, it has more votes than any other seat of the table.
pub voted_out-majority :
    (s : TextState) (seat other : ℕ)
    → voted_out (tied s) ≡ some seat
    → other < length s.players
    → other ≢ seat
    → tally_at s other < tally_at s seat
voted_out-majority s seat other h inside apart =
    let alone = voted_out-elem (tied s) seat h in
    let lead = (tied-Leads s seat).0 (rw alone (ground arith)) in
    let beaten : elem other (tied s) ≡ false = rw alone (elem-single other seat apart) in
    ground (arith, lead.2 other, elem-tied s other, elem-tied s seat)
