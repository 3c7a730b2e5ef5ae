-- ===== src/Game/Ballots/Points.antt =====
-- The end of a match: `finish` of server/internal/game/text_actions.go.
use knowoff.Prelude.{
  ℕ, zero, suc, ◌+◌, Bool, true, false, ◌||◌, ◌≡◌, none, some, List, [], ◌∷◌, get_elem?, refl,
  arith, not, if◌then◌else◌,
}
use knowoff.Prelude.Int.{pos}
use knowoff.Game.State.{
  TextPlayer, TextMatch, TextPending, TextResult, TextPlayerResult, Outcome, Winner,
}
use knowoff.Game.Offers.{cancel_offer}
use knowoff.Game.Endings.{
  final_points, player_result, player_results, settle_players, final_result, ended, finish,
}
use knowoff.Game.Ballots.Settles.{finish-result}
use knowoff.Game.Turns.{enter_phase}

-- Whose points are lost, whatever they were.
abbrev pub forfeits : TextMatch → Outcome → Bool → Bool
forfeits m Outcome.interrupted absent = true
forfeits m Outcome.completed absent = absent || not m.rewards
forfeits m Outcome.scored_low_population absent = not m.rewards

-- What the result says of a seat is what the state holds: points that are not negative, and none
-- where they are forfeited.
pub record Reports (m : TextMatch) (outcome : Outcome) (i : ℕ) (w : TextPlayer)
    (x : TextPlayerResult) : Type 0 where
  pub seat : x.seat ≡ i
  pub role : x.role ≡ w.role
  pub points : x.points ≡ w.points
  pub not_negative : (n : ℕ) × (w.points ≡ pos n)
  pub forfeited : forfeits m outcome w.absent ≡ true → w.points ≡ pos 0

module _ (m : TextMatch) (outcome : Outcome) (winner : Winner) where
  final_points-pos : (v : TextPlayer) → (n : ℕ) × (final_points m outcome winner v ≡ pos n)
  unfolding final_points
  final_points-pos v = points-cases _ _
    where
      points-cases : (b : Bool) (n : ℕ) → (k : ℕ) × ((if b then pos 0 else pos n) ≡ pos k)
      points-cases true n = (0, refl)
      points-cases false n = (n, refl)

  final_points-forfeits :
      (o : Outcome) (v : TextPlayer)
      → forfeits m o v.absent ≡ true
      → final_points m o winner v ≡ pos 0
  unfolding final_points
  final_points-forfeits Outcome.interrupted v h = refl
  final_points-forfeits Outcome.completed v h = ground arith
  final_points-forfeits Outcome.scored_low_population v h = ground arith

  reported :
      (ps : List TextPlayer) (i seat : ℕ) (w : TextPlayer)
      → get_elem? (settle_players m outcome winner ps) seat ≡ some w
      → (x : TextPlayerResult) × (get_elem? (player_results m outcome winner i ps) seat ≡ some x)
        × Reports m outcome (i + seat) w x
  unfolding settle_players player_results player_result
  reported [] i seat w h = cc
  reported (v ∷ ps) i zero w h =
      let e : record v { points = final_points m outcome winner v } ≡ w = cc in
      rw (← e) (
        player_result m outcome winner i v,
        refl,
        record {
          seat = omega arith;
          role = refl;
          points = refl;
          not_negative = final_points-pos v;
          forfeited = final_points-forfeits outcome v;
        },
      )
  reported (v ∷ ps) i (suc seat) w h =
      let (x, found, same) = reported ps (suc i) seat w h in
      (
        x,
        found,
        record {
          seat = omega (arith, same.seat);
          role = same.role;
          points = same.points;
          not_negative = same.not_negative;
          forfeited = same.forfeited;
        },
      )

  -- The result of a match is settled with it.
  pub record Settled (q : TextPending) (seat : ℕ) (w : TextPlayer) : Type 0 where
    pub result : TextResult
    pub stored : q.state.result ≡ some result
    pub settled : q.settled ≡ some result
    pub row : TextPlayerResult
    pub found : get_elem? result.players seat ≡ some row
    pub reports : Reports m outcome seat w row

  finish-undecided :
      (p : TextPending) (now : ℕ)
      → p.state.result ≡ none
      → finish m p outcome winner now ≡ ended m p (cancel_offer m p.state now) outcome winner now
  unfolding finish
  finish-undecided p now h = simp (finish, h)

  finish-decided :
      (p : TextPending) (now : ℕ) (r : TextResult)
      → p.state.result ≡ some r
      → finish m p outcome winner now ≡ p
  unfolding finish
  finish-decided p now r h = simp (finish, h)

  -- When a match without a result ends, the result that is stored, and that is to be settled, has
  -- for every seat the points that the state holds from then on; they are not negative, and zero
  -- where they are forfeited.
  pub finish-Settled :
      (p : TextPending) (now seat : ℕ) (w : TextPlayer)
      → p.state.result ≡ none
      → get_elem? (finish m p outcome winner now).state.players seat ≡ some w
      → Settled (finish m p outcome winner now) seat w
  unfolding ended enter_phase final_result
  finish-Settled p now seat w h k =
      let e = finish-undecided p now h in
      let s = cancel_offer m p.state now in
      let (x, found, same) = reported s.players 0 seat w (rw (e) at k) in
      rw (e) (record {
        result = final_result m s outcome winner now;
        stored = refl;
        settled = refl;
        row = x;
        found = found;
        reports = record {
          seat = omega (arith, same.seat);
          role = same.role;
          points = same.points;
          not_negative = same.not_negative;
          forfeited = same.forfeited;
        };
      })

-- A match ends once: to end it again, with whatever outcome and winner, changes nothing.
pub finish_idem :
    (m : TextMatch) (p : TextPending) (outcome later_outcome : Outcome)
    (winner later_winner : Winner) (now later : ℕ)
    → finish m (finish m p outcome winner now) later_outcome later_winner later
      ≡ finish m p outcome winner now
finish_idem m p outcome later_outcome winner later_winner now later =
    let (r, e) = finish-result m p outcome winner now in
    finish-decided m later_outcome later_winner (finish m p outcome winner now) later r e
