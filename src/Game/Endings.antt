-- ===== src/Game/Endings.antt =====
-- How a round and a match end: finalizeVote, absenceEnd and finish of
-- server/internal/game/text_actions.go.
use knowoff.Prelude.{
  ℕ, suc, ◌+◌, ◌-◌, Bool, true, false, ◌&&◌, ◌||◌, Option, none, some, List, [], ◌∷◌, not, ltb,
  ◌==◌, if◌then◌else◌, count_if, any,
}
use knowoff.Prelude.Int.{ℤ, pos, ◌+ℤ◌, clamp_low}
use knowoff.Contract.{Phase, Role, BallotResult}
use knowoff.Game.State.{
  TextState, TextPlayer, TextMatch, TextPending, TextResult, TextPlayerResult, Outcome, Winner,
  Result, ok, ◌>>=◌, is_donower, is_nower,
}
use knowoff.Game.Turns.{enter_phase, set_player}
use knowoff.Game.Rounds.{begin_round}
use knowoff.Game.Offers.{cancel_offer}

-- Points at the end: bonus, floor at zero, forfeits.
abbrev pub won_by : Winner → Role → Bool
won_by none role = false
won_by (some Role.nower) role = is_nower role
won_by (some Role.donower) role = is_donower role

abbrev pub win_bonus : TextMatch → Winner → ℕ
win_bonus m (some Role.nower) = m.points.nower_win_bonus
win_bonus m _ = m.points.donower_team_win

abbrev pub is_completed : Outcome → Bool
is_completed Outcome.completed = true
is_completed _ = false

abbrev pub is_interrupted : Outcome → Bool
is_interrupted Outcome.interrupted = true
is_interrupted _ = false

unfoldable pub final_points : TextMatch → Outcome → Winner → TextPlayer → ℤ
final_points m outcome winner v =
    let bonus =
      if is_completed outcome && won_by winner v.role
      then v.points +ℤ pos (win_bonus m winner)
      else v.points in
    if is_interrupted outcome || ((is_completed outcome && v.absent) || not m.rewards)
    then pos 0
    else clamp_low bonus

unfoldable pub player_result : TextMatch → Outcome → Winner → ℕ → TextPlayer → TextPlayerResult
player_result m outcome winner seat v = record {
  seat = seat;
  role = v.role;
  points = final_points m outcome winner v;
  correct_votes = v.correct_votes;
  votes_cast = v.votes_cast;
  survivals = v.survivals;
  pokes = v.pokes;
  won = won_by winner v.role;
  connected = v.connected;
  absent = v.absent;
  eliminated = v.eliminated;
}

unfoldable pub settle_players : TextMatch → Outcome → Winner → List TextPlayer → List TextPlayer
settle_players m outcome winner [] = []
settle_players m outcome winner (v ∷ vs) =
    record v { points = final_points m outcome winner v } ∷ settle_players m outcome winner vs

unfoldable pub player_results :
    TextMatch → Outcome → Winner → ℕ → List TextPlayer → List TextPlayerResult
player_results m outcome winner i [] = []
player_results m outcome winner i (v ∷ vs) =
    player_result m outcome winner i v ∷ player_results m outcome winner (suc i) vs

unfoldable pub final_result : TextMatch → TextState → Outcome → Winner → ℕ → TextResult
final_result m s outcome winner now = record {
  outcome = outcome;
  winner = winner;
  occurred_at = now;
  original_human_count = m.original_size;
  players = player_results m outcome winner 0 s.players;
}

-- The state of a match that ends, once its offer is cancelled.
unfoldable pub ended : TextMatch → TextPending → TextState → Outcome → Winner → ℕ → TextPending
ended m p s outcome winner now =
    let result = final_result m s outcome winner now in
    let settled = record s {
      players = settle_players m outcome winner s.players;
      result = some result;
    } in
    record p {
      state = record (enter_phase settled Phase.verdict now 0) { turn = 0 };
      settled = some result;
    }

unfoldable pub finish : TextMatch → TextPending → Outcome → Winner → ℕ → TextPending
finish m p outcome winner now = elim p.state.result [
  | some r ↦ p
  | none ↦ ended m p (cancel_offer m p.state now) outcome winner now
]

abbrev pub is_uncaught : TextPlayer → Bool
is_uncaught v = not v.eliminated && is_donower v.role

abbrev pub uncaught : TextState → ℕ
uncaught s = count_if is_uncaught s.players

abbrev pub eliminate : Option BallotResult → TextState → TextState
eliminate none s = s
eliminate (some r) s = elim r.seat [
  | none ↦ s
  | some seat ↦ set_player s seat (λ q. record q { eliminated = true })
]

-- The ballot takes effect: the match ends or the next round begins.
unfoldable pub finalize_vote : TextMatch → TextPending → ℕ → Result TextPending
finalize_vote m p now =
    let out = eliminate p.state.ballot_result p.state in
    let s = record out { remaining_votes = out.remaining_votes - 1 } in
    if uncaught s == 0
    then ok (finish m (record p { state = s }) Outcome.completed (some Role.nower) now)
    else (if ltb s.remaining_votes (uncaught s)
        then ok (finish m (record p { state = s }) Outcome.completed (some Role.donower) now)
        else (begin_round m (record s { round = s.round + 1 }) now >>= λ next.
            ok (record p { state = next })))

-- The counts of absenceEnd.
abbrev pub team : Bool → TextPlayer → Bool
team true v = not v.eliminated && is_donower v.role
team false v = not v.eliminated && is_nower v.role

unfoldable pub team_gone : Bool → TextState → Bool
team_gone donowers s =
    let active = count_if (team donowers) s.players in
    ltb 0 active && (active == count_if (λ v. team donowers v && v.absent) s.players)

unfoldable pub low_population : TextState → Bool
low_population s =
    ltb (count_if (λ v. v.connected) s.players) 3
    && not (any (λ v. not v.connected && not v.absent) s.players)

-- `some` of the settled match if absences end it.
unfoldable pub absence_end : TextMatch → TextPending → ℕ → Option TextPending
absence_end m p now =
    if team_gone true p.state
    then some (finish m p Outcome.completed (some Role.nower) now)
    else (if team_gone false p.state
        then some (finish m p Outcome.completed (some Role.donower) now)
        else (if low_population p.state
            then some (finish m p Outcome.scored_low_population none now)
            else none))
