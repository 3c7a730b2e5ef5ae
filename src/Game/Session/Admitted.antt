-- ===== src/Game/Session/Admitted.antt =====
-- What Apply of server/internal/game/text_match.go acts on: its checks, put together.
use knowoff.Prelude.{
  ℕ, ◌<◌, ◌≡◌, true, false, Option, none, arith, leb, ◌==◌, count_if, Bool-cases, Option-cases, inl,
  inr,
}
use knowoff.Contract.{ActionRequest}
use knowoff.Contract.Sequence.{check_action_context, check_request_budget}
use knowoff.Contract.Sequence.Laws.{check_request_budget-accepts}
use knowoff.Contract.Sequence.Contexts.{Timely, check_action_context-Timely}
use knowoff.Game.State.{TextState, TextMatch, Result, ok, err, GameError, player_at}
use knowoff.Game.Session.{
  Session, TextHooks, ActionResult, find_request, context_of, admit, apply_new, apply,
}

abbrev pub asked_before : TextState → ℕ → ℕ
asked_before s seat = count_if (λ q. q.seat == seat) s.requests

-- A request that a seat may make in a state: in time, by a player who is there and in, and within
-- the number of requests that a seat has for a match.
pub record Admitted (m : TextMatch) (s : TextState) (seat : ℕ) (r : ActionRequest) (now : ℕ)
    : Type 0 where
  pub timely : Timely r (context_of m s now)
  pub connected : (player_at s seat).connected ≡ true
  pub still_in : (player_at s seat).eliminated ≡ false
  pub budget : asked_before s seat < m.limits.max_requests_per_seat

admit-Admitted :
    (m : TextMatch) (s : TextState) (seat : ℕ) (r : ActionRequest) (now : ℕ)
    → admit m s seat r now ≡ none
    → Admitted m s seat r now
unfolding admit
admit-Admitted m s seat r now h =
    let budget : check_request_budget (asked_before s seat) false m.limits ≡ none = ground arith in
    let timely : check_action_context r (context_of m s now) ≡ none = ground arith in
    record {
      timely = (check_action_context-Timely r (context_of m s now)).0 timely;
      connected = ground (arith, budget, timely);
      still_in = ground (arith, budget, timely);
      budget =
          elim ((check_request_budget-accepts (asked_before s seat) false m.limits).0 budget).1 [
            | inl repeated ↦ cc
            | inr room ↦ room
          ];
    }

refused_not_served :
    (g h : Session) (x : GameError) (a : ActionResult)
    → ◌≡◌ {A = Session × Result ActionResult} (g, err x) (h, ok a)
    → ⊥
refused_not_served g h x a e = ground arith

module _ (state_check : TextState → Option GameError) (request_hash : ActionRequest → ℕ)
    (m : TextMatch) (hooks : TextHooks) (g h : Session) (seat : ℕ) (r : ActionRequest) (now : ℕ)
    (a : ActionResult) where
  apply_new-Admitted :
      apply_new state_check m hooks g seat r (request_hash r) now ≡ (h, ok a)
      → Admitted m g.state seat r now
  unfolding apply_new
  apply_new-Admitted e = elim (Option-cases (admit m g.state seat r now)) [
    | inl fine ↦ admit-Admitted m g.state seat r now fine
    | inr (x, refused) ↦ absurd (refused_not_served g h x a (rw refused at e))
  ]

  -- A request that is new and is served, with no earlier work waiting to be stored, was made for the
  -- match, mode, round, turn, phase, phase id and board revision of the committed state, at a
  -- positive time before its deadline, which is at most 2 ^ 53 - 1; and its seat is one of the match,
  -- connected and not eliminated, with fewer recorded requests than a seat may have.
  pub apply-Admitted :
      g.pending ≡ none
      → find_request g.state.requests seat r.request_id ≡ none
      → apply state_check request_hash m hooks g seat r now ≡ (h, ok a)
      → (seat < m.original_size) × Admitted m g.state seat r now
  unfolding apply
  apply-Admitted idle new served = elim (Bool-cases (leb m.original_size seat)) [
    | inl out ↦ absurd (refused_not_served g h GameError.unauthorized a (rw out at served))
    | inr in_range ↦ (ground arith, apply_new-Admitted (simp (in_range, idle, new) at served))
  ]
