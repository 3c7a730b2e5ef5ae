-- ===== src/Game/Ballots/Settles.antt =====
-- Where a ballot leaves the match, step by step.
use knowoff.Prelude.{
  ℕ, suc, ◌+◌, ◌-◌, ◌*◌, ◌≤◌, ◌<◌, ◌==◌, Bool, true, false, ◌≡◌, Option, some, List, [], ◌∷◌,
  length, refl, ◌∙◌, ◌⊎◌, inl, inr, arith, Option-cases, Bool-cases, ltb,
}
use knowoff.Contract.{Phase, BallotResult, Role}
use knowoff.Game.State.{
  TextState, TextPlayer, TextMatch, TextPending, TextResult, Outcome, Winner, Result, ◌>>=◌, ok,
  err, GameError,
}
use knowoff.Game.Turns.{enter_phase, set_player, event}
use knowoff.Game.Rounds.{begin_round}
use knowoff.Game.Turns.Settles.{Keeps, Keeps-refl, Keeps-trans}
use knowoff.Game.Turns.Rounds.{begin_round-fresh, begin_round_error}
use knowoff.Game.Turns.Seeds.{RoundError}
use knowoff.Game.Offers.{cancel_offer}
use knowoff.Game.Ballots.{
  award, record_ballot, score_vote, score_votes, score_survivals, close_ballot, start_runoff,
  survives, survived, result_of,
}
use knowoff.Game.Endings.{ended, final_result, finish, finalize_vote, uncaught, eliminate}

score_vote-Keeps :
    (m : TextMatch) (p : TextPending) (now i : ℕ) (v : TextPlayer)
    → Keeps p.state (score_vote m p now i v).state
unfolding score_vote award set_player
score_vote-Keeps m p now i v = ground arith

score_votes-Keeps :
    (m : TextMatch) (p : TextPending) (now i : ℕ) (vs : List TextPlayer)
    → Keeps p.state (score_votes m p now i vs).state
unfolding score_votes
score_votes-Keeps m p now i [] = Keeps-refl p.state
score_votes-Keeps m p now i (v ∷ vs) =
    Keeps-trans (score_vote-Keeps m p now i v)
      (score_votes-Keeps m (score_vote m p now i v) now (suc i) vs)

survived-Keeps :
    (m : TextMatch) (p : TextPending) (now i : ℕ) (b : Bool)
    → Keeps p.state (survived m p now i b).state
unfolding survived award set_player
survived-Keeps m p now i true = record { result = refl; remaining_votes = refl; round = refl }
survived-Keeps m p now i false = Keeps-refl p.state

score_survivals-Keeps :
    (m : TextMatch) (p : TextPending) (out : Option ℕ) (now i : ℕ) (vs : List TextPlayer)
    → Keeps p.state (score_survivals m p out now i vs).state
unfolding score_survivals
score_survivals-Keeps m p out now i [] = Keeps-refl p.state
score_survivals-Keeps m p out now i (v ∷ vs) =
    Keeps-trans (survived-Keeps m p now i (survives out i v))
      (score_survivals-Keeps m (survived m p now i (survives out i v)) out now (suc i) vs)

record_ballot-Keeps : (s : TextState) (r : BallotResult) (now : ℕ) → Keeps s (record_ballot s r now)
unfolding record_ballot event
record_ballot-Keeps s r now = record { result = refl; remaining_votes = refl; round = refl }

enter_phase-Keeps :
    (s : TextState) (phase : Phase) (now seconds : ℕ) → Keeps s (enter_phase s phase now seconds)
unfolding enter_phase
enter_phase-Keeps s phase now seconds = record {
  result = refl;
  remaining_votes = refl;
  round = refl;
}

-- A closed ballot leads to the result window.
pub close_ballot-lands :
    (m : TextMatch) (p : TextPending) (out : Option ℕ) (now : ℕ)
    → Keeps p.state (close_ballot m p out now).state
      × ((close_ballot m p out now).state.phase ≡ Phase.result_window)
unfolding close_ballot enter_phase
close_ballot-lands m p out now =
    let result = result_of p.state out in
    let told = record_ballot (record p.state { ballot_result = some result }) result now in
    let told-Keeps =
      record_ballot-Keeps (record p.state { ballot_result = some result }) result now in
    let scored = score_votes m (record p { state = told }) now 0 told.players in
    let scored-Keeps = score_votes-Keeps m (record p { state = told }) now 0 told.players in
    let survived-Keeps = score_survivals-Keeps m scored out now 0 scored.state.players in
    let all = Keeps-trans (Keeps-trans told-Keeps scored-Keeps) survived-Keeps in
    (record { result = all.result; remaining_votes = all.remaining_votes; round = all.round }, refl)

pub start_runoff-Keeps :
    (m : TextMatch) (s : TextState) (seats : List ℕ) (now : ℕ)
    → Keeps s (start_runoff m s seats now)
      × ((start_runoff m s seats now).phase ≡ Phase.runoff)
      × ((start_runoff m s seats now).deadline ≡ now + m.timers.knowoff_runoff * 1000)
      × ((start_runoff m s seats now).players ≡ s.players)
      × ((seat : ℕ) → (start_runoff m s seats now).ready seat ≡ false)
unfolding start_runoff record_ballot event enter_phase
start_runoff-Keeps m s seats now =
    (record { result = refl; remaining_votes = refl; round = refl }, refl, refl, refl, λ seat. refl)

-- A match without a result has one after `finish`.
pub finish-result :
    (m : TextMatch) (p : TextPending) (outcome : Outcome) (winner : Winner) (now : ℕ)
    → (r : TextResult) × ((finish m p outcome winner now).state.result ≡ some r)
unfolding finish ended enter_phase
finish-result m p outcome winner now = elim (Option-cases p.state.result) [
  | inl e ↦ (final_result m (cancel_offer m p.state now) outcome winner now, simp (e, finish))
  | inr (r, e) ↦ (r, simp (e, finish))
]

ne_zero : (n : ℕ) → (n == 0) ≡ false → 0 < n
ne_zero n h = ground arith

ltb-false : (a b : ℕ) → ltb a b ≡ false → b ≤ a
ltb-false a b h = ground arith

-- The match goes on into the next round, or it has a result.
abbrev pub NextRound : TextState → TextState → Type 0
NextRound s t =
    (t.result ≡ s.result)
    × (t.remaining_votes + 1 ≡ s.remaining_votes)
    × (1 ≤ t.remaining_votes)
    × (t.round ≡ s.round + 1)
    × (t.phase ≡ Phase.round_start)

abbrev pub HasResult : TextState → Type 0
HasResult s = (r : TextResult) × (s.result ≡ some r)

eliminate-Keeps : (r : Option BallotResult) (s : TextState) → Keeps s (eliminate r s)
unfolding set_player
eliminate-Keeps r s = ground arith

pub with_state_ok :
    (p q : TextPending) (r : Result TextState)
    → (r >>= λ s. ok (record p { state = s })) ≡ ok q
    → r ≡ ok q.state
with_state_ok p q (ok s) h = ground arith
with_state_ok p q (err e) h = cc

pub with_state_error :
    (p : TextPending) (r : Result TextState) (e : GameError)
    → (r >>= λ s. ok (record p { state = s })) ≡ err e
    → r ≡ err e
with_state_error p (ok s) e h = cc
with_state_error p (err x) e h = cc

module _ (m : TextMatch) (p : TextPending) (now : ℕ) where
  abbrev counted : TextState
  counted =
      let out = eliminate p.state.ballot_result p.state in
      record out { remaining_votes = out.remaining_votes - 1 }

  abbrev started : Result TextState
  started = begin_round m (record counted { round = counted.round + 1 }) now

  begun-NextRound :
      (t : TextState)
      → ltb counted.remaining_votes (uncaught counted) ≡ false
      → (uncaught counted == 0) ≡ false
      → started ≡ ok t
      → NextRound p.state t
  begun-NextRound t enough some_left h =
      let (fresh, phase) = begin_round-fresh m _ now t h in
      let out = eliminate-Keeps p.state.ballot_result p.state in
      let positive = ne_zero (uncaught counted) some_left in
      let enough_left = ltb-false counted.remaining_votes (uncaught counted) enough in
      (
        fresh.result ∙ out.result,
        omega (arith, fresh.remaining_votes, out.remaining_votes, positive, enough_left),
        omega (arith, fresh.remaining_votes, positive, enough_left),
        omega (arith, fresh.round, out.round),
        phase,
      )

  finished-HasResult :
      (q : TextPending) (winner : Role)
      → ◌≡◌ {A = Result TextPending}
          (ok (finish m (record p { state = counted }) Outcome.completed (some winner) now))
          (ok q)
      → HasResult q.state
  finished-HasResult q winner h =
      let e : finish m (record p { state = counted }) Outcome.completed (some winner) now ≡ q =
        cc in
      rw (← e) (finish-result m (record p { state = counted }) Outcome.completed (some winner) now)

  -- If it gives no error, finalizing a ballot ends the match with a result or leads into the next
  -- round, with one vote spent.
  pub finalize_vote-leads :
      (q : TextPending)
      → finalize_vote m p now ≡ ok q
      → HasResult q.state ⊎ NextRound p.state q.state
  unfolding finalize_vote
  finalize_vote-leads q h = elim (Bool-cases (uncaught counted == 0)) [
    | inl caught ↦ inl (finished-HasResult q Role.nower (rw caught at h))
    | inr some_left ↦ elim (Bool-cases (ltb counted.remaining_votes (uncaught counted))) [
      | inl short ↦ inl (finished-HasResult q Role.donower (rw (some_left, short) at h))
      | inr enough ↦ inr (
          begun-NextRound q.state enough some_left
            (with_state_ok p q started (rw (some_left, enough) at h)))
    ]
  ]

  -- While every vote left has seeds for its round, finalizing a ballot fails only as a round can
  -- fail to begin: the seeds of some round are not as many as the mode needs, or two of them have
  -- the same text.
  pub finalize_vote_error :
      (e : GameError)
      → p.state.round + p.state.remaining_votes ≤ suc (length m.seeds)
      → finalize_vote m p now ≡ err e
      → RoundError m e
  unfolding finalize_vote
  finalize_vote_error e h k = elim (Bool-cases (uncaught counted == 0)) [
    | inl caught ↦ cc (rw caught at k)
    | inr some_left ↦ elim (Bool-cases (ltb counted.remaining_votes (uncaught counted))) [
      | inl short ↦ cc (rw (some_left, short) at k)
      | inr enough ↦
          begin_round_error m (record counted { round = counted.round + 1 }) now e
            (omega (
              arith,
              (eliminate-Keeps p.state.ballot_result p.state).round,
              (eliminate-Keeps p.state.ballot_result p.state).remaining_votes,
              ne_zero (uncaught counted) some_left,
              ltb-false counted.remaining_votes (uncaught counted) enough,
            ))
            (with_state_error p started e (rw (some_left, enough) at k))
    ]
  ]
