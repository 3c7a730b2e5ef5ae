-- ===== src/Game/Advance/Ends.antt =====
-- `advance` on a running match: no round of the loop is one too many, and the match stays in order.
use knowoff.Prelude.{
  ℕ, zero, suc, ◌+◌, ◌≤◌, ◌<◌, true, false, ◌&&◌, ◌≡◌, none, some, List, [], ◌∷◌, length, elem, ltb,
  refl, ◌∙◌, ◌⊎◌, inl, inr, arith, Option-cases, Bool-cases,
}
use knowoff.Contract.{Phase, Role}
use knowoff.Game.State.{TextState, TextMatch, TextPending, Result, Outcome, ok, err, GameError}
use knowoff.Game.Turns.{current}
use knowoff.Game.Turns.Seeds.{RoundError}
use knowoff.Game.Ballots.{tied, resolve_vote, close_ballot, start_runoff, voted_out, is_knowoff}
use knowoff.Game.Endings.{finalize_vote, absence_end}
use knowoff.Game.Ballots.Settles.{
  NextRound, HasResult, finish-result, close_ballot-lands, start_runoff-Keeps, finalize_vote-leads,
  finalize_vote_error,
}
use knowoff.Game.Ballots.Plurality.{tied-Leads, tally-active}
use knowoff.Game.Advance.{
  all_ready, Progress, done, more, failed, go_on, with_state, advance_in, closing, finalized,
  reveal_result, advance_loop, advance, record_absences,
}
use knowoff.Game.Advance.Bound.{
  Running, Live, Clocks, rank, left, Quiet, Good, go_on-more, go_on-done, unready, runoff-Quiet,
  staying-Running, later-Good, waits, round_start-Good, play-Good, trade_response-Good,
  discussion-Good,
}

some_elem : (xs : List ℕ) → ltb 1 (length xs) ≡ true → (x : ℕ) × (elem x xs ≡ true)
some_elem [] h = cc
some_elem (x ∷ xs) h = (x, ground arith)

-- After a tie somebody can still vote, so the runoff waits.
runoff-unready :
    (m : TextMatch) (s : TextState) (now : ℕ)
    → ltb 1 (length (tied s)) ≡ true
    → all_ready (start_runoff m s (tied s) now) ≡ false
unfolding all_ready
runoff-unready m s now h =
    let (seat, among) = some_elem (tied s) h in
    let (_, _, _, players, ready) = start_runoff-Keeps m s (tied s) now in
    let active = tally-active s.votes 0 s.players seat ((tied-Leads s seat).0 among).1 in
    let t = start_runoff m s (tied s) now in
    ground (arith, unready t 0 t.players ready (rw players active))

module _ (m : TextMatch) (now : ℕ) (p : TextPending) (run : Running m p.state) where
  tie-Good :
      0 < m.timers.knowoff_runoff
      → ltb 1 (length (tied p.state)) ≡ true
      → rank p.state.phase ≡ 1
      → Good m now p (go_on (with_state p (start_runoff m p.state (tied p.state) now)))
  tie-Good h ties e =
      let (keeps, phase, deadline, _, _) = start_runoff-Keeps m p.state (tied p.state) now in
      let q = with_state p (start_runoff m p.state (tied p.state) now) in
      rw (go_on-more q (keeps.result ∙ run.undecided)) (
        staying-Running m now p run q.state keeps (λ x. cc phase) (λ x. cc phase) (λ x. cc phase),
        inr (
          runoff-Quiet m now q phase (omega (arith, deadline)) (runoff-unready m p.state now ties),
          omega (arith, e, run.votes_left),
        ),
      )

  ballot-Good :
      0 < m.timers.knowoff_runoff
      → rank p.state.phase ≡ 1
      → Good m now p (go_on (resolve_vote m p now))
  unfolding resolve_vote
  ballot-Good h e = elim (Bool-cases (ltb 1 (length (tied p.state)) && is_knowoff p.state.phase)) [
    | inr closes ↦
        let (keeps, phase) = close_ballot-lands m p (voted_out (tied p.state)) now in
        rw closes (
          later-Good m now p run (close_ballot m p (voted_out (tied p.state)) now) keeps
            (rw (e, phase) (omega arith)) (λ x. cc phase) (λ x. cc phase) (λ x. cc phase))
    | inl ties ↦ rw ties (tie-Good h (ground arith) e)
  ]

  abbrev shown : TextPending
  shown = with_state p (reveal_result p.state now)

  NextRound-Good :
      (q : TextPending)
      → p.state.phase ≡ Phase.result_window
      → NextRound p.state q.state
      → Good m now p (go_on q)
  NextRound-Good q e n =
      let (undecided, spent, votes, round, phase) = n in
      rw (go_on-more q (undecided ∙ run.undecided)) (
        record {
          undecided = undecided ∙ run.undecided;
          votes_left = votes;
          begun = omega (arith, round);
          schedule = omega (arith, spent, round, run.schedule);
          not_over = λ x. cc phase;
          seat_on_turn = λ x. cc phase;
          offer_open = λ x. cc phase;
        },
        inl (rw (e, phase) (omega (arith, spent))),
      )

  finalized-Good :
      (r : Result TextPending)
      → p.state.phase ≡ Phase.result_window
      → ((q : TextPending) → r ≡ ok q → HasResult q.state ⊎ NextRound p.state q.state)
      → ((e : GameError) → r ≡ err e → RoundError m e)
      → Good m now p (finalized r)
  finalized-Good (err e) phase leads fails = fails e refl
  finalized-Good (ok q) phase leads fails = elim (leads q refl) [
    | inl over ↦ rw (go_on-done q over) (inl over)
    | inr next ↦ NextRound-Good q phase next
  ]

  shown-Running : Running m shown.state
  unfolding current
  shown-Running = record {
    undecided = run.undecided;
    votes_left = run.votes_left;
    begun = run.begun;
    schedule = run.schedule;
    not_over = run.not_over;
    seat_on_turn = λ e. run.seat_on_turn e;
    offer_open = λ e. run.offer_open e;
  }

  result_window-Good :
      p.state.phase ≡ Phase.result_window → Good m now p (advance_in Phase.result_window m p now)
  unfolding advance_in
  result_window-Good e = elim (Bool-cases (closing p.state now)) [
    | inr early ↦ rw early (inr shown-Running)
    | inl due ↦ rw due (
        finalized-Good (finalize_vote m shown now) e (finalize_vote-leads m shown now)
          (λ x h. finalize_vote_error m shown now x (omega (arith, run.schedule)) h))
  ]

  knowoff_ballot-Good :
      0 < m.timers.knowoff_runoff
      → p.state.phase ≡ Phase.knowoff_ballot
      → Good m now p (advance_in Phase.knowoff_ballot m p now)
  unfolding advance_in
  knowoff_ballot-Good h e = elim (Bool-cases (closing p.state now)) [
    | inr early ↦ rw early (waits m now p run)
    | inl due ↦ rw due (ballot-Good h (rw e refl))
  ]

  runoff-Good :
      0 < m.timers.knowoff_runoff
      → p.state.phase ≡ Phase.runoff
      → Good m now p (advance_in Phase.runoff m p now)
  unfolding advance_in
  runoff-Good h e = elim (Bool-cases (closing p.state now)) [
    | inr early ↦ rw early (waits m now p run)
    | inl due ↦ rw due (ballot-Good h (rw e refl))
  ]

  advance_in-Good :
      (phase : Phase) → Clocks m → p.state.phase ≡ phase → Good m now p (advance_in phase m p now)
  advance_in-Good Phase.round_start c e = round_start-Good m now p run c.turn e
  advance_in-Good Phase.play c e = play-Good m now p run c.turn e
  advance_in-Good Phase.trade_response c e = trade_response-Good m now p run c.turn e
  advance_in-Good Phase.discussion c e = discussion-Good m now p run e
  advance_in-Good Phase.knowoff_ballot c e = knowoff_ballot-Good c.runoff e
  advance_in-Good Phase.runoff c e = runoff-Good c.runoff e
  advance_in-Good Phase.result_window c e = result_window-Good e
  advance_in-Good Phase.verdict c e = absurd (run.not_over e)

-- What a result of `advance` may be.
abbrev pub Ends : TextMatch → Result TextPending → Type 0
Ends m (ok q) = Live m q.state
Ends m (err e) = RoundError m e

Quiet-Ends :
    (fuel : ℕ) (m : TextMatch) (now : ℕ) (p : TextPending)
    → Running m p.state
    → 1 ≤ fuel
    → Quiet m now p
    → Ends m (advance_loop fuel m p now)
unfolding advance_loop
Quiet-Ends zero m now p run h q = absurd (omega arith)
Quiet-Ends (suc fuel) m now p run h q = rw (q, advance_loop) (inr run)

progress-Ends :
    (fuel : ℕ) (m : TextMatch) (now : ℕ) (p : TextPending)
    → ((q : TextPending)
        → Running m q.state
        → left q.state ≤ fuel + 3
        → Ends m (advance_loop fuel m q now))
    → left p.state ≤ suc fuel + 3
    → (progress : Progress) → Good m now p progress
    → Ends m
        (elim progress [ done q ↦ ok q | more q ↦ advance_loop fuel m q now | failed e ↦ err e ])
progress-Ends fuel m now p ih h (done q) good = good
progress-Ends fuel m now p ih h (failed e) good = good
progress-Ends fuel m now p ih h (more q) (run, inl lower) = ih q run (omega arith)
progress-Ends fuel m now p ih h (more q) (run, inr (quiet, enough)) =
    Quiet-Ends fuel m now q run (omega arith) quiet

advance_loop-Ends :
    (fuel : ℕ) (m : TextMatch) (now : ℕ) (p : TextPending)
    → Clocks m
    → Running m p.state
    → left p.state ≤ fuel + 3
    → Ends m (advance_loop fuel m p now)
unfolding advance_loop
advance_loop-Ends zero m now p c run h = absurd (omega (arith, run.votes_left))
advance_loop-Ends (suc fuel) m now p c run h =
    progress-Ends fuel m now p (λ q r k. advance_loop-Ends fuel m now q c r k) h
      (advance_in p.state.phase m p now) (advance_in-Good m now p run p.state.phase c refl)

record_absences-Running :
    (m : TextMatch) (now : ℕ) (p : TextPending)
    → Running m p.state
    → Running m (record_absences m p now).state
unfolding record_absences current
record_absences-Running m now p run = record {
  undecided = run.undecided;
  votes_left = run.votes_left;
  begun = run.begun;
  schedule = run.schedule;
  not_over = run.not_over;
  seat_on_turn = λ e. run.seat_on_turn e;
  offer_open = λ e. run.offer_open e;
}

absence_end-HasResult :
    (m : TextMatch) (p q : TextPending) (now : ℕ) → absence_end m p now ≡ some q → HasResult q.state
unfolding absence_end
absence_end-HasResult m p q now h = ground (
  arith,
  finish-result m p Outcome.completed (some Role.nower) now,
  finish-result m p Outcome.completed (some Role.donower) now,
  finish-result m p Outcome.scored_low_population none now,
)

advance-ended :
    (m : TextMatch) (p q : TextPending) (now : ℕ)
    → p.state.result ≡ none
    → absence_end m (record_absences m p now) now ≡ some q
    → advance m p now ≡ ok q
unfolding advance
advance-ended m p q now h e = simp (advance, h, e)

advance-looped :
    (m : TextMatch) (p : TextPending) (now : ℕ)
    → p.state.result ≡ none
    → absence_end m (record_absences m p now) now ≡ none
    → advance m p now ≡ advance_loop 12 m (record_absences m p now) now
unfolding advance
advance-looped m p now h e = simp (advance, h, e)

-- In a match of at most three rounds with positive turn and runoff clocks, `advance` on a running
-- state never reports that its transition bound is exceeded, nor indexes past the seeds: it gives a
-- state that is running again or has a result, unless the seeds of a new round are not those that
-- its mode needs.
pub advance-Ends :
    (m : TextMatch) (p : TextPending) (now : ℕ)
    → Clocks m
    → length m.seeds ≤ 3
    → Running m p.state
    → Ends m (advance m p now)
advance-Ends m p now c size run =
    elim (Option-cases (absence_end m (record_absences m p now) now)) [
      | inr (q, e) ↦
          rw (advance-ended m p q now run.undecided e)
            (inl (absence_end-HasResult m (record_absences m p now) q now e))
      | inl e ↦
          let again = record_absences-Running m now p run in
          rw (advance-looped m p now run.undecided e) (
            advance_loop-Ends 12 m now (record_absences m p now) c again
              (ground (arith, again.begun, again.schedule)))
    ]
