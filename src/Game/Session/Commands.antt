-- ===== src/Game/Session/Commands.antt =====
-- Calls of the entry points of server/internal/game/text_match.go on one match, in any order, each
-- at its own time and with hooks that may fail.
use knowoff.Prelude.{
  ℕ, ◌≤◌, ◌≡◌, Bool, true, false, Option, none, some, List, [], ◌∷◌, length, refl, inl, inr, arith,
  Bool-cases, leb, if◌then◌else◌,
}
use knowoff.Contract.{ActionRequest, RequestRecord, Action, PublicAction}
use knowoff.Contract.Sequence.{Reuse, check_request_reuse}
use knowoff.Game.State.{
  TextState, TextMatch, TextPending, Outcome, Result, ok, err, GameError, ◌>>=◌,
}
use knowoff.Game.Advance.Bound.{Live, Clocks}
use knowoff.Game.Endings.{finish}
use knowoff.Game.Ballots.Settles.{finish-result}
use knowoff.Game.Actions.{act}
use knowoff.Game.Actions.Order.{act-Live, advance-Live}
use knowoff.Game.Actions.Stays.{Stays-Live}
use knowoff.Game.Session.{
  Session, Candidate, TextHooks, ActionResult, new_pending, stored, persist, checked, commit,
  system_from, after_flush, system, advance_session, connect_session, close_session, admit,
  moderated, add_record, apply_new, apply_admitted, unless, system_waiting, apply_reuse, apply,
  apply_idle, apply_waiting, find_request, is_retry, system_candidate, request_candidate,
}
use knowoff.Game.Session.Order.{set_connected-Live}

pub data Command : Type 0 where
  tick : ℕ → Command
  connection : ℕ → Bool → ℕ → Command
  close : ℕ → Command
  request : ℕ → ActionRequest → ℕ → Command

-- The committed state is in order, and so is a candidate that waits to be stored.
pub record SessionLive (m : TextMatch) (g : Session) : Type 0 where
  pub committed : Live m g.state
  pub waiting : (c : Candidate) → g.pending ≡ some c → Live m c.pending.state

module _ (state_check : TextState → Option GameError) (request_hash : ActionRequest → ℕ)
    (m : TextMatch) where
  unfoldable pub execute : TextHooks → Session → Command → Session × Result ActionResult
  execute hooks g (Command.tick now) = advance_session state_check m hooks g now
  execute hooks g (Command.connection seat connected now) =
      connect_session state_check m hooks g seat connected now
  execute hooks g (Command.close now) = close_session state_check m hooks g now
  execute hooks g (Command.request seat r now) = apply state_check request_hash m hooks g seat r now

  -- The session after a sequence of calls.
  unfoldable pub run : Session → List (TextHooks × Command) → Session
  run g [] = g
  run g ((hooks, command) ∷ rest) = run (execute hooks g command).0 rest

  persist-SessionLive :
      (hooks : TextHooks) (g : Session) (c : Candidate)
      → SessionLive m g
      → Live m c.pending.state
      → SessionLive m (persist hooks g c).0
  unfolding persist
  persist-SessionLive hooks g c live candidate = elim (Bool-cases (stored hooks c.pending)) [
    | inl h ↦ rw (h) (record { committed = candidate; waiting = λ d e. cc })
    | inr h ↦ rw (h) (record {
      committed = live.committed;
      waiting = λ d e. let same : c ≡ d = cc in rw (← same) candidate;
    })
  ]

  unless-SessionLive :
      (hooks : TextHooks) (g : Session) (refused : Option GameError) (c : Candidate)
      → SessionLive m g
      → Live m c.pending.state
      → SessionLive m (commit hooks g (unless refused c)).0
  unless-SessionLive hooks g none c live candidate = persist-SessionLive hooks g c live candidate
  unless-SessionLive hooks g (some e) c live candidate = live

  commit-SessionLive :
      (hooks : TextHooks) (g : Session) (r : Result TextPending)
      (candidate : TextPending → Candidate)
      → ((p : TextPending) → (candidate p).pending ≡ p)
      → SessionLive m g
      → ((p : TextPending) → r ≡ ok p → Live m p.state)
      → SessionLive m (commit hooks g (checked state_check r candidate)).0
  commit-SessionLive hooks g (err e) candidate same live good = live
  commit-SessionLive hooks g (ok p) candidate same live good =
      unless-SessionLive hooks g (state_check p.state) (candidate p) live
        (rw (same p) (good p refl))

  system_from-SessionLive :
      (hooks : TextHooks) (g : Session) (prefix : List PublicAction)
      (f : TextPending → Result TextPending)
      → SessionLive m g
      → ((p q : TextPending) → Live m p.state → f p ≡ ok q → Live m q.state)
      → SessionLive m (system_from state_check hooks g prefix f).0
  unfolding system_from
  system_from-SessionLive hooks g prefix f live keeps =
      commit-SessionLive hooks g (f (new_pending g.state)) (system_candidate prefix g.state)
        (λ p. refl) live (λ p e. keeps (new_pending g.state) p live.committed e)

  after_flush-SessionLive :
      (hooks : TextHooks) (f : TextPending → Result TextPending)
      (flushed : Session × Result ActionResult)
      → SessionLive m flushed.0
      → ((p q : TextPending) → Live m p.state → f p ≡ ok q → Live m q.state)
      → SessionLive m (after_flush state_check hooks f flushed).0
  after_flush-SessionLive hooks f (g, err e) live keeps = live
  after_flush-SessionLive hooks f (g, ok r) live keeps =
      system_from-SessionLive hooks g r.public_events f live keeps

  system_waiting-SessionLive :
      (hooks : TextHooks) (g : Session) (f : TextPending → Result TextPending)
      (c : Option Candidate)
      → g.pending ≡ c
      → SessionLive m g
      → ((p q : TextPending) → Live m p.state → f p ≡ ok q → Live m q.state)
      → SessionLive m (system_waiting state_check hooks g f c).0
  system_waiting-SessionLive hooks g f none e live keeps =
      system_from-SessionLive hooks g [] f live keeps
  system_waiting-SessionLive hooks g f (some c) e live keeps =
      after_flush-SessionLive hooks f (persist hooks g c)
        (persist-SessionLive hooks g c live (live.waiting c e)) keeps

  system-SessionLive :
      (hooks : TextHooks) (g : Session) (f : TextPending → Result TextPending)
      → SessionLive m g
      → ((p q : TextPending) → Live m p.state → f p ≡ ok q → Live m q.state)
      → SessionLive m (system state_check hooks g f).0
  unfolding system
  system-SessionLive hooks g f live keeps =
      system_waiting-SessionLive hooks g f g.pending refl live keeps

  moderated-SessionLive :
      (p q : TextPending) (seat : ℕ) (r : ActionRequest) (hash now : ℕ) (a : Result Action)
      → Clocks m
      → length m.seeds ≤ 3
      → Live m p.state
      → (a >>= λ x. act m p seat x now >>= λ t. ok (add_record m seat r hash t)) ≡ ok q
      → Live m q.state
  moderated-SessionLive p q seat r hash now (err e) clocks size live h = cc
  moderated-SessionLive p q seat r hash now (ok x) clocks size live h =
      recorded (act m p seat x now) (λ t e. act-Live m clocks p t seat x now size live e) h
    where
      recorded :
          (o : Result TextPending)
          → ((t : TextPending) → o ≡ ok t → Live m t.state)
          → (o >>= λ t. ok (add_record m seat r hash t)) ≡ ok q
          → Live m q.state
      recorded (err e) good k = cc
      recorded (ok t) good k =
          let e : add_record m seat r hash t ≡ q = cc in
          rw (← e) (Stays-Live m t.state _ (good t refl) (ground arith))

  apply_admitted-SessionLive :
      (hooks : TextHooks) (g : Session) (seat : ℕ) (r : ActionRequest) (hash now : ℕ)
      (refused : Option GameError)
      → Clocks m
      → length m.seeds ≤ 3
      → SessionLive m g
      → SessionLive m (apply_admitted state_check m hooks g seat r hash now refused).0
  apply_admitted-SessionLive hooks g seat r hash now (some e) clocks size live = live
  apply_admitted-SessionLive hooks g seat r hash now none clocks size live =
      commit-SessionLive hooks g _ (request_candidate seat r hash g.state) (λ p. refl) live
        (λ q h.
          moderated-SessionLive (new_pending g.state) q seat r hash now
            (moderated hooks seat r.action) clocks size live.committed h)

  apply_new-SessionLive :
      (hooks : TextHooks) (g : Session) (seat : ℕ) (r : ActionRequest) (hash now : ℕ)
      → Clocks m
      → length m.seeds ≤ 3
      → SessionLive m g
      → SessionLive m (apply_new state_check m hooks g seat r hash now).0
  unfolding apply_new
  apply_new-SessionLive hooks g seat r hash now clocks size live =
      apply_admitted-SessionLive hooks g seat r hash now (admit m g.state seat r now) clocks size
        live

  reuse-SessionLive :
      (g : Session) (u : Reuse) (fresh : Session × Result ActionResult)
      → SessionLive m g
      → SessionLive m fresh.0
      → SessionLive m (apply_reuse g u fresh).0
  reuse-SessionLive g Reuse.fresh fresh live new = new
  reuse-SessionLive g Reuse.repeated fresh live new = live
  reuse-SessionLive g Reuse.conflict fresh live new = live

  if-SessionLive :
      (b : Bool) (x y : Session × Result ActionResult)
      → SessionLive m x.0
      → SessionLive m y.0
      → SessionLive m (if b then x else y).0
  if-SessionLive true x y hx hy = hx
  if-SessionLive false x y hx hy = hy

  apply_idle-SessionLive :
      (hooks : TextHooks) (g : Session) (seat : ℕ) (r : ActionRequest) (now : ℕ)
      (old : Option RequestRecord)
      → Clocks m
      → length m.seeds ≤ 3
      → SessionLive m g
      → SessionLive m (apply_idle state_check request_hash m hooks g seat r now old).0
  apply_idle-SessionLive hooks g seat r now none clocks size live =
      apply_new-SessionLive hooks g seat r (request_hash r) now clocks size live
  apply_idle-SessionLive hooks g seat r now (some old) clocks size live =
      reuse-SessionLive g (check_request_reuse request_hash old r seat)
        (apply_new state_check m hooks g seat r (request_hash r) now) live
        (apply_new-SessionLive hooks g seat r (request_hash r) now clocks size live)

  apply_waiting-SessionLive :
      (hooks : TextHooks) (g : Session) (seat : ℕ) (r : ActionRequest) (now : ℕ)
      (c : Option Candidate)
      → g.pending ≡ c
      → Clocks m
      → length m.seeds ≤ 3
      → SessionLive m g
      → SessionLive m (apply_waiting state_check request_hash m hooks g seat r now c).0
  apply_waiting-SessionLive hooks g seat r now none e clocks size live =
      apply_idle-SessionLive hooks g seat r now (find_request g.state.requests seat r.request_id)
        clocks size live
  apply_waiting-SessionLive hooks g seat r now (some c) e clocks size live =
      if-SessionLive (is_retry c seat r (request_hash r)) (persist hooks g c)
        (g, err GameError.persistence_pending)
        (persist-SessionLive hooks g c live (live.waiting c e)) live

  execute-SessionLive :
      (hooks : TextHooks) (g : Session) (command : Command)
      → Clocks m
      → length m.seeds ≤ 3
      → SessionLive m g
      → SessionLive m (execute hooks g command).0
  unfolding execute apply
  execute-SessionLive hooks g (Command.tick now) clocks size live =
      system-SessionLive hooks g _ live (λ p q run h. advance-Live m clocks p q now size run h)
  execute-SessionLive hooks g (Command.connection seat connected now) clocks size live =
      system-SessionLive hooks g _ live
        (λ p q run h. set_connected-Live m clocks now p q seat connected size run h)
  execute-SessionLive hooks g (Command.close now) clocks size live =
      system-SessionLive hooks g _ live λ p q run h.
        let e : finish m p Outcome.interrupted none now ≡ q = cc in
        rw (← e) (inl (finish-result m p Outcome.interrupted none now))
  execute-SessionLive hooks g (Command.request seat r now) clocks size live =
      if-SessionLive (leb m.original_size seat) (g, err GameError.unauthorized)
        (apply_waiting state_check request_hash m hooks g seat r now g.pending) live
        (apply_waiting-SessionLive hooks g seat r now g.pending refl clocks size live)

  -- In a match of at most three rounds with positive turn and runoff clocks: whatever calls are
  -- made, at whatever times and with whatever failures to store, the match keeps in order if it
  -- starts so. The committed state, and a candidate that waits, has a result or is running: votes
  -- are left with seeds for each, a seat is on turn in the play phase, an offer is open while one
  -- is answered.
  pub run-SessionLive :
      (g : Session) (calls : List (TextHooks × Command))
      → Clocks m
      → length m.seeds ≤ 3
      → SessionLive m g
      → SessionLive m (run g calls)
  unfolding run
  run-SessionLive g [] clocks size live = live
  run-SessionLive g ((hooks, command) ∷ rest) clocks size live =
      run-SessionLive (execute hooks g command).0 rest clocks size
        (execute-SessionLive hooks g command clocks size live)
