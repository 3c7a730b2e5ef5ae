-- ===== src/Game/Session/Retry.antt =====
-- Storing may fail and requests may be repeated: what Apply of
-- server/internal/game/text_match.go does the second time.
use knowoff.Prelude.{
  ℕ, Bool, true, false, ◌≡◌, ◌==◌, Option, none, some, List, [], ◌∷◌, refl, sym, ◌∙◌, inl, inr, all,
  arith, Bool-cases, Option-cases, leb,
}
use knowoff.Contract.{Action, ActionRequest, RequestRecord}
use knowoff.Contract.Sequence.{Reuse, check_request_reuse}
use knowoff.Game.State.{TextState, TextMatch, TextPending, TextResult, Result, ok, err, GameError}
use knowoff.Game.Session.{
  Session, Candidate, TextHooks, ActionResult, stored, settles, persist, checked, commit, admit,
  moderated, apply_new, apply_admitted, apply_reuse, apply, apply_idle, apply_waiting, find_request,
  is_retry, request_candidate,
}

-- The same outside world with a storage that takes everything.
abbrev pub accepting : TextHooks → TextHooks
accepting hooks = record hooks { abandon = λ e. true; award = λ e. true; settle = λ e. true }

all-true : {A : Type 0} (xs : List A) → all (λ x. true) xs ≡ true
all-true [] = refl
all-true (x ∷ xs) = all-true xs

accepting-stored : (hooks : TextHooks) (p : TextPending) → stored (accepting hooks) p ≡ true
unfolding stored
accepting-stored hooks p = rw (all-true p.abandons, all-true p.awards) (settled-cases p.settled)
  where
    settled-cases : (o : Option TextResult) → settles (accepting hooks) o ≡ true
    settled-cases none = refl
    settled-cases (some r) = refl

accepting-persist :
    (hooks : TextHooks) (g : Session) (c : Candidate)
    → persist (accepting hooks) g c ≡ (
      record { state = c.pending.state; pending = none },
      ok (record { duplicate = false; changed = true; public_events = c.events }),
    )
unfolding persist
accepting-persist hooks g c = rw (accepting-stored hooks c.pending) refl

-- How a candidate is left behind.
commit-left :
    (hooks : TextHooks) (g : Session) (x : Result Candidate) (c : Candidate)
    → g.pending ≡ none
    → (commit hooks g x).0.pending ≡ some c
    → x ≡ ok c
unfolding persist
commit-left hooks g (err e) c idle h = cc
commit-left hooks g (ok d) c idle h = ground arith

commit-left-session :
    (hooks : TextHooks) (g : Session) (c : Candidate)
    → g.pending ≡ none
    → (commit hooks g (ok c)).0.pending ≡ some c
    → (commit hooks g (ok c)).0 ≡ record g { pending = some c }
unfolding persist
commit-left-session hooks g c idle h = elim (Bool-cases (stored hooks c.pending)) [
  | inl all_stored ↦ cc (rw (all_stored, persist) at h)
  | inr failed ↦ simp (failed, persist)
]

-- A first attempt that leaves `c` behind, and what the same attempt does when all is stored.
record Leaves (hooks : TextHooks) (g : Session) (own : Candidate → Bool) (c : Candidate)
    (first second : Session × Result ActionResult) : Type 0 where
  session : first.0 ≡ record g { pending = some c }
  stores : second ≡ persist (accepting hooks) g c
  owned : own c ≡ true

commit-Leaves :
    (hooks : TextHooks) (g : Session) (own : Candidate → Bool) (c : Candidate)
    (x : Result Candidate)
    → ((d : Candidate) → x ≡ ok d → own d ≡ true)
    → g.pending ≡ none
    → (commit hooks g x).0.pending ≡ some c
    → Leaves hooks g own c (commit hooks g x) (commit (accepting hooks) g x)
commit-Leaves hooks g own c x mine idle h =
    let e = commit-left hooks g x c idle h in
    record {
      session = rw (e) (commit-left-session hooks g c idle (rw (e) at h));
      stores = rw (e) refl;
      owned = mine c e;
    }

moderated-accepting :
    (hooks : TextHooks) (seat : ℕ) (a : Action)
    → moderated (accepting hooks) seat a ≡ moderated hooks seat a
moderated-accepting hooks seat (Action.chat phrase text locale) = refl
moderated-accepting hooks seat a = refl

eq_refl : (n : ℕ) → (n == n) ≡ true
eq_refl n = ground arith

checked-own :
    (state_check : TextState → Option GameError) (seat : ℕ) (r : ActionRequest) (hash : ℕ)
    (s : TextState) (x : Result TextPending) (d : Candidate)
    → checked state_check x (request_candidate seat r hash s) ≡ ok d
    → is_retry d seat r hash ≡ true
checked-own state_check seat r hash s (err e) d h = cc
checked-own state_check seat r hash s (ok p) d h = elim (Option-cases (state_check p.state)) [
  | inl accepted ↦
      let e : request_candidate seat r hash s p ≡ d = cc in
      rw (← e, eq_refl seat, eq_refl r.request_id, eq_refl hash) refl
  | inr (e, refused) ↦ cc
]

module _ (state_check : TextState → Option GameError) (request_hash : ActionRequest → ℕ)
    (m : TextMatch) (hooks : TextHooks) (g : Session) (seat : ℕ) (r : ActionRequest) (now : ℕ)
    (c : Candidate) (idle : g.pending ≡ none) where
  abbrev Tries : (Session × Result ActionResult) → (Session × Result ActionResult) → Type 0
  Tries first second =
      first.0.pending ≡ some c
      → Leaves hooks g (λ d. is_retry d seat r (request_hash r)) c first second

  admitted-Tries :
      (refused : Option GameError)
      → Tries
          (apply_admitted state_check m hooks g seat r (request_hash r) now refused)
          (apply_admitted state_check m (accepting hooks) g seat r (request_hash r) now refused)
  admitted-Tries (some e) h = cc
  admitted-Tries none h = rw (moderated-accepting hooks seat r.action) (
      commit-Leaves hooks g (λ d. is_retry d seat r (request_hash r)) c _
        (λ d e. checked-own state_check seat r (request_hash r) g.state _ d e) idle h)

  new-Tries :
      Tries
        (apply_new state_check m hooks g seat r (request_hash r) now)
        (apply_new state_check m (accepting hooks) g seat r (request_hash r) now)
  unfolding apply_new
  new-Tries h = admitted-Tries (admit m g.state seat r now) h

  reuse-Tries :
      (u : Reuse) (x y : Session × Result ActionResult)
      → Tries x y
      → Tries (apply_reuse g u x) (apply_reuse g u y)
  reuse-Tries Reuse.fresh x y f h = f h
  reuse-Tries Reuse.repeated x y f h = cc
  reuse-Tries Reuse.conflict x y f h = cc

  idle-Tries :
      (old : Option RequestRecord)
      → Tries
          (apply_idle state_check request_hash m hooks g seat r now old)
          (apply_idle state_check request_hash m (accepting hooks) g seat r now old)
  idle-Tries none h = new-Tries h
  idle-Tries (some old) h =
      reuse-Tries (check_request_reuse request_hash old r seat) _ _ new-Tries h

  waiting-Tries :
      (p : Option Candidate)
      → g.pending ≡ p
      → Tries
          (apply_waiting state_check request_hash m hooks g seat r now p)
          (apply_waiting state_check request_hash m (accepting hooks) g seat r now p)
  waiting-Tries none e h = idle-Tries (find_request g.state.requests seat r.request_id) h
  waiting-Tries (some d) e h = cc

  apply-Leaves :
      (apply state_check request_hash m hooks g seat r now).0.pending ≡ some c
      → Leaves hooks g
          (λ d. is_retry d seat r (request_hash r))
          c
          (apply state_check request_hash m hooks g seat r now)
          (apply state_check request_hash m (accepting hooks) g seat r now)
        × (leb m.original_size seat ≡ false)
  unfolding apply
  apply-Leaves h = elim (Bool-cases (leb m.original_size seat)) [
    | inl outside ↦ cc (rw (outside, apply) at h)
    | inr inside ↦
        (rw (inside, apply) (waiting-Tries g.pending refl (rw (inside, apply) at h)), inside)
  ]

  apply_waiting-retry :
      (later : ℕ)
      → leb m.original_size seat ≡ false
      → is_retry c seat r (request_hash r) ≡ true
      → apply state_check request_hash m
          (accepting hooks)
          (record g { pending = some c })
          seat
          r
          later
        ≡ persist (accepting hooks) (record g { pending = some c }) c
  unfolding apply
  apply_waiting-retry later inside own = simp (apply, inside, own)

  -- A request that, with no candidate waiting, left a candidate behind that could not be stored:
  -- made again later with a storage that works, it has exactly the effect and the answer that it
  -- would have had the first time with that storage, whatever the clock says by then.
  pub retry-apply :
      (later : ℕ)
      → (apply state_check request_hash m hooks g seat r now).0.pending ≡ some c
      → apply state_check request_hash m
          (accepting hooks)
          (apply state_check request_hash m hooks g seat r now).0
          seat
          r
          later
        ≡ apply state_check request_hash m (accepting hooks) g seat r now
  retry-apply later h =
      let (left, inside) = apply-Leaves h in
      rw (left.session, left.stores)
        (apply_waiting-retry later inside left.owned
          ∙ accepting-persist hooks (record g { pending = some c }) c
          ∙ sym (accepting-persist hooks g c))
