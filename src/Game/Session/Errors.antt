-- ===== src/Game/Session/Errors.antt =====
-- What is left of a call that fails: Apply and `system` of server/internal/game/text_match.go.
use knowoff.Prelude.{
  ℕ, Bool, true, false, ◌≡◌, Option, none, some, refl, ◌⊎◌, inl, inr, if◌then◌else◌, leb,
}
use knowoff.Contract.{ActionRequest, RequestRecord}
use knowoff.Contract.Sequence.{Reuse, check_request_reuse}
use knowoff.Game.State.{TextState, TextMatch, Result, ok, err, GameError}
use knowoff.Game.Session.{
  Session, Candidate, TextHooks, ActionResult, stored, persist, commit, admit, apply_new,
  apply_admitted, apply_reuse, apply, apply_idle, apply_waiting, find_request, is_retry,
}

-- The answer is not an error, or nothing was committed and only a failure to store left a trace.
abbrev pub Unharmed : Session → Session × Result ActionResult → Type 0
Unharmed g (h, ok a) = Unit {0}
Unharmed g (h, err e) = (h.state ≡ g.state) × ((h ≡ g) ⊎ (e ≡ GameError.persistence_failed))

persist-Unharmed :
    (hooks : TextHooks) (g : Session) (c : Candidate) → Unharmed g (persist hooks g c)
unfolding persist
persist-Unharmed hooks g c = stored-cases (stored hooks c.pending)
  where
    stored-cases :
        (b : Bool)
        → Unharmed g (
            if b
            then (
              record { state = c.pending.state; pending = none },
              ok (record { duplicate = false; changed = true; public_events = c.events }),
            )
            else (record g { pending = some c }, err GameError.persistence_failed))
    stored-cases true = tt
    stored-cases false = (refl, inr refl)

commit-Unharmed :
    (hooks : TextHooks) (g : Session) (x : Result Candidate) → Unharmed g (commit hooks g x)
commit-Unharmed hooks g (ok c) = persist-Unharmed hooks g c
commit-Unharmed hooks g (err e) = (refl, inl refl)

if-Unharmed :
    (g : Session) (b : Bool) (x y : Session × Result ActionResult)
    → Unharmed g x
    → Unharmed g y
    → Unharmed g (if b then x else y)
if-Unharmed g true x y hx hy = hx
if-Unharmed g false x y hx hy = hy

module _ (state_check : TextState → Option GameError) (request_hash : ActionRequest → ℕ)
    (m : TextMatch) (hooks : TextHooks) (g : Session) (seat : ℕ) (r : ActionRequest) (now : ℕ) where
  admitted-Unharmed :
      (refused : Option GameError)
      → Unharmed g (apply_admitted state_check m hooks g seat r (request_hash r) now refused)
  admitted-Unharmed none = commit-Unharmed hooks g _
  admitted-Unharmed (some e) = (refl, inl refl)

  new-Unharmed : Unharmed g (apply_new state_check m hooks g seat r (request_hash r) now)
  unfolding apply_new
  new-Unharmed = admitted-Unharmed (admit m g.state seat r now)

  reuse-Unharmed :
      (u : Reuse) (x : Session × Result ActionResult)
      → Unharmed g x
      → Unharmed g (apply_reuse g u x)
  reuse-Unharmed Reuse.fresh x h = h
  reuse-Unharmed Reuse.repeated x h = tt
  reuse-Unharmed Reuse.conflict x h = (refl, inl refl)

  idle-Unharmed :
      (old : Option RequestRecord)
      → Unharmed g (apply_idle state_check request_hash m hooks g seat r now old)
  idle-Unharmed none = new-Unharmed
  idle-Unharmed (some old) =
      reuse-Unharmed (check_request_reuse request_hash old r seat) _ new-Unharmed

  waiting-Unharmed :
      (p : Option Candidate)
      → Unharmed g (apply_waiting state_check request_hash m hooks g seat r now p)
  waiting-Unharmed none = idle-Unharmed (find_request g.state.requests seat r.request_id)
  waiting-Unharmed (some c) =
      if-Unharmed g (is_retry c seat r (request_hash r)) (persist hooks g c)
        (g, err GameError.persistence_pending) (persist-Unharmed hooks g c) (refl, inl refl)

  -- A request that fails commits nothing, and it changes the session at all only if its work could
  -- not be stored.
  pub apply-Unharmed : Unharmed g (apply state_check request_hash m hooks g seat r now)
  unfolding apply
  apply-Unharmed =
      if-Unharmed g (leb m.original_size seat) (g, err GameError.unauthorized) _ (refl, inl refl)
        (waiting-Unharmed g.pending)
