-- ===== src/Game/Session/Repeats.antt =====
-- The same request again, and requests that fail: Apply of server/internal/game/text_match.go.
use knowoff.Prelude.{
  ℕ, true, false, ◌≡◌, ◌==◌, Option, none, some, List, ◌∷◌, refl, inl, inr, arith, Bool-cases, leb,
}
use knowoff.Contract.{Action, ActionRequest, RequestRecord}
use knowoff.Contract.Sequence.{Reuse, check_request_reuse}
use knowoff.Game.State.{TextState, TextMatch, TextPending, Result, ok, err, GameError, ◌>>=◌}
use knowoff.Game.Actions.{act}
use knowoff.Game.Session.{
  Session, Candidate, TextHooks, ActionResult, new_pending, persist, checked, commit, unless, admit,
  moderated, add_record, apply_new, apply_admitted, apply_reuse, apply, apply_idle, apply_waiting,
  find_request, request_candidate, duplicate_result,
}

persist-ok :
    (hooks : TextHooks) (g h : Session) (c : Candidate) (a : ActionResult)
    → persist hooks g c ≡ (h, ok a)
    → h ≡ record { state = c.pending.state; pending = none }
unfolding persist
persist-ok hooks g h c a e = ground arith

eq_refl : (n : ℕ) → (n == n) ≡ true
eq_refl n = ground arith

module _ (state_check : TextState → Option GameError) (request_hash : ActionRequest → ℕ)
    (m : TextMatch) (hooks : TextHooks) (g : Session) (seat : ℕ) (r : ActionRequest) (now : ℕ) where
  -- The session has served the request.
  record Served (h : Session) : Type 0 where
    old : RequestRecord
    found : find_request h.state.requests seat r.request_id ≡ some old
    same : check_request_reuse request_hash old r seat ≡ Reuse.repeated
    nothing_waits : h.pending ≡ none

  own_record : RequestRecord
  own_record = record {
    match_id = r.match_id;
    seat = seat;
    request_id = r.request_id;
    body_hash = request_hash r;
  }

  own-repeated : check_request_reuse request_hash own_record r seat ≡ Reuse.repeated
  unfolding check_request_reuse own_record
  own-repeated = simp (
    check_request_reuse,
    eq_refl r.match_id,
    eq_refl seat,
    eq_refl r.request_id,
    eq_refl (request_hash r),
  )

  own-found :
      (rs : List RequestRecord) → find_request (own_record ∷ rs) seat r.request_id ≡ some own_record
  unfolding find_request own_record
  own-found rs = simp (find_request, eq_refl seat, eq_refl r.request_id)

  committed-Served :
      (h : Session) (a : ActionResult) (p : TextPending)
      → persist hooks g (
          request_candidate seat r
            (request_hash r)
            g.state
            (add_record m seat r (request_hash r) p))
        ≡ (h, ok a)
      → Served h
  unfolding own_record
  committed-Served h a p e = rw (persist-ok hooks g h _ a e) (record {
    old = own_record;
    found = own-found p.state.requests;
    same = own-repeated;
    nothing_waits = refl;
  })

  unless-Served :
      (h : Session) (a : ActionResult) (p : TextPending) (refused : Option GameError)
      → commit hooks g (
          unless refused (
            request_candidate seat r
              (request_hash r)
              g.state
              (add_record m seat r (request_hash r) p)))
        ≡ (h, ok a)
      → Served h
  unless-Served h a p none e = committed-Served h a p e
  unless-Served h a p (some x) e = cc

  acted-Served :
      (h : Session) (a : ActionResult) (o : Result TextPending)
      → commit hooks g (
          checked state_check
            (o >>= λ p. ok (add_record m seat r (request_hash r) p))
            (request_candidate seat r (request_hash r) g.state))
        ≡ (h, ok a)
      → Served h
  acted-Served h a (err x) e = cc
  acted-Served h a (ok p) e =
      unless-Served h a p (state_check (add_record m seat r (request_hash r) p).state) e

  moderated-Served :
      (h : Session) (a : ActionResult) (o : Result Action)
      → commit hooks g (
          checked state_check
            (o >>= λ x. act m (new_pending g.state) seat x now >>= λ p.
              ok (add_record m seat r (request_hash r) p))
            (request_candidate seat r (request_hash r) g.state))
        ≡ (h, ok a)
      → Served h
  moderated-Served h a (err x) e = cc
  moderated-Served h a (ok x) e = acted-Served h a (act m (new_pending g.state) seat x now) e

  admitted-Served :
      (h : Session) (a : ActionResult) (refused : Option GameError)
      → apply_admitted state_check m hooks g seat r (request_hash r) now refused ≡ (h, ok a)
      → Served h
  admitted-Served h a none e = moderated-Served h a (moderated hooks seat r.action) e
  admitted-Served h a (some x) e = cc

  new-Served :
      (h : Session) (a : ActionResult)
      → apply_new state_check m hooks g seat r (request_hash r) now ≡ (h, ok a)
      → Served h
  unfolding apply_new
  new-Served h a e = admitted-Served h a (admit m g.state seat r now) e

  reuse-Served :
      (h : Session) (a : ActionResult) (old : RequestRecord) (u : Reuse)
      → g.pending ≡ none
      → find_request g.state.requests seat r.request_id ≡ some old
      → check_request_reuse request_hash old r seat ≡ u
      → apply_reuse g u (apply_new state_check m hooks g seat r (request_hash r) now) ≡ (h, ok a)
      → Served h
  reuse-Served h a old Reuse.fresh idle found same e = new-Served h a e
  reuse-Served h a old Reuse.repeated idle found same e =
      let stays : g ≡ h = cc in
      rw (← stays) (record { old = old; found = found; same = same; nothing_waits = idle })
  reuse-Served h a old Reuse.conflict idle found same e = cc

  idle-Served :
      (h : Session) (a : ActionResult) (found : Option RequestRecord)
      → g.pending ≡ none
      → find_request g.state.requests seat r.request_id ≡ found
      → apply_idle state_check request_hash m hooks g seat r now found ≡ (h, ok a)
      → Served h
  idle-Served h a none idle found e = new-Served h a e
  idle-Served h a (some old) idle found e =
      reuse-Served h a old (check_request_reuse request_hash old r seat) idle found refl e

  waiting-Served :
      (h : Session) (a : ActionResult) (p : Option Candidate)
      → g.pending ≡ none
      → p ≡ none
      → apply_waiting state_check request_hash m hooks g seat r now p ≡ (h, ok a)
      → Served h
  waiting-Served h a none idle e k =
      idle-Served h a (find_request g.state.requests seat r.request_id) idle refl k
  waiting-Served h a (some c) idle e k = cc

  Served-again :
      (again : TextHooks) (h : Session) (later : ℕ)
      → leb m.original_size seat ≡ false
      → Served h
      → apply state_check request_hash m again h seat r later ≡ (h, ok duplicate_result)
  unfolding apply
  Served-again again h later inside served =
      simp (apply, inside, served.nothing_waits, served.found, served.same)

  -- A request that was answered without an error, with no candidate waiting, is answered as a
  -- duplicate when it is made again: the match does not change, whatever the clock says and whether
  -- or not the storage works.
  pub apply-again :
      (again : TextHooks) (h : Session) (later : ℕ) (a : ActionResult)
      → g.pending ≡ none
      → apply state_check request_hash m hooks g seat r now ≡ (h, ok a)
      → apply state_check request_hash m again h seat r later ≡ (h, ok duplicate_result)
  unfolding apply
  apply-again again h later a idle e = elim (Bool-cases (leb m.original_size seat)) [
    | inl outside ↦ cc (rw (outside, apply) at e)
    | inr inside ↦
        Served-again again h later inside
          (waiting-Served h a g.pending idle idle (rw (inside, apply) at e))
  ]
