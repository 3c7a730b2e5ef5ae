-- ===== src/WorkGate/Drain.antt =====
-- The gate is joined when it is closed and nothing runs: server/internal/transport/work_gate.go.
use knowoff.Prelude.{
  ℕ, ◌≤◌, Bool, true, false, ◌&&◌, ◌≡◌, List, [], ◌∷◌, if◌then◌else◌, refl, arith,
}
use knowoff.WorkGate.{
  Task, WorkGate, new_work_gate, is_empty, enter, signal, delete, finish, close, begin_request, go,
  wait, Call, call, calls,
}

-- The channel is closed once, when admission is closed and no task is left.
pub record Joins (g : WorkGate) : Type 0 where
  pub joins : g.joined ≡ (g.closing && is_empty g.tasks)
  pub once : g.drained ≡ (if g.joined then 1 else 0)

-- What a call may leave for `signal` to see to.
record Late (g : WorkGate) : Type 0 where
  early : g.joined ≡ true → (g.closing && is_empty g.tasks) ≡ true
  once : g.drained ≡ (if g.joined then 1 else 0)

signal-Late : (g : WorkGate) → Late g → Joins (signal g)
unfolding signal
signal-Late g late = record { joins = ground (arith, late.early); once = ground (arith, late.once) }

enter-Joins : (g : WorkGate) (has_cancel : Bool) → Joins g → Joins (enter g has_cancel).0
unfolding enter
enter-Joins g has_cancel j = record {
  joins = ground (arith, j.joins);
  once = ground (arith, j.once);
}

delete-empty : (ts : List Task) (id : ℕ) → is_empty ts ≡ true → is_empty (delete ts id) ≡ true
unfolding delete
delete-empty [] id h = refl
delete-empty (t ∷ ts) id h = cc

finish-Joins : (g : WorkGate) (id : ℕ) → Joins g → Joins (finish g id)
unfolding finish
finish-Joins g id j =
    signal-Late (record g { tasks = delete g.tasks id })
      (record { early = λ h. ground (arith, j.joins, delete-empty g.tasks id); once = j.once })

closed-Joins :
    (g : WorkGate) → Joins g → g.closing ≡ false → Joins (signal (record g { closing = true }))
closed-Joins g j h =
    signal-Late (record g { closing = true })
      (record { early = λ e. ground (arith, j.joins); once = j.once })

if-Joins :
    (b : Bool) (x y : WorkGate) → Joins x → (b ≡ false → Joins y) → Joins (if b then x else y)
if-Joins true x y jx jy = jx
if-Joins false x y jx jy = jy refl

close-Joins : (g : WorkGate) → Joins g → Joins (close g)
unfolding close
close-Joins g j =
    if-Joins g.closing g _ j
      (λ h. let closed = closed-Joins g j h in record { joins = closed.joins; once = closed.once })

go-Joins : (g : WorkGate) (parent_cancelled : Bool) → Joins g → Joins (go g parent_cancelled).0
unfolding go
go-Joins g true j = j
go-Joins g false j = enter-Joins g true j

call-Joins : (g : WorkGate) (c : Call) → Joins g → Joins (call g c)
unfolding call begin_request
call-Joins g Call.request j = enter-Joins g false j
call-Joins g Call.shut j = close-Joins g j
call-Joins g (Call.worker parent_cancelled) j = go-Joins g parent_cancelled j
call-Joins g (Call.finished id) j = finish-Joins g id j

calls-Joins : (g : WorkGate) (cs : List Call) → Joins g → Joins (calls g cs)
unfolding calls
calls-Joins g [] j = j
calls-Joins g (c ∷ cs) j = calls-Joins (call g c) cs (call-Joins g c j)

-- Whatever calls were made of a new gate, the channel has been closed at most once, and a wait whose
-- context is not done succeeds exactly if admission is closed and no task is left.
pub wait-drained :
    (cs : List Call)
    → let g = calls new_work_gate cs in
      (g.drained ≤ 1) × (wait g false ≡ (g.closing && is_empty g.tasks))
unfolding wait
wait-drained cs =
    let g = calls new_work_gate cs in
    let j = calls-Joins new_work_gate cs (record { joins = refl; once = refl }) in
    (ground (arith, j.once), ground (arith, j.once, j.joins))
