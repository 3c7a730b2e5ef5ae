-- ===== src/WorkGate.antt =====
-- Joining work after admission closes: server/internal/transport/work_gate.go. Every function runs
-- under the gate's mutex, so a run of the program is a sequence of these steps. A task is a
-- pointer, here a number not used before; `drained` counts how often the channel was closed.
pub mod Drain
pub mod Closing
mod Examples
use knowoff.Prelude.{
  ℕ, suc, ◌+◌, Bool, true, false, ◌&&◌, ◌||◌, Option, none, some, List, [], ◌∷◌, ◌++◌, not, ◌==◌,
  if◌then◌else◌,
}

pub record Task : Type 0 where
  pub id : ℕ
  pub has_cancel : Bool

pub record WorkGate : Type 0 where
  pub closing : Bool
  pub tasks : List Task
  pub drained : ℕ
  pub joined : Bool
  pub next_id : ℕ
  pub cancelled : List ℕ

abbrev pub new_work_gate : WorkGate
new_work_gate = record {
  closing = false;
  tasks = [];
  drained = 0;
  joined = false;
  next_id = 0;
  cancelled = [];
}

abbrev pub is_empty : List Task → Bool
is_empty [] = true
is_empty (t ∷ ts) = false

-- `enter`; `none` is a nil task.
unfoldable pub enter : WorkGate → Bool → WorkGate × Option ℕ
enter g has_cancel = if g.closing then (g, none) else (
  record g {
    tasks = record { id = g.next_id; has_cancel = has_cancel } ∷ g.tasks;
    next_id = suc g.next_id;
  },
  some g.next_id,
)

unfoldable pub signal : WorkGate → WorkGate
signal g =
    if g.closing && (is_empty g.tasks && not g.joined)
    then record g { joined = true; drained = suc g.drained }
    else g

-- `delete(g.tasks, task)`
unfoldable pub delete : List Task → ℕ → List Task
delete [] id = []
delete (t ∷ ts) id = let rest = delete ts id in if t.id == id then rest else t ∷ rest

unfoldable pub finish : WorkGate → ℕ → WorkGate
finish g id = signal (record g { tasks = delete g.tasks id })

unfoldable pub cancels : List Task → List ℕ
cancels [] = []
cancels (t ∷ ts) = let rest = cancels ts in if t.has_cancel then t.id ∷ rest else rest

unfoldable pub close : WorkGate → WorkGate
close g =
    if g.closing
    then g
    else (let closed = signal (record g { closing = true }) in
        record closed { cancelled = g.cancelled ++ cancels g.tasks })

-- What Handler does with a request before it is served: 503 or a task.
pub data Admission : Type 0 where
  quiescing : Admission
  serving : ℕ → Admission

abbrev pub admission : Option ℕ → Admission
admission none = quiescing
admission (some id) = serving id

unfoldable pub begin_request : WorkGate → WorkGate × Admission
begin_request g = ((enter g false).0, admission (enter g false).1)

-- `Go`, for a context that is cancelled or not; `none` is false, and its new context is cancelled.
unfoldable pub go : WorkGate → Bool → WorkGate × Option ℕ
go g parent_cancelled = if parent_cancelled then (g, none) else enter g true

-- `Wait`: it succeeds if it does not block, on a context that is not done.
unfoldable pub wait : WorkGate → Bool → Bool
wait g context_done = not context_done && not (g.drained == 0)

-- A call of the gate; a task that was admitted finishes at some time.
pub data Call : Type 0 where
  request shut : Call
  worker : Bool → Call
  finished : ℕ → Call

unfoldable pub call : WorkGate → Call → WorkGate
call g Call.request = (begin_request g).0
call g Call.shut = close g
call g (Call.worker parent_cancelled) = (go g parent_cancelled).0
call g (Call.finished id) = finish g id

unfoldable pub calls : WorkGate → List Call → WorkGate
calls g [] = g
calls g (c ∷ cs) = calls (call g c) cs
