-- ===== src/WorkGate/Closing.antt =====
-- A closed gate admits nothing and drains as its tasks return:
-- server/internal/transport/work_gate.go.
use knowoff.Prelude.{
  ℕ, ◌≤◌, Bool, true, false, ◌≡◌, none, List, [], ◌∷◌, ◌++◌, length, ◌==◌, map, all, elem, refl, ap,
  ◌∙◌, arith,
}
use knowoff.WorkGate.{
  Task, WorkGate, new_work_gate, enter, signal, delete, finish, close, begin_request, go, wait,
  Call, call, calls, quiescing,
}
use knowoff.WorkGate.Drain.{wait-drained}

length-delete : (ts : List Task) (id : ℕ) → length (delete ts id) ≤ length ts
unfolding delete
length-delete [] id = omega arith
length-delete (t ∷ ts) id = ground (arith, length-delete ts id)

-- Closed, with no more tasks than before.
record Shut (g h : WorkGate) : Type 0 where
  closed : h.closing ≡ true
  fewer : length h.tasks ≤ length g.tasks

call-Shut : (g : WorkGate) (c : Call) → g.closing ≡ true → Shut g (call g c)
unfolding call begin_request go enter finish close signal
call-Shut g Call.request h = record { closed = ground arith; fewer = ground arith }
call-Shut g Call.shut h = record { closed = ground arith; fewer = ground arith }
call-Shut g (Call.worker parent_cancelled) h = record {
  closed = ground arith;
  fewer = ground arith;
}
call-Shut g (Call.finished id) h = record {
  closed = ground arith;
  fewer = ground (arith, length-delete g.tasks id);
}

calls-Shut : (g : WorkGate) (cs : List Call) → g.closing ≡ true → Shut g (calls g cs)
unfolding calls
calls-Shut g [] h = record { closed = h; fewer = omega arith }
calls-Shut g (c ∷ cs) h =
    let one = call-Shut g c h in
    let rest = calls-Shut (call g c) cs one.closed in
    record { closed = rest.closed; fewer = omega (arith, one.fewer, rest.fewer) }

close-closing : (g : WorkGate) → (close g).closing ≡ true
unfolding close signal
close-closing g = ground arith

-- Once a gate was closed, whatever calls follow, it stays closed and has no more tasks than then, a
-- request is refused and no worker starts.
pub closed-admits :
    (g : WorkGate) (cs : List Call) (parent_cancelled : Bool)
    → let h = calls (close g) cs in
      (h.closing ≡ true)
      × (length h.tasks ≤ length (close g).tasks)
      × ((begin_request h).1 ≡ quiescing)
      × ((go h parent_cancelled).1 ≡ none)
unfolding begin_request go enter
closed-admits g cs parent_cancelled =
    let shut = calls-Shut (close g) cs (close-closing g) in
    (shut.closed, shut.fewer, rw (shut.closed) refl, refused parent_cancelled shut.closed)
  where
    refused :
        (b : Bool) → (calls (close g) cs).closing ≡ true → (go (calls (close g) cs) b).1 ≡ none
    refused true h = refl
    refused false h = rw (h) refl

-- Every task of these returns.
abbrev pub all_finish : List Task → List Call
all_finish ts = map (λ t. Call.finished t.id) ts

abbrev ids : List Task → List ℕ
ids ts = map (λ t. t.id) ts

unfoldable delete_all : List Task → List ℕ → List Task
delete_all ts [] = ts
delete_all ts (i ∷ is) = delete_all (delete ts i) is

delete-left :
    (ts : List Task) (i : ℕ) (is : List ℕ)
    → all (λ t. elem t.id (i ∷ is)) ts ≡ true
    → all (λ t. elem t.id is) (delete ts i) ≡ true
unfolding delete
delete-left [] i is h = refl
delete-left (t ∷ ts) i is h = ground (arith, delete-left ts i is)

delete_all-covers :
    (ts : List Task) (is : List ℕ) → all (λ t. elem t.id is) ts ≡ true → delete_all ts is ≡ []
unfolding delete_all
delete_all-covers [] [] h = refl
delete_all-covers (t ∷ ts) [] h = cc
delete_all-covers ts (i ∷ is) h = delete_all-covers (delete ts i) is (delete-left ts i is h)

finish-tasks : (g : WorkGate) (id : ℕ) → (finish g id).tasks ≡ delete g.tasks id
unfolding finish signal
finish-tasks g id = ground arith

all_finish-tasks :
    (g : WorkGate) (ts : List Task) → (calls g (all_finish ts)).tasks ≡ delete_all g.tasks (ids ts)
unfolding calls call delete_all
all_finish-tasks g [] = refl
all_finish-tasks g (t ∷ ts) =
    all_finish-tasks (finish g t.id) ts ∙ ap (λ x. delete_all x (ids ts)) (finish-tasks g t.id)

calls-append : (g : WorkGate) (cs ds : List Call) → calls g (cs ++ ds) ≡ calls (calls g cs) ds
unfolding calls
calls-append g [] ds = refl
calls-append g (c ∷ cs) ds = calls-append (call g c) cs ds

eq_refl : (n : ℕ) → (n == n) ≡ true
eq_refl n = ground arith

own_ids :
    (ts us : List Task)
    → all (λ t. elem t.id (ids us)) ts ≡ true
    → (u : Task) → all (λ t. elem t.id (ids (u ∷ us))) ts ≡ true
own_ids [] us h u = refl
own_ids (t ∷ ts) us h u =
    let tail : all (λ x. elem x.id (ids us)) ts ≡ true = ground arith in
    ground (arith, own_ids ts us tail u)

covers_own : (ts : List Task) → all (λ t. elem t.id (ids ts)) ts ≡ true
covers_own [] = refl
covers_own (t ∷ ts) = ground (arith, eq_refl t.id, own_ids ts ts (covers_own ts) t)

-- Whatever calls were made of a new gate: if it is closed then, and each of its tasks returns, a wait
-- succeeds.
pub closed-drains :
    (cs : List Call)
    → let g = close (calls new_work_gate cs) in wait (calls g (all_finish g.tasks)) false ≡ true
unfolding call calls
closed-drains cs =
    let g = close (calls new_work_gate cs) in
    let ends = all_finish g.tasks in
    let e : calls new_work_gate (cs ++ Call.shut ∷ ends) ≡ calls g ends =
      calls-append new_work_gate cs (Call.shut ∷ ends) in
    let waits = (wait-drained (cs ++ Call.shut ∷ ends)).1 in
    let shut = calls-Shut g ends (close-closing (calls new_work_gate cs)) in
    let none_left =
      all_finish-tasks g g.tasks ∙ delete_all-covers g.tasks (ids g.tasks) (covers_own g.tasks) in
    (rw (e) at waits) ∙ rw (shut.closed, none_left) refl
