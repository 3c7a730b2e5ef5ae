-- ===== src/WorkGate/Examples.antt =====
-- A gate that works, closes and drains.
use knowoff.Prelude.{◌≤◌, true, false, ◌&&◌, ◌≡◌, none, List, [], ◌∷◌, length}
use knowoff.WorkGate.{
  WorkGate, new_work_gate, is_empty, begin_request, go, wait, close, Call, calls, quiescing,
}
use knowoff.WorkGate.Drain.{wait-drained}
use knowoff.WorkGate.Closing.{all_finish, closed-admits, closed-drains}

abbrev busy : List Call
busy = Call.request ∷ Call.worker false ∷ Call.finished 0 ∷ Call.shut ∷ Call.request ∷ []

wait-drained_example :
    ((calls new_work_gate busy).drained ≤ 1)
    × (wait (calls new_work_gate busy) false
        ≡ ((calls new_work_gate busy).closing && is_empty (calls new_work_gate busy).tasks))
wait-drained_example = wait-drained busy

abbrev working : WorkGate
working = calls new_work_gate (Call.request ∷ Call.worker false ∷ [])

closed-admits_example :
    ((calls (close working) busy).closing ≡ true)
    × (length (calls (close working) busy).tasks ≤ length (close working).tasks)
    × ((begin_request (calls (close working) busy)).1 ≡ quiescing)
    × ((go (calls (close working) busy) false).1 ≡ none)
closed-admits_example = closed-admits working busy false

closed-drains_example :
    wait
      (calls
        (close (calls new_work_gate busy))
        (all_finish (close (calls new_work_gate busy)).tasks))
      false
    ≡ true
closed-drains_example = closed-drains busy
