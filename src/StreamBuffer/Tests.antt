-- ===== src/StreamBuffer/Tests.antt =====
-- Two segments in, and one out.
use miya_core.Base.{ℕ, ◌≤◌, ◌≡◌, refl, false, some, List, [], ◌∷◌, ◌++◌, length}
use miya_core.StreamBuffer.{
  capacity, enqueue, dequeue, Call, enqueued, dequeued, enqueue_step, dequeue_step, Run, start,
  next,
}
use miya_core.StreamBuffer.Order.{NoneWaited, given, taken, given-taken}

abbrev calls : List Call
calls = enqueued false 5 ∷ enqueued false 6 ∷ dequeued false (some 5) ∷ []

calls-Run : Run calls (6 ∷ [])
unfolding enqueue dequeue
calls-Run =
    next
      (next (next start (enqueue_step {q = []} {q' = 5 ∷ []} false 5 refl))
        (enqueue_step {q = 5 ∷ []} {q' = 5 ∷ 6 ∷ []} false 6 refl))
      (dequeue_step {q = 5 ∷ 6 ∷ []} {q' = 6 ∷ []} {r = some 5} false refl)

calls-NoneWaited : NoneWaited calls
unfolding NoneWaited
calls-NoneWaited = (refl, (refl, tt))

given-taken_example :
    (given calls ≡ taken calls ++ 6 ∷ []) × (length (let q : List ℕ = 6 ∷ [] in q) ≤ capacity)
given-taken_example = given-taken calls-Run calls-NoneWaited
