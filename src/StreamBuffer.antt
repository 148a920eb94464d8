-- ===== src/StreamBuffer.antt =====
-- share/stream_buffer/stream_buffer.cpp: the queue of segments that threads share. Under its mutex
-- a call is one step, apart from its wait, which releases the mutex: `waited` says that a call
-- with a timeout found its wait necessary and now has the mutex again.
pub mod Order
mod Tests
use miya_core.Base.{
  ℕ, ◌+◌, Bool, true, false, Option, none, some, List, [], ◌∷◌, ◌++◌, length, ltb, if◌then◌else◌,
  ◌≡◌,
}

-- DEFAULT_STREAM_BUFFER_CAPACITY
abbrev pub capacity : ℕ
capacity = 20

-- void StreamBuffer::enqueue: the queue left, none while its wait goes on
unfoldable pub enqueue : Bool → List ℕ → ℕ → Option (List ℕ)
enqueue true q x = if ltb (length q) capacity then some q else some (q ++ x ∷ [])
enqueue false q x = if ltb (length q) capacity then some (q ++ x ∷ []) else none

-- std::unique_ptr<SBSegment> StreamBuffer::dequeue: the segment, or null after a timeout, and the
-- queue left; none while its wait goes on
unfoldable pub dequeue : Bool → List ℕ → Option (Option ℕ × List ℕ)
dequeue true [] = some (none, [])
dequeue false [] = none
dequeue waited (x ∷ q) = some (some x, q)

-- What a call that ended did: the segments given to enqueue and taken by dequeue.
pub data Call : Type 0 where
  enqueued : Bool → ℕ → Call
  dequeued : Bool → Option ℕ → Call

pub data Step : List ℕ → Call → List ℕ → Type 0 where
  enqueue_step :
      {q q' : List ℕ} (waited : Bool) (x : ℕ)
      → enqueue waited q x ≡ some q'
      → Step q (enqueued waited x) q'
  dequeue_step :
      {q q' : List ℕ} {r : Option ℕ} (waited : Bool)
      → dequeue waited q ≡ some (r, q')
      → Step q (dequeued waited r) q'

-- The calls that end, in order, from an empty queue on.
pub data Run : List Call → List ℕ → Type 0 where
  start : Run [] []
  next :
      {cs : List Call} {q q' : List ℕ} {c : Call} → Run cs q → Step q c q' → Run (cs ++ c ∷ []) q'
