-- ===== src/StreamBuffer/Order.antt =====
-- The order and the number of the segments in a stream buffer (stream_buffer.cpp).
use miya_core.Base.{
  ℕ, ◌≤◌, ◌≡◌, refl, sym, subst, ◌<◌, ◌∙◌, ap, Bool, true, false, Option, none, some, List, [], ◌∷◌,
  ◌++◌, append_assoc, append-nil, arith, length, length-append, ltb, Bool-cases, inl, inr,
}
use miya_core.StreamBuffer.{
  capacity, enqueue, dequeue, Call, enqueued, dequeued, Step, enqueue_step, dequeue_step, Run,
  start, next,
}

-- No call with a timeout had to wait for room.
unfoldable pub NoneWaited : List Call → Type 0
NoneWaited [] = Unit {0}
NoneWaited (enqueued waited x ∷ cs) = (waited ≡ false) × NoneWaited cs
NoneWaited (dequeued waited r ∷ cs) = NoneWaited cs

-- The segments given, and those taken.
unfoldable pub given : List Call → List ℕ
given [] = []
given (enqueued waited x ∷ cs) = x ∷ given cs
given (dequeued waited r ∷ cs) = given cs

unfoldable pub taken : List Call → List ℕ
taken [] = []
taken (enqueued waited x ∷ cs) = taken cs
taken (dequeued waited none ∷ cs) = taken cs
taken (dequeued waited (some x) ∷ cs) = x ∷ taken cs

given-append : (cs ds : List Call) → given (cs ++ ds) ≡ given cs ++ given ds
unfolding given
given-append [] ds = refl
given-append (enqueued w x ∷ cs) ds = ap (λ xs. x ∷ xs) (given-append cs ds)
given-append (dequeued w r ∷ cs) ds = given-append cs ds

taken-append : (cs ds : List Call) → taken (cs ++ ds) ≡ taken cs ++ taken ds
unfolding taken
taken-append [] ds = refl
taken-append (enqueued w x ∷ cs) ds = taken-append cs ds
taken-append (dequeued w none ∷ cs) ds = taken-append cs ds
taken-append (dequeued w (some x) ∷ cs) ds = ap (λ xs. x ∷ xs) (taken-append cs ds)

NoneWaited-append : (cs ds : List Call) → NoneWaited (cs ++ ds) → NoneWaited cs × NoneWaited ds
unfolding NoneWaited
NoneWaited-append [] ds h = (tt, h)
NoneWaited-append (enqueued w x ∷ cs) ds (e, h) =
    let (p, q) = NoneWaited-append cs ds h in ((e, p), q)
NoneWaited-append (dequeued w r ∷ cs) ds h = NoneWaited-append cs ds h

enqueue-order :
    (q q' : List ℕ) (x : ℕ)
    → enqueue false q x ≡ some q'
    → (q ++ x ∷ [] ≡ q') × (length q' ≤ capacity)
unfolding enqueue
enqueue-order q q' x e = elim (Bool-cases (ltb (length q) capacity)) [
  | inl h ↦
      let same : q ++ x ∷ [] ≡ q' = ground arith in
      (same, rw (← same) (ground (arith, length-append q (x ∷ []))))
  | inr h ↦ absurd (ground arith)
]

dequeue-order :
    (w : Bool) (q q' : List ℕ) (r : Option ℕ)
    → dequeue w q ≡ some (r, q')
    → (q ++ [] ≡ taken (dequeued w r ∷ []) ++ q') × (length q' ≤ length q)
unfolding dequeue taken
dequeue-order true [] q' none e = ground arith
dequeue-order true [] q' (some y) e = absurd (ground arith)
dequeue-order false [] q' r e = absurd (ground arith)
dequeue-order true (x ∷ q) q' none e = absurd (ground arith)
dequeue-order false (x ∷ q) q' none e = absurd (ground arith)
dequeue-order true (x ∷ q) q' (some y) e = rw (append-nil q) (ground arith)
dequeue-order false (x ∷ q) q' (some y) e = rw (append-nil q) (ground arith)

-- One step: what it gives joins the queue's back, and what it takes leaves its front.
Step-order :
    {q q' : List ℕ} {c : Call}
    → Step q c q'
    → NoneWaited (c ∷ [])
    → length q ≤ capacity
    → (q ++ given (c ∷ []) ≡ taken (c ∷ []) ++ q') × (length q' ≤ capacity)
unfolding NoneWaited given taken
Step-order {q = q} {q' = q'} (enqueue_step w x e) (n, _) l =
    enqueue-order q q' x (subst (λ v. enqueue v q x ≡ some q') n e)
Step-order {q = q} {q' = q'} (dequeue_step w e) n l =
    let (s, b) = dequeue-order w q q' _ e in (s, omega arith)

-- In every order of ended calls in which no call with a timeout waited for room, the segments
-- given are those taken followed by those in the queue, in order, and the queue is within its
-- capacity.
pub given-taken :
    {cs : List Call} {q : List ℕ}
    → Run cs q
    → NoneWaited cs
    → (given cs ≡ taken cs ++ q) × (length q ≤ capacity)
unfolding given taken
given-taken start n = (refl, omega arith)
given-taken (next {cs = cs} {q = q} {q' = q'} {c = c} r s) n =
    let (m, k) = NoneWaited-append cs (c ∷ []) n in
    let (e, b) = given-taken r m in
    let (e', b') = Step-order s k b in
    (
      given-append cs (c ∷ [])
          ∙ rw e (append_assoc (taken cs) q (given (c ∷ [])))
          ∙ ap (λ xs. taken cs ++ xs) e'
          ∙ sym (append_assoc (taken cs) (taken (c ∷ [])) q')
          ∙ rw (taken-append cs (c ∷ [])) refl,
      b',
    )

-- A call with a timeout that waited for room drops its segment when there is room now, and when
-- there is none puts it into the queue beyond the capacity.
pub enqueue-waited :
    (q : List ℕ) (x : ℕ)
    → (length q < capacity → enqueue true q x ≡ some q)
      × (capacity ≤ length q
          → (q' : List ℕ) × (enqueue true q x ≡ some q') × (capacity < length q'))
unfolding enqueue
enqueue-waited q x =
    (λ h. ground arith, λ h. (q ++ x ∷ [], ground arith, omega (arith, length-append q (x ∷ []))))
