-- ===== src/RoutingTable/Bucket/Laws.antt =====
-- What the operations of a bucket of nodes (k_bucket.cpp) do to its nodes.
use miya_core.Base.{
  ◌==◌, ==_of_ne, ap, ◌⊎◌, ℕ, ◌≡◌, refl, sym, ◌≢◌, inl, inr, Bool, true, false, none, some, List,
  [], ◌∷◌, ◌++◌, arith,
}
use miya_core.Base.Distinct.{In, Fresh, Distinct, delete}
use miya_core.RoutingTable.Bucket.{KBucket, erase, move_back, swap, auto_add, swap_force}

Fresh-erase : (t : ℕ) (ns : List ℕ) → Fresh t ns → erase t ns ≡ none
unfolding Fresh erase
Fresh-erase t [] f = refl
Fresh-erase t (n ∷ ns) (ne, f) = ground (arith, Fresh-erase t ns f)

In-erase : (t : ℕ) (ns : List ℕ) → In t ns → erase t ns ≡ some (delete t ns)
unfolding In erase delete
In-erase t [] i = absurd i
In-erase t (n ∷ ns) (inl e) = ground arith
In-erase t (n ∷ ns) (inr i) = ground (arith, In-erase t ns i)

-- move_back of a node in the bucket moves it to the back and answers true; of another node it
-- changes nothing and answers false.
pub move_back_lem :
    (t : ℕ) (ns : List ℕ)
    → (In t ns → move_back t ns ≡ (true, delete t ns ++ t ∷ []))
      × (Fresh t ns → move_back t ns ≡ (false, ns))
unfolding move_back
move_back_lem t ns =
    (λ i. rw (In-erase t ns i, move_back) refl, λ f. rw (Fresh-erase t ns f, move_back) refl)

swap-Fresh : (p q t : ℕ) (ns : List ℕ) → t ≢ q → Fresh t ns → Fresh t (swap p q ns)
unfolding swap Fresh
swap-Fresh p q t [] ne f = f
swap-Fresh p q t (n ∷ ns) ne (m, f) = ground (arith, swap-Fresh p q t ns ne f)

swap-Distinct : (p q : ℕ) (ns : List ℕ) → Fresh q ns → Distinct ns → Distinct (swap p q ns)
unfolding swap Fresh Distinct
swap-Distinct p q [] f d = d
swap-Distinct p q (n ∷ ns) (qn, f) (m, d) =
    ground (arith, swap-Distinct p q ns f d, swap-Fresh p q n ns (λ e. qn (sym e)) m)

Fresh-swap : (p q : ℕ) (ns : List ℕ) → Fresh p ns → swap p q ns ≡ ns
unfolding swap Fresh
Fresh-swap p q [] f = refl
Fresh-swap p q (n ∷ ns) (ne, f) = ground (arith, Fresh-swap p q ns f)

swap-In :
    (p q : ℕ) (ns : List ℕ)
    → In p ns
    → (front : List ℕ) × (back : List ℕ) × (ns ≡ front ++ p ∷ back)
      × (swap p q ns ≡ front ++ q ∷ back)
unfolding swap In
swap-In p q [] i = absurd i
swap-In p q (n ∷ ns) i = elim (==-cases n p) [
  | inl e ↦ ([], ns, rw e refl, ground arith)
  | inr ne ↦
      (let (front, back, e, f) = swap-In p q ns (rest i ne) in
        (
          n ∷ front,
          back,
          ap (λ ms. n ∷ ms) e,
          (let g : (n == p) ≡ false = ==_of_ne n p ne in rw (g, f) refl),
        ))
]
  where
    ==-cases : (a b : ℕ) → (a ≡ b) ⊎ (a ≢ b)
    ==-cases a b = ground arith

    rest : (p ≡ n) ⊎ In p ns → n ≢ p → In p ns
    rest (inl e) ne = absurd (ne (sym e))
    rest (inr i) ne = i

-- On distinct nodes and with the mutex free, swapForce with a node outside the bucket leaves
-- distinct nodes and the mutex free; it puts the new node in the place of the old one, with the
-- others before and behind as they were, where the old one is in the bucket, and changes no node
-- where it is not.
pub swap_force_lem :
    (p q : ℕ) (b : KBucket)
    → b.mtx ≡ false
    → Fresh q b.node_vector
    → Distinct b.node_vector
    → (b' : KBucket) × (swap_force p q b ≡ some b')
      × (b'.mtx ≡ false)
      × Distinct b'.node_vector
      × (In p b.node_vector
          → (front : List ℕ) × (back : List ℕ) × (b.node_vector ≡ front ++ p ∷ back)
            × (b'.node_vector ≡ front ++ q ∷ back))
      × (Fresh p b.node_vector → b'.node_vector ≡ b.node_vector)
unfolding swap_force
swap_force_lem p q b h f d = (
  record { node_vector = swap p q b.node_vector; mtx = false },
  rw h refl,
  refl,
  swap-Distinct p q b.node_vector f d,
  swap-In p q b.node_vector,
  Fresh-swap p q b.node_vector,
)

-- autoAdd has no outcome on any bucket: it, or the find that it calls, waits for a mutex that is
-- held.
pub auto_add-none : (same : ℕ → Bool) (b : KBucket) → auto_add same b ≡ none
unfolding auto_add
auto_add-none same b = ground arith
