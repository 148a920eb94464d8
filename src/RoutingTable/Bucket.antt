-- ===== src/RoutingTable/Bucket.antt =====
-- ekp2p/kademlia/k_routing_table/k_bucket.cpp: nodes by pointer, the most recent at the back. The
-- mutex is held or free; a call that waits for a mutex its own thread holds has no outcome.
pub mod Laws
use miya_core.Base.{
  ℕ, ◌+◌, Bool, true, false, Option, none, some, List, [], ◌∷◌, ◌++◌, length, leb, ◌==◌,
  if◌then◌else◌,
}
use miya_core.Base.Fallible.{◌>>=◌}

abbrev pub k_size : ℕ
k_size = 8

pub record KBucket : Type 0 where
  pub node_vector : List ℕ
  pub mtx : Bool

-- std::unique_lock<std::mutex> lock( _mtx )
abbrev pub lock : KBucket → Option KBucket
lock b = if b.mtx then none else some (record b { mtx = true })

-- The loop of KBucket::find, where `same` is the test of nodeIDcmp with the target.
unfoldable pub find_node : (ℕ → Bool) → List ℕ → Option ℕ
find_node same [] = none
find_node same (n ∷ ns) = let rest = find_node same ns in if same n then some n else rest

-- std::shared_ptr<KClientNode> KBucket::find, which releases the mutex at its end
unfoldable pub find : (ℕ → Bool) → KBucket → Option (Option ℕ)
unfolding find_node
find same b = do b' ← lock b; some (find_node same b'.node_vector)

-- std::find and erase: the nodes without the first that is the target
unfoldable pub erase : ℕ → List ℕ → Option (List ℕ)
erase target [] = none
erase target (n ∷ ns) =
    let rest = erase target ns in if n == target then some ns else (rest >>= λ ms. some (n ∷ ms))

-- bool KBucket::move_back: false where the target is not in the bucket
unfoldable pub move_back : ℕ → List ℕ → Bool × List ℕ
unfolding erase
move_back target ns = elim (erase target ns) [
  | none ↦ (false, ns)
  | some ms ↦ (true, ms ++ target ∷ [])
]

-- bool KBucket::isFull()
unfoldable pub is_full : List ℕ → Bool
is_full ns = leb k_size (length ns)

-- void KBucket::swapForce, under the mutex
unfoldable pub swap : ℕ → ℕ → List ℕ → List ℕ
swap from to [] = []
swap from to (n ∷ ns) = let rest = swap from to ns in if n == from then to ∷ ns else n ∷ rest

unfoldable pub swap_force : ℕ → ℕ → KBucket → Option KBucket
unfolding swap
swap_force from to b = do
  b' ← lock b
  some (record { node_vector = swap from to b'.node_vector; mtx = false })

-- The body of KBucket::autoAdd behind its search, where null is the pointer 0: the nodes left, and
-- the front node that a full bucket asks to be tried.
unfoldable pub place : Option ℕ → List ℕ → List ℕ × Option ℕ
unfolding is_full move_back
place (some n) ns = ((move_back n ns).1, none)
place none [] = (0 ∷ [], none)
place none (n ∷ ns) =
    if is_full (n ∷ ns)
    then elim (move_back n (n ∷ ns)).1 [ [] ↦ ([], none) | m ∷ ms ↦ (m ∷ ms, some m) ]
    else ((n ∷ ns) ++ 0 ∷ [], none)

-- int KBucket::autoAdd: the mutex, then find, then the rest
unfoldable pub auto_add : (ℕ → Bool) → KBucket → Option (KBucket × Option ℕ)
unfolding find place
auto_add same b = do
  b' ← lock b
  found ← find same b'
  some (
    record { node_vector = (place found b'.node_vector).0; mtx = false },
    (place found b'.node_vector).1,
  )
