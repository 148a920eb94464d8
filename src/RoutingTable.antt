-- ===== src/RoutingTable.antt =====
-- ekp2p/kademlia/k_routing_table/: the branch of a node's id in k_routing_table.cpp, and the
-- bucket of nodes in k_bucket.cpp (Bucket). A node is its pointer.
pub mod Branch
pub mod Bucket
mod Tests
use miya_core.Base.{
  ℕ, zero, suc, ◌+◌, ◌/◌, ◌%◌, ◌^◌, Option, none, some, List, [], ◌∷◌, leb, get_elem?,
  if◌then◌else◌,
}
use miya_core.Base.Fallible.{◌>>=◌}

-- K_BUCKET_SIZE
abbrev pub k_bucket_size : ℕ
k_bucket_size = 160

-- One bit of the exclusive or of two bytes, and the sum of the first n.
unfoldable pub distance_bit : ℕ → ℕ → ℕ → ℕ
distance_bit a b i = (a / 2 ^ i % 2 + b / 2 ^ i % 2) % 2

unfoldable pub byte_distance : ℕ → ℕ → ℕ → ℕ
unfolding distance_bit
byte_distance a b zero = 0
byte_distance a b (suc n) = byte_distance a b n + distance_bit a b n

-- short int KRoutingTable::calcBranch: the bits in which two ids differ
unfoldable pub calc_branch : List ℕ → List ℕ → ℕ
unfolding byte_distance
calc_branch (a ∷ xs) (b ∷ ys) = byte_distance a b 8 + calc_branch xs ys
calc_branch xs ys = 0

-- std::shared_ptr<KBucket> KRoutingTable::kBucket, of the array of buckets: a null pointer is `none`
-- inside, and the exception of std::array::at is `none` outside
unfoldable pub k_bucket {ℓ} : {A : Type ℓ} → List A → ℕ → Option (Option A)
k_bucket buckets branch =
    let at = get_elem? buckets branch >>= λ b. some (some b) in
    if leb k_bucket_size branch then some none else at
