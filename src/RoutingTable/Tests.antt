-- ===== src/RoutingTable/Tests.antt =====
-- Ids of one and of twenty bytes, and a bucket of three nodes.
use miya_core.Base.{
  get_elem?, ◌^◌, ◌++◌, ◌≢◌, Option, ◌<◌, ℕ, zero, suc, ◌≤◌, ◌≡◌, refl, ◌↔◌, false, none, some,
  List, [], ◌∷◌, arith, length,
}
use miya_core.Base.Distinct.{In, Fresh, Distinct}
use miya_core.RoutingTable.{calc_branch, k_bucket}
use miya_core.RoutingTable.Branch.{
  calc_branch-le, calc_branch_comm, complement, IsBytes, calc_branch-zero_iff, k_bucket-calc_branch,
}
use miya_core.RoutingTable.Bucket.{KBucket, swap_force, auto_add}
use miya_core.RoutingTable.Bucket.Laws.{swap_force_lem, auto_add-none}

abbrev all : ℕ → ℕ → List ℕ
all zero b = []
all (suc n) b = b ∷ all n b

length-all : (n b : ℕ) → length (all n b) ≡ n
length-all zero b = refl
length-all (suc n) b = omega (arith, length-all n b)

calc_branch-le_example : calc_branch (5 ∷ 255 ∷ []) (6 ∷ 0 ∷ []) ≤ 16
calc_branch-le_example = calc_branch-le (5 ∷ 255 ∷ []) (6 ∷ 0 ∷ [])

calc_branch_comm_example : calc_branch (5 ∷ []) (6 ∷ []) ≡ calc_branch (6 ∷ []) (5 ∷ [])
calc_branch_comm_example = calc_branch_comm (5 ∷ []) (6 ∷ [])

abbrev five : List ℕ
five = 5 ∷ []

abbrev six : List ℕ
six = 6 ∷ []

calc_branch-zero_example : (calc_branch five six ≡ 0) ↔ (five ≡ six)
calc_branch-zero_example = calc_branch-zero_iff five six (omega arith, tt) (omega arith, tt) refl

all-IsBytes : (n b : ℕ) → b < 2 ^ 8 → IsBytes (all n b)
all-IsBytes zero b h = tt
all-IsBytes (suc n) b h = (h, all-IsBytes n b h)

k_bucket-calc_branch_example :
    (r : Option ℕ) × (k_bucket (all 160 3) (calc_branch (all 20 0) (all 20 255)) ≡ some r)
    × ((r ≡ none) ↔ (all 20 0 ≡ complement (all 20 255)))
    × (all 20 0 ≢ complement (all 20 255)
        → r ≡ get_elem? (all 160 3) (calc_branch (all 20 0) (all 20 255)))
k_bucket-calc_branch_example =
    k_bucket-calc_branch (all 160 3) (all 20 0) (all 20 255) (length-all 160 3) (length-all 20 0)
      (length-all 20 255) (all-IsBytes 20 0 (omega arith)) (all-IsBytes 20 255 (omega arith))

-- The branch of the id with every bit different.
farthest : calc_branch (all 20 0) (all 20 255) ≡ 160
unfolding calc_branch
farthest = refl

abbrev three : KBucket
three = record { node_vector = 7 ∷ 8 ∷ 9 ∷ []; mtx = false }

four-Fresh : Fresh 4 (7 ∷ 8 ∷ 9 ∷ [])
unfolding Fresh
four-Fresh = (omega arith, (omega arith, (omega arith, tt)))

three-Distinct : Distinct (7 ∷ 8 ∷ 9 ∷ [])
unfolding Distinct Fresh
three-Distinct = ((omega arith, (omega arith, tt)), ((omega arith, tt), (tt, tt)))

swap_force_example :
    (b' : KBucket) × (swap_force 8 4 three ≡ some b')
    × (b'.mtx ≡ false)
    × Distinct b'.node_vector
    × (In {A = ℕ} 8 (7 ∷ 8 ∷ 9 ∷ [])
        → (front : List ℕ) × (back : List ℕ) × (7 ∷ 8 ∷ 9 ∷ [] ≡ front ++ 8 ∷ back)
          × (b'.node_vector ≡ front ++ 4 ∷ back))
    × (Fresh 8 (7 ∷ 8 ∷ 9 ∷ []) → b'.node_vector ≡ 7 ∷ 8 ∷ 9 ∷ [])
swap_force_example = swap_force_lem 8 4 three refl four-Fresh three-Distinct

auto_add_example : auto_add (λ n. false) three ≡ none
auto_add_example = auto_add-none (λ n. false) three
