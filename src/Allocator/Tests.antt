-- ===== src/Allocator/Tests.antt =====
-- Files whose unused blocks form rings, and blocks with free areas.
use miya_core.Base.{ℕ, ◌*◌, ◌≡◌, refl, inr, some, List, [], ◌∷◌, arith}
use miya_core.Optr.{set_addr, caddr}
use miya_core.Optr.Laws.{address, set_addr-IsOptr}
use miya_core.Memory.{Bytes}
use miya_core.Memory.Laws.{read, write}
use miya_core.Base.Distinct.{Fresh, Distinct}
use miya_core.Allocator.Meta.{set_head, use_unused_control_block_head}
use miya_core.Allocator.Ops.{find_free_block}
use miya_core.Allocator.Words.{Words, put, ptr, Rep, write-Rep}
use miya_core.Allocator.Access.{Returns}
use miya_core.Allocator.Ring.{Ring, Chain, AllInFile, set_head-Ring}
use miya_core.Allocator.Reuse.{use_three, use_unused-Ring, use_three-Ring}
use miya_core.Allocator.Fit.{Links, first_fit, find_free_block_lem}

abbrev blank : Bytes
blank a = 0

blank-Rep : Rep blank (λ k. 0)
unfolding read
blank-Rep = record { bytes = λ a. omega arith; words = λ k h. refl }

-- Pointers stored in words, and the file and the words that this leaves.
abbrev stored : List (ℕ × ℕ) → Bytes
stored [] = blank
stored ((k, c) ∷ fs) = write (stored fs) (5 * k) (caddr (ptr c))

abbrev words : List (ℕ × ℕ) → Words
words [] = λ k. 0
words ((k, c) ∷ fs) = put (words fs) k (address (ptr c))

stored-Rep : (fs : List (ℕ × ℕ)) → Rep (stored fs) (words fs)
stored-Rep [] = blank-Rep
stored-Rep ((k, c) ∷ fs) =
    write-Rep (stored fs) (words fs) k (ptr c) (stored-Rep fs) (set_addr-IsOptr (5 * c))

abbrev one : List (ℕ × ℕ)
one = (5, 24) ∷ (24, 24) ∷ (25, 24) ∷ []

-- Blocks 1, 2 and 3 in a ring.
abbrev three : List (ℕ × ℕ)
three = (5, 24) ∷ (24, 32) ∷ (25, 28) ∷ (28, 24) ∷ (29, 32) ∷ (32, 28) ∷ (33, 24) ∷ []

one-Ring : Ring (words one) 5 (1 ∷ [])
unfolding Ring Chain Distinct Fresh set_addr
one-Ring = (refl, (refl, refl), (tt, tt))

three-Ring : Ring (words three) 5 (1 ∷ 2 ∷ 3 ∷ [])
unfolding Ring Chain Distinct Fresh set_addr
three-Ring = (
  refl,
  (refl, refl, (refl, refl, (refl, refl))),
  ((omega arith, (omega arith, tt)), ((omega arith, tt), (tt, tt))),
)

two-Fresh : Fresh 2 (1 ∷ [])
unfolding Fresh
two-Fresh = (omega arith, tt)

all-InFile : AllInFile (1 ∷ 2 ∷ 3 ∷ [])
unfolding AllInFile
all-InFile = (omega arith, (omega arith, (omega arith, tt)))

one-InFile : AllInFile (1 ∷ [])
unfolding AllInFile
one-InFile = (omega arith, tt)

set_head_example :
    (w' : Words) × Returns tt w' (set_head 25 (some (ptr 28)) (stored one)) × Ring w' 5 (2 ∷ 1 ∷ [])
set_head_example =
    set_head-Ring (stored-Rep one) 5 2 (1 ∷ []) (omega arith) (omega arith) one-InFile two-Fresh
      one-Ring

use_unused_example :
    (w' : Words) × Returns (some (ptr 24)) w' (use_unused_control_block_head (stored one))
    × Ring w' 5 []
use_unused_example = use_unused-Ring (stored-Rep one) 1 [] (omega arith) one-InFile one-Ring

use_three_example :
    (w' : Words) × Returns
      (some (ptr 24) ∷ some (ptr 28) ∷ some (ptr 24) ∷ [])
      w'
      (use_three (stored three))
use_three_example = use_three-Ring (stored-Rep three) 1 2 3 [] all-InFile three-Ring

-- Block 1 has ten free bytes and is followed by block 2, which has a hundred.
abbrev areas : List (ℕ × ℕ)
areas = (25, 28) ∷ (27, 2) ∷ (31, 20) ∷ []

areas-Links : Links (words areas) 1 (2 ∷ [])
unfolding Links set_addr
areas-Links = (
  record {
    in_file = omega arith;
    start = omega arith;
    end = omega arith;
    ordered = inr (omega arith);
  },
  refl,
  record {
    in_file = omega arith;
    start = omega arith;
    end = omega arith;
    ordered = inr (omega arith);
  },
)

areas-fit : first_fit (words areas) 50 (1 ∷ 2 ∷ []) ≡ some 2
unfolding first_fit set_addr
areas-fit = refl

find_free_block_example :
    Returns (ptr 28) (words areas) (find_free_block 2 (ptr 24) 50 (stored areas))
find_free_block_example =
    find_free_block_lem (stored-Rep areas) 2 50 1 (2 ∷ []) 2 (omega arith) areas-Links areas-fit
