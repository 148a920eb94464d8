-- ===== src/Btree/Descend.antt =====
-- The descents of OBtree::add and OBtree::remove, btree.cpp, from the root to the node that they
-- work on. The loops over the keys run over as many keys as there are children.
use Prim.Native.Nat.{Ordering}
use miya_core.Base.{ℕ, zero, suc, ◌+◌, ◌-◌, Option, none, some, List, leb, if◌then◌else◌}
use miya_core.Base.Bytes.{memcmp}
use miya_core.Optr.{Optr}
use miya_core.Allocator.Command.{M, pure, ◌>>=◌}
use miya_core.Btree.ItemSet.{key_size, non_null}
use miya_core.Btree.Links.{child_optr_count}
use miya_core.Btree.Node.{child, key_bytes}

-- The loop of OBtree::add over the keys from index i on, with as many rounds: the index of the
-- first key above the target.
unfoldable pub first_above : Optr → List ℕ → ℕ → ℕ → M (Option ℕ)
unfolding key_bytes
first_above s target i zero = pure none
first_above s target i (suc k) = do
  raw ← key_bytes s i key_size
  elim (memcmp target raw) [ Ordering.lt ↦ pure (some i) | _ ↦ first_above s target (i + 1) k ]

unfoldable pub descend : ℕ → Optr → List ℕ → M Optr
unfolding child_optr_count first_above child
descend zero s target = λ m. none
descend (suc fuel) s target = do
  n ← child_optr_count s
  if leb 1 n
      then (do
        i ← first_above s target 0 n
        c ← elim i [ none ↦ child s (n - 1) | some j ↦ child s j ]
        t ← non_null c
        descend fuel t target)
      else pure s

-- What the loop of OBtree::remove finds: the target itself, or a key above it.
pub data Match : Type 0 where
  equal : Match
  above : ℕ → Match
  nothing : Match

unfoldable pub first_match : Optr → List ℕ → ℕ → ℕ → M Match
unfolding key_bytes
first_match s target i zero = pure nothing
first_match s target i (suc k) = do
  raw ← key_bytes s i key_size
  elim (memcmp target raw) [
    | Ordering.eq ↦ pure equal
    | Ordering.lt ↦ pure (above i)
    | Ordering.gt ↦ first_match s target (i + 1) k
  ]

unfoldable pub descend_match : ℕ → Optr → List ℕ → M Optr
unfolding child_optr_count first_match child
descend_match zero s target = λ m. none
descend_match (suc fuel) s target = do
  n ← child_optr_count s
  if leb 1 n
      then (do
        found ← first_match s target 0 n
        elim found [
          | equal ↦ pure s
          | above i ↦ do c ← child s i; t ← non_null c; descend_match fuel t target
          | nothing ↦ do c ← child s (n - 1); t ← non_null c; descend_match fuel t target
        ])
      else pure s
