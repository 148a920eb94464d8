-- ===== src/Btree/Delete.antt =====
-- ONode::remove of o_node.cpp. A descent to the largest key takes fuel, one unit for a node.
use miya_core.Base.{ℕ, zero, suc, ◌||◌, Option, none, some, List, leb, ◌==◌, if◌then◌else◌}
use miya_core.Optr.{Optr}
use miya_core.Allocator.Command.{M, pure, ◌>>=◌, ◌>>◌}
use miya_core.Allocator.Meta.{primary_optr}
use miya_core.Btree.ItemSet.{non_null, pred16, parent, key_count, raw_key, set_key, move_delete_key}
use miya_core.Btree.Links.{child_optr_count, data_optr_count, data_optr, set_data_optr, remove_item}
use miya_core.Btree.Node.{same_addr, child, find_index, subtree_max}
use miya_core.Btree.Borrow.{raise_child}
use miya_core.Btree.Remove.{underflow}

-- A candidate for the new root that has no key, one child and no parent gives way to its child.
unfoldable pub skip_empty : Option Optr → M (Option Optr)
unfolding key_count child_optr_count parent raise_child
skip_empty none = pure none
skip_empty (some root) = do
  n ← key_count root
  c ← child_optr_count root
  p ← parent root
  if n == 0
      then (if c == 1
          then (if same_addr p primary_optr then raise_child root else pure (some root))
          else pure (some root))
      else pure (some root)

unfoldable pub replace_item : Optr → ℕ → Optr → M (Unit {0})
unfolding key_count raw_key set_key data_optr_count data_optr set_data_optr
replace_item s index max = do
  n ← key_count max
  k ← raw_key max (pred16 n)
  set_key s index k
  m ← data_optr_count max
  d ← data_optr max (pred16 m)
  set_data_optr s index d

-- ONode::remove
unfoldable pub remove_key : ℕ → Optr → List ℕ → M (Option Optr)
unfolding find_index child_optr_count child subtree_max replace_item key_count raw_key skip_empty
    parent remove_item move_delete_key underflow
remove_key zero s target = λ m. none
remove_key (suc fuel) s target = do
  i ← find_index s target
  elim i [
    | none ↦ pure none
    | some index ↦ do
      c ← child_optr_count s
      if leb 1 c
          then (do
            first ← child s 0
            t ← non_null first
            max ← subtree_max fuel t
            replace_item s index max
            n ← key_count max
            k ← raw_key max (pred16 n)
            candidate ← elim k [ none ↦ pure none | some last ↦ remove_key fuel max last ]
            skip_empty candidate)
          else (do
            n ← key_count s
            p ← parent s
            if leb 2 n || same_addr p primary_optr
                then (do remove_item s index; pure none)
                else if same_addr p primary_optr
                then (do move_delete_key s 0; pure none)
                else underflow p s)
  ]
