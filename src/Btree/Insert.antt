-- ===== src/Btree/Insert.antt =====
-- ONode::recursiveAdd of o_node.cpp on one node: the simple insertion, and the filling of a new
-- root node above a split.
use miya_core.Base.{ℕ, ◌+◌, Option, none, some, List}
use miya_core.Optr.{Optr, caddr}
use miya_core.Allocator.Command.{M, pure, ◌>>=◌, ◌>>◌, at, store}
use miya_core.Allocator.Meta.{primary_optr}
use miya_core.Btree.ItemSet.{set_parent, key_count, set_key, set_key_count, sort_key}
use miya_core.Btree.Links.{
  set_child_optr, set_child_optr_count, move_insert_child_optr, data_optr_count, set_data_optr,
  set_data_optr_count, move_insert_data_optr,
}
use miya_core.Btree.Node.{find_key}

-- META_ROOT_NODE_OFFSET
abbrev pub meta_root_node_offset : ℕ
meta_root_node_offset = 20

-- The index of the first of the node's keys that is the target: 0 where there is none.
unfoldable pub key_inserted_index : Optr → List ℕ → M ℕ
unfolding key_count find_key
key_inserted_index s target = do
  n ← key_count s
  i ← find_key s target 0 n
  elim i [ none ↦ pure 0 | some j ↦ pure j ]

unfoldable pub simple_add : Optr → List ℕ → Option Optr → Option Optr → M (Unit {0})
unfolding key_count set_key set_key_count sort_key key_inserted_index move_insert_data_optr
    data_optr_count set_data_optr_count move_insert_child_optr set_child_optr_count
simple_add s target target_data onode = do
  n ← key_count s
  set_key s n (some target)
  n' ← key_count s
  set_key_count s (n' + 1)
  sort_key s
  i ← key_inserted_index s target
  move_insert_data_optr s i target_data
  d ← data_optr_count s
  set_data_optr_count s (d + 1)
  elim onode [
    | none ↦ pure tt
    | some c ↦ do
      move_insert_child_optr s (i + 1) (some c)
      k ← key_count s
      set_child_optr_count s (k + 1)
  ]

-- The new root's address, put in the meta area at the start of the file.
unfoldable pub store_root : Optr → M (Unit {0})
store_root root = do p ← at primary_optr meta_root_node_offset; store p (caddr root)

-- The new root node above the node that was split and its right neighbour.
unfoldable pub fill_root : Optr → List ℕ → Option Optr → Optr → Optr → M (Unit {0})
unfolding store_root set_key set_key_count set_data_optr set_data_optr_count set_child_optr
    set_child_optr_count set_parent
fill_root root key target_data left right = do
  store_root root
  set_key root 0 (some key)
  set_key_count root 1
  set_data_optr root 0 target_data
  set_data_optr_count root 1
  set_child_optr root 0 (some left)
  set_child_optr_count root 1
  set_child_optr root 1 (some right)
  set_child_optr_count root 2
  set_parent left (some root)
  set_parent right (some root)
  set_parent root none
