-- ===== src/Btree/Add.antt =====
-- ONode::recursiveAdd of o_node.cpp, and the constructor that makes a node. The recursion goes from
-- a node to its parent and takes fuel, one unit for a node; `walk` is the allocator's fuel and
-- `sort` std::sort on keys.
use miya_core.Base.{ℕ, zero, suc, Option, none, some, List, get_elem?, leb, if◌then◌else◌}
use miya_core.Optr.{Optr}
use miya_core.Allocator.Meta.{primary_optr}
use miya_core.Btree.ItemSet.{
  default_key_count, o_node_item_set_size, clear, parent, key_count, non_null,
}
use miya_core.Btree.Files.{T, pure, ◌>>=◌, ◌>>◌, on_index, allocate_memory}
use miya_core.Btree.View.{import_item_set}
use miya_core.Btree.Node.{same_addr}
use miya_core.Btree.Split.{separator_key_index, widen, distribute}
use miya_core.Btree.Insert.{simple_add, fill_root}

-- ONode::ONode without a pointer to an item set
unfoldable pub new_onode : ℕ → T Optr
unfolding allocate_memory clear
new_onode walk = do s ← allocate_memory walk o_node_item_set_size; on_index (clear s); pure s

-- What a split hands to the parent.
pub record Carried : Type 0 where
  pub key : List ℕ
  pub data_optr : Option Optr
  pub onode : Optr

unfoldable pub split_onode :
    ℕ → (List (List ℕ) → List (List ℕ)) → Optr → List ℕ → Option Optr → Option Optr → T Carried
unfolding import_item_set widen new_onode distribute
split_onode walk sort s target target_data onode = do
  v ← on_index (import_item_set s)
  w ← on_index (non_null (widen sort v target target_data onode))
  key ← on_index (non_null (get_elem? w.keys separator_key_index))
  d ← on_index (non_null (get_elem? w.data_optrs separator_key_index))
  right ← new_onode walk
  on_index (distribute s right w)
  pure (record { key = key; data_optr = d; onode = right })

unfoldable pub recursive_add :
    ℕ
    → ℕ
    → (List (List ℕ) → List (List ℕ))
    → Optr
    → List ℕ
    → Option Optr
    → Option Optr
    → T (Option Optr)
unfolding key_count split_onode parent new_onode fill_root simple_add
recursive_add zero walk sort s target target_data onode = λ f. none
recursive_add (suc fuel) walk sort s target target_data onode = do
  n ← on_index (key_count s)
  if leb default_key_count n
      then (do
        c ← split_onode walk sort s target target_data onode
        p ← on_index (parent s)
        if same_addr p primary_optr
            then (do
              root ← new_onode walk
              on_index (fill_root root c.key c.data_optr s c.onode)
              pure (some root))
            else recursive_add fuel walk sort p c.key c.data_optr (some c.onode))
      else (do on_index (simple_add s target target_data onode); pure none)
