-- ===== src/Btree/Tree.antt =====
-- OBtree of btree.cpp: an index file, known by the root node that its object holds. A descent takes
-- fuel, one unit for a node.
use Prim.Native.Nat.{Ordering}
use miya_core.Base.{ℕ, Bool, true, false, Option, none, some, List, [], ◌∷◌, if◌then◌else◌}
use miya_core.Optr.{Optr}
use miya_core.Memory.{ocmp_raw}
use miya_core.Allocator.Command.{M, at, store}
use miya_core.Allocator.Block.{load_optr}
use miya_core.Allocator.Meta.{primary_optr}
use miya_core.Btree.Files.{T, pure, ◌>>=◌, ◌>>◌, on_index, allocate_memory}
use miya_core.Btree.Node.{subtree_find}
use miya_core.Btree.Insert.{meta_root_node_offset, store_root}
use miya_core.Btree.Add.{new_onode, recursive_add}
use miya_core.Btree.Delete.{remove_key}
use miya_core.Btree.Descend.{descend, descend_match}

-- FORMAT_CODE, HELLOMIYACOININDEX!!
abbrev pub format_code : List ℕ
format_code =
    72 ∷ 69 ∷ 76 ∷ 76 ∷ 79 ∷ 77 ∷ 73 ∷ 89 ∷ 65 ∷ 67 ∷ 79 ∷ 73 ∷ 78 ∷ 73 ∷ 78 ∷ 68 ∷ 69 ∷ 88 ∷ 33
    ∷ 33 ∷ []

abbrev pub is_formatted : M Bool
is_formatted m = elim (ocmp_raw m primary_optr 0 format_code) [
  | none ↦ none
  | some Ordering.eq ↦ some (true, m)
  | some _ ↦ some (false, m)
]

abbrev pub load_root : M Optr
load_root m = elim (at primary_optr meta_root_node_offset m) [
  | none ↦ none
  | some (p, m') ↦ load_optr p m'
]

-- OBtree::OBtree without a root node: the root of a file with the format code, or a new file
unfoldable pub open_btree : ℕ → T Optr
unfolding allocate_memory new_onode store_root
open_btree walk = do
  formatted ← on_index is_formatted
  if formatted then on_index load_root else do
    _ ← allocate_memory walk 100
    root ← new_onode walk
    on_index (store_root root)
    on_index (store primary_optr format_code)
    pure root

-- OBtree::rootONode( target ): a null target is not put in the meta area
unfoldable pub set_root_onode : Option Optr → T (Option Optr)
unfolding store_root
set_root_onode none = pure none
set_root_onode (some target) = do on_index (store_root target); pure (some target)

abbrev replaced : Optr → Option Optr → Optr
replaced root none = root
replaced root (some new_root) = new_root

-- OBtree::add, with the root node behind it
unfoldable pub btree_add :
    ℕ → ℕ → (List (List ℕ) → List (List ℕ)) → Optr → List ℕ → Option Optr → T Optr
unfolding descend recursive_add
btree_add fuel walk sort root target data_optr = do
  s ← on_index (descend fuel root target)
  new_root ← recursive_add fuel walk sort s target data_optr none
  pure (replaced root new_root)

-- OBtree::remove, with the root node behind it
unfoldable pub btree_remove : ℕ → Optr → List ℕ → T Optr
unfolding descend_match remove_key
btree_remove fuel root target = do
  s ← on_index (descend_match fuel root target)
  new_root ← on_index (remove_key fuel s target)
  pure (replaced root new_root)

-- OBtree::find
unfoldable pub btree_find : ℕ → Optr → List ℕ → T (Option Optr)
unfolding subtree_find
btree_find fuel root target = on_index (subtree_find fuel root target)
