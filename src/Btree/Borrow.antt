-- ===== src/Btree/Borrow.antt =====
-- ONode::underflow and ONode::merge of o_node.cpp, for a leaf that has lost its key: the keys that
-- its neighbours give, and the neighbours that take its parent's. An index is an unsigned short.
use miya_core.Base.{
  ℕ, zero, suc, ◌+◌, ◌-◌, ◌%◌, ◌^◌, Bool, false, Option, none, some, ltb, leb, if◌then◌else◌,
}
use miya_core.Optr.{Optr}
use miya_core.Allocator.Command.{M, pure, ◌>>=◌, ◌>>◌}
use miya_core.Btree.ItemSet.{
  non_null, pred16, set_parent, key_count, set_key_count, raw_key, set_key, move_insert_key,
  move_delete_key,
}
use miya_core.Btree.Links.{
  child_optr_count, move_delete_child_optr, data_optr_count, set_data_optr_count, data_optr,
  set_data_optr, move_insert_data_optr, move_delete_data_optr,
}
use miya_core.Btree.Node.{same_addr, child}

-- The search for a node among the children, from index i on, with as many rounds: `none` is -1.
unfoldable pub find_child : Optr → Optr → ℕ → ℕ → M (Option ℕ)
unfolding child
find_child s source i zero = pure none
find_child s source i (suc k) = do
  c ← child s i
  t ← non_null c
  if same_addr source t then pure (some i) else find_child s source (i + 1) k

unfoldable pub child_index : Optr → Optr → M (Option ℕ)
unfolding find_child child_optr_count
child_index s source = do n ← child_optr_count s; find_child s source 0 n

-- The neighbours of a child, null where there is none.
abbrev pub left_child : Optr → ℕ → M (Option Optr)
left_child s index = if ltb 0 index then child s (index - 1) else pure none

abbrev pub right_child : Optr → ℕ → M (Option Optr)
right_child s index = child s ((index + 1) % 2 ^ 16)

abbrev pub has_two : Option Optr → M Bool
has_two none = pure false
has_two (some t) = do n ← key_count t; pure (leb 2 n)

abbrev pub grow_keys : Optr → M (Unit {0})
grow_keys s = do n ← key_count s; set_key_count s (n + 1)

abbrev pub grow_data_optrs : Optr → M (Unit {0})
grow_data_optrs s = do n ← data_optr_count s; set_data_optr_count s (n + 1)

-- The key of the parent moves down to the source, and one of the neighbour up to the parent.
unfoldable pub lend : Optr → Optr → ℕ → M (Unit {0})
unfolding raw_key set_key set_key_count data_optr set_data_optr set_data_optr_count
lend s source index = do
  k ← raw_key s index
  set_key source 0 k
  set_key_count source 1
  d ← data_optr s index
  set_data_optr source 0 d
  set_data_optr_count source 1

unfoldable pub borrow_left : Optr → Optr → Optr → ℕ → M (Unit {0})
unfolding lend raw_key key_count set_key move_delete_key data_optr data_optr_count set_data_optr
    move_delete_data_optr
borrow_left s source left index = do
  lend s source (index - 1)
  n ← key_count left
  k ← raw_key left (pred16 n)
  set_key s (index - 1) k
  n' ← key_count left
  move_delete_key left (pred16 n')
  m ← data_optr_count left
  d ← data_optr left (pred16 m)
  set_data_optr s (index - 1) d
  m' ← data_optr_count left
  move_delete_data_optr left (pred16 m')

unfoldable pub borrow_right : Optr → Optr → Optr → ℕ → M (Unit {0})
unfolding lend raw_key set_key move_delete_key data_optr set_data_optr move_delete_data_optr
borrow_right s source right index = do
  lend s source index
  k ← raw_key right 0
  set_key s index k
  move_delete_key right 0
  d ← data_optr right 0
  set_data_optr s index d
  move_delete_data_optr right 0

-- The merges of a parent that keeps a key.
unfoldable pub merge_left : Optr → Optr → ℕ → M (Unit {0})
unfolding move_delete_child_optr key_count raw_key set_key set_key_count move_delete_key
    data_optr_count data_optr set_data_optr set_data_optr_count
merge_left s left index = do
  move_delete_child_optr s index
  n ← key_count left
  k ← raw_key s (index - 1)
  set_key left n k
  grow_keys left
  move_delete_key s (index - 1)
  m ← data_optr_count left
  d ← data_optr s (index - 1)
  set_data_optr left m d
  grow_data_optrs left

unfoldable pub merge_right : Optr → Optr → ℕ → M (Unit {0})
unfolding move_delete_child_optr key_count raw_key move_insert_key set_key_count move_delete_key
    data_optr_count data_optr move_insert_data_optr set_data_optr_count
merge_right s right index = do
  move_delete_child_optr s index
  k ← raw_key s index
  move_insert_key right 0 k
  grow_keys right
  move_delete_key s index
  d ← data_optr s index
  move_insert_data_optr right 0 d
  m ← data_optr_count right
  set_data_optr_count right m

-- The parent's key and data at an index, moved into a neighbour at its end or at its start.
unfoldable pub append_item : Optr → Optr → ℕ → M (Unit {0})
unfolding key_count raw_key move_insert_key set_key_count move_delete_key data_optr_count data_optr
    move_insert_data_optr set_data_optr_count move_delete_data_optr
append_item s left index = do
  n ← key_count left
  k ← raw_key s index
  move_insert_key left n k
  grow_keys left
  move_delete_key s index
  m ← data_optr_count left
  d ← data_optr s index
  move_insert_data_optr left m d
  grow_data_optrs left
  move_delete_data_optr s index

unfoldable pub prepend_item : Optr → Optr → ℕ → M (Unit {0})
unfolding key_count raw_key move_insert_key set_key_count move_delete_key data_optr_count data_optr
    move_insert_data_optr set_data_optr_count move_delete_data_optr
prepend_item s right index = do
  k ← raw_key s index
  move_insert_key right 0 k
  grow_keys right
  move_delete_key s index
  d ← data_optr s index
  move_insert_data_optr right 0 d
  grow_data_optrs right
  move_delete_data_optr s index

-- The first child, made a root node.
unfoldable pub raise_child : Optr → M (Option Optr)
unfolding child set_parent
raise_child s = do c ← child s 0; t ← non_null c; set_parent t none; child s 0
