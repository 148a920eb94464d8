-- ===== src/Btree/Remove.antt =====
-- ONode::recursiveMerge, merge, underflow and remove of o_node.cpp. What they return is the new
-- root node, null where the root stays.
use miya_core.Base.{ℕ, ◌+◌, ◌-◌, ◌^◌, Option, none, some, leb, ◌==◌, if◌then◌else◌}
use miya_core.Optr.{Optr}
use miya_core.Allocator.Command.{M, pure, ◌>>=◌, ◌>>◌}
use miya_core.Allocator.Meta.{primary_optr}
use miya_core.Btree.ItemSet.{
  non_null, pred16, parent, set_parent, key_count, set_key_count, raw_key, set_key, move_delete_key,
}
use miya_core.Btree.Links.{
  child_optr_count, set_child_optr_count, move_insert_child_optr, move_delete_child_optr,
  data_optr_count, set_data_optr_count, data_optr, set_data_optr, move_delete_data_optr,
}
use miya_core.Btree.Node.{same_addr, child}
use miya_core.Btree.Borrow.{
  child_index, left_child, right_child, has_two, grow_keys, borrow_left, borrow_right, merge_left,
  merge_right, append_item, prepend_item, raise_child,
}

abbrev grow_children : Optr → M (Unit {0})
grow_children s = do n ← child_optr_count s; set_child_optr_count s (n + 1)

-- The last child of a node, which becomes its parent.
abbrev adopt_last : Optr → M (Unit {0})
adopt_last s = do
  n ← child_optr_count s
  c ← child s (pred16 n)
  t ← non_null c
  set_parent t (some s)

-- The only key of the parent moves down to the target.
unfoldable pub lower : Optr → Optr → M (Unit {0})
unfolding raw_key set_key key_count set_key_count data_optr set_data_optr set_data_optr_count
lower s target = do
  k ← raw_key s 0
  set_key target 0 k
  grow_keys target
  set_key_count s 0
  d ← data_optr s 0
  set_data_optr target 0 d
  set_data_optr_count s 0

unfoldable pub push_left : Optr → Optr → Optr → M (Unit {0})
unfolding lower key_count raw_key set_key set_key_count move_delete_key data_optr_count data_optr
    set_data_optr set_data_optr_count move_delete_data_optr child_optr_count child
    move_insert_child_optr set_child_optr_count set_parent move_delete_child_optr
push_left s target left = do
  lower s target
  n ← key_count left
  k ← raw_key left n
  set_key s 0 k
  set_key_count s 1
  n' ← key_count left
  move_delete_key left n'
  m ← data_optr_count left
  d ← data_optr left m
  set_data_optr s 0 d
  set_data_optr_count s 1
  m' ← data_optr_count left
  move_delete_data_optr left m'
  c ← child_optr_count left
  x ← child left c
  t ← non_null x
  move_insert_child_optr target 0 (some t)
  grow_children target
  y ← child target 0
  t' ← non_null y
  set_parent t' (some target)
  c' ← child_optr_count left
  move_delete_child_optr left c'

unfoldable pub push_right : Optr → Optr → Optr → M (Unit {0})
unfolding lower raw_key set_key set_key_count move_delete_key data_optr set_data_optr
    set_data_optr_count move_delete_data_optr child_optr_count child move_insert_child_optr
    set_child_optr_count set_parent move_delete_child_optr
push_right s target right = do
  lower s target
  k ← raw_key right 0
  set_key s 0 k
  set_key_count s 1
  move_delete_key right 0
  d ← data_optr right 0
  set_data_optr s 0 d
  set_data_optr_count s 1
  move_delete_data_optr right 0
  n ← child_optr_count target
  x ← child right 0
  t ← non_null x
  move_insert_child_optr target n (some t)
  grow_children target
  adopt_last target
  move_delete_child_optr right 0

-- The end of a merge that may have taken the parent's last key.
abbrev settle : Optr → M (Option Optr)
settle s = do n ← key_count s; if n == 0 then raise_child s else pure none

unfoldable pub top_left : Optr → Optr → Optr → ℕ → M (Option Optr)
unfolding append_item child_optr_count child move_insert_child_optr set_child_optr_count set_parent
    move_delete_child_optr key_count raise_child
top_left s target left index = do
  append_item s left (index - 1)
  n ← child_optr_count left
  x ← child target 0
  t ← non_null x
  move_insert_child_optr left n (some t)
  grow_children left
  adopt_last left
  move_delete_child_optr s index
  settle s

unfoldable pub top_right : Optr → Optr → Optr → ℕ → M (Option Optr)
unfolding prepend_item child_optr_count child move_insert_child_optr set_child_optr_count set_parent
    move_delete_child_optr key_count raise_child
top_right s target right index = do
  prepend_item s right index
  x ← child target 0
  t ← non_null x
  move_insert_child_optr right 0 (some t)
  grow_children right
  adopt_last right
  move_delete_child_optr s index
  settle s

-- ONode::recursiveMerge( unsigned short )
unfoldable pub recursive_merge_at : Optr → ℕ → M (Option Optr)
unfolding key_count raise_child child push_left push_right top_left top_right
recursive_merge_at s index = do
  n ← key_count s
  if n == 0 then raise_child s else do
    target ← child s index
    left ← left_child s index
    right ← right_child s index
    two_left ← has_two left
    two_right ← has_two right
    if two_left
        then (do t ← non_null target; l ← non_null left; push_left s t l; pure none)
        else if two_right
        then (do t ← non_null target; r ← non_null right; push_right s t r; pure none)
        else elim left [
          | some l ↦ do t ← non_null target; top_left s t l index
          | none ↦ elim right [
            | some r ↦ do t ← non_null target; top_right s t r index
            | none ↦ pure none
          ]
        ]

-- ONode::recursiveMerge( std::shared_ptr<ONode> ), which takes -1 for 65535
unfoldable pub recursive_merge : Optr → Optr → M (Option Optr)
unfolding child_index recursive_merge_at
recursive_merge s source = do
  i ← child_index s source
  elim i [ none ↦ recursive_merge_at s (2 ^ 16 - 1) | some index ↦ recursive_merge_at s index ]

-- The end of a merge that has taken the key of a parent with one.
unfoldable pub merge_up : Optr → M (Option Optr)
unfolding parent raise_child recursive_merge
merge_up s = do
  p ← parent s
  if same_addr p primary_optr then raise_child s else recursive_merge p s

-- ONode::merge( unsigned short )
unfoldable pub merge_at : Optr → ℕ → M (Option Optr)
unfolding key_count merge_left merge_right append_item prepend_item move_delete_child_optr merge_up
    child
merge_at s index = do
  left ← left_child s index
  right ← right_child s index
  n ← key_count s
  elim left [
    | some l ↦
        if leb 2 n
        then (do merge_left s l index; pure none)
        else do append_item s l (index - 1); move_delete_child_optr s index; merge_up s
    | none ↦ elim right [
      | some r ↦
          if leb 2 n
          then (do merge_right s r index; pure none)
          else do prepend_item s r index; move_delete_child_optr s index; merge_up s
      | none ↦ pure none
    ]
  ]

-- ONode::merge( std::shared_ptr<ONode> ), which takes -1 for 65535
unfoldable pub merge_onode : Optr → Optr → M (Option Optr)
unfolding child_index merge_at
merge_onode s source = do
  i ← child_index s source
  elim i [ none ↦ merge_at s (2 ^ 16 - 1) | some index ↦ merge_at s index ]

unfoldable pub underflow : Optr → Optr → M (Option Optr)
unfolding child_index child key_count borrow_left borrow_right merge_at
underflow s source = do
  i ← child_index s source
  elim i [
    | none ↦ pure none
    | some index ↦ do
      left ← left_child s index
      right ← right_child s index
      two_left ← has_two left
      two_right ← has_two right
      if two_left
          then (do l ← non_null left; borrow_left s source l index; pure none)
          else if two_right
          then (do r ← non_null right; borrow_right s source r index; pure none)
          else merge_at s index
  ]
