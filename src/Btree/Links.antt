-- ===== src/Btree/Links.antt =====
-- ONodeItemSet of o_node.cpp, its children and data pointers. The setters store an address of five
-- bytes, or five zero bytes for a null pointer.
use miya_core.Base.{ℕ, zero, suc, ◌+◌, ◌-◌, ◌*◌, Option, none, some, ltb, leb, ◌==◌, if◌then◌else◌}
use miya_core.Optr.{Optr, caddr}
use miya_core.Allocator.Command.{M, pure, ◌>>=◌, ◌>>◌, at, store}
use miya_core.Allocator.Block.{zero_addr, load_optr}
use miya_core.Btree.ItemSet.{
  default_child_count, child_element_offset, data_optr_element_offset, value_at, set_value_at,
  move_delete_key,
}

unfoldable pub child_optr_count : Optr → M ℕ
child_optr_count s = value_at s child_element_offset

unfoldable pub set_child_optr_count : Optr → ℕ → M (Unit {0})
set_child_optr_count s num = set_value_at s child_element_offset num

unfoldable pub child_optr : Optr → ℕ → M (Option Optr)
unfolding child_optr_count
child_optr s index = do
  n ← child_optr_count s
  if leb n index
      then pure none
      else do p ← at s (child_element_offset + 1 + index * 5); c ← load_optr p; pure (some c)

-- The setter of a child, which does not refuse the index DEFAULT_CHILD_COUNT.
unfoldable pub set_child_optr : Optr → ℕ → Option Optr → M (Unit {0})
set_child_optr s index target = if ltb default_child_count index then pure tt else do
  p ← at s (child_element_offset + 1 + index * 5)
  elim target [ none ↦ store p zero_addr | some t ↦ store p (caddr t) ]

unfoldable pub shift_children : Optr → ℕ → ℕ → M (Unit {0})
unfolding child_optr set_child_optr
shift_children s i zero = pure tt
shift_children s i (suc k) = do
  c ← child_optr s (i - 1)
  set_child_optr s i c
  shift_children s (i - 1) k

unfoldable pub move_insert_child_optr : Optr → ℕ → Option Optr → M (Unit {0})
unfolding shift_children child_optr_count set_child_optr
move_insert_child_optr s index target = do
  n ← child_optr_count s
  shift_children s n (n - index)
  set_child_optr s index target

unfoldable pub close_children : Optr → ℕ → ℕ → M (Unit {0})
unfolding child_optr set_child_optr
close_children s i zero = pure tt
close_children s i (suc k) = do
  c ← child_optr s (i + 1)
  set_child_optr s i c
  close_children s (i + 1) k

unfoldable pub move_delete_child_optr : Optr → ℕ → M (Unit {0})
unfolding close_children child_optr_count set_child_optr_count
move_delete_child_optr s index = do
  n ← child_optr_count s
  if n == 0
      then pure tt
      else do close_children s index (n - 1 - index); set_child_optr_count s (n - 1)

unfoldable pub data_optr_count : Optr → M ℕ
data_optr_count s = value_at s data_optr_element_offset

unfoldable pub set_data_optr_count : Optr → ℕ → M (Unit {0})
set_data_optr_count s num = set_value_at s data_optr_element_offset num

unfoldable pub data_optr : Optr → ℕ → M (Option Optr)
unfolding data_optr_count
data_optr s index = do
  n ← data_optr_count s
  if ltb n index
      then pure none
      else do p ← at s (data_optr_element_offset + 1 + index * 5); d ← load_optr p; pure (some d)

unfoldable pub set_data_optr : Optr → ℕ → Option Optr → M (Unit {0})
set_data_optr s index target = do
  p ← at s (data_optr_element_offset + 1 + index * 5)
  elim target [ none ↦ store p zero_addr | some t ↦ store p (caddr t) ]

unfoldable pub shift_data_optrs : Optr → ℕ → ℕ → M (Unit {0})
unfolding data_optr set_data_optr
shift_data_optrs s i zero = pure tt
shift_data_optrs s i (suc k) = do
  d ← data_optr s (i - 1)
  set_data_optr s i d
  shift_data_optrs s (i - 1) k

unfoldable pub move_insert_data_optr : Optr → ℕ → Option Optr → M (Unit {0})
unfolding shift_data_optrs data_optr_count set_data_optr
move_insert_data_optr s index target = do
  n ← data_optr_count s
  shift_data_optrs s n (n - index)
  set_data_optr s index target

unfoldable pub close_data_optrs : Optr → ℕ → ℕ → M (Unit {0})
unfolding data_optr set_data_optr
close_data_optrs s i zero = pure tt
close_data_optrs s i (suc k) = do
  d ← data_optr s (i + 1)
  set_data_optr s i d
  close_data_optrs s (i + 1) k

unfoldable pub move_delete_data_optr : Optr → ℕ → M (Unit {0})
unfolding close_data_optrs data_optr_count set_data_optr_count
move_delete_data_optr s index = do
  n ← data_optr_count s
  if n == 0
      then pure tt
      else do close_data_optrs s index (n - 1 - index); set_data_optr_count s (n - 1)

-- ONodeItemSet::remove
unfoldable pub remove_item : Optr → ℕ → M (Unit {0})
unfolding move_delete_key move_delete_data_optr
remove_item s index = do move_delete_key s index; move_delete_data_optr s index
