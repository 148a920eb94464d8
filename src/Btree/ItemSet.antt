-- ===== src/Btree/ItemSet.antt =====
-- ONodeItemSet of o_node.cpp: the 103 bytes of a node, | parent | key count | 3 keys |
-- child count | 4 children | data count | 3 data pointers |, known by their overlay pointer. A key
-- is a buffer of KEY_SIZE bytes, and `none` a null pointer. No loop writes the count that bounds it. This file has
-- the counts, the parent and the keys; Links has the children and the data pointers.
use Prim.Native.Nat.{Ordering}
use miya_core.Base.{
  ℕ, zero, suc, ◌+◌, ◌-◌, ◌*◌, ◌%◌, ◌^◌, Option, none, some, List, [], ◌∷◌, ltb, ◌==◌,
  if◌then◌else◌,
}
use miya_core.Base.Bytes.{memcmp}
use miya_core.Optr.{Optr, caddr}
use miya_core.Memory.{value, set_value}
use miya_core.Allocator.Command.{M, pure, ◌>>=◌, ◌>>◌, at, load, store}
use miya_core.Allocator.Block.{zero_addr, load_optr}

-- DEFAULT_CHILD_COUNT, DEFAULT_KEY_COUNT and DEFAULT_DATA_OPTR_COUNT
abbrev pub default_child_count : ℕ
default_child_count = 4

abbrev pub default_key_count : ℕ
default_key_count = 3

abbrev pub default_data_optr_count : ℕ
default_data_optr_count = 3

abbrev pub key_size : ℕ
key_size = 20

-- KEY_ELEMENT_OFFSET, CHILD_ELEMENT_OFFSET and DATA_OPTR_ELEMENT_OFFSET
abbrev pub key_element_offset : ℕ
key_element_offset = 5

abbrev pub child_element_offset : ℕ
child_element_offset = 66

abbrev pub data_optr_element_offset : ℕ
data_optr_element_offset = 87

abbrev pub o_node_item_set_size : ℕ
o_node_item_set_size = 103

-- The use of a pointer that may be null.
abbrev pub non_null : {A : Type 0} → Option A → M A
non_null none m = none
non_null (some a) m = some (a, m)

-- (*_optr + n)->value(), and with a value to set
abbrev pub value_at : Optr → ℕ → M ℕ
value_at o n = do p ← at o n; (λ m. elim (value m p) [ none ↦ none | some v ↦ some (v, m) ])

abbrev pub set_value_at : Optr → ℕ → ℕ → M (Unit {0})
set_value_at o n v = do
  p ← at o n
  (λ m. elim (set_value m p (v % 2 ^ 8)) [ none ↦ none | some m' ↦ some (tt, m') ])

-- An unsigned short less one.
abbrev pub pred16 : ℕ → ℕ
pred16 n = (n + (2 ^ 16 - 1)) % 2 ^ 16

abbrev zeros : ℕ → List ℕ
zeros zero = []
zeros (suc n) = 0 ∷ zeros n

unfoldable pub clear : Optr → M (Unit {0})
clear s = store s (zeros o_node_item_set_size)

unfoldable pub parent : Optr → M Optr
parent s = load_optr s

unfoldable pub set_parent : Optr → Option Optr → M (Unit {0})
set_parent s none = store s zero_addr
set_parent s (some target) = store s (caddr target)

unfoldable pub key_count : Optr → M ℕ
key_count s = value_at s key_element_offset

unfoldable pub set_key_count : Optr → ℕ → M (Unit {0})
set_key_count s num = set_value_at s key_element_offset num

-- The getter of a key's place, which is not null for the index that equals the count.
unfoldable pub key : Optr → ℕ → M (Option Optr)
unfolding key_count
key s index = do
  n ← key_count s
  if ltb n index
      then pure none
      else do p ← at s (key_element_offset + 1 + index * key_size); pure (some p)

unfoldable pub raw_key : Optr → ℕ → M (Option (List ℕ))
unfolding key
raw_key s index = do
  k ← key s index
  elim k [ none ↦ pure none | some p ↦ do bs ← load p key_size; pure (some bs) ]

-- The setter of a key, which does not refuse the index DEFAULT_KEY_COUNT.
unfoldable pub set_key : Optr → ℕ → Option (List ℕ) → M (Unit {0})
set_key s index target =
    if ltb default_key_count index
    then pure tt
    else do p ← at s (key_element_offset + 1 + index * key_size); bs ← non_null target; store p bs

-- One comparison of sortKey, of the keys j - 1 and j.
unfoldable pub sort_pair : Optr → ℕ → M (Unit {0})
unfolding key
sort_pair s j = do
  k0 ← key s j
  k1 ← key s (j - 1)
  p0 ← non_null k0
  p1 ← non_null k1
  key0 ← load p0 key_size
  key1 ← load p1 key_size
  elim (memcmp key1 key0) [ Ordering.gt ↦ (do store p0 key1; store p1 key0) | _ ↦ pure tt ]

-- The inner loop of sortKey from j on, with as many rounds, and the outer one from i on.
unfoldable pub sort_down : Optr → ℕ → ℕ → M (Unit {0})
unfolding sort_pair
sort_down s j zero = pure tt
sort_down s j (suc k) = do sort_pair s j; sort_down s (j - 1) k

unfoldable pub sort_from : Optr → ℕ → ℕ → ℕ → M (Unit {0})
unfolding sort_down
sort_from s n i zero = pure tt
sort_from s n i (suc k) = do sort_down s (n - 1) (n - 1 - i); sort_from s n (i + 1) k

unfoldable pub sort_key : Optr → M (Unit {0})
unfolding sort_from key_count
sort_key s = do n ← key_count s; sort_from s n 0 (n - 1)

-- The loop of moveInsertKey from i on, with as many rounds.
unfoldable pub shift_keys : Optr → ℕ → ℕ → M (Unit {0})
unfolding raw_key set_key
shift_keys s i zero = pure tt
shift_keys s i (suc k) = do r ← raw_key s (i - 1); set_key s i r; shift_keys s (i - 1) k

unfoldable pub move_insert_key : Optr → ℕ → Option (List ℕ) → M (Unit {0})
unfolding shift_keys key_count set_key
move_insert_key s index target = do
  n ← key_count s
  shift_keys s n (n - index)
  set_key s index target

-- The loop of moveDeleteKey from i on, with as many rounds.
unfoldable pub close_keys : Optr → ℕ → ℕ → M (Unit {0})
unfolding raw_key set_key
close_keys s i zero = pure tt
close_keys s i (suc k) = do r ← raw_key s (i + 1); set_key s i r; close_keys s (i + 1) k

unfoldable pub move_delete_key : Optr → ℕ → M (Unit {0})
unfolding close_keys key_count set_key_count
move_delete_key s index = do
  n ← key_count s
  if n == 0 then pure tt else do close_keys s index (n - 1 - index); set_key_count s (n - 1)
