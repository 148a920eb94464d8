-- ===== src/Btree/Node.antt =====
-- The searches of ONode, o_node.cpp. A node is known by the overlay pointer of its item set, and
-- its children by theirs; a descent takes fuel, one unit for a node.
use Prim.Native.Nat.{Ordering}
use miya_core.Base.{
  ℕ, zero, suc, ◌+◌, ◌-◌, Bool, true, false, Option, none, some, List, leb, take, if◌then◌else◌,
}
use miya_core.Base.Bytes.{memcmp}
use miya_core.Optr.{Optr, caddr}
use miya_core.Allocator.Command.{M, pure, ◌>>=◌, load}
use miya_core.Btree.ItemSet.{key_size, non_null, pred16, key_count, key}
use miya_core.Btree.Links.{child_optr_count, child_optr, data_optr}

-- memcmp( a , b ) == 0
abbrev pub same_bytes : List ℕ → List ℕ → Bool
same_bytes a b = elim (memcmp a b) [ Ordering.eq ↦ true | _ ↦ false ]

abbrev pub same_addr : Optr → Optr → Bool
same_addr a b = same_bytes (caddr a) (caddr b)

-- ONode::child: null at an index that is not below the count
unfoldable pub child : Optr → ℕ → M (Option Optr)
unfolding child_optr
child s index = child_optr s index

-- The first bytes of a key.
unfoldable pub key_bytes : Optr → ℕ → ℕ → M (List ℕ)
unfolding key
key_bytes s i size = do p ← key s i; q ← non_null p; load q size

-- The loop of findIndex from index i on, with as many rounds.
unfoldable pub find_key : Optr → List ℕ → ℕ → ℕ → M (Option ℕ)
unfolding key_bytes
find_key s target i zero = pure none
find_key s target i (suc k) = do
  raw ← key_bytes s i key_size
  if same_bytes target raw then pure (some i) else find_key s target (i + 1) k

-- ONode::findIndex: `none` is -1
unfoldable pub find_index : Optr → List ℕ → M (Option ℕ)
unfolding find_key key_count
find_index s target = do n ← key_count s; find_key s target 0 n

-- Where the loop over the keys of subtreeONodeFind and subtreeFind ends: below the key at an
-- index, on it, or past them all.
pub data Place : Type 0 where
  below : ℕ → Place
  here : ℕ → Place
  past : Place

-- That loop from index i on, with as many rounds, on the first bytes of the keys.
unfoldable pub scan_keys : Optr → List ℕ → ℕ → ℕ → ℕ → M Place
unfolding key_bytes
scan_keys s target size i zero = pure past
scan_keys s target size i (suc k) = do
  raw ← key_bytes s i size
  elim (memcmp (take size target) raw) [
    | Ordering.lt ↦ pure (below i)
    | Ordering.eq ↦ pure (here i)
    | Ordering.gt ↦ scan_keys s target size (i + 1) k
  ]

-- ONode::subtreeONodeFind
unfoldable pub subtree_onode_find : ℕ → Optr → List ℕ → M (Option Optr)
unfolding scan_keys key_count child child_optr_count
subtree_onode_find zero s target = λ m. none
subtree_onode_find (suc fuel) s target = do
  n ← key_count s
  place ← scan_keys s target key_size 0 n
  elim place [
    | here i ↦ pure (some s)
    | below i ↦ do
      c ← child s i
      elim c [ none ↦ pure none | some t ↦ subtree_onode_find fuel t target ]
    | past ↦ do
      m ← child_optr_count s
      c ← child s (pred16 m)
      elim c [ none ↦ pure none | some t ↦ subtree_onode_find fuel t target ]
  ]

-- ONode::subtreeFind, which compares five bytes of the keys
unfoldable pub subtree_find : ℕ → Optr → List ℕ → M (Option Optr)
unfolding scan_keys key_count child child_optr_count data_optr
subtree_find zero s target = λ m. none
subtree_find (suc fuel) s target = do
  n ← key_count s
  place ← scan_keys s target 5 0 n
  elim place [
    | here i ↦ data_optr s i
    | below i ↦ do c ← child s i; elim c [ none ↦ pure none | some t ↦ subtree_find fuel t target ]
    | past ↦ do
      m ← child_optr_count s
      c ← child s (pred16 m)
      elim c [ none ↦ pure none | some t ↦ subtree_find fuel t target ]
  ]

-- ONode::subtreeMax
unfoldable pub subtree_max : ℕ → Optr → M Optr
unfolding child_optr_count child
subtree_max zero s = λ m. none
subtree_max (suc fuel) s = do
  n ← child_optr_count s
  if leb 1 n then (do c ← child s (n - 1); t ← non_null c; subtree_max fuel t) else pure s
