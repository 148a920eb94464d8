-- ===== src/Btree/Tests.antt =====
-- Runs of the B-tree index on concrete files.
use miya_core.Btree.Grow.{btree_add-Added}
use miya_core.Btree.LeafAdd.{Added}
use miya_core.Btree.Simple.{Ascending, Absent}
use miya_core.Btree.Placing.{leaf_for}
use miya_core.Btree.Insertion.{widen-Inserted, Inserted}
use miya_core.Btree.Open.{set_root_onode-open_btree}
use miya_core.Allocator.Meta.{primary_optr}
use miya_core.Btree.Found.{Found}
use miya_core.Btree.Node.{subtree_onode_find}
use miya_core.Btree.Lookup.{
  btree_find-Found, subtree_onode_find-Found, data_of, node_of, btree_find-prefix,
}
use miya_core.Base.Distinct.{In}
use miya_core.Btree.Split.{widen, Wide}
use miya_core.Btree.Tree.{btree_add, open_btree, format_code, set_root_onode, btree_find}
use Prim.Native.Nat.{Ordering, suc}
use miya_core.Base.{
  ◌≤◌, length, ◌+◌, get_elem?, none, some, Option, zero, suc, ◌<◌, ℕ, ◌≡◌, refl, inl, inr, List, [],
  ◌∷◌, ◌++◌, arith, get_or,
}
use miya_core.Base.Bytes.{memcmp}
use miya_core.Optr.{frame, offset, optr_add, Optr}
use miya_core.Memory.{value, ocmp_raw, Bytes}
use miya_core.Memory.Laws.{read}
use miya_core.Btree.Files.{Files}
use miya_core.Btree.Layout.{IsNode}
use miya_core.Btree.Search.{Tree, leaf, inner, last, branch, Holds}
use miya_core.Btree.Order.{Ordered, Entry}

abbrev zeros : ℕ → List ℕ
zeros zero = []
zeros (suc n) = 0 ∷ zeros n

abbrev key_of : ℕ → List ℕ
key_of n = n ∷ zeros 19

-- A node with one key and one data pointer, and its children.
abbrev leaf_bytes : ℕ → List ℕ
leaf_bytes n =
    zeros 5 ++ (1 ∷ key_of n) ++ zeros 40 ++ (0 ∷ zeros 20) ++ (1 ∷ zeros 4) ++ (n ∷ zeros 10)

abbrev low : Optr
low = record { b0 = 0; b1 = 0; b2 = 0; b3 = 1; b4 = 244 }

abbrev high : Optr
high = record { b0 = 0; b1 = 0; b2 = 0; b3 = 2; b4 = 188 }

abbrev root : Optr
root = record { b0 = 0; b1 = 0; b2 = 0; b3 = 1; b4 = 44 }

abbrev root_bytes : List ℕ
root_bytes =
    zeros 5
    ++ (1 ∷ key_of 2)
    ++ zeros 40
    ++ (2 ∷ 0 ∷ 0 ∷ 0 ∷ 1 ∷ 244 ∷ 0 ∷ 0 ∷ 0 ∷ 2 ∷ 188 ∷ zeros 10)
    ++ (1 ∷ zeros 4)
    ++ (2 ∷ zeros 10)

abbrev index_file : Bytes
index_file a =
    get_or (zeros 300 ++ root_bytes ++ zeros 97 ++ leaf_bytes 1 ++ zeros 97 ++ leaf_bytes 3) a 0

abbrev files : Files
files = record { index = index_file; free = λ a. 0 }

abbrev small_tree : Tree
small_tree =
    inner root (branch (leaf low (key_of 1 ∷ [])) (key_of 2) (last (leaf high (key_of 3 ∷ []))))

small_tree-Holds : Holds index_file small_tree
unfolding Holds read
small_tree-Holds = (
  near 44 1 (omega arith),
  refl,
  omega arith,
  refl,
  refl,
  (refl, tt),
  (refl, refl),
  (
    (near 244 1 (omega arith), refl, omega arith, refl, refl, (refl, tt)),
    (near 188 2 (omega arith), refl, omega arith, refl, refl, (refl, tt)),
  ),
)
  where
    near :
        (b4 b3 : ℕ)
        → (b3 < 256) × (b4 < 256)
        → IsNode (record { b0 = 0; b1 = 0; b2 = 0; b3 = b3; b4 = b4 })
    near b4 b3 h = record {
      optr = record {
        byte0 = omega arith;
        byte1 = omega arith;
        byte2 = omega arith;
        byte3 = omega arith;
        byte4 = omega arith;
      };
      near = omega arith;
    }

small_tree-Ordered : Ordered 5 small_tree
unfolding Ordered Entry memcmp
small_tree-Ordered = (
  ((λ p k y. elim y [ ]), tt),
  (λ p k y. elim y [ inl (_, q) ↦ rw (← q) refl | inr z ↦ elim z [ ] ]),
  (λ p k y. elim y [ inl (_, q) ↦ rw (← q) refl | inr z ↦ elim z [ ] ]),
  ((λ p k y. elim y [ ]), tt),
)

small_tree-Ordered20 : Ordered 20 small_tree
unfolding Ordered Entry memcmp
small_tree-Ordered20 = (
  ((λ p k y. elim y [ ]), tt),
  (λ p k y. elim y [ inl (_, q) ↦ rw (← q) refl | inr z ↦ elim z [ ] ]),
  (λ p k y. elim y [ inl (_, q) ↦ rw (← q) refl | inr z ↦ elim z [ ] ]),
  ((λ p k y. elim y [ ]), tt),
)

subtree_onode_find-Found_example :
    (r : Option (Optr × ℕ)) × (subtree_onode_find 2 root (key_of 3) index_file
      ≡ some (node_of r, index_file))
    × Found 20 (key_of 3) (Entry small_tree) r
subtree_onode_find-Found_example =
    subtree_onode_find-Found 2 small_tree index_file (key_of 3) small_tree-Holds
      small_tree-Ordered20 (omega arith)

btree_find-Found_example :
    (r : Option (Optr × ℕ)) × (btree_find 2 root (key_of 1) files
      ≡ some (data_of index_file r, files))
    × Found 5 (key_of 1) (Entry small_tree) r
btree_find-Found_example =
    btree_find-Found 2 small_tree files (key_of 1) small_tree-Holds small_tree-Ordered (omega arith)

-- A key that the file does not have, with the first five bytes of one that it has.
abbrev other_key : List ℕ
other_key = 3 ∷ 0 ∷ 0 ∷ 0 ∷ 0 ∷ 9 ∷ zeros 14

btree_find-prefix_example : btree_find 2 root other_key files ≡ btree_find 2 root (key_of 3) files
btree_find-prefix_example =
    btree_find-prefix 2 small_tree files other_key (key_of 3) small_tree-Holds (omega arith) refl

-- A sort for keys of which the last is the one to put in place.
abbrev sort_last : List (List ℕ) → List (List ℕ)
sort_last (a ∷ b ∷ c ∷ d ∷ []) = a ∷ b ∷ d ∷ c ∷ []
sort_last ks = ks

abbrev pointers : ℕ → List (Option Optr)
pointers zero = []
pointers (suc n) = some low ∷ pointers n

three_of : In (key_of 3) (key_of 1 ∷ key_of 2 ∷ key_of 3 ∷ key_of 4 ∷ [])
unfolding In
three_of = inr (inr (inl refl))

abbrev formatted_files : Files
formatted_files = record { index = λ a. get_or format_code a 0; free = λ a. 0 }

formatted : ocmp_raw formatted_files.index primary_optr 0 format_code ≡ some Ordering.eq
unfolding ocmp_raw optr_add value frame offset
formatted = refl

widen-Inserted_example :
    (w : Wide) × (p : ℕ) × (widen sort_last
        (record {
          keys = some (key_of 1) ∷ some (key_of 2) ∷ some (key_of 4) ∷ none ∷ [];
          children = pointers 5;
          data_optrs = pointers 4;
        })
        (key_of 3)
        (some root)
        (some high)
      ≡ some w)
    × (w.keys ≡ sort_last (key_of 1 ∷ key_of 2 ∷ key_of 4 ∷ key_of 3 ∷ []))
    × (get_elem? w.keys p ≡ some (key_of 3))
    × Inserted (pointers 4) p (some root) w.data_optrs
    × Inserted (pointers 5) (p + 1) (some high) w.children
widen-Inserted_example =
    widen-Inserted sort_last (key_of 1) (key_of 2) (key_of 4) (key_of 3) (pointers 5) (pointers 4)
      (some root) high refl refl (three_of) refl

set_root_onode-open_btree_example :
    (g : Files) × (set_root_onode (some high) formatted_files ≡ some (some high, g))
    × (open_btree 3 g ≡ some (high, g))
set_root_onode-open_btree_example = set_root_onode-open_btree 3 formatted_files high formatted

room : length (leaf_for small_tree (key_of 5)).1 ≤ 2
unfolding leaf_for memcmp
room = omega arith

in_order : Ascending (leaf_for small_tree (key_of 5)).1
unfolding leaf_for memcmp
in_order = tt

is_new : Absent (key_of 5) (leaf_for small_tree (key_of 5)).1
unfolding leaf_for memcmp
is_new = ((λ e. ground arith), tt)

btree_add-Added_example :
    (p : ℕ) × (m' : Bytes) × (btree_add 2 4 sort_last root (key_of 5) (some low) files
      ≡ some (root, record { index = m'; free = λ a. 0 }))
    × Added index_file
        (leaf_for small_tree (key_of 5)).0
        (leaf_for small_tree (key_of 5)).1
        (key_of 5)
        low
        p
        m'
btree_add-Added_example =
    btree_add-Added 1 4 sort_last small_tree files (key_of 5) low small_tree-Holds (omega arith)
      room refl in_order is_new
