-- ===== src/Btree/Lookup.antt =====
-- What the searches of ONode and OBtree find in a search tree that the index file holds.
use miya_core.Base.{
  ℕ, ◌+◌, ◌*◌, ◌<◌, ◌≤◌, ◌≡◌, refl, sym, ap, ◌∙◌, inl, inr, Option, none, some, List, [], ◌∷◌,
  length, take, arith, subst,
}
use miya_core.Base.Bytes.{memcmp, Ordering-cases}
use miya_core.Optr.{Optr}
use miya_core.Optr.Laws.{address}
use miya_core.Memory.{Bytes}
use miya_core.Btree.Files.{on_index, Files}
use miya_core.Btree.Node.{subtree_onode_find}
use miya_core.Btree.Tree.{btree_find}
use miya_core.Btree.Layout.{IsNode}
use miya_core.Btree.Slots.{optr_at, data_optr-node}
use miya_core.Btree.Search.{
  Tree, leaf, inner, Branches, last, branch, optr_of, keys_of, Holds, AllHold, height, search, scan,
  search_in, search-leaf, search-inner, search_in-last, search_in-branch,
}
use miya_core.Btree.Find.{onode_answer, data_answer, subtree_onode_find-search, subtree_find-search}
use miya_core.Btree.Order.{KeyAt, Entry, Entries, Ordered}
use miya_core.Btree.Found.{Found, search-Found}

-- The index is that of a key of a node.
abbrev InNode : Bytes → Optr × ℕ → Type 0
InNode m p = IsNode p.0 × (p.1 < 3) × (p.1 ≤ m (address p.0 + 87))

KeyAt-InNode :
    (m : Bytes) (s : Optr) (i : ℕ) (ks : List (List ℕ)) (p : Optr × ℕ) (k : List ℕ)
    → IsNode s
    → i + length ks ≤ 3
    → i + length ks ≤ m (address s + 87)
    → KeyAt s i ks p k
    → InNode m p
KeyAt-InNode m s i [] p k v l l' h = elim h [ ]
KeyAt-InNode m s i (x ∷ ks) p k v l l' h = elim h [
  | inl (e, _) ↦ subst (InNode m) (sym e) (v, omega arith, omega arith)
  | inr h' ↦ KeyAt-InNode m s (i + 1) ks p k v (omega arith) (omega arith) h'
]

mutual
  unfolding Entry Holds

  Entry-InNode :
      (m : Bytes) (t : Tree) (p : Optr × ℕ) (k : List ℕ) → Holds m t → Entry t p k → InNode m p
  Entry-InNode m (leaf s ks) p k (v, n, b, z, d, hk) h =
      KeyAt-InNode m s 0 ks p k v (omega arith) (omega (arith, d)) h
  Entry-InNode m (inner s bs) p k (v, n, b, c, d, hk, hc, hs) h =
      Entries-InNode m s 0 bs p k v (omega arith) (omega (arith, d)) hs h

  Entries-InNode :
      (m : Bytes) (s : Optr) (i : ℕ) (bs : Branches) (p : Optr × ℕ) (k : List ℕ)
      → IsNode s
      → i + length (keys_of bs) ≤ 3
      → i + length (keys_of bs) ≤ m (address s + 87)
      → AllHold m bs
      → Entries s i bs p k
      → InNode m p
  Entries-InNode m s i (last t) p k v l l' a h = Entry-InNode m t p k a h
  Entries-InNode m s i (branch t x bs) p k v l l' (a, as') h = elim h [
    | inl y ↦ Entry-InNode m t p k a y
    | inr (inl (e, _)) ↦ subst (InNode m) (sym e) (v, omega arith, omega arith)
    | inr (inr y) ↦ Entries-InNode m s (i + 1) bs p k v (omega arith) (omega arith) as' y
  ]

-- The node of a place, and the data pointer that the file has there.
abbrev pub node_of : Option (Optr × ℕ) → Option Optr
node_of none = none
node_of (some p) = some p.0

abbrev pub data_of : Bytes → Option (Optr × ℕ) → Option Optr
data_of m none = none
data_of m (some p) = some (optr_at m (address p.0 + 88 + p.1 * 5))

onode_answer-node_of : (m : Bytes) (r : Option (Optr × ℕ)) → onode_answer r m ≡ some (node_of r, m)
onode_answer-node_of m none = refl
onode_answer-node_of m (some p) = refl

data_answer-data_of :
    (size : ℕ) (target : List ℕ) (m : Bytes) (t : Tree) (r : Option (Optr × ℕ))
    → Holds m t
    → Found size target (Entry t) r
    → data_answer r m ≡ some (data_of m r, m)
data_answer-data_of size target m t none h f = refl
data_answer-data_of size target m t (some (s, i)) h (k, e, _) =
    let (v, l, l') = Entry-InNode m t (s, i) k h e in data_optr-node m s v i l l'

-- On a file that holds a search tree whose nodes lie below 2 ^ 24, in order by the keys, with
-- fuel for its height, subtreeONodeFind leaves the file, and gives a node of the tree that has
-- the key, or null where no node has it.
pub subtree_onode_find-Found :
    (fuel : ℕ) (t : Tree) (m : Bytes) (target : List ℕ)
    → Holds m t
    → Ordered 20 t
    → height t ≤ fuel
    → (r : Option (Optr × ℕ)) × (subtree_onode_find fuel (optr_of t) target m ≡ some (node_of r, m))
      × Found 20 target (Entry t) r
subtree_onode_find-Found fuel t m target h o l = (
  search 20 t target,
  subtree_onode_find-search fuel t m target h l ∙ onode_answer-node_of m (search 20 t target),
  search-Found 20 t target o,
)

-- On an index file that holds a search tree whose nodes lie below 2 ^ 24, in order by the first
-- five bytes of the keys, with fuel for its height, OBtree::find leaves the files, and gives the
-- data pointer of a key that starts with the five bytes asked for, or null where no key does.
pub btree_find-Found :
    (fuel : ℕ) (t : Tree) (files : Files) (target : List ℕ)
    → Holds files.index t
    → Ordered 5 t
    → height t ≤ fuel
    → (r : Option (Optr × ℕ)) × (btree_find fuel (optr_of t) target files
        ≡ some (data_of files.index r, files))
      × Found 5 target (Entry t) r
unfolding btree_find
btree_find-Found fuel t files target h o l =
    let f = search-Found 5 t target o in
    let e =
      subtree_find-search fuel t files.index target h l
      ∙ data_answer-data_of 5 target files.index t (search 5 t target) h f in
    (search 5 t target, rw (on_index, e) refl, f)

scan-prefix :
    (size : ℕ) (s : Optr) (a b : List ℕ) (i : ℕ) (ks : List (List ℕ))
    → take size a ≡ take size b
    → scan size s a i ks ≡ scan size s b i ks
scan-prefix size s a b i [] e = refl
scan-prefix size s a b i (k ∷ ks) e = elim (Ordering-cases (memcmp (take size b) (take size k))) [
  | inl f ↦ rw (scan, e, f) refl
  | inr (inl f) ↦ rw (scan, e, f) refl
  | inr (inr f) ↦ rw (scan, e, f) (scan-prefix size s a b (i + 1) ks e)
]

mutual
  search-prefix :
      (size : ℕ) (t : Tree) (a b : List ℕ)
      → take size a ≡ take size b
      → search size t a ≡ search size t b
  search-prefix size (leaf s ks) a b e =
      rw (search-leaf size s ks a, search-leaf size s ks b) (scan-prefix size s a b 0 ks e)
  search-prefix size (inner s bs) a b e =
      rw (search-inner size s bs a, search-inner size s bs b) (search_in-prefix size s 0 bs a b e)

  search_in-prefix :
      (size : ℕ) (s : Optr) (i : ℕ) (bs : Branches) (a b : List ℕ)
      → take size a ≡ take size b
      → search_in size s i bs a ≡ search_in size s i bs b
  search_in-prefix size s i (last t) a b e =
      rw (search_in-last size s i t a, search_in-last size s i t b) (search-prefix size t a b e)
  search_in-prefix size s i (branch t k bs) a b e =
      rw (search_in-branch size s i t a k bs, search_in-branch size s i t b k bs, e)
        (elim (Ordering-cases (memcmp (take size b) (take size k))) [
          | inl f ↦ rw f (search-prefix size t a b e)
          | inr (inl f) ↦ rw f refl
          | inr (inr f) ↦ rw f (search_in-prefix size s (i + 1) bs a b e)
        ])

-- On an index file that holds a tree whose nodes lie below 2 ^ 24, with fuel for its height,
-- OBtree::find answers alike for any two keys whose first five bytes are the same.
pub btree_find-prefix :
    (fuel : ℕ) (t : Tree) (files : Files) (a b : List ℕ)
    → Holds files.index t
    → height t ≤ fuel
    → take 5 a ≡ take 5 b
    → btree_find fuel (optr_of t) a files ≡ btree_find fuel (optr_of t) b files
unfolding btree_find
btree_find-prefix fuel t files a b h l e =
    let q =
      subtree_find-search fuel t files.index a h l
      ∙ ap (λ r. data_answer r files.index) (search-prefix 5 t a b e)
      ∙ sym (subtree_find-search fuel t files.index b h l) in
    rw (on_index, q) refl
