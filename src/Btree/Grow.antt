-- ===== src/Btree/Grow.antt =====
-- OBtree::add, btree.cpp, of a key whose leaf has room.
use miya_core.Base.{
  ℕ, suc, ◌+◌, ◌<◌, ◌≤◌, ◌≡◌, refl, ◌∙◌, sym, ap, subst, inl, inr, Option, none, some, List, arith,
  length, leb_of_lt,
}
use miya_core.Base.Bytes.{memcmp, Ordering-cases}
use miya_core.Optr.{Optr}
use miya_core.Optr.Laws.{address}
use miya_core.Memory.{Bytes}
use miya_core.Btree.ItemSet.{key_count}
use miya_core.Btree.Insert.{simple_add}
use miya_core.Btree.Files.{Files, next, on_index-some}
use miya_core.Btree.Add.{recursive_add}
use miya_core.Btree.Descend.{descend}
use miya_core.Btree.Tree.{btree_add}
use miya_core.Btree.Layout.{IsNode, key_count-node}
use miya_core.Btree.Search.{
  Tree, leaf, inner, Branches, last, branch, optr_of, HasKeys, Holds, AllHold, height,
}
use miya_core.Btree.Simple.{Ascending, Absent}
use miya_core.Btree.LeafAdd.{Added, simple_add-Added}
use miya_core.Btree.Placing.{
  leaf_for, leaf_in, leaf_for-leaf, leaf_for-inner, leaf_in-last, leaf_in-branch, descend-leaf_for,
}

-- A node with its keys and as many data pointers.
abbrev LeafAt : Bytes → Optr × List (List ℕ) → Type 0
LeafAt m p =
    IsNode p.0
    × (m (address p.0 + 5) ≡ length p.1)
    × (m (address p.0 + 87) ≡ length p.1)
    × HasKeys m p.0 0 p.1

mutual
  unfolding Holds

  leaf_for-LeafAt :
      (m : Bytes) (t : Tree) (target : List ℕ) → Holds m t → LeafAt m (leaf_for t target)
  leaf_for-LeafAt m (leaf s ks) target (v, n, b, z, d, hk) =
      subst (LeafAt m) (sym (leaf_for-leaf s ks target)) (v, n, d, hk)
  leaf_for-LeafAt m (inner s bs) target (v, n, b, c, d, hk, hc, hs) =
      subst (LeafAt m) (sym (leaf_for-inner s bs target)) (leaf_in-LeafAt m bs target hs)

  leaf_in-LeafAt :
      (m : Bytes) (bs : Branches) (target : List ℕ) → AllHold m bs → LeafAt m (leaf_in bs target)
  leaf_in-LeafAt m (last t) target h =
      subst (LeafAt m) (sym (leaf_in-last t target)) (leaf_for-LeafAt m t target h)
  leaf_in-LeafAt m (branch t k bs) target (h, hs) =
      subst (LeafAt m) (sym (leaf_in-branch t k bs target))
        (elim (Ordering-cases (memcmp target k)) [
          | inl f ↦ rw f (leaf_for-LeafAt m t target h)
          | inr (inl f) ↦ rw f (leaf_in-LeafAt m bs target hs)
          | inr (inr f) ↦ rw f (leaf_in-LeafAt m bs target hs)
        ])

recursive_add-simple :
    (fuel walk : ℕ) (sort : List (List ℕ) → List (List ℕ)) (files : Files) (s : Optr)
    (target : List ℕ) (d : Option Optr) (n : ℕ) (m' : Bytes)
    → key_count s files.index ≡ some (n, files.index)
    → n < 3
    → simple_add s target d none files.index ≡ some (tt, m')
    → recursive_add (suc fuel) walk sort s target d none files
      ≡ some (none, record { index = m'; free = files.free })
unfolding recursive_add
recursive_add-simple fuel walk sort files s target d n m' e l r =
    next _ (on_index-some (key_count s) files e)
      (rw (leb_of_lt 3 n l) (next _ (on_index-some (simple_add s target d none) files r) refl))

-- On an index file that holds a tree whose nodes lie below 2 ^ 24, with fuel for its height,
-- where the leaf in which a key of twenty bytes belongs has at most two keys, in ascending order
-- and none of them the key, OBtree::add keeps the root, and leaves the leaf with the key in its
-- place among the keys, the data pointer at the same place among the data pointers, the counts
-- one higher, and every other byte outside its keys and data pointers as it was.
pub btree_add-Added :
    (fuel walk : ℕ) (sort : List (List ℕ) → List (List ℕ)) (t : Tree) (files : Files)
    (target : List ℕ) (d : Optr)
    → Holds files.index t
    → height t ≤ suc fuel
    → length (leaf_for t target).1 ≤ 2
    → length target ≡ 20
    → Ascending (leaf_for t target).1
    → Absent target (leaf_for t target).1
    → (p : ℕ) × (m' : Bytes) × (btree_add (suc fuel) walk sort (optr_of t) target (some d) files
        ≡ some (optr_of t, record { index = m'; free = files.free }))
      × Added files.index (leaf_for t target).0 (leaf_for t target).1 target d p m'
unfolding btree_add
btree_add-Added fuel walk sort t files target d h l r k a b =
    let s = (leaf_for t target).0 in
    let (v, n, c, hk) = leaf_for-LeafAt files.index t target h in
    let (p, m', e, q) =
      simple_add-Added files.index s v (leaf_for t target).1 target d r k n c hk a b in
    let kc : key_count s files.index ≡ some (length (leaf_for t target).1, files.index) =
      key_count-node files.index s v ∙ ap (λ x. some (x, files.index)) n in
    (
      p,
      m',
      next _
          (on_index-some (descend (suc fuel) (optr_of t) target) files
            (descend-leaf_for (suc fuel) t files.index target h l))
          (next _
            (recursive_add-simple fuel walk sort files s target (some d)
              (length (leaf_for t target).1) m' kc (omega arith) e)
            refl),
      q,
    )
