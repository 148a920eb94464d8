-- ===== src/Btree/Placing.antt =====
-- OBtree::add, btree.cpp: the descent to a leaf, and the key added there.
use Prim.Native.Nat.{Ordering}
use miya_core.Base.{
  ℕ, zero, suc, ◌+◌, ◌-◌, ◌*◌, ◌<◌, ◌≤◌, ◌≡◌, refl, ◌∙◌, ap, inl, inr, Option, none, some, List,
  arith, length, leb_of_le,
}
use miya_core.Base.Bytes.{memcmp, Ordering-cases}
use miya_core.Optr.{Optr}
use miya_core.Optr.Laws.{address}
use miya_core.Memory.{Bytes}
use miya_core.Memory.Laws.{read}
use miya_core.Allocator.Command.{M}
use miya_core.Btree.Node.{child, key_bytes}
use miya_core.Btree.Descend.{first_above, descend}
use miya_core.Btree.Layout.{IsNode, chain, child_optr_count-node}
use miya_core.Btree.Slots.{optr_at, child_optr-node}
use miya_core.Btree.Search.{
  Tree, leaf, inner, Branches, last, branch, optr_of, keys_of, HasKeys, HasChildren, Holds, AllHold,
  height, heights,
}
use miya_core.Btree.Scan.{key_bytes-node, take-read}

-- The child before the first key above the target, and the leaf that this leads to.
abbrev pub choose : Branches → List ℕ → Tree
choose (last t) target = t
choose (branch t k bs) target =
    let rest = choose bs target in elim (memcmp target k) [ Ordering.lt ↦ t | _ ↦ rest ]

unfoldable mutual
  pub leaf_for : Tree → List ℕ → Optr × List (List ℕ)
  leaf_for (leaf s ks) target = (s, ks)
  leaf_for (inner s bs) target = leaf_in bs target

  pub leaf_in : Branches → List ℕ → Optr × List (List ℕ)
  leaf_in (last t) target = leaf_for t target
  leaf_in (branch t k bs) target =
      let rest = leaf_in bs target in
      elim (memcmp target k) [ Ordering.lt ↦ leaf_for t target | _ ↦ rest ]

pub leaf_in-branch :
    (t : Tree) (k : List ℕ) (bs : Branches) (target : List ℕ)
    → leaf_in (branch t k bs) target
      ≡ elim (memcmp target k) [ Ordering.lt ↦ leaf_for t target | _ ↦ leaf_in bs target ]
unfolding leaf_for
leaf_in-branch t k bs target = refl

pub leaf_in-last : (t : Tree) (target : List ℕ) → leaf_in (last t) target ≡ leaf_for t target
unfolding leaf_for
leaf_in-last t target = refl

pub leaf_for-inner :
    (s : Optr) (bs : Branches) (target : List ℕ) → leaf_for (inner s bs) target ≡ leaf_in bs target
unfolding leaf_for
leaf_for-inner s bs target = refl

pub leaf_for-leaf :
    (s : Optr) (ks : List (List ℕ)) (target : List ℕ) → leaf_for (leaf s ks) target ≡ (s, ks)
unfolding leaf_for
leaf_for-leaf s ks target = refl

module _ (m : Bytes) (s : Optr) (v : IsNode s) (target : List ℕ) where
  bytes_at :
      (i : ℕ)
      → i < 4
      → i ≤ m (address s + 5)
      → key_bytes s i 20 m ≡ some (read m (address s + 6 + i * 20) 20, m)
  bytes_at i h l =
      key_bytes-node m s v i 20 h l (omega arith)
      ∙ ap (λ bs. some (bs, m)) (take-read m (address s + 6 + i * 20) 20 20 (omega arith))

  child_at :
      (i : ℕ) (t : Tree)
      → i < 4
      → i < m (address s + 66)
      → optr_at m (address s + 67 + i * 5) ≡ optr_of t
      → child s i m ≡ some (some (optr_of t), m)
  unfolding child
  child_at i t h l e = child_optr-node m s v i h l ∙ ap (λ o. some (some o, m)) e

  -- What the loop runs over behind the keys does not matter.
  first_above-choose :
      (n i : ℕ) (bs : Branches)
      → n ≡ suc (i + length (keys_of bs))
      → i + length (keys_of bs) ≤ 3
      → m (address s + 5) ≡ i + length (keys_of bs)
      → m (address s + 66) ≡ n
      → HasKeys m s i (keys_of bs)
      → HasChildren m s i bs
      → (r : Option ℕ) × (first_above s target i (suc (length (keys_of bs))) m ≡ some (r, m))
        × ((elim r as (λ _. M (Option Optr)) [ none ↦ child s (n - 1) | some j ↦ child s j ]) m
            ≡ some (some (optr_of (choose bs target)), m))
  unfolding first_above
  first_above-choose n i (last t) e l c c' hk hc =
      let at_i : child s i m ≡ some (some (optr_of t), m) =
        child_at i t (omega arith) (omega arith) hc in
      let z : n - 1 ≡ i = omega arith in
      let g = bytes_at i (omega arith) (omega arith) in
      elim (Ordering-cases (memcmp target (read m (address s + 6 + i * 20) 20))) [
        | inl f ↦
            let r : first_above s target i 1 m ≡ some (some i, m) = chain _ g (rw f refl) in
            (some i, r, at_i)
        | inr (inl f) ↦
            let r : first_above s target i 1 m ≡ some (none, m) = chain _ g (rw f refl) in
            (none, r, rw z at_i)
        | inr (inr f) ↦
            let r : first_above s target i 1 m ≡ some (none, m) = chain _ g (rw f refl) in
            (none, r, rw z at_i)
      ]
  first_above-choose n i (branch t k bs) e l c c' (q, hk) (d, hc) =
      let rounds = suc (length (keys_of bs)) in
      let g : key_bytes s i 20 m ≡ some (k, m) =
        bytes_at i (omega arith) (omega arith) ∙ ap (λ b. some (b, m)) q in
      let on = first_above-choose n (i + 1) bs (omega arith) (omega arith) (omega arith) c' hk hc in
      elim (Ordering-cases (memcmp target k)) [
        | inl f ↦
            let r : first_above s target i (suc rounds) m ≡ some (some i, m) =
              chain _ g (rw f refl) in
            (some i, r, rw (choose, f) (child_at i t (omega arith) (omega arith) d))
        | inr (inl f) ↦
            let r : first_above s target i (suc rounds) m ≡ first_above s target (i + 1) rounds m =
              chain _ g (rw f refl) in
            (on.0, r ∙ on.1, rw (choose, f) (on.2))
        | inr (inr f) ↦
            let r : first_above s target i (suc rounds) m ≡ first_above s target (i + 1) rounds m =
              chain _ g (rw f refl) in
            (on.0, r ∙ on.1, rw (choose, f) (on.2))
      ]

mutual
  unfolding descend Holds

  pub descend-leaf_for :
      (fuel : ℕ) (t : Tree) (m : Bytes) (target : List ℕ)
      → Holds m t
      → height t ≤ fuel
      → descend fuel (optr_of t) target m ≡ some ((leaf_for t target).0, m)
  descend-leaf_for zero (leaf s ks) m target h l = absurd (omega arith)
  descend-leaf_for zero (inner s bs) m target h l = absurd (omega arith)
  descend-leaf_for (suc fuel) (leaf s ks) m target (v, n, b, z, d, hk) l =
      rw (leaf_for-leaf s ks target)
        (chain _ (child_optr_count-node m s v ∙ ap (λ x. some (x, m)) z) refl)
  descend-leaf_for (suc fuel) (inner s bs) m target (v, n, b, c, d, hk, hc, hs) l =
      let (r, f, g) =
        first_above-choose m s v target (suc (length (keys_of bs))) 0 bs (omega arith) (omega arith)
          (omega (arith, n)) c hk hc in
      rw (leaf_for-inner s bs target) (
        chain _ (child_optr_count-node m s v ∙ ap (λ x. some (x, m)) c) (
          rw (leb_of_le 1 (suc (length (keys_of bs))) (omega arith))
            (chain _ f (chain _ g (descend-leaf_in fuel bs m target hs (omega arith))))))

  descend-leaf_in :
      (fuel : ℕ) (bs : Branches) (m : Bytes) (target : List ℕ)
      → AllHold m bs
      → heights bs ≤ fuel
      → descend fuel (optr_of (choose bs target)) target m ≡ some ((leaf_in bs target).0, m)
  descend-leaf_in fuel (last t) m target h l =
      rw (leaf_in-last t target) (descend-leaf_for fuel t m target h l)
  descend-leaf_in fuel (branch t k bs) m target (h, hs) l =
      elim (Ordering-cases (memcmp target k)) [
        | inl f ↦
            rw (leaf_in-branch t k bs target, choose, f)
              (descend-leaf_for fuel t m target h (omega arith))
        | inr (inl f) ↦
            rw (leaf_in-branch t k bs target, choose, f)
              (descend-leaf_in fuel bs m target hs (omega arith))
        | inr (inr f) ↦
            rw (leaf_in-branch t k bs target, choose, f)
              (descend-leaf_in fuel bs m target hs (omega arith))
      ]
