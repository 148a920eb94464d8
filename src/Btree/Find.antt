-- ===== src/Btree/Find.antt =====
-- subtreeONodeFind and subtreeFind of o_node.cpp against the search of the tree that the file holds.
use miya_core.Base.{ℕ, zero, suc, ◌≤◌, ◌≡◌, refl, ◌∙◌, Option, none, some, List, length, arith}
use miya_core.Optr.{Optr}
use miya_core.Memory.{Bytes}
use miya_core.Allocator.Command.{M, pure}
use miya_core.Btree.ItemSet.{key_count}
use miya_core.Btree.Links.{data_optr}
use miya_core.Btree.Node.{Place, scan_keys, subtree_onode_find, subtree_find}
use miya_core.Btree.Node.Place.{below, here, past}
use miya_core.Btree.Layout.{chain, key_count-node}
use miya_core.Btree.Search.{
  Tree, leaf, inner, Branches, last, branch, optr_of, keys_of, Holds, AllHold, height, heights,
  search,
}
use miya_core.Btree.Scan.{follow, place, Visits, scan_keys-place, follow-search_in, follow-scan}

-- A search by its step at a node and its answers.
module _ {A : Type 0} (visit : ℕ → Optr → M A) (answer : Option (Optr × ℕ) → M A) (size : ℕ)
    (target : List ℕ) (bound : size ≤ 20)
    (step : (fuel : ℕ) (s : Optr) (m : Bytes) (n : ℕ) (p : Place)
      → key_count s m ≡ some (n, m)
      → scan_keys s target size 0 n m ≡ some (p, m)
      → visit (suc fuel) s m
        ≡ follow (visit fuel) (λ i. answer (some (s, i))) (answer none) s p m) where
  mutual
    unfolding Holds AllHold search

    visit-search :
        (fuel : ℕ) (t : Tree) (m : Bytes)
        → Holds m t
        → height t ≤ fuel
        → visit fuel (optr_of t) m ≡ answer (search size t target) m
    visit-search zero (leaf s ks) m h l = absurd (omega arith)
    visit-search zero (inner s bs) m h l = absurd (omega arith)
    visit-search (suc fuel) (leaf s ks) m (v, n, b, z, d, hk) l =
        step fuel s m (length ks) (place size target 0 ks) (rw (key_count-node m s v, n) refl)
          (scan_keys-place m s v target size 0 ks bound (omega arith) (omega (arith, n)) hk)
        ∙ follow-scan (visit fuel) answer m s v target size 0 ks z
    visit-search (suc fuel) (inner s bs) m (v, n, b, c, d, hk, hc, hs) l =
        step fuel s m (length (keys_of bs)) (place size target 0 (keys_of bs))
          (rw (key_count-node m s v, n) refl)
          (scan_keys-place m s v target size 0 (keys_of bs) bound (omega arith) (omega (arith, n))
            hk)
        ∙ follow-search_in (visit fuel) answer m s v target size 0 bs (omega arith)
            (omega (arith, c)) hc (visits fuel bs m hs (omega arith))

    visits :
        (fuel : ℕ) (bs : Branches) (m : Bytes)
        → AllHold m bs
        → heights bs ≤ fuel
        → Visits (visit fuel) answer size target m bs
    visits fuel (last t) m h l = visit-search fuel t m h l
    visits fuel (branch t k bs) m (h, hs) l =
        (visit-search fuel t m h (omega arith), visits fuel bs m hs (omega arith))

-- The answers of the two searches: the node, and the data pointer at the index.
abbrev pub onode_answer : Option (Optr × ℕ) → M (Option Optr)
onode_answer none = pure none
onode_answer (some (s, i)) = pure (some s)

abbrev pub data_answer : Option (Optr × ℕ) → M (Option Optr)
data_answer none = pure none
data_answer (some (s, i)) = data_optr s i

onode_step :
    (target : List ℕ) (fuel : ℕ) (s : Optr) (m : Bytes) (n : ℕ) (p : Place)
    → key_count s m ≡ some (n, m)
    → scan_keys s target 20 0 n m ≡ some (p, m)
    → subtree_onode_find (suc fuel) s target m
      ≡ follow
          (λ t. subtree_onode_find fuel t target)
          (λ i. onode_answer (some (s, i)))
          (onode_answer none)
          s
          p
          m
unfolding subtree_onode_find
onode_step target fuel s m n (below i) e f = chain _ e (chain _ f refl)
onode_step target fuel s m n (here i) e f = chain _ e (chain _ f refl)
onode_step target fuel s m n past e f = chain _ e (chain _ f refl)

data_step :
    (target : List ℕ) (fuel : ℕ) (s : Optr) (m : Bytes) (n : ℕ) (p : Place)
    → key_count s m ≡ some (n, m)
    → scan_keys s target 5 0 n m ≡ some (p, m)
    → subtree_find (suc fuel) s target m
      ≡ follow
          (λ t. subtree_find fuel t target)
          (λ i. data_answer (some (s, i)))
          (data_answer none)
          s
          p
          m
unfolding subtree_find
data_step target fuel s m n (below i) e f = chain _ e (chain _ f refl)
data_step target fuel s m n (here i) e f = chain _ e (chain _ f refl)
data_step target fuel s m n past e f = chain _ e (chain _ f refl)

pub subtree_onode_find-search :
    (fuel : ℕ) (t : Tree) (m : Bytes) (target : List ℕ)
    → Holds m t
    → height t ≤ fuel
    → subtree_onode_find fuel (optr_of t) target m ≡ onode_answer (search 20 t target) m
subtree_onode_find-search fuel t m target h l =
    visit-search (λ k s. subtree_onode_find k s target) onode_answer 20 target (omega arith)
      (onode_step target) fuel t m h l

pub subtree_find-search :
    (fuel : ℕ) (t : Tree) (m : Bytes) (target : List ℕ)
    → Holds m t
    → height t ≤ fuel
    → subtree_find fuel (optr_of t) target m ≡ data_answer (search 5 t target) m
subtree_find-search fuel t m target h l =
    visit-search (λ k s. subtree_find k s target) data_answer 5 target (omega arith)
      (data_step target) fuel t m h l
