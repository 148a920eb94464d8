-- ===== src/Btree/Found.antt =====
-- The reference search in trees in order.
use Prim.Native.Nat.{Ordering}
use miya_core.Base.{
  ℕ, ◌+◌, ◌≡◌, refl, sym, ◌≢◌, ◌⊎◌, inl, inr, Option, none, some, List, [], ◌∷◌, take, subst,
}
use miya_core.Base.Bytes.{
  memcmp, Ordering-cases, eq_of_memcmp, memcmp-lt_ne, memcmp-gt_ne, memcmp-gt_lt, memcmp-lt_trans,
}
use miya_core.Optr.{Optr}
use miya_core.Btree.Search.{
  Tree, leaf, inner, Branches, last, branch, scan, search, search_in, search-leaf, search-inner,
  search_in-last, search_in-branch,
}
use miya_core.Btree.Order.{
  Keys, KeyAt, Entry, Entries, Before, AllBefore, AllBehind, Sorted, Ordered, OrderedFrom,
}

-- A place found has a key that starts as the target does, and none found means that no key does.
abbrev pub Found : ℕ → List ℕ → Keys → Option (Optr × ℕ) → Type 0
Found size target e none = (p : Optr × ℕ) (k : List ℕ) → e p k → take size k ≢ take size target
Found size target e (some p) = (k : List ℕ) × e p k × (take size k ≡ take size target)

-- The keys of a child, then one key, then the keys behind it.
abbrev Joined : Keys → Optr × ℕ → List ℕ → Keys → Keys
Joined e q x f p k = e p k ⊎ ((p ≡ q) × (x ≡ k)) ⊎ f p k

module _ (size : ℕ) (target : List ℕ) (e : Keys) (q : Optr × ℕ) (x : List ℕ) (f : Keys) where
  Found-lt :
      (r : Option (Optr × ℕ))
      → Before size target x
      → AllBehind size x f
      → Found size target e r
      → Found size target (Joined e q x f) r
  Found-lt none h b u = λ p k y. elim y [
    | inl z ↦ u p k z
    | inr (inl (_, z)) ↦
        memcmp-lt_ne (take size target) (take size k) (subst (λ w. Before size target w) z h)
    | inr (inr z) ↦
        memcmp-lt_ne (take size target) (take size k)
          (memcmp-lt_trans (take size target) (take size x) (take size k) h (b p k z))
  ]
  Found-lt (some p) h b (k, y, z) = (k, inl y, z)

  Found-eq :
      memcmp (take size target) (take size x) ≡ Ordering.eq
      → Found size target (Joined e q x f) (some q)
  Found-eq h = (x, inr (inl (refl, refl)), sym (eq_of_memcmp (take size target) (take size x) h))

  Found-gt :
      (r : Option (Optr × ℕ))
      → memcmp (take size target) (take size x) ≡ Ordering.gt
      → AllBefore size e x
      → Found size target f r
      → Found size target (Joined e q x f) r
  Found-gt none h b u = λ p k y. elim y [
    | inl z ↦ λ g.
        memcmp-lt_ne (take size k) (take size target)
          (memcmp-lt_trans (take size k) (take size x) (take size target) (b p k z)
            (memcmp-gt_lt (take size target) (take size x) h))
          (sym g)
    | inr (inl (_, z)) ↦
        memcmp-gt_ne (take size target) (take size k)
          (subst (λ w. memcmp (take size target) (take size w) ≡ Ordering.gt) z h)
    | inr (inr z) ↦ u p k z
  ]
  Found-gt (some p) h b (k, y, z) = (k, inr (inr y), z)

Found-map :
    (size : ℕ) (target : List ℕ) (e f : Keys) (r : Option (Optr × ℕ))
    → ((p : Optr × ℕ) (k : List ℕ) → e p k → f p k)
    → ((p : Optr × ℕ) (k : List ℕ) → f p k → e p k)
    → Found size target e r
    → Found size target f r
Found-map size target e f none to from u = λ p k y. u p k (from p k y)
Found-map size target e f (some p) to from (k, y, z) = (k, to p k y, z)

abbrev no_keys : Keys
no_keys p k = ⊥

scan-Found :
    (size : ℕ) (s : Optr) (target : List ℕ) (i : ℕ) (ks : List (List ℕ))
    → Sorted size s i ks
    → Found size target (KeyAt s i ks) (scan size s target i ks)
scan-Found size s target i [] o = λ p k y. elim y [ ]
scan-Found size s target i (x ∷ ks) (b, o) =
    Found-map size target (Joined no_keys (s, i) x (KeyAt s (i + 1) ks)) (KeyAt s i (x ∷ ks)) _
      (λ p k y. elim y [ inl z ↦ elim z [ ] | inr z ↦ z ]) (λ p k y. inr y)
      (elim (Ordering-cases (memcmp (take size target) (take size x))) [
        | inl e ↦
            rw (scan, e)
              (Found-lt size target no_keys (s, i) x (KeyAt s (i + 1) ks) none e b
                (λ p k y. elim y [ ]))
        | inr (inl e) ↦ rw (scan, e) (Found-eq size target no_keys (s, i) x (KeyAt s (i + 1) ks) e)
        | inr (inr e) ↦
            rw (scan, e)
              (Found-gt size target no_keys (s, i) x (KeyAt s (i + 1) ks) _ e (λ p k y. elim y [ ])
                (scan-Found size s target (i + 1) ks o))
      ])

-- In a tree in order, the search finds a key that starts as the target does, or there is none.
mutual
  unfolding Entry Ordered

  pub search-Found :
      (size : ℕ) (t : Tree) (target : List ℕ)
      → Ordered size t
      → Found size target (Entry t) (search size t target)
  search-Found size (leaf s ks) target o =
      rw (search-leaf size s ks target) (scan-Found size s target 0 ks o)
  search-Found size (inner s bs) target o =
      rw (search-inner size s bs target) (search_in-Found size s 0 bs target o)

  search_in-Found :
      (size : ℕ) (s : Optr) (i : ℕ) (bs : Branches) (target : List ℕ)
      → OrderedFrom size s i bs
      → Found size target (Entries s i bs) (search_in size s i bs target)
  search_in-Found size s i (last t) target o =
      rw (search_in-last size s i t target) (search-Found size t target o)
  search_in-Found size s i (branch t x bs) target (o, b, b', os) =
      elim (Ordering-cases (memcmp (take size target) (take size x))) [
        | inl e ↦
            rw (search_in-branch size s i t target x bs, e)
              (Found-lt size target (Entry t) (s, i) x (Entries s (i + 1) bs) _ e b'
                (search-Found size t target o))
        | inr (inl e) ↦
            rw (search_in-branch size s i t target x bs, e)
              (Found-eq size target (Entry t) (s, i) x (Entries s (i + 1) bs) e)
        | inr (inr e) ↦
            rw (search_in-branch size s i t target x bs, e)
              (Found-gt size target (Entry t) (s, i) x (Entries s (i + 1) bs) _ e b
                (search_in-Found size s (i + 1) bs target os))
      ]
