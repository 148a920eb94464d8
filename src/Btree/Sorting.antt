-- ===== src/Btree/Sorting.antt =====
-- sortKey after a key was put behind the keys in order: the key comes to its place.
use miya_core.Memory.Laws.{read_congr}
use Prim.Native.Nat.{Ordering}
use miya_core.Base.{
  ℕ, ◌+◌, ◌*◌, ◌≤◌, ◌≡◌, ◌≢◌, refl, ◌∙◌, ap, inl, inr, some, List, [], ◌∷◌, arith, subst,
}
use miya_core.Base.Bytes.{memcmp, Ordering-cases, memcmp-lt_gt, memcmp-gt_lt, memcmp-lt_trans}
use miya_core.Optr.{Optr}
use miya_core.Optr.Laws.{address}
use miya_core.Memory.{Bytes}
use miya_core.Btree.ItemSet.{sort_key}
use miya_core.Btree.Layout.{IsNode, chain, key_count-node}
use miya_core.Btree.Search.{HasKeys}
use miya_core.Btree.Sorted.{key_at, lower_key, upper_key, Kept, Swapped, sort_pair-Swapped}

-- A key put before the first that is larger.
unfoldable pub insert_key : List ℕ → List (List ℕ) → List (List ℕ)
insert_key z [] = z ∷ []
insert_key z (x ∷ xs) =
    let rest = insert_key z xs in elim (memcmp z x) [ Ordering.lt ↦ z ∷ x ∷ xs | _ ↦ x ∷ rest ]

module _ (x y : List ℕ) where
  pair-lt : memcmp x y ≡ Ordering.lt → (lower_key x y ≡ x) × (upper_key x y ≡ y)
  pair-lt e = (rw (lower_key, e) refl, rw (upper_key, e) refl)

  pair-gt : memcmp x y ≡ Ordering.gt → (lower_key x y ≡ y) × (upper_key x y ≡ x)
  pair-gt e = (rw (lower_key, e) refl, rw (upper_key, e) refl)

  insert_key-lt :
      (xs : List (List ℕ)) → memcmp x y ≡ Ordering.lt → insert_key x (y ∷ xs) ≡ x ∷ y ∷ xs
  unfolding insert_key
  insert_key-lt xs e = rw (insert_key, e) refl

  insert_key-gt :
      (xs : List (List ℕ)) → memcmp x y ≡ Ordering.gt → insert_key x (y ∷ xs) ≡ y ∷ insert_key x xs
  unfolding insert_key
  insert_key-gt xs e = rw (insert_key, e) refl

insert_key-nil : (z : List ℕ) → insert_key z [] ≡ z ∷ []
unfolding insert_key
insert_key-nil z = refl

sorted_two :
    (x z : List ℕ)
    → memcmp z x ≢ Ordering.eq
    → lower_key x z ∷ upper_key x z ∷ [] ≡ insert_key z (x ∷ [])
sorted_two x z ne = elim (Ordering-cases (memcmp z x)) [
  | inl e ↦ let (a, b) = pair-gt x z (memcmp-lt_gt z x e) in rw (a, b, insert_key-lt z x [] e) refl
  | inr (inl e) ↦ absurd (ne e)
  | inr (inr e) ↦
      let (a, b) = pair-lt x z (memcmp-gt_lt z x e) in
      rw (a, b, insert_key-gt z x [] e, insert_key-nil z) refl
]

sorted_three :
    (x y z : List ℕ)
    → memcmp x y ≡ Ordering.lt
    → memcmp z x ≢ Ordering.eq
    → memcmp z y ≢ Ordering.eq
    → lower_key x (lower_key y z)
        ∷ lower_key (upper_key x (lower_key y z)) (upper_key y z)
        ∷ upper_key (upper_key x (lower_key y z)) (upper_key y z)
        ∷ []
      ≡ insert_key z (x ∷ y ∷ [])
sorted_three x y z h ne ne' =
    let (u, u') = pair-lt x y h in
    elim (Ordering-cases (memcmp z x)) [
      | inl e ↦
          let (a, b) = pair-gt y z (memcmp-lt_gt z y (memcmp-lt_trans z x y e h)) in
          let (c, d) = pair-gt x z (memcmp-lt_gt z x e) in
          rw (a, b, c, d, u, u', insert_key-lt z x (y ∷ []) e) refl
      | inr (inl e) ↦ absurd (ne e)
      | inr (inr e) ↦ elim (Ordering-cases (memcmp z y)) [
        | inl f ↦
            let (a, b) = pair-gt y z (memcmp-lt_gt z y f) in
            let (c, d) = pair-lt x z (memcmp-gt_lt z x e) in
            let (g, g') = pair-lt z y f in
            rw (a, b, c, d, g, g', insert_key-gt z x (y ∷ []) e, insert_key-lt z y [] f) refl
        | inr (inl f) ↦ absurd (ne' f)
        | inr (inr f) ↦
            let (a, b) = pair-lt y z (memcmp-gt_lt z y f) in
            rw
              (
                a,
                b,
                u,
                u',
                a,
                b,
                insert_key-gt z x (y ∷ []) e,
                insert_key-gt z y [] f,
                insert_key-nil z,
              )
              refl
      ]
    ]

Kept-trans :
    (m m1 m2 : Bytes) (a b c d : ℕ) → a ≤ c → d ≤ b → Kept m m1 a b → Kept m1 m2 c d → Kept m m2 a b
Kept-trans m m1 m2 a b c d l l' k k' x h = k' x (ground arith) ∙ k x h

Kept-wider : (m m1 : Bytes) (a b c d : ℕ) → a ≤ c → d ≤ b → Kept m m1 c d → Kept m m1 a b
Kept-wider m m1 a b c d l l' k x h = k x (ground arith)

module _ (m : Bytes) (s : Optr) (v : IsNode s) where
  pub sort_key-two :
      (x z : List ℕ)
      → m (address s + 5) ≡ 2
      → key_at m s 0 ≡ x
      → key_at m s 1 ≡ z
      → memcmp z x ≢ Ordering.eq
      → (m' : Bytes) × (sort_key s m ≡ some (tt, m'))
        × HasKeys m' s 0 (insert_key z (x ∷ []))
        × Kept m m' (address s + 6) (address s + 66)
  unfolding sort_key Swapped
  sort_key-two x z n e0 e1 ne =
      let (m', r, (a0, a1, k)) = sort_pair-Swapped m s v 0 (omega arith) (omega arith) in
      (
        m',
        chain _ (key_count-node m s v ∙ ap (λ c. some (c, m)) n) (chain _ (chain _ r refl) refl),
        subst (HasKeys m' s 0) (sorted_two x z ne) (rw (← e0, ← e1) (a0, (a1, tt))),
        Kept-wider m m' _ _ _ _ (omega arith) (omega arith) k,
      )

  pub sort_key-three :
      (x y z : List ℕ)
      → m (address s + 5) ≡ 3
      → key_at m s 0 ≡ x
      → key_at m s 1 ≡ y
      → key_at m s 2 ≡ z
      → memcmp x y ≡ Ordering.lt
      → memcmp z x ≢ Ordering.eq
      → memcmp z y ≢ Ordering.eq
      → (m' : Bytes) × (sort_key s m ≡ some (tt, m'))
        × HasKeys m' s 0 (insert_key z (x ∷ y ∷ []))
        × Kept m m' (address s + 6) (address s + 66)
  unfolding sort_key Swapped
  sort_key-three x y z n e0 e1 e2 h ne ne' =
      let (m1, r1, (a1, b1, k1)) = sort_pair-Swapped m s v 1 (omega arith) (omega arith) in
      let n1 : m1 (address s + 5) ≡ 3 = k1 (address s + 5) (inl (omega arith)) ∙ n in
      let (m2, r2, (a2, b2, k2)) = sort_pair-Swapped m1 s v 0 (omega arith) (omega arith) in
      let n2 : m2 (address s + 5) ≡ 3 = k2 (address s + 5) (inl (omega arith)) ∙ n1 in
      let (m3, r3, (a3, b3, k3)) = sort_pair-Swapped m2 s v 1 (omega arith) (omega arith) in
      let c1 : key_at m1 s 0 ≡ x =
        read_congr m1 m (address s + 6 + 0 * 20) 20 (λ b l r. k1 b (inl (omega arith))) ∙ e0 in
      let c2 : key_at m2 s 2 ≡ key_at m1 s 2 =
        read_congr m2 m1 (address s + 6 + 2 * 20) 20 (λ b l r. k2 b (inr (omega arith))) in
      let c3 : key_at m3 s 0 ≡ key_at m2 s 0 =
        read_congr m3 m2 (address s + 6 + 0 * 20) 20 (λ b l r. k3 b (inl (omega arith))) in
      let d1 : key_at m1 s 1 ≡ lower_key y z =
        a1 ∙ ap (λ k. lower_key k (key_at m s 2)) e1 ∙ ap (lower_key y) e2 in
      let d2 : key_at m1 s 2 ≡ upper_key y z =
        b1 ∙ ap (λ k. upper_key k (key_at m s 2)) e1 ∙ ap (upper_key y) e2 in
      let f0 : key_at m2 s 0 ≡ lower_key x (lower_key y z) =
        a2 ∙ ap (λ k. lower_key k (key_at m1 s 1)) c1 ∙ ap (lower_key x) d1 in
      let f1 : key_at m2 s 1 ≡ upper_key x (lower_key y z) =
        b2 ∙ ap (λ k. upper_key k (key_at m1 s 1)) c1 ∙ ap (upper_key x) d1 in
      let f2 : key_at m2 s 2 ≡ upper_key y z = c2 ∙ d2 in
      let g1 : key_at m3 s 1 ≡ lower_key (upper_key x (lower_key y z)) (upper_key y z) =
        a3
        ∙ ap (λ k. lower_key k (key_at m2 s 2)) f1
        ∙ ap (lower_key (upper_key x (lower_key y z))) f2 in
      let g2 : key_at m3 s 2 ≡ upper_key (upper_key x (lower_key y z)) (upper_key y z) =
        b3
        ∙ ap (λ k. upper_key k (key_at m2 s 2)) f1
        ∙ ap (upper_key (upper_key x (lower_key y z))) f2 in
      (
        m3,
        chain _ (key_count-node m s v ∙ ap (λ c. some (c, m)) n)
            (chain _ (chain _ r1 (chain _ r2 refl)) (chain _ (chain _ r3 refl) refl)),
        subst (HasKeys m3 s 0) (sorted_three x y z h ne ne') (c3 ∙ f0, (g1, (g2, tt))),
        λ b d. k3 b (ground arith) ∙ k2 b (ground arith) ∙ k1 b (ground arith),
      )
