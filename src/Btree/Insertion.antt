-- ===== src/Btree/Insertion.antt =====
-- The insertions of ViewItemSet, o_node.cpp, place by place, and the view that a split distributes.
use miya_core.Optr.{Optr}
use miya_core.Base.Distinct.{In}
use miya_core.Base.Bytes.{eq_of_memcmp, memcmp, Ordering-cases, memcmp_self}
use miya_core.Btree.Node.{same_bytes}
use miya_core.Btree.Split.{inserted_index, Wide, widen}
use miya_core.Base.{
  sym, false, get_elem?, true, ℕ, zero, suc, ◌+◌, ◌-◌, ◌<◌, ◌≤◌, ◌≡◌, ◌≢◌, refl, ◌∙◌, ap, ◌⊎◌, inl,
  inr, Option, none, some, List, [], ◌∷◌, arith, length, set, get_or, length-set, ltb_of_lt,
  Bool-cases, ◌==◌,
}
use miya_core.Btree.View.{shift_places, move_insert}

module _ {ℓ} {A : Type ℓ} where
  get_or-set_self :
      (xs : List (Option A)) (i : ℕ) (v : Option A) → i < length xs → get_or (set xs i v) i none ≡ v
  get_or-set_self [] i v h = absurd (omega arith)
  get_or-set_self (x ∷ xs) zero v h = refl
  get_or-set_self (x ∷ xs) (suc i) v h = get_or-set_self xs i v (omega arith)

  get_or-set_ne :
      (xs : List (Option A)) (i j : ℕ) (v : Option A)
      → i ≢ j
      → get_or (set xs i v) j none ≡ get_or xs j none
  get_or-set_ne [] i j v h = refl
  get_or-set_ne (x ∷ xs) zero zero v h = absurd (h refl)
  get_or-set_ne (x ∷ xs) zero (suc j) v h = refl
  get_or-set_ne (x ∷ xs) (suc i) zero v h = refl
  get_or-set_ne (x ∷ xs) (suc i) (suc j) v h = get_or-set_ne xs i j v (λ e. h (ap suc e))

  length-shift : (xs : List (Option A)) (i k : ℕ) → length (shift_places xs i k) ≡ length xs
  unfolding shift_places
  length-shift xs i zero = refl
  length-shift xs i (suc k) =
      length-shift (set xs i (get_or xs (i - 1) none)) (i - 1) k
      ∙ length-set xs i (get_or xs (i - 1) none)

  kept :
      (xs : List (Option A)) (i k j : ℕ)
      → k ≤ i
      → i < length xs
      → (j + k ≤ i) ⊎ (i < j)
      → get_or (shift_places xs i k) j none ≡ get_or xs j none
  unfolding shift_places
  kept xs i zero j h l d = refl
  kept xs i (suc k) j h l d =
      let n = length-set xs i (get_or xs (i - 1) none) in
      kept (set xs i (get_or xs (i - 1) none)) (i - 1) k j (omega arith) (omega (arith, n))
        (ground arith)
      ∙ get_or-set_ne xs i j (get_or xs (i - 1) none) (ground arith)

  -- The places between the two ends of the shift have what stood before them.
  shifted :
      (xs : List (Option A)) (i k j : ℕ)
      → k ≤ i
      → i < length xs
      → i < j + k
      → j ≤ i
      → get_or (shift_places xs i k) j none ≡ get_or xs (j - 1) none
  unfolding shift_places
  shifted xs i zero j h l a b = absurd (omega arith)
  shifted xs i (suc k) j h l a b = elim (Bool-cases (j == i)) [
    | inl e ↦
        let q : j ≡ i = ground arith in
        kept (set xs i (get_or xs (i - 1) none)) (i - 1) k j (omega arith)
          (omega (arith, length-set xs i (get_or xs (i - 1) none))) (inr (omega arith))
        ∙ rw q (get_or-set_self xs i (get_or xs (i - 1) none) l)
    | inr e ↦
        shifted (set xs i (get_or xs (i - 1) none)) (i - 1) k j (omega arith)
          (omega (arith, length-set xs i (get_or xs (i - 1) none))) (ground arith) (ground arith)
        ∙ get_or-set_ne xs i (j - 1) (get_or xs (i - 1) none) (ground arith)
  ]

  -- An array with a value put at an index, what stood there and behind moved on by one place.
  pub Inserted : List (Option A) → ℕ → Option A → List (Option A) → Type ℓ
  Inserted xs index target ys =
      (length ys ≡ length xs)
      × (get_or ys index none ≡ target)
      × ((j : ℕ) → j < index → get_or ys j none ≡ get_or xs j none)
      × ((j : ℕ) → index < j → j < length xs → get_or ys j none ≡ get_or xs (j - 1) none)

  pub move_insert-Inserted :
      (xs : List (Option A)) (index : ℕ) (target : Option A)
      → index < length xs
      → (ys : List (Option A)) × (move_insert xs index target ≡ some ys)
        × Inserted xs index target ys
  unfolding move_insert Inserted
  move_insert-Inserted xs index target h =
      let zs = shift_places xs (length xs - 1) (length xs - 1 - index) in
      let n : length zs ≡ length xs = length-shift xs (length xs - 1) (length xs - 1 - index) in
      (
        set zs index target,
        rw (ltb_of_lt index (length xs) h) refl,
        (
          length-set zs index target ∙ n,
          get_or-set_self zs index target (omega (arith, n)),
          λ j l.
              get_or-set_ne zs index j target (ground arith)
              ∙ kept xs (length xs - 1) (length xs - 1 - index) j (omega arith) (omega arith)
                  (inl (omega arith)),
          λ j l l'.
              get_or-set_ne zs index j target (ground arith)
              ∙ shifted xs (length xs - 1) (length xs - 1 - index) j (omega arith) (omega arith)
                  (omega arith) (omega arith),
        ),
      )

pub same_bytes_self : (k : List ℕ) → same_bytes k k ≡ true
same_bytes_self k = rw (same_bytes, memcmp_self k) refl

pub same_bytes-eq : (a b : List ℕ) → same_bytes a b ≡ true → a ≡ b
same_bytes-eq a b e = elim (Ordering-cases (memcmp a b)) [
  | inl f ↦ absurd (ground (arith, f, e))
  | inr (inl f) ↦ eq_of_memcmp a b f
  | inr (inr f) ↦ absurd (ground (arith, f, e))
]

-- The first place with the target's bytes has the target.
inserted_index-In :
    (ks : List (List ℕ)) (target : List ℕ) (i : ℕ)
    → In target ks
    → (p : ℕ) × (inserted_index ks target i ≡ i + p)
      × (p < length ks)
      × (get_elem? ks p ≡ some target)
unfolding inserted_index In
inserted_index-In [] target i h = elim h [ ]
inserted_index-In (k ∷ ks) target i h = elim (Bool-cases (same_bytes k target)) [
  | inl e ↦ (0, rw e (omega arith), omega arith, ap some (same_bytes-eq k target e))
  | inr e ↦ elim h [
    | inl q ↦ absurd (different k target (sym q) e)
    | inr h' ↦
        let (p, a, b, c) = inserted_index-In ks target (i + 1) h' in
        (suc p, rw e (omega arith), omega arith, c)
  ]
]
  where
    different : (a b : List ℕ) → a ≡ b → same_bytes a b ≡ false → ⊥
    different a b q e = let s : same_bytes a b ≡ true = rw q (same_bytes_self b) in ground arith

-- In the view of a full node with four places for data and five for children, and where the sort
-- gives four keys with the target among them, the data pointer to add stands at a place of the
-- target, the child to add at the place behind, and the others keep their order around them.
pub widen-Inserted :
    (sort : List (List ℕ) → List (List ℕ)) (k0 k1 k2 target : List ℕ)
    (children data_optrs : List (Option Optr)) (d : Option Optr) (c : Optr)
    → length data_optrs ≡ 4
    → length children ≡ 5
    → In target (sort (k0 ∷ k1 ∷ k2 ∷ target ∷ []))
    → length (sort (k0 ∷ k1 ∷ k2 ∷ target ∷ [])) ≡ 4
    → (w : Wide) × (p : ℕ) × (widen sort
          (record {
            keys = some k0 ∷ some k1 ∷ some k2 ∷ none ∷ [];
            children = children;
            data_optrs = data_optrs;
          })
          target
          d
          (some c)
        ≡ some w)
      × (w.keys ≡ sort (k0 ∷ k1 ∷ k2 ∷ target ∷ []))
      × (get_elem? w.keys p ≡ some target)
      × Inserted data_optrs p d w.data_optrs
      × Inserted children (p + 1) (some c) w.children
unfolding widen
widen-Inserted sort k0 k1 k2 target children data_optrs d c ld lc i ls =
    let keys = sort (k0 ∷ k1 ∷ k2 ∷ target ∷ []) in
    let p = inserted_index keys target 0 in
    let (q, a, b, g) = inserted_index-In keys target 0 i in
    let z : p ≡ q = omega arith in
    let (ds, f, s) = move_insert-Inserted data_optrs p d (omega arith) in
    let (cs, f', s') = move_insert-Inserted children (p + 1) (some c) (omega arith) in
    (
      record { keys = keys; children = cs; data_optrs = ds },
      p,
      rw (widen, f, f') refl,
      refl,
      rw z g,
      s,
      s',
    )
