-- ===== src/Btree/Sorted.antt =====
-- ONodeItemSet::sortKey on an item set below 2 ^ 24.
use miya_core.Allocator.Command.{store, load}
use Prim.Native.Nat.{Ordering}
use miya_core.Base.{
  ℕ, zero, suc, ◌+◌, ◌-◌, ◌*◌, ◌<◌, ◌≤◌, ◌≡◌, refl, ◌∙◌, ap, ◌⊎◌, inl, inr, some, List, arith,
  length,
}
use miya_core.Base.Bytes.{memcmp, Ordering-cases}
use miya_core.Optr.{Optr}
use miya_core.Optr.Laws.{address}
use miya_core.Memory.{Bytes}
use miya_core.Memory.Laws.{read, write, read-write, read-write_outside, write_outside}
use miya_core.Btree.ItemSet.{sort_pair}
use miya_core.Btree.Layout.{IsNode, chain, load-read, store-write}
use miya_core.Btree.Slots.{key-node}

-- The key at an index.
abbrev pub key_at : Bytes → Optr → ℕ → List ℕ
key_at m s i = read m (address s + 6 + i * 20) 20

-- The smaller and the larger of two keys, the first of them where neither is.
abbrev pub lower_key : List ℕ → List ℕ → List ℕ
lower_key x y = elim (memcmp x y) [ Ordering.gt ↦ y | _ ↦ x ]

abbrev pub upper_key : List ℕ → List ℕ → List ℕ
upper_key x y = elim (memcmp x y) [ Ordering.gt ↦ x | _ ↦ y ]

pub length-read : (m : Bytes) (a k : ℕ) → length (read m a k) ≡ k
unfolding read
length-read m a zero = refl
length-read m a (suc k) = ap suc (length-read m (a + 1) k)

pub read-write_self :
    (m : Bytes) (a k : ℕ) (bs : List ℕ) → length bs ≡ k → read (write m a bs) a k ≡ bs
read-write_self m a k bs e = rw (← e) (read-write m a bs)

-- The bytes of a file are kept outside a range.
abbrev pub Kept : Bytes → Bytes → ℕ → ℕ → Type 0
Kept m m' a b = (x : ℕ) → (x < a) ⊎ (b ≤ x) → m' x ≡ m x

-- A pair of neighbours in order.
unfoldable pub Swapped : Bytes → Optr → ℕ → Bytes → Type 0
Swapped m s j m' =
    (key_at m' s j ≡ lower_key (key_at m s j) (key_at m s (j + 1)))
    × (key_at m' s (j + 1) ≡ upper_key (key_at m s j) (key_at m s (j + 1)))
    × Kept m m' (address s + 6 + j * 20) (address s + 6 + (j + 2) * 20)

module _ (m : Bytes) (s : Optr) (v : IsNode s) where
  pub sort_pair-Swapped :
      (j : ℕ)
      → j < 2
      → suc j ≤ m (address s + 5)
      → (m' : Bytes) × (sort_pair s (suc j) m ≡ some (tt, m')) × Swapped m s j m'
  unfolding sort_pair Swapped
  sort_pair-Swapped j h l =
      let (p0, e0, w0, q0) = key-node m s v (suc j) (omega arith) l in
      let (p1, e1, w1, q1) = key-node m s v j (omega arith) (omega arith) in
      let a0 : address p0 ≡ address s + 6 + (j + 1) * 20 = omega arith in
      let key0 = key_at m s (j + 1) in
      let key1 = key_at m s j in
      let l0 : load p0 20 m ≡ some (key0, m) = load-read m p0 20 w0 (omega arith) ∙ rw a0 refl in
      let l1 : load p1 20 m ≡ some (key1, m) = load-read m p1 20 w1 (omega arith) ∙ rw q1 refl in
      let m1 = write m (address s + 6 + (j + 1) * 20) key1 in
      let m2 = write m1 (address s + 6 + j * 20) key0 in
      let s0 : store p0 key1 m ≡ some (tt, m1) =
        store-write m p0 key1 w0 (omega (arith, length-read m (address s + 6 + j * 20) 20))
        ∙ rw a0 refl in
      let s1 : store p1 key0 m1 ≡ some (tt, m2) =
        store-write m1 p1 key0 w1 (omega (arith, length-read m (address s + 6 + (j + 1) * 20) 20))
        ∙ rw q1 refl in
      let back : suc j - 1 ≡ j = omega arith in
      let n0 : length key0 ≡ 20 = length-read m (address s + 6 + (j + 1) * 20) 20 in
      let n1 : length key1 ≡ 20 = length-read m (address s + 6 + j * 20) 20 in
      elim (Ordering-cases (memcmp key1 key0)) [
        | inl f ↦ (
          m,
          chain _ e0 (rw back (chain _ e1 (chain _ l0 (chain _ l1 (rw f refl))))),
          (rw (lower_key, f) refl, rw (upper_key, f) refl, λ x d. refl),
        )
        | inr (inl f) ↦ (
          m,
          chain _ e0 (rw back (chain _ e1 (chain _ l0 (chain _ l1 (rw f refl))))),
          (rw (lower_key, f) refl, rw (upper_key, f) refl, λ x d. refl),
        )
        | inr (inr f) ↦ (
          m2,
          chain _ e0 (rw back (chain _ e1 (chain _ l0 (chain _ l1 (rw f (chain _ s0 s1)))))),
          (
            rw (lower_key, f) (read-write_self m1 (address s + 6 + j * 20) 20 key0 n0),
            rw (upper_key, f)
                (read-write_outside m1 (address s + 6 + (j + 1) * 20) 20 (address s + 6 + j * 20)
                    key0 (inr (omega (arith, n0)))
                  ∙ read-write_self m (address s + 6 + (j + 1) * 20) 20 key1 n1),
            λ x d.
                write_outside m1 (address s + 6 + j * 20) key0 x (ground (arith, n0))
                ∙ write_outside m (address s + 6 + (j + 1) * 20) key1 x (ground (arith, n1)),
          ),
        )
      ]
