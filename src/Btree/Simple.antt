-- ===== src/Btree/Simple.antt =====
-- The simple insertion of ONode::recursiveAdd into a leaf below 2 ^ 24 that has room.
use Prim.Native.Nat.{Ordering}
use miya_core.Base.{
  ℕ, suc, ◌+◌, ◌*◌, ◌<◌, ◌≤◌, ◌≡◌, ◌≢◌, refl, ◌∙◌, sym, ap, inl, inr, some, List, [], ◌∷◌, ◌++◌,
  arith, length, get_elem?, true, Bool-cases,
}
use miya_core.Base.Distinct.{In}
use miya_core.Base.Bytes.{memcmp, Ordering-cases}
use miya_core.Optr.{Optr}
use miya_core.Optr.Laws.{address}
use miya_core.Memory.{Bytes}
use miya_core.Memory.Laws.{read_congr}
use miya_core.Btree.ItemSet.{sort_key}
use miya_core.Btree.Node.{find_key, same_bytes}
use miya_core.Btree.Layout.{IsNode, chain, key_count-node}
use miya_core.Btree.Search.{HasKeys}
use miya_core.Btree.Scan.{key_bytes-node, take-read}
use miya_core.Btree.Insertion.{same_bytes_self, same_bytes-eq}
use miya_core.Btree.Sorted.{Kept}
use miya_core.Btree.Sorting.{insert_key, sort_key-two, sort_key-three}

-- Keys of which each is before the next, and a key that is none of them.
abbrev pub Ascending : List (List ℕ) → Type 0
Ascending [] = Unit
Ascending (x ∷ []) = Unit
Ascending (x ∷ y ∷ ks) = (memcmp x y ≡ Ordering.lt) × Ascending (y ∷ ks)

abbrev pub Absent : List ℕ → List (List ℕ) → Type 0
Absent z [] = Unit
Absent z (x ∷ ks) = (memcmp z x ≢ Ordering.eq) × Absent z ks

pub length-insert_key :
    (z : List ℕ) (ks : List (List ℕ)) → length (insert_key z ks) ≡ suc (length ks)
unfolding insert_key
length-insert_key z [] = refl
length-insert_key z (x ∷ ks) = elim (Ordering-cases (memcmp z x)) [
  | inl e ↦ rw (insert_key, e) refl
  | inr (inl e) ↦ rw (insert_key, e) (ap suc (length-insert_key z ks))
  | inr (inr e) ↦ rw (insert_key, e) (ap suc (length-insert_key z ks))
]

pub insert_key-In : (z : List ℕ) (ks : List (List ℕ)) → In z (insert_key z ks)
unfolding insert_key In
insert_key-In z [] = inl refl
insert_key-In z (x ∷ ks) = elim (Ordering-cases (memcmp z x)) [
  | inl e ↦ rw (insert_key, e) (inl refl)
  | inr (inl e) ↦ rw (insert_key, e) (inr (insert_key-In z ks))
  | inr (inr e) ↦ rw (insert_key, e) (inr (insert_key-In z ks))
]

pub HasKeys-congr :
    (m m' : Bytes) (s : Optr) (i : ℕ) (ks : List (List ℕ))
    → i + length ks ≤ 3
    → ((x : ℕ) → address s + 6 ≤ x → x < address s + 66 → m' x ≡ m x)
    → HasKeys m s i ks
    → HasKeys m' s i ks
HasKeys-congr m m' s i [] l h k = tt
HasKeys-congr m m' s i (x ∷ ks) l h (e, k) = (
  read_congr m' m (address s + 6 + i * 20) 20 (λ b a c. h b (omega arith) (omega arith)) ∙ e,
  HasKeys-congr m m' s (i + 1) ks (omega arith) h k,
)

module _ (m : Bytes) (s : Optr) (v : IsNode s) where
  -- The loop ends at the first place with the target's bytes.
  pub find_key-In :
      (target : List ℕ) (i : ℕ) (ks : List (List ℕ))
      → i + length ks ≤ 3
      → i + length ks ≤ m (address s + 5)
      → HasKeys m s i ks
      → In target ks
      → (p : ℕ) × (find_key s target i (length ks) m ≡ some (some (i + p), m))
        × (p < length ks)
        × (get_elem? ks p ≡ some target)
  unfolding find_key In
  find_key-In target i [] l l' h n = elim n [ ]
  find_key-In target i (k ∷ ks) l l' (e, h) n =
      let q =
        key_bytes-node m s v i 20 (omega arith) (omega arith) (omega arith)
        ∙ ap (λ bs. some (bs, m)) (take-read m (address s + 6 + i * 20) 20 20 (omega arith) ∙ e) in
      elim (Bool-cases (same_bytes target k)) [
        | inl f ↦
            let z : i ≡ i + 0 = omega arith in
            (
              0,
              chain _ q (rw f (ap (λ j. some (some j, m)) z)),
              omega arith,
              ap some (sym (same_bytes-eq target k f)),
            )
        | inr f ↦ elim n [
          | inl g ↦
              let t : same_bytes target k ≡ true = rw (← g) (same_bytes_self target) in
              absurd (ground arith)
          | inr n' ↦
              let (p, r, a, b) = find_key-In target (i + 1) ks (omega arith) (omega arith) h n' in
              let z : i + 1 + p ≡ i + suc p = omega arith in
              (suc p, chain _ q (rw f (r ∙ ap (λ j. some (some j, m)) z)), omega arith, b)
        ]
      ]

  pub sort_key-insert :
      (ks : List (List ℕ)) (z : List ℕ)
      → length ks ≤ 2
      → m (address s + 5) ≡ suc (length ks)
      → HasKeys m s 0 (ks ++ z ∷ [])
      → Ascending ks
      → Absent z ks
      → (m' : Bytes) × (sort_key s m ≡ some (tt, m'))
        × HasKeys m' s 0 (insert_key z ks)
        × Kept m m' (address s + 6) (address s + 66)
  unfolding sort_key insert_key
  sort_key-insert [] z l n h a b =
      (m, chain _ (key_count-node m s v ∙ ap (λ c. some (c, m)) n) refl, h, λ x d. refl)
  sort_key-insert (x ∷ []) z l n (e0, (e1, _)) a (b, _) = sort_key-two m s v x z n e0 e1 b
  sort_key-insert (x ∷ y ∷ []) z l n (e0, (e1, (e2, _))) (a, _) (b, (b', _)) =
      sort_key-three m s v x y z n e0 e1 e2 a b b'
  sort_key-insert (x ∷ y ∷ w ∷ ks) z l n h a b = absurd (omega arith)
