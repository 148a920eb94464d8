-- ===== src/Btree/Shifting.antt =====
-- ONodeItemSet::moveInsertDataOptr on an item set below 2 ^ 24 that has room.
use miya_core.Base.{
  ℕ, zero, suc, ◌+◌, ◌-◌, ◌*◌, ◌<◌, ◌≤◌, ◌≡◌, ◌≢◌, refl, ◌∙◌, ap, ◌⊎◌, inl, inr, Option, some,
  arith, Bool-cases, ◌==◌,
}
use miya_core.Optr.{Optr, caddr}
use miya_core.Optr.Laws.{address}
use miya_core.Memory.{Bytes}
use miya_core.Memory.Laws.{write, write_outside}
use miya_core.Allocator.Words.{length-caddr}
use miya_core.Btree.Links.{shift_data_optrs, move_insert_data_optr}
use miya_core.Btree.Layout.{IsNode, chain, data_optr_count-node}
use miya_core.Btree.Slots.{optr_at, data_optr-node, set_data_optr-node}
use miya_core.Btree.Sorted.{Kept}

-- The data pointer at an index.
abbrev pub data_at : Bytes → Optr → ℕ → Optr
data_at m s i = optr_at m (address s + 88 + i * 5)

pub optr_at-write : (m : Bytes) (a : ℕ) (o : Optr) → optr_at (write m a (caddr o)) a ≡ o
unfolding write caddr
optr_at-write m a o = ground arith

pub optr_at-congr :
    (m m' : Bytes) (a : ℕ) → ((x : ℕ) → a ≤ x → x < a + 5 → m' x ≡ m x) → optr_at m' a ≡ optr_at m a
optr_at-congr m m' a h =
    rw
      (
        h a (omega arith) (omega arith),
        h (a + 1) (omega arith) (omega arith),
        h (a + 2) (omega arith) (omega arith),
        h (a + 3) (omega arith) (omega arith),
        h (a + 4) (omega arith) (omega arith),
      )
      refl

-- The pointers of k indices up to i stand one place on.
record Shifted (m : Bytes) (s : Optr) (i k : ℕ) (m' : Bytes) : Type 0 where
  moved : (j : ℕ) → i < j + k → j ≤ i → data_at m' s j ≡ data_at m s (j - 1)
  kept : (j : ℕ) → (j + k ≤ i) ⊎ (i < j) → data_at m' s j ≡ data_at m s j
  bytes : Kept m m' (address s + 88) (address s + 103)

write_data_self :
    (m : Bytes) (s : Optr) (i : ℕ) (o : Optr)
    → data_at (write m (address s + 88 + i * 5) (caddr o)) s i ≡ o
write_data_self m s i o = optr_at-write m (address s + 88 + i * 5) o

write_data_ne :
    (m : Bytes) (s : Optr) (i j : ℕ) (o : Optr)
    → i ≢ j
    → data_at (write m (address s + 88 + i * 5) (caddr o)) s j ≡ data_at m s j
write_data_ne m s i j o ne =
    optr_at-congr m _ (address s + 88 + j * 5) (λ x l r.
      write_outside m (address s + 88 + i * 5) (caddr o) x (ground (arith, length-caddr o)))

write_data-Kept :
    (m : Bytes) (s : Optr) (i : ℕ) (o : Optr)
    → i < 3
    → Kept m (write m (address s + 88 + i * 5) (caddr o)) (address s + 88) (address s + 103)
write_data-Kept m s i o h x d =
    write_outside m (address s + 88 + i * 5) (caddr o) x (ground (arith, length-caddr o))

module _ (s : Optr) (v : IsNode s) where
  shift_data_optrs-suc :
      (m : Bytes) (i k : ℕ) (x : Option (Unit {0} × Bytes))
      → suc i < 3
      → suc i ≤ m (address s + 87)
      → shift_data_optrs s i k (write m (address s + 88 + suc i * 5) (caddr (data_at m s i))) ≡ x
      → shift_data_optrs s (suc i) (suc k) m ≡ x
  unfolding shift_data_optrs
  shift_data_optrs-suc m i k x l c r =
      let a : i ≤ m (address s + 87) = omega arith in
      let b : i < 3 = omega arith in
      let back : suc i - 1 ≡ i = omega arith in
      rw back (
        chain _ (data_optr-node m s v i b a)
          (chain _ (set_data_optr-node m s v (suc i) (data_at m s i) l) r))

  shift_data_optrs-Shifted :
      (m : Bytes) (i k : ℕ)
      → k ≤ i
      → i < 3
      → i ≤ m (address s + 87)
      → (m' : Bytes) × (shift_data_optrs s i k m ≡ some (tt, m')) × Shifted m s i k m'
  unfolding shift_data_optrs
  shift_data_optrs-Shifted m i zero h l c = (
    m,
    refl,
    record { moved = λ j a b. absurd (omega arith); kept = λ j d. refl; bytes = λ x d. refl },
  )
  shift_data_optrs-Shifted m zero (suc k) h l c = absurd (omega arith)
  shift_data_optrs-Shifted m (suc i) (suc k) h l c =
      let back : suc i - 1 ≡ i = omega arith in
      let m1 = write m (address s + 88 + suc i * 5) (caddr (data_at m s i)) in
      let c1 : m1 (address s + 87) ≡ m (address s + 87) =
        write_data-Kept m s (suc i) (data_at m s i) l (address s + 87) (inl (omega arith)) in
      let (m', r, sh) = shift_data_optrs-Shifted m1 i k (omega arith) (omega arith) (omega arith) in
      (
        m',
        shift_data_optrs-suc m i k (some (tt, m')) l c r,
        record {
          moved = λ j a b. elim (Bool-cases (j == suc i)) [
            | inl e ↦
                let q : j ≡ suc i = ground arith in
                sh.kept j (inr (omega arith))
                ∙ rw q (rw back (write_data_self m s (suc i) (data_at m s i)))
            | inr e ↦
                sh.moved j (ground arith) (ground arith)
                ∙ write_data_ne m s (suc i) (j - 1) (data_at m s i) (ground arith)
          ];
          kept = λ j d.
              sh.kept j (ground arith) ∙ write_data_ne m s (suc i) j (data_at m s i) (ground arith);
          bytes = λ x d. sh.bytes x d ∙ write_data-Kept m s (suc i) (data_at m s i) l x d;
        },
      )

  -- A data pointer put in its place, with those behind moved on.
  pub record Placed (m : Bytes) (p n : ℕ) (o : Optr) (m' : Bytes) : Type 0 where
    pub placed : data_at m' s p ≡ o
    pub before : (j : ℕ) → j < p → data_at m' s j ≡ data_at m s j
    pub behind : (j : ℕ) → p < j → j ≤ n → data_at m' s j ≡ data_at m s (j - 1)
    pub bytes : Kept m m' (address s + 88) (address s + 103)

  pub move_insert_data_optr-Placed :
      (m : Bytes) (p n : ℕ) (o : Optr)
      → p ≤ n
      → n < 3
      → m (address s + 87) ≡ n
      → (m' : Bytes) × (move_insert_data_optr s p (some o) m ≡ some (tt, m')) × Placed m p n o m'
  unfolding move_insert_data_optr
  move_insert_data_optr-Placed m p n o h l c =
      let (m1, r, sh) = shift_data_optrs-Shifted m n (n - p) (omega arith) l (omega arith) in
      (
        write m1 (address s + 88 + p * 5) (caddr o),
        chain _ (data_optr_count-node m s v ∙ ap (λ x. some (x, m)) c)
            (chain _ r (set_data_optr-node m1 s v p o (omega arith))),
        record {
          placed = write_data_self m1 s p o;
          before = λ j a. write_data_ne m1 s p j o (ground arith) ∙ sh.kept j (inl (omega arith));
          behind = λ j a b.
              write_data_ne m1 s p j o (ground arith) ∙ sh.moved j (omega arith) (omega arith);
          bytes = λ x d. write_data-Kept m1 s p o (omega arith) x d ∙ sh.bytes x d;
        },
      )
