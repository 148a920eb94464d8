-- ===== src/Allocator/Access.antt =====
-- The commands of Block and Meta on a file that holds words: which word each reads or writes.
use Prim.Native.Nat.{Ordering}
use miya_core.Base.{
  ℕ, ◌+◌, ◌*◌, ◌^◌, ◌<◌, ◌≡◌, refl, ◌≢◌, inl, inr, ◌∙◌, ap, Bool, true, false, Option, none, some,
  arith, ◌==◌, Bool-cases,
}
use miya_core.Base.Bytes.{memcmp, memcmp-eq_iff, memcmp_self}
use miya_core.Optr.{Optr, set_addr, caddr, optr_add}
use miya_core.Optr.Laws.{IsOptr, address, address_injective, set_addr-IsOptr, address-set_addr}
use miya_core.Memory.{Bytes, copy_out, ocmp_raw}
use miya_core.Memory.Laws.{read, copy_out-read, copy_in-write, optr_add-below}
use miya_core.Memory.Compare.{ocmp_raw-memcmp}
use miya_core.Allocator.Command.{M, and_then, at, load, store}
use miya_core.Allocator.Block.{zero_addr, load_optr, is_zero}
use miya_core.Allocator.Words.{
  Words, put, ptr, ptr-IsNear, Reached, Rep, word_of, length-caddr, read-caddr, write-Rep,
  ptr-address,
}

-- A command returns a value, and leaves a file that holds these words.
pub data Returns {A : Type 0} (a : A) (w : Words) : Option (A × Bytes) → Type 0 where
  returns : {m : Bytes} → Rep m w → Returns a w (some (a, m))

pub bind :
    {A B : Type 0} {a : A} {w : Words} {b : B} {w' : Words} {r : Option (A × Bytes)} (f : A → M B)
    → Returns a w r
    → ((m : Bytes) → Rep m w → Returns b w' (f a m))
    → Returns b w' (and_then r f)
bind f (returns rep) k = k _ rep

zero-equal : memcmp (caddr (set_addr 0)) zero_addr ≡ Ordering.eq
unfolding caddr set_addr
zero-equal = memcmp_self zero_addr

abbrev answer : Bytes → Option Ordering → Option (Bool × Bytes)
answer m none = none
answer m (some Ordering.eq) = some (true, m)
answer m (some c) = some (false, m)

answer-ne :
    {m : Bytes} {w : Words}
    → Rep m w
    → (c : Ordering) → c ≢ Ordering.eq
    → Returns false w (answer m (some c))
answer-ne r Ordering.lt ne = returns r
answer-ne r Ordering.eq ne = absurd (ne refl)
answer-ne r Ordering.gt ne = returns r

module _ {m : Bytes} {w : Words} (r : Rep m w) where
  moved : (j n k : ℕ) → n ≡ 5 * k → Reached (j + k) → optr_add (ptr j) n ≡ some (ptr (j + k))
  moved j n k e h =
      let b : address (ptr j) ≡ 5 * j = ptr-address j (omega arith) in
      let (p, e', v, q) = optr_add-below (ptr j) n (ptr-IsNear j (omega arith)) (omega arith) in
      e'
      ∙ ap some (
          address_injective p (ptr (j + k)) v (set_addr-IsOptr _)
            (omega (arith, ptr-address (j + k) h)))

  pub at-ptr : (j n k : ℕ) → n ≡ 5 * k → Reached (j + k) → Returns (ptr (j + k)) w (at (ptr j) n m)
  at-ptr j n k e h = rw (moved j n k e h, at) (returns r)

  start : (k : ℕ) → Reached k → address (ptr k) + 0 ≡ 5 * k
  start k h = omega (arith, ptr-address k h)

  copied : (k : ℕ) → Reached k → copy_out m (ptr k) 0 5 ≡ some (caddr (set_addr (w k)))
  copied k h =
      copy_out-read m (ptr k) 0 5 (ptr-IsNear k h) (omega (arith, ptr-address k h))
      ∙ rw (start k h) (ap some (read-caddr m w k r h))

  pub load-word : (k : ℕ) → Reached k → Returns (set_addr (w k)) w (load_optr (ptr k) m)
  unfolding caddr
  load-word k h = rw (copied k h, load_optr, load) (returns r)

  pub store-word :
      (k : ℕ) (o : Optr)
      → IsOptr o
      → Reached k
      → Returns tt (put w k (address o)) (store (ptr k) (caddr o) m)
  store-word k o v h =
      rw
        (
          copy_in-write m (ptr k) 0 (caddr o) (ptr-IsNear k h)
              (rw (length-caddr o) (omega (arith, ptr-address k h))),
          start k h,
          store,
        )
        (returns (write-Rep m w k o r v))

  zero-word :
      (k : ℕ)
      → Reached k
      → ocmp_raw m (ptr k) 0 zero_addr ≡ some (memcmp (caddr (set_addr (w k))) zero_addr)
  zero-word k h =
      ocmp_raw-memcmp m (ptr k) 0 zero_addr (ptr-IsNear k h) (omega (arith, ptr-address k h))
      ∙ rw (start k h) (ap (λ bs. some (memcmp bs zero_addr)) (read-caddr m w k r h))

  below : (k : ℕ) → Reached k → w k < 2 ^ 40
  unfolding read
  below k h = omega (
    arith,
    r.words k h,
    r.bytes (5 * k),
    r.bytes (5 * k + 1),
    r.bytes (5 * k + 1 + 1),
    r.bytes (5 * k + 1 + 1 + 1),
    r.bytes (5 * k + 1 + 1 + 1 + 1),
  )

  ne-zero : (k : ℕ) → Reached k → w k ≢ 0 → memcmp (caddr (set_addr (w k))) zero_addr ≢ Ordering.eq
  unfolding caddr
  ne-zero k h ne e = ne (
      omega (
        arith,
        below k h,
        address-set_addr (w k),
        ap word_of ((memcmp-eq_iff (caddr (set_addr (w k))) zero_addr).0 e),
      ))

  pub is_zero-word : (k : ℕ) → Reached k → Returns (w k == 0) w (is_zero (ptr k) m)
  is_zero-word k h = elim (Bool-cases (w k == 0)) [
    | inl e ↦
        let z : w k ≡ 0 = ground arith in rw (zero-word k h, is_zero, z, zero-equal) (returns r)
    | inr e ↦ rw (zero-word k h, is_zero, e) (answer-ne r _ (ne-zero k h (ground arith)))
  ]
