-- ===== src/TransactionPool/Ring/Find.antt =====
-- TxCBBucket::find (txcb_bucket.cpp) searches the whole ring.
use Prim.Native.Nat.{Ordering}
use miya_core.Base.{
  ℕ, zero, suc, ◌≤◌, ◌<◌, ◌≡◌, refl, sym, ◌≢◌, inl, inr, true, false, Option, none, some, List, [],
  ◌∷◌, arith, length, ==_of_ne, ==_self, Bool-cases,
}
use miya_core.Base.Bytes.{memcmp, memcmp-eq_iff, memcmp_self}
use miya_core.Base.Distinct.{Fresh, Distinct, In}
use miya_core.TransactionPool.{Store}
use miya_core.TransactionPool.Bucket.{Bucket, is_same, find_loop, find}
use miya_core.TransactionPool.Ring.{Chain, Ring, Unknown, Finds}

is_same-eq : (a b : List ℕ) → is_same a b ≡ true → a ≡ b
is_same-eq a b h = (memcmp-eq_iff a b).0 (go (memcmp a b) h)
  where
    go : (o : Ordering) → (elim o [ Ordering.eq ↦ true | _ ↦ false ]) ≡ true → o ≡ Ordering.eq
    go Ordering.lt h = ground arith
    go Ordering.eq h = refl
    go Ordering.gt h = ground arith

is_same-ne : (a b : List ℕ) → is_same a b ≡ false → a ≢ b
is_same-ne a b h e =
    let same : is_same a b ≡ true = rw (e, memcmp_self b, is_same) refl in ground arith

Finds-cons :
    (st : Store) (id : List ℕ) (x : ℕ) (ys : List ℕ) (r : Option ℕ)
    → (st x).tx_id ≢ id
    → Finds st id ys r
    → Finds st id (x ∷ ys) r
unfolding Finds Unknown In
Finds-cons st id x ys none ne u = (ne, u)
Finds-cons st id x ys (some p) ne (i, e) = (inr i, e)

find_loop-Finds :
    (fuel : ℕ) (st : Store) (h : ℕ) (id : List ℕ) (x : ℕ) (ys : List ℕ)
    → length ys < fuel
    → Chain st h x ys
    → Fresh h ys
    → (r : Option ℕ) × (find_loop fuel st h id x ≡ some r) × Finds st id (x ∷ ys) r
unfolding find_loop Chain Fresh Finds Unknown In
find_loop-Finds zero st h id x ys l c f = absurd (omega arith)
find_loop-Finds (suc fuel) st h id x ys l c f = elim (Bool-cases (is_same (st x).tx_id id)) [
  | inl e ↦ (some x, rw e refl, (inl refl, is_same-eq (st x).tx_id id e))
  | inr e ↦ further fuel st h id x ys e l c f (find_loop-Finds fuel st h id)
]
  where
    further :
        (fuel : ℕ) (st : Store) (h : ℕ) (id : List ℕ) (x : ℕ) (ys : List ℕ)
        → is_same (st x).tx_id id ≡ false
        → length ys < suc fuel
        → Chain st h x ys
        → Fresh h ys
        → ((y : ℕ) (zs : List ℕ)
            → length zs < fuel
            → Chain st h y zs
            → Fresh h zs
            → (r : Option ℕ) × (find_loop fuel st h id y ≡ some r) × Finds st id (y ∷ zs) r)
        → (r : Option ℕ) × (find_loop (suc fuel) st h id x ≡ some r) × Finds st id (x ∷ ys) r
    further fuel st h id x [] e l (p, n) f ih =
        (none, rw (e, p, ==_self h) refl, (is_same-ne (st x).tx_id id e, tt))
    further fuel st h id x (y ∷ ys) e l (p, n, c) (ne, f) ih =
        let (r, q, s) = ih y ys (omega arith) c f in
        (
          r,
          rw (e, p, ==_of_ne y h (λ w. ne (sym w)), q) refl,
          Finds-cons st id x (y ∷ ys) r (is_same-ne (st x).tx_id id e) s,
        )

pub find-Ring :
    (fuel : ℕ) (st : Store) (b : Bucket) (ps : List ℕ) (id : List ℕ)
    → length ps ≤ fuel
    → Ring st b ps
    → (r : Option ℕ) × (find fuel st b id ≡ some r) × Finds st id ps r
unfolding find Ring Finds Unknown Distinct
find-Ring fuel st b [] id l e = (none, rw e refl, tt)
find-Ring fuel st b (h ∷ bs) id l (e, c, (f, d)) =
    let (r, q, s) = find_loop-Finds fuel st h id h bs (omega arith) c f in (r, rw (e, q) refl, s)
