-- ===== src/Btree/Layout.antt =====
-- The commands on item sets below 2 ^ 24, as reads and writes of ranges of the file.
use miya_core.Base.{
  ℕ, ◌+◌, ◌%◌, ◌^◌, ◌≤◌, ◌<◌, ◌≡◌, refl, some, List, arith, length, Option, subst, sym,
}
use miya_core.Optr.{Optr}
use miya_core.Optr.Laws.{IsOptr, IsNear, address}
use miya_core.Memory.{Bytes, update}
use miya_core.Memory.Laws.{
  read, write, optr_add-below, value-address, set_value-address, copy_out-read, copy_in-write,
}
use miya_core.Allocator.Command.{M, and_then, at, load, store}
use miya_core.Btree.ItemSet.{key_count, set_key_count, value_at, set_value_at}
use miya_core.Btree.Links.{
  child_optr_count, set_child_optr_count, data_optr_count, set_data_optr_count,
}

-- The item set lies in what pointers reach.
pub record IsNode (s : Optr) : Type 0 where
  pub optr : IsOptr s
  pub near : address s + 103 ≤ 2 ^ 24

-- A chain of commands whose first has a result.
pub chain :
    {A B : Type 0} {a : A} {m : Bytes} {r : Option (A × Bytes)} {x : Option (B × Bytes)}
    (f : A → M B)
    → r ≡ some (a, m)
    → f a m ≡ x
    → and_then r f ≡ x
chain {x = x} f e h = subst (λ q. and_then q f ≡ x) (sym e) h

pub reach :
    (s : Optr) (n : ℕ)
    → IsNode s
    → n < 103
    → (p : Optr) × ((m : Bytes) → at s n m ≡ some (p, m)) × IsNear p × (address p ≡ address s + n)
reach s n v h =
    let (p, e, w, q) =
      optr_add-below s n (record { optr = v.optr; near = omega (arith, v.near) })
        (omega (arith, v.near)) in
    (p, λ m. rw (at, e) refl, record { optr = w; near = omega (arith, v.near) }, q)

pub load-read :
    (m : Bytes) (p : Optr) (n : ℕ)
    → IsNear p
    → n ≤ 2 ^ 24
    → load p n m ≡ some (read m (address p) n, m)
load-read m p n v h =
    let z : address p + 0 ≡ address p = omega arith in
    rw (copy_out-read m p 0 n v (omega (arith, v.near)), z, load) refl

pub store-write :
    (m : Bytes) (p : Optr) (bs : List ℕ)
    → IsNear p
    → length bs ≤ 2 ^ 24
    → store p bs m ≡ some (tt, write m (address p) bs)
store-write m p bs v h =
    let z : address p + 0 ≡ address p = omega arith in
    rw (copy_in-write m p 0 bs v (omega (arith, v.near)), z, store) refl

module _ (m : Bytes) (s : Optr) (v : IsNode s) where
  value_at-node : (n : ℕ) → n < 103 → value_at s n m ≡ some (m (address s + n), m)
  value_at-node n h =
      let (p, e, w, q) = reach s n v h in
      chain _ (e m) (rw (value-address m p w.optr (omega (arith, w.near)), q) refl)

  set_value_at-node :
      (n x : ℕ) → n < 103 → set_value_at s n x m ≡ some (tt, update m (address s + n) (x % 2 ^ 8))
  set_value_at-node n x h =
      let (p, e, w, q) = reach s n v h in
      chain _ (e m) (rw (set_value-address m p (x % 2 ^ 8) w.optr (omega (arith, w.near)), q) refl)

  pub key_count-node : key_count s m ≡ some (m (address s + 5), m)
  unfolding key_count
  key_count-node = value_at-node 5 (omega arith)

  pub set_key_count-node :
      (x : ℕ) → set_key_count s x m ≡ some (tt, update m (address s + 5) (x % 2 ^ 8))
  unfolding set_key_count
  set_key_count-node x = set_value_at-node 5 x (omega arith)

  pub child_optr_count-node : child_optr_count s m ≡ some (m (address s + 66), m)
  unfolding child_optr_count
  child_optr_count-node = value_at-node 66 (omega arith)

  pub set_child_optr_count-node :
      (x : ℕ) → set_child_optr_count s x m ≡ some (tt, update m (address s + 66) (x % 2 ^ 8))
  unfolding set_child_optr_count
  set_child_optr_count-node x = set_value_at-node 66 x (omega arith)

  pub data_optr_count-node : data_optr_count s m ≡ some (m (address s + 87), m)
  unfolding data_optr_count
  data_optr_count-node = value_at-node 87 (omega arith)

  pub set_data_optr_count-node :
      (x : ℕ) → set_data_optr_count s x m ≡ some (tt, update m (address s + 87) (x % 2 ^ 8))
  unfolding set_data_optr_count
  set_data_optr_count-node x = set_value_at-node 87 x (omega arith)
