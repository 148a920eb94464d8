-- ===== src/Btree/Slots.antt =====
-- The keys, children and data pointers of an item set below 2 ^ 24, as ranges of the file.
use miya_core.Base.{
  ℕ, ◌+◌, ◌*◌, ◌≤◌, ◌<◌, ◌≡◌, refl, none, some, List, arith, length, ltb_of_le, leb_of_le,
  leb_of_lt,
}
use miya_core.Optr.{Optr, caddr}
use miya_core.Optr.Laws.{IsNear, address}
use miya_core.Memory.{Bytes}
use miya_core.Memory.Laws.{read, write}
use miya_core.Allocator.Command.{store}
use miya_core.Allocator.Block.{load_optr}
use miya_core.Allocator.Words.{length-caddr}
use miya_core.Btree.ItemSet.{key, raw_key, set_key}
use miya_core.Btree.Links.{child_optr, set_child_optr, data_optr, set_data_optr}
use miya_core.Btree.Layout.{
  IsNode, chain, reach, load-read, store-write, key_count-node, child_optr_count-node,
  data_optr_count-node,
}

-- The pointer whose bytes stand at an offset.
abbrev pub optr_at : Bytes → ℕ → Optr
optr_at m a = record { b0 = m a; b1 = m (a + 1); b2 = m (a + 2); b3 = m (a + 3); b4 = m (a + 4) }

module _ (m : Bytes) (p : Optr) (w : IsNear p) where
  pub load_optr-near : load_optr p m ≡ some (optr_at m (address p), m)
  unfolding read
  load_optr-near =
      let a2 : address p + 1 + 1 ≡ address p + 2 = omega arith in
      let a3 : address p + 1 + 1 + 1 ≡ address p + 3 = omega arith in
      let a4 : address p + 1 + 1 + 1 + 1 ≡ address p + 4 = omega arith in
      chain _ (load-read m p 5 w (omega arith)) (rw (a4, a3, a2) refl)

  pub store-caddr : (o : Optr) → store p (caddr o) m ≡ some (tt, write m (address p) (caddr o))
  store-caddr o = store-write m p (caddr o) w (omega (arith, length-caddr o))

module _ (m : Bytes) (s : Optr) (v : IsNode s) where
  pub key-node :
      (i : ℕ)
      → i < 4
      → i ≤ m (address s + 5)
      → (p : Optr) × (key s i m ≡ some (some p, m))
        × IsNear p
        × (address p ≡ address s + 6 + i * 20)
  unfolding key
  key-node i h l =
      let (p, e, w, q) = reach s (6 + i * 20) v (omega arith) in
      (
        p,
        chain _ (key_count-node m s v)
            (rw (ltb_of_le (m (address s + 5)) i l) (chain _ (e m) refl)),
        w,
        omega arith,
      )

  pub raw_key-node :
      (i : ℕ)
      → i < 4
      → i ≤ m (address s + 5)
      → raw_key s i m ≡ some (some (read m (address s + 6 + i * 20) 20), m)
  unfolding raw_key
  raw_key-node i h l =
      let (p, e, w, q) = key-node i h l in
      chain _ e (chain _ (load-read m p 20 w (omega arith)) (rw q refl))

  pub set_key-node :
      (i : ℕ) (k : List ℕ)
      → i < 4
      → length k ≡ 20
      → set_key s i (some k) m ≡ some (tt, write m (address s + 6 + i * 20) k)
  unfolding set_key
  set_key-node i k h l =
      let (p, e, w, q) = reach s (6 + i * 20) v (omega arith) in
      let a : address p ≡ address s + 6 + i * 20 = omega arith in
      rw (ltb_of_le 3 i (omega arith))
        (chain _ (e m) (rw (store-write m p k w (omega arith), a) refl))

  pub child_optr-node :
      (i : ℕ)
      → i < 4
      → i < m (address s + 66)
      → child_optr s i m ≡ some (some (optr_at m (address s + 67 + i * 5)), m)
  unfolding child_optr
  child_optr-node i h l =
      let (p, e, w, q) = reach s (67 + i * 5) v (omega arith) in
      let a : address p ≡ address s + 67 + i * 5 = omega arith in
      chain _ (child_optr_count-node m s v) (
        rw (leb_of_lt (m (address s + 66)) i l)
          (chain _ (e m) (chain _ (load_optr-near m p w) (rw a refl))))

  pub child_optr-null : (i : ℕ) → m (address s + 66) ≤ i → child_optr s i m ≡ some (none, m)
  unfolding child_optr
  child_optr-null i l =
      chain _ (child_optr_count-node m s v) (rw (leb_of_le (m (address s + 66)) i l) refl)

  pub set_child_optr-node :
      (i : ℕ) (o : Optr)
      → i < 4
      → set_child_optr s i (some o) m ≡ some (tt, write m (address s + 67 + i * 5) (caddr o))
  unfolding set_child_optr
  set_child_optr-node i o h =
      let (p, e, w, q) = reach s (67 + i * 5) v (omega arith) in
      let a : address p ≡ address s + 67 + i * 5 = omega arith in
      rw (ltb_of_le 4 i (omega arith)) (chain _ (e m) (rw (store-caddr m p w o, a) refl))

  pub data_optr-node :
      (i : ℕ)
      → i < 3
      → i ≤ m (address s + 87)
      → data_optr s i m ≡ some (some (optr_at m (address s + 88 + i * 5)), m)
  unfolding data_optr
  data_optr-node i h l =
      let (p, e, w, q) = reach s (88 + i * 5) v (omega arith) in
      let a : address p ≡ address s + 88 + i * 5 = omega arith in
      chain _ (data_optr_count-node m s v) (
        rw (ltb_of_le (m (address s + 87)) i l)
          (chain _ (e m) (chain _ (load_optr-near m p w) (rw a refl))))

  pub set_data_optr-node :
      (i : ℕ) (o : Optr)
      → i < 3
      → set_data_optr s i (some o) m ≡ some (tt, write m (address s + 88 + i * 5) (caddr o))
  unfolding set_data_optr
  set_data_optr-node i o h =
      let (p, e, w, q) = reach s (88 + i * 5) v (omega arith) in
      let a : address p ≡ address s + 88 + i * 5 = omega arith in
      chain _ (e m) (rw (store-caddr m p w o, a) refl)
