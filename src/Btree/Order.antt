-- ===== src/Btree/Order.antt =====
-- Search trees ordered by the first bytes of their keys: what the reference search finds in them.
use Prim.Native.Nat.{Ordering}
use miya_core.Base.{ℕ, ◌+◌, ◌≡◌, ◌⊎◌, List, [], ◌∷◌, take}
use miya_core.Base.Bytes.{memcmp}
use miya_core.Optr.{Optr}
use miya_core.Btree.Search.{Tree, leaf, inner, Branches, last, branch}

-- A place of a key, the node and the index, and which key is there.
abbrev pub Keys : Type 1
Keys = Optr × ℕ → List ℕ → Type 0

abbrev pub KeyAt : Optr → ℕ → List (List ℕ) → Keys
KeyAt s i [] p k = ⊥
KeyAt s i (x ∷ ks) p k = ((p ≡ (s, i)) × (x ≡ k)) ⊎ KeyAt s (i + 1) ks p k

unfoldable mutual
  pub Entry : Tree → Keys
  Entry (leaf s ks) p k = KeyAt s 0 ks p k
  Entry (inner s bs) p k = Entries s 0 bs p k

  pub Entries : Optr → ℕ → Branches → Keys
  Entries s i (last t) p k = Entry t p k
  Entries s i (branch t x bs) p k =
      Entry t p k ⊎ ((p ≡ (s, i)) × (x ≡ k)) ⊎ Entries s (i + 1) bs p k

-- The first bytes of a key are before those of another.
abbrev pub Before : ℕ → List ℕ → List ℕ → Type 0
Before size a b = memcmp (take size a) (take size b) ≡ Ordering.lt

abbrev pub AllBefore : ℕ → Keys → List ℕ → Type 0
AllBefore size e x = (p : Optr × ℕ) (k : List ℕ) → e p k → Before size k x

abbrev pub AllBehind : ℕ → List ℕ → Keys → Type 0
AllBehind size x e = (p : Optr × ℕ) (k : List ℕ) → e p k → Before size x k

abbrev pub Sorted : ℕ → Optr → ℕ → List (List ℕ) → Type 0
Sorted size s i [] = Unit
Sorted size s i (x ∷ ks) = AllBehind size x (KeyAt s (i + 1) ks) × Sorted size s (i + 1) ks

-- Each key is behind the keys of the child before it, and before all that follow it.
unfoldable mutual
  pub Ordered : ℕ → Tree → Type 0
  Ordered size (leaf s ks) = Sorted size s 0 ks
  Ordered size (inner s bs) = OrderedFrom size s 0 bs

  pub OrderedFrom : ℕ → Optr → ℕ → Branches → Type 0
  OrderedFrom size s i (last t) = Ordered size t
  OrderedFrom size s i (branch t x bs) =
      Ordered size t
      × AllBefore size (Entry t) x
      × AllBehind size x (Entries s (i + 1) bs)
      × OrderedFrom size s (i + 1) bs
