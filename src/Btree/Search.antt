-- ===== src/Btree/Search.antt =====
-- A tree of nodes as the file holds it, and the search that descends it by the first bytes of the
-- keys: the reference that the searches of ONode are compared with.
use Prim.Native.Nat.{Ordering, max}
use miya_core.Base.{
  refl, ℕ, suc, ◌+◌, ◌*◌, ◌≤◌, ◌≡◌, Option, none, some, List, [], ◌∷◌, length, take,
}
use miya_core.Base.Bytes.{memcmp}
use miya_core.Optr.{Optr}
use miya_core.Optr.Laws.{address}
use miya_core.Memory.{Bytes}
use miya_core.Memory.Laws.{read}
use miya_core.Btree.Layout.{IsNode}
use miya_core.Btree.Slots.{optr_at}

-- A leaf has keys; an inner node has a child before each key and one behind them.
mutual
  pub data Tree : Type 0 where
    leaf : Optr → List (List ℕ) → Tree
    inner : Optr → Branches → Tree

  pub data Branches : Type 0 where
    last : Tree → Branches
    branch : Tree → List ℕ → Branches → Branches

abbrev pub optr_of : Tree → Optr
optr_of (leaf o ks) = o
optr_of (inner o bs) = o

abbrev pub keys_of : Branches → List (List ℕ)
keys_of (last t) = []
keys_of (branch t k bs) = k ∷ keys_of bs

-- The keys from index i on, and the children from index i on, are these.
abbrev pub HasKeys : Bytes → Optr → ℕ → List (List ℕ) → Type 0
HasKeys m s i [] = Unit
HasKeys m s i (k ∷ ks) = (read m (address s + 6 + i * 20) 20 ≡ k) × HasKeys m s (i + 1) ks

abbrev pub HasChildren : Bytes → Optr → ℕ → Branches → Type 0
HasChildren m s i (last t) = optr_at m (address s + 67 + i * 5) ≡ optr_of t
HasChildren m s i (branch t k bs) =
    (optr_at m (address s + 67 + i * 5) ≡ optr_of t) × HasChildren m s (i + 1) bs

-- The file holds the tree, each node with its counts and at most three keys.
unfoldable mutual
  pub Holds : Bytes → Tree → Type 0
  Holds m (leaf s ks) =
      IsNode s
      × (m (address s + 5) ≡ length ks)
      × (length ks ≤ 3)
      × (m (address s + 66) ≡ 0)
      × (m (address s + 87) ≡ length ks)
      × HasKeys m s 0 ks
  Holds m (inner s bs) =
      IsNode s
      × (m (address s + 5) ≡ length (keys_of bs))
      × (length (keys_of bs) ≤ 3)
      × (m (address s + 66) ≡ suc (length (keys_of bs)))
      × (m (address s + 87) ≡ length (keys_of bs))
      × HasKeys m s 0 (keys_of bs)
      × HasChildren m s 0 bs
      × AllHold m bs

  pub AllHold : Bytes → Branches → Type 0
  AllHold m (last t) = Holds m t
  AllHold m (branch t k bs) = Holds m t × AllHold m bs

abbrev mutual
  pub height : Tree → ℕ
  height (leaf s ks) = 1
  height (inner s bs) = suc (heights bs)

  pub heights : Branches → ℕ
  heights (last t) = height t
  heights (branch t k bs) = max (height t) (heights bs)

-- The node and the index of a key that starts as the target does.
abbrev pub scan : ℕ → Optr → List ℕ → ℕ → List (List ℕ) → Option (Optr × ℕ)
scan size s target i [] = none
scan size s target i (k ∷ ks) = elim (memcmp (take size target) (take size k)) [
  | Ordering.lt ↦ none
  | Ordering.eq ↦ some (s, i)
  | Ordering.gt ↦ scan size s target (i + 1) ks
]

unfoldable mutual
  pub search : ℕ → Tree → List ℕ → Option (Optr × ℕ)
  search size (leaf s ks) target = scan size s target 0 ks
  search size (inner s bs) target = search_in size s 0 bs target

  pub search_in : ℕ → Optr → ℕ → Branches → List ℕ → Option (Optr × ℕ)
  search_in size s i (last t) target = search size t target
  search_in size s i (branch t k bs) target = elim (memcmp (take size target) (take size k)) [
    | Ordering.lt ↦ search size t target
    | Ordering.eq ↦ some (s, i)
    | Ordering.gt ↦ search_in size s (i + 1) bs target
  ]

module _ (size : ℕ) (s : Optr) (i : ℕ) (t : Tree) (target : List ℕ) where
  pub search_in-last : search_in size s i (last t) target ≡ search size t target
  unfolding search
  search_in-last = refl

  pub search_in-branch :
      (k : List ℕ) (bs : Branches)
      → search_in size s i (branch t k bs) target ≡ elim (memcmp (take size target) (take size k)) [
        | Ordering.lt ↦ search size t target
        | Ordering.eq ↦ some (s, i)
        | Ordering.gt ↦ search_in size s (i + 1) bs target
      ]
  unfolding search
  search_in-branch k bs = refl

module _ (size : ℕ) (s : Optr) where
  pub search-leaf :
      (ks : List (List ℕ)) (target : List ℕ)
      → search size (leaf s ks) target ≡ scan size s target 0 ks
  unfolding search
  search-leaf ks target = refl

  pub search-inner :
      (bs : Branches) (target : List ℕ)
      → search size (inner s bs) target ≡ search_in size s 0 bs target
  unfolding search
  search-inner bs target = refl
