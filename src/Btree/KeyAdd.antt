-- ===== src/Btree/KeyAdd.antt =====
-- The key of a simple insertion stored and sorted, o_node.cpp, and its place among the keys.
use miya_core.Base.{
  ℕ, suc, ◌+◌, ◌*◌, ◌^◌, ◌%◌, ◌<◌, ◌≤◌, ◌≡◌, ◌∙◌, sym, ap, ◌⊎◌, inl, inr, some, List, [], ◌∷◌, ◌++◌,
  arith, length, get_elem?,
}
use miya_core.Optr.{Optr}
use miya_core.Optr.Laws.{address}
use miya_core.Memory.{Bytes, update}
use miya_core.Memory.Laws.{read_congr, read_congr, write, write_outside}
use miya_core.Btree.ItemSet.{sort_key, key_count}
use miya_core.Btree.Insert.{key_inserted_index}
use miya_core.Btree.Layout.{IsNode, chain, key_count-node}
use miya_core.Btree.Search.{HasKeys}
use miya_core.Btree.Sorted.{key_at, read-write_self}
use miya_core.Btree.Sorting.{insert_key}
use miya_core.Btree.Simple.{
  Ascending, Absent, length-insert_key, insert_key-In, find_key-In, sort_key-insert,
}

-- The keys with one behind them.
HasKeys-append :
    (m : Bytes) (s : Optr) (i : ℕ) (ks : List (List ℕ)) (k : List ℕ)
    → HasKeys m s i ks
    → key_at m s (i + length ks) ≡ k
    → HasKeys m s i (ks ++ k ∷ [])
HasKeys-append m s i [] k h e = let z : i + 0 ≡ i = omega arith in (ap (key_at m s) (sym z) ∙ e, tt)
HasKeys-append m s i (x ∷ ks) k (q, h) e =
    let z : i + 1 + length ks ≡ i + suc (length ks) = omega arith in
    (q, HasKeys-append m s (i + 1) ks k h (ap (key_at m s) z ∙ e))

HasKeys-keep :
    (m m' : Bytes) (s : Optr) (i : ℕ) (ks : List (List ℕ))
    → ((x : ℕ) → address s + 6 ≤ x → x < address s + 6 + (i + length ks) * 20 → m' x ≡ m x)
    → HasKeys m s i ks
    → HasKeys m' s i ks
HasKeys-keep m m' s i [] h k = tt
HasKeys-keep m m' s i (x ∷ ks) h (e, k) = (
  read_congr m' m (address s + 6 + i * 20) 20 (λ b a c. h b (omega arith) (omega arith)) ∙ e,
  HasKeys-keep m m' s (i + 1) ks (λ b a c. h b a (omega arith)) k,
)

pub update_self : (m : Bytes) (a v : ℕ) → update m a v a ≡ v
update_self m a v = ground arith

pub update_apart : (m : Bytes) (a v x : ℕ) → (x < a) ⊎ (a + 1 ≤ x) → update m a v x ≡ m x
update_apart m a v x h = ground arith

pub write_apart :
    (m : Bytes) (a b : ℕ) (bs : List ℕ) (k x : ℕ)
    → length bs ≡ k
    → a + k ≤ b
    → (x < a) ⊎ (b ≤ x)
    → write m a bs x ≡ m x
write_apart m a b bs k x e l h = write_outside m a bs x (ground arith)

-- The keys of a leaf with one added and sorted into its place, the rest as it was.
pub record KeysAdded (m : Bytes) (s : Optr) (ks : List (List ℕ)) (target : List ℕ) (m' : Bytes)
    : Type 0 where
  pub keys : HasKeys m' s 0 (insert_key target ks)
  pub key_count : m' (address s + 5) ≡ suc (length ks)
  pub outside : (x : ℕ) → (x < address s + 5) ⊎ (address s + 66 ≤ x) → m' x ≡ m x

module _ (m : Bytes) (s : Optr) (v : IsNode s) (ks : List (List ℕ)) (target : List ℕ) where
  -- The key stored behind the others, the count raised, and the keys sorted.
  pub sort_key-KeysAdded :
      (m1 m2 : Bytes)
      → m1 ≡ write m (address s + 6 + length ks * 20) target
      → m2 ≡ update m1 (address s + 5) ((length ks + 1) % 2 ^ 8)
      → length ks ≤ 2
      → length target ≡ 20
      → HasKeys m s 0 ks
      → Ascending ks
      → Absent target ks
      → (m3 : Bytes) × (sort_key s m2 ≡ some (tt, m3)) × KeysAdded m s ks target m3
  sort_key-KeysAdded m1 m2 e1 e2 l t h a b =
      let i = length ks in
      let z0 : 0 + i ≡ i = omega arith in
      let c256 : (i + 1) % 2 ^ 8 ≡ suc i = omega arith in
      let o1 : (x : ℕ) → (x < address s + 6 + i * 20) ⊎ (address s + 66 ≤ x) → m1 x ≡ m x = λ x o.
        ap (λ f. f x) e1
        ∙ write_apart m (address s + 6 + i * 20) (address s + 66) target 20 x t (omega arith) o in
      let o2 : (x : ℕ) → (x < address s + 5) ⊎ (address s + 5 + 1 ≤ x) → m2 x ≡ m1 x =
        λ x o. ap (λ f. f x) e2 ∙ update_apart m1 (address s + 5) ((i + 1) % 2 ^ 8) x o in
      let n2 : m2 (address s + 5) ≡ suc i =
        ap (λ f. f (address s + 5)) e2 ∙ update_self m1 (address s + 5) ((i + 1) % 2 ^ 8) ∙ c256 in
      let stored : key_at m1 s i ≡ target =
        ap (λ f. key_at f s i) e1 ∙ read-write_self m (address s + 6 + i * 20) 20 target t in
      let h2 : HasKeys m2 s 0 (ks ++ target ∷ []) =
        HasKeys-append m2 s 0 ks target
          (HasKeys-keep m m2 s 0 ks (λ x f g. o2 x (inr (omega arith)) ∙ o1 x (inl (omega arith)))
            h)
          (ap (key_at m2 s) z0
            ∙ read_congr m2 m1 (address s + 6 + i * 20) 20 (λ x f g. o2 x (inr (omega arith)))
            ∙ stored) in
      let (m3, r3, h3, k3) = sort_key-insert m2 s v ks target l n2 h2 a b in
      (
        m3,
        r3,
        record {
          keys = h3;
          key_count = k3 (address s + 5) (inl (omega arith)) ∙ n2;
          outside = λ x f. elim f [
            | inl y ↦ k3 x (inl (omega arith)) ∙ o2 x (inl y) ∙ o1 x (inl (omega arith))
            | inr y ↦ k3 x (inr y) ∙ o2 x (inr (omega arith)) ∙ o1 x (inr y)
          ];
        },
      )

  -- The place of the added key among the sorted ones.
  pub key_inserted_index-In :
      (m3 : Bytes)
      → KeysAdded m s ks target m3
      → length ks ≤ 2
      → (p : ℕ) × (p ≤ length ks)
        × (key_inserted_index s target m3 ≡ some (p, m3))
        × (get_elem? (insert_key target ks) p ≡ some target)
  unfolding key_inserted_index
  key_inserted_index-In m3 k l =
      let w = length-insert_key target ks in
      let (p, r, pl, g) =
        find_key-In m3 s v target 0 (insert_key target ks) (omega arith) (omega arith) k.keys
          (insert_key-In target ks) in
      let z : 0 + p ≡ p = omega arith in
      let kc : key_count s m3 ≡ some (length (insert_key target ks), m3) =
        key_count-node m3 s v ∙ ap (λ x. some (x, m3)) (k.key_count ∙ sym w) in
      (p, omega arith, chain _ kc (chain _ r (ap (λ j. some (j, m3)) z)), g)
