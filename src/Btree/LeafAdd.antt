-- ===== src/Btree/LeafAdd.antt =====
-- The simple insertion of ONode::recursiveAdd, o_node.cpp, as an insertion into lists.
use miya_core.Base.{
  ℕ, suc, ◌+◌, ◌-◌, ◌*◌, ◌^◌, ◌%◌, ◌<◌, ◌≤◌, ◌≡◌, refl, ◌∙◌, ap, ◌⊎◌, inl, inr, none, some, List,
  arith, length, get_elem?,
}
use miya_core.Optr.{Optr}
use miya_core.Optr.Laws.{address}
use miya_core.Memory.{Bytes, update}
use miya_core.Memory.Laws.{write}
use miya_core.Btree.ItemSet.{key_count}
use miya_core.Btree.Links.{data_optr_count}
use miya_core.Btree.Insert.{simple_add}
use miya_core.Btree.Layout.{
  IsNode, chain, key_count-node, set_key_count-node, data_optr_count-node, set_data_optr_count-node,
}
use miya_core.Btree.Slots.{set_key-node}
use miya_core.Btree.Search.{HasKeys}
use miya_core.Btree.Sorting.{insert_key}
use miya_core.Btree.Shifting.{data_at, optr_at-congr, Placed, move_insert_data_optr-Placed}
use miya_core.Btree.Simple.{Ascending, Absent, length-insert_key, HasKeys-congr}
use miya_core.Btree.KeyAdd.{
  update_self, update_apart, write_apart, sort_key-KeysAdded, key_inserted_index-In,
}

-- A leaf with a key put in its place among its keys, the data pointer at the same place, and the
-- rest of the file, the children among it, as it was.
pub record Added (m : Bytes) (s : Optr) (ks : List (List ℕ)) (target : List ℕ) (d : Optr) (p : ℕ)
    (m' : Bytes) : Type 0 where
  pub keys : HasKeys m' s 0 (insert_key target ks)
  pub key_count : m' (address s + 5) ≡ suc (length ks)
  pub data_count : m' (address s + 87) ≡ suc (length ks)
  pub place : get_elem? (insert_key target ks) p ≡ some target
  pub data_optr : data_at m' s p ≡ d
  pub before : (j : ℕ) → j < p → data_at m' s j ≡ data_at m s j
  pub behind : (j : ℕ) → p < j → j ≤ length ks → data_at m' s j ≡ data_at m s (j - 1)
  pub outside :
      (x : ℕ)
      → (x < address s + 5) ⊎ ((address s + 66 ≤ x) × (x < address s + 87)) ⊎ (address s + 103 ≤ x)
      → m' x ≡ m x

-- The stages of the insertion: the keys sorted, the data pointer placed, its count stored.
Added-stages :
    (m m3 m4 m5 : Bytes) (s : Optr) (v : IsNode s) (ks : List (List ℕ)) (target : List ℕ) (d : Optr)
    (p : ℕ)
    → length ks ≤ 2
    → p ≤ length ks
    → HasKeys m3 s 0 (insert_key target ks)
    → m3 (address s + 5) ≡ suc (length ks)
    → ((x : ℕ) → (x < address s + 5) ⊎ (address s + 66 ≤ x) → m3 x ≡ m x)
    → Placed s v m3 p (length ks) d m4
    → ((x : ℕ) → (x < address s + 87) ⊎ (address s + 87 + 1 ≤ x) → m5 x ≡ m4 x)
    → m5 (address s + 87) ≡ suc (length ks)
    → get_elem? (insert_key target ks) p ≡ some target
    → Added m s ks target d p m5
Added-stages m m3 m4 m5 s v ks target d p l lp h n e q o c g =
    let last : (j : ℕ) → data_at m5 s j ≡ data_at m4 s j =
      λ j. optr_at-congr m4 m5 (address s + 88 + j * 5) (λ x f r. o x (inr (omega arith))) in
    let first : (j : ℕ) → data_at m3 s j ≡ data_at m s j =
      λ j. optr_at-congr m m3 (address s + 88 + j * 5) (λ x f r. e x (inr (omega arith))) in
    record {
      keys =
          HasKeys-congr m3 m5 s 0 (insert_key target ks)
            (omega (arith, length-insert_key target ks))
            (λ x f r. o x (inl (omega arith)) ∙ q.bytes x (inl (omega arith))) h;
      key_count =
          o (address s + 5) (inl (omega arith)) ∙ q.bytes (address s + 5) (inl (omega arith)) ∙ n;
      data_count = c;
      place = g;
      data_optr = last p ∙ q.placed;
      before = λ j f. last j ∙ q.before j f ∙ first j;
      behind = λ j f r. last j ∙ q.behind j f r ∙ first (j - 1);
      outside = λ x f. elim f [
        | inl y ↦ o x (inl (omega arith)) ∙ q.bytes x (inl (omega arith)) ∙ e x (inl y)
        | inr (inl (y, z)) ↦ o x (inl z) ∙ q.bytes x (inl (omega arith)) ∙ e x (inr y)
        | inr (inr y) ↦ o x (inr (omega arith)) ∙ q.bytes x (inr y) ∙ e x (inr (omega arith))
      ];
    }

module _ (m : Bytes) (s : Optr) (v : IsNode s) (ks : List (List ℕ)) (target : List ℕ)
    (d : Optr) where
  -- Adding a key that a leaf with fewer than three keys in order does not have.
  pub simple_add-Added :
      length ks ≤ 2
      → length target ≡ 20
      → m (address s + 5) ≡ length ks
      → m (address s + 87) ≡ length ks
      → HasKeys m s 0 ks
      → Ascending ks
      → Absent target ks
      → (p : ℕ) × (m' : Bytes) × (simple_add s target (some d) none m ≡ some (tt, m'))
        × Added m s ks target d p m'
  unfolding simple_add
  simple_add-Added l t n c h a b =
      let i = length ks in
      let c256 : (i + 1) % 2 ^ 8 ≡ suc i = omega arith in
      let m1 = write m (address s + 6 + i * 20) target in
      let n1 : m1 (address s + 5) ≡ i =
        write_apart m (address s + 6 + i * 20) (address s + 66) target 20 (address s + 5) t
          (omega arith) (inl (omega arith))
        ∙ n in
      let m2 = update m1 (address s + 5) ((i + 1) % 2 ^ 8) in
      let (m3, r3, k3) = sort_key-KeysAdded m s v ks target m1 m2 refl refl l t h a b in
      let (p, pl, place, g) = key_inserted_index-In m s v ks target m3 k3 l in
      let c3 : m3 (address s + 87) ≡ i = k3.outside (address s + 87) (inr (omega arith)) ∙ c in
      let (m4, r4, q) = move_insert_data_optr-Placed s v m3 p i d pl (omega arith) c3 in
      let n4 : m4 (address s + 87) ≡ i = q.bytes (address s + 87) (inl (omega arith)) ∙ c3 in
      let m5 = update m4 (address s + 87) ((i + 1) % 2 ^ 8) in
      let o5 : (x : ℕ) → (x < address s + 87) ⊎ (address s + 87 + 1 ≤ x) → m5 x ≡ m4 x =
        update_apart m4 (address s + 87) ((i + 1) % 2 ^ 8) in
      let c5 : m5 (address s + 87) ≡ suc i =
        update_self m4 (address s + 87) ((i + 1) % 2 ^ 8) ∙ c256 in
      let kc : key_count s m ≡ some (i, m) = key_count-node m s v ∙ ap (λ x. some (x, m)) n in
      let kc1 : key_count s m1 ≡ some (i, m1) = key_count-node m1 s v ∙ ap (λ x. some (x, m1)) n1 in
      let dc : data_optr_count s m4 ≡ some (i, m4) =
        data_optr_count-node m4 s v ∙ ap (λ x. some (x, m4)) n4 in
      (
        p,
        m5,
        chain _ kc (
            chain _ (set_key-node m s v i target (omega arith) t) (
              chain _ kc1 (
                chain _ (set_key_count-node m1 s v (i + 1)) (
                  chain _ r3 (
                    chain _ place (
                      chain _ r4
                        (chain _ dc (chain _ (set_data_optr_count-node m4 s v (i + 1)) refl)))))))),
        Added-stages m m3 m4 m5 s v ks target d p l pl k3.keys k3.key_count k3.outside q o5 c5 g,
      )
