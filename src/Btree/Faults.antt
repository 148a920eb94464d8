-- ===== src/Btree/Faults.antt =====
-- Where the setters of ONodeItemSet and ONode::recursiveMerge leave what they mean to do.
use miya_core.Base.{
  ◌⊎◌, ℕ, ◌+◌, ◌*◌, ◌≡◌, refl, ◌∙◌, inl, inr, Option, none, some, List, ◌∷◌, arith, length,
  leb_of_le, Option-cases,
}
use miya_core.Optr.{Optr, optr_add}
use miya_core.Optr.Laws.{address}
use miya_core.Memory.{Bytes, value}
use miya_core.Memory.Laws.{write, write_outside}
use miya_core.Allocator.Command.{M, and_then, ◌>>=◌, at}
use miya_core.Btree.ItemSet.{
  non_null, set_key, value_at, key_count, raw_key, set_key_count, move_delete_key,
}
use miya_core.Btree.Links.{
  child_optr_count, child_optr, data_optr_count, data_optr, set_data_optr, set_data_optr_count,
  move_delete_data_optr,
}
use miya_core.Btree.Node.{child}
use miya_core.Btree.Remove.{lower, push_left}
use miya_core.Btree.Layout.{chain, IsNode, child_optr_count-node}
use miya_core.Btree.Slots.{set_key-node}

-- On an item set below 2 ^ 24, the setter of a key takes the index DEFAULT_KEY_COUNT, and puts
-- the first byte of a key of twenty bytes in the count of the children.
pub set_key-child_optr_count :
    (m : Bytes) (s : Optr) (b : ℕ) (bs : List ℕ)
    → IsNode s
    → length (b ∷ bs) ≡ 20
    → (m' : Bytes) × (set_key s 3 (some (b ∷ bs)) m ≡ some (tt, m'))
      × (child_optr_count s m' ≡ some (b, m'))
unfolding write
set_key-child_optr_count m s b bs v l =
    let m' = write m (address s + 6 + 3 * 20) (b ∷ bs) in
    let e : m' (address s + 66) ≡ b =
      write_outside _ _ bs (address s + 66) (inl (omega arith)) ∙ ground arith in
    (m', set_key-node m s v 3 (b ∷ bs) (omega arith) l, child_optr_count-node m' s v ∙ rw e refl)

-- A chain of commands whose rest has no result.
fails :
    {A B : Type 0} (r : Option (A × Bytes)) (f : A → M B)
    → ((a : A) (m : Bytes) → f a m ≡ none)
    → and_then r f ≡ none
fails none f h = refl
fails (some (a, m)) f h = h a m

value_at-cases :
    (s : Optr) (n : ℕ) (m : Bytes)
    → (value_at s n m ≡ none) ⊎ ((x : ℕ) × (value_at s n m ≡ some (x, m)))
value_at-cases s n m = elim (Option-cases (optr_add s n)) [
  | inl e ↦ inl (rw (value_at, at, e) refl)
  | inr (p, e) ↦ elim (Option-cases (value m p)) [
    | inl g ↦ inl (rw (value_at, at, e, and_then, g) refl)
    | inr (x, g) ↦ inr (x, rw (value_at, at, e, and_then, g) refl)
  ]
]

-- The child behind the last is null.
child_of_count :
    {B : Type 0} (s : Optr) (m : Bytes) (f : Optr → M B)
    → (child_optr_count s >>= λ c. child s c >>= λ x. non_null x >>= f) m ≡ none
unfolding child_optr_count child child_optr
child_of_count s m f = elim (value_at-cases s 66 m) [
  | inl e ↦ rw e refl
  | inr (n, e) ↦
      let c : child_optr s n m ≡ some (none, m) =
        chain _ e (rw (leb_of_le n n (omega arith)) refl) in
      chain _ e (chain _ c refl)
]

-- The move of a last child from the left neighbour in recursiveMerge has no outcome on any file:
-- it asks for the child behind the last, which is null, and uses it.
pub push_left-none : (s target left : Optr) (m : Bytes) → push_left s target left m ≡ none
unfolding push_left
push_left-none s target left m = fails (lower s target m) _ (λ _ m1.
    fails (key_count left m1) _ (λ n m2. fails (raw_key left n m2) _ (λ k m3.
      fails (set_key s 0 k m3) _ (λ _ m4. fails (set_key_count s 1 m4) _ (λ _ m5.
        fails (key_count left m5) _ (λ n' m6. fails (move_delete_key left n' m6) _ (λ _ m7.
          fails (data_optr_count left m7) _ (λ c m8. fails (data_optr left c m8) _ (λ d m9.
            fails (set_data_optr s 0 d m9) _ (λ _ m10.
              fails (set_data_optr_count s 1 m10) _ (λ _ m11.
                fails (data_optr_count left m11) _ (λ c' m12.
                  fails (move_delete_data_optr left c' m12) _
                    (λ _ m13. child_of_count left m13 _)))))))))))))
