-- ===== src/Cache/Clock.antt =====
-- Which frame the second-chance list gives up.
use miya_core.Base.{
  ℕ, zero, suc, ◌+◌, ◌%◌, ◌≤◌, ◌<◌, ◌≡◌, refl, ◌⊎◌, inl, inr, Bool, Bool-cases, true, false, none,
  some, arith,
}
use miya_core.Cache.{Lru, increment_reference_ptr, reference, out_page_loop, target_out_page}

-- The place before the reference pointer has no bit.
pub record IsLru (l : Lru) : Type 0 where
  pub in_range : l.reference_ptr < 3
  pub passed : l.invalid_cache_list ((l.reference_ptr + 2) % 3) ≡ false

pub turn-IsLru :
    (l : Lru) (idx : ℕ) → l.reference_ptr < 3 → IsLru (increment_reference_ptr (reference l idx))
unfolding increment_reference_ptr reference
turn-IsLru l idx h = ground arith

-- A place without a bit, or the pointed place 0 when the place after it has a bit too.
abbrev pub IsVictim : Lru → ℕ → Type 0
IsVictim l idx =
    (idx < 3)
    × ((l.invalid_cache_list idx ≡ false)
        ⊎ ((idx ≡ 0) × (l.reference_ptr ≡ 0) × (l.invalid_cache_list 1 ≡ true)))

module _ (flags : ℕ → Bool) where
  abbrev at : ℕ → Lru
  at r = record { invalid_cache_list = flags; reference_ptr = r }

  at-IsVictim :
      (r : ℕ) → IsLru (at r) → (idx : ℕ) × (target_out_page (at r) ≡ some idx) × IsVictim (at r) idx
  unfolding target_out_page
  at-IsVictim zero v = elim (Bool-cases (flags 0)) [
    | inr e ↦ (0, rw e, (omega arith, inl e))
    | inl e ↦ elim (Bool-cases (flags 1)) [
      | inr e' ↦ (1, rw (e, e'), (omega arith, inl e'))
      | inl e' ↦ (0, rw (e, e'), (omega arith, inr (refl, refl, e')))
    ]
  ]
  at-IsVictim (suc zero) v = elim (Bool-cases (flags 1)) [
    | inr e ↦ (1, rw e, (omega arith, inl e))
    | inl e ↦ elim (Bool-cases (flags 2)) [
      | inr e' ↦ (2, rw (e, e'), (omega arith, inl e'))
      | inl e' ↦ (0, rw (e, e', v.passed), (omega arith, inl v.passed))
    ]
  ]
  at-IsVictim (suc (suc zero)) v = elim (Bool-cases (flags 2)) [
    | inr e ↦ (2, rw e, (omega arith, inl e))
    | inl e ↦ elim (Bool-cases (flags 0)) [
      | inr e' ↦ (0, rw (e, e'), (omega arith, inl e'))
      | inl e' ↦ (1, rw (e, e', v.passed), (omega arith, inl v.passed))
    ]
  ]
  at-IsVictim (suc (suc (suc r))) v = absurd (omega (arith, v.in_range))

-- From a pointer in range with no bit behind it, one round of the list finds a place to page
-- out: one without a bit, or the pointed place 0 when place 1 has a bit.
pub target_out_page-IsVictim :
    (l : Lru) → IsLru l → (idx : ℕ) × (target_out_page l ≡ some idx) × IsVictim l idx
target_out_page-IsVictim l v = at-IsVictim l.invalid_cache_list l.reference_ptr v

-- Were every bit set and the pointer not at 0, no number of rounds from the pointer on would end
-- the search.
pub out_page_loop-none :
    (fuel : ℕ) (l : Lru) (i : ℕ)
    → ((j : ℕ) → l.invalid_cache_list j ≡ true)
    → 0 < l.reference_ptr
    → l.reference_ptr < 3
    → l.reference_ptr ≤ i
    → out_page_loop fuel l i ≡ none
unfolding out_page_loop
out_page_loop-none zero l i full p q h = refl
out_page_loop-none (suc fuel) l i full p q h =
    rw (full (i % 3)) (ground (arith, out_page_loop-none fuel l (i + 1)))
