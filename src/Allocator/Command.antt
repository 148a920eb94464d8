-- ===== src/Allocator/Command.antt =====
-- Commands over the free list file: a result and the bytes left, or no defined result.
use miya_core.Base.{ℕ, Option, none, some, List}
use miya_core.Optr.{Optr, optr_add}
use miya_core.Memory.{Bytes, copy_out, copy_in}

abbrev pub M : Type 0 → Type 0
M A = Bytes → Option (A × Bytes)

abbrev pub pure : {A : Type 0} → A → M A
pure a m = some (a, m)

abbrev pub and_then : {A B : Type 0} → Option (A × Bytes) → (A → M B) → Option (B × Bytes)
and_then none f = none
and_then (some (a, m)) f = f a m

infixl 5 ◌>>=◌ ◌>>◌
abbrev pub ◌>>=◌ : {A B : Type 0} → M A → (A → M B) → M B
◌>>=◌ r f m = and_then (r m) f

abbrev pub ◌>>◌ : {B : Type 0} → M (Unit {0}) → M B → M B
◌>>◌ r k m = and_then (r m) (λ _. k)

-- *optr + addend
abbrev pub at : Optr → ℕ → M Optr
at o n m = elim (optr_add o n) [ none ↦ none | some p ↦ some (p, m) ]

-- omemcpy out of the file and into it
abbrev pub load : Optr → ℕ → M (List ℕ)
load o n m = elim (copy_out m o 0 n) [ none ↦ none | some bs ↦ some (bs, m) ]

abbrev pub store : Optr → List ℕ → M (Unit {0})
store o bs m = elim (copy_in m o 0 bs) [ none ↦ none | some m' ↦ some (tt, m') ]
