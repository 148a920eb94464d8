-- ===== src/Btree/Files.antt =====
-- The index file and the free list file of its memory manager, with commands over both: those of
-- the nodes work on the first, OverlayMemoryManager::allocate on the second.
use miya_core.Base.{◌≡◌, refl, sym, subst, ℕ, Option, none, some}
use miya_core.Optr.{Optr}
use miya_core.Memory.{Bytes}
use miya_core.Allocator.Command.{M}
use miya_core.Allocator.Ops.{allocate}

pub record Files : Type 0 where
  pub index : Bytes
  pub free : Bytes

abbrev pub T : Type 0 → Type 0
T A = Files → Option (A × Files)

abbrev pub pure : {A : Type 0} → A → T A
pure a s = some (a, s)

abbrev pub and_then : {A B : Type 0} → Option (A × Files) → (A → T B) → Option (B × Files)
and_then none f = none
and_then (some (a, s)) f = f a s

infixl 5 ◌>>=◌ ◌>>◌
abbrev pub ◌>>=◌ : {A B : Type 0} → T A → (A → T B) → T B
◌>>=◌ r f s = and_then (r s) f

abbrev pub ◌>>◌ : {B : Type 0} → T (Unit {0}) → T B → T B
◌>>◌ r k s = and_then (r s) (λ _. k)

abbrev pub on_index : {A : Type 0} → M A → T A
on_index r s = elim (r s.index) [
  | none ↦ none
  | some (a, m) ↦ some (a, record { index = m; free = s.free })
]

-- OverlayMemoryManager::allocate( unsigned long ), with fuel for the walk along the free blocks
unfoldable pub allocate_memory : ℕ → ℕ → T Optr
unfolding allocate
allocate_memory fuel size s = elim (allocate fuel size s.free) [
  | none ↦ none
  | some (o, m) ↦ some (o, record { index = s.index; free = m })
]

-- A chain of commands whose first has a result.
pub next :
    {A B : Type 0} {a : A} {s : Files} {r : Option (A × Files)} {x : Option (B × Files)}
    (f : A → T B)
    → r ≡ some (a, s)
    → f a s ≡ x
    → and_then r f ≡ x
next {x = x} f e h = subst (λ q. and_then q f ≡ x) (sym e) h

pub on_index-some :
    {A : Type 0} {a : A} {m : Bytes} (r : M A) (s : Files)
    → r s.index ≡ some (a, m)
    → on_index r s ≡ some (a, record { index = m; free = s.free })
on_index-some r s e = rw (on_index, e) refl
