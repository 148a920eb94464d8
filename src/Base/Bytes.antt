-- ===== src/Base/Bytes.antt =====
-- memcmp of the C library over byte strings of one length, as an order of lists, with its laws.
use Prim.Native.Nat.{ℕ, zero, suc, Ordering}
use mathlib.Core.Path.{◌≡◌, refl, subst, sym}
use mathlib.Core.Logic.{◌↔◌, ◌⊎◌, ◌≢◌, inl, inr}
use mathlib.Core.List.{List, [], ◌∷◌, ◌++◌}
use mathlib.Core.Option.{Option, none, some}
use native.Mathlib.Omega.{arith}
use miya_core.Base.Tests.{◌==◌, ltb, if◌then◌else◌, Option-cases}
use miya_core.Base.Lists.{length, drop}

pub Ordering-cases : (o : Ordering) → (o ≡ Ordering.lt) ⊎ (o ≡ Ordering.eq) ⊎ (o ≡ Ordering.gt)
Ordering-cases Ordering.lt = inl refl
Ordering-cases Ordering.eq = inr (inl refl)
Ordering-cases Ordering.gt = inr (inr refl)

-- The first bytes that differ decide, as unsigned numbers.
unfoldable pub memcmp : List ℕ → List ℕ → Ordering
memcmp [] [] = Ordering.eq
memcmp [] (y ∷ ys) = Ordering.lt
memcmp (x ∷ xs) [] = Ordering.gt
memcmp (x ∷ xs) (y ∷ ys) =
    let rest = memcmp xs ys in if x == y then rest else if ltb x y then Ordering.lt else Ordering.gt

pub memcmp_self : (xs : List ℕ) → memcmp xs xs ≡ Ordering.eq
unfolding memcmp
memcmp_self [] = refl
memcmp_self (x ∷ xs) = ground (arith, memcmp_self xs)

pub eq_of_memcmp : (xs ys : List ℕ) → memcmp xs ys ≡ Ordering.eq → xs ≡ ys
unfolding memcmp
eq_of_memcmp [] [] h = refl
eq_of_memcmp [] (y ∷ ys) h = ground arith
eq_of_memcmp (x ∷ xs) [] h = ground arith
eq_of_memcmp (x ∷ xs) (y ∷ ys) h = ground (arith, eq_of_memcmp xs ys)

pub memcmp-eq_iff : (xs ys : List ℕ) → (memcmp xs ys ≡ Ordering.eq) ↔ (xs ≡ ys)
memcmp-eq_iff xs ys =
    (eq_of_memcmp xs ys, λ e. subst (λ zs. memcmp xs zs ≡ Ordering.eq) e (memcmp_self xs))

-- Turning the arguments round turns the answer round.
pub memcmp-lt_gt : (xs ys : List ℕ) → memcmp xs ys ≡ Ordering.lt → memcmp ys xs ≡ Ordering.gt
unfolding memcmp
memcmp-lt_gt [] [] h = ground arith
memcmp-lt_gt [] (y ∷ ys) h = refl
memcmp-lt_gt (x ∷ xs) [] h = ground arith
memcmp-lt_gt (x ∷ xs) (y ∷ ys) h = ground (arith, memcmp-lt_gt xs ys)

pub memcmp-gt_lt : (xs ys : List ℕ) → memcmp xs ys ≡ Ordering.gt → memcmp ys xs ≡ Ordering.lt
unfolding memcmp
memcmp-gt_lt [] [] h = ground arith
memcmp-gt_lt [] (y ∷ ys) h = ground arith
memcmp-gt_lt (x ∷ xs) [] h = refl
memcmp-gt_lt (x ∷ xs) (y ∷ ys) h = ground (arith, memcmp-gt_lt xs ys)

pub memcmp-lt_trans :
    (xs ys zs : List ℕ)
    → memcmp xs ys ≡ Ordering.lt
    → memcmp ys zs ≡ Ordering.lt
    → memcmp xs zs ≡ Ordering.lt
unfolding memcmp
memcmp-lt_trans [] [] zs h k = ground arith
memcmp-lt_trans [] (y ∷ ys) [] h k = ground arith
memcmp-lt_trans [] (y ∷ ys) (z ∷ zs) h k = refl
memcmp-lt_trans (x ∷ xs) [] zs h k = ground arith
memcmp-lt_trans (x ∷ xs) (y ∷ ys) [] h k = ground arith
memcmp-lt_trans (x ∷ xs) (y ∷ ys) (z ∷ zs) h k = ground (arith, memcmp-lt_trans xs ys zs)

pub memcmp-lt_ne : (xs ys : List ℕ) → memcmp xs ys ≡ Ordering.lt → ys ≢ xs
memcmp-lt_ne xs ys h e =
    let q : memcmp xs xs ≡ Ordering.lt = subst (λ zs. memcmp xs zs ≡ Ordering.lt) e h in
    ground (arith, memcmp_self xs)

pub memcmp-gt_ne : (xs ys : List ℕ) → memcmp xs ys ≡ Ordering.gt → ys ≢ xs
memcmp-gt_ne xs ys h e =
    let q : memcmp xs xs ≡ Ordering.gt = subst (λ zs. memcmp xs zs ≡ Ordering.gt) e h in
    ground (arith, memcmp_self xs)

-- memcpy of n bytes out of a buffer; past the buffer's end it has no defined result.
unfoldable pub memcpy : ℕ → List ℕ → Option (List ℕ)
memcpy zero bs = some []
memcpy (suc n) [] = none
memcpy (suc n) (b ∷ bs) = elim (memcpy n bs) [ none ↦ none | some r ↦ some (b ∷ r) ]

pub memcpy_all : (bs : List ℕ) → memcpy (length bs) bs ≡ some bs
unfolding memcpy
memcpy_all [] = refl
memcpy_all (b ∷ bs) = rw (memcpy_all bs)

pub memcpy-append : (bs cs : List ℕ) → memcpy (length bs) (bs ++ cs) ≡ some bs
unfolding memcpy
memcpy-append [] cs = refl
memcpy-append (b ∷ bs) cs = rw (memcpy-append bs cs)

-- A copy that stays within the buffer is the front of the buffer, and has the length asked for.
pub memcpy-some :
    (n : ℕ) (bs r : List ℕ) → memcpy n bs ≡ some r → (bs ≡ r ++ drop n bs) × (length r ≡ n)
unfolding memcpy
memcpy-some zero bs [] h = (refl, refl)
memcpy-some zero bs (x ∷ r) h = absurd (ground arith)
memcpy-some (suc n) [] r h = absurd (ground arith)
memcpy-some (suc n) (b ∷ bs) r h = elim (Option-cases (memcpy n bs)) [
  | inl e ↦ absurd (ground arith)
  | inr (q, e) ↦ ground (arith, memcpy-some n bs q e)
]

-- A copy of as many bytes as the buffer has, by its count.
pub memcpy_exact : (n : ℕ) (bs : List ℕ) → n ≡ length bs → memcpy n bs ≡ some bs
memcpy_exact n bs e = subst (λ m. memcpy m bs ≡ some bs) (sym e) (memcpy_all bs)

pub memcpy-append_exact : (n : ℕ) (bs cs : List ℕ) → n ≡ length bs → memcpy n (bs ++ cs) ≡ some bs
memcpy-append_exact n bs cs e =
    subst (λ m. memcpy m (bs ++ cs) ≡ some bs) (sym e) (memcpy-append bs cs)

pub drop-append : (bs cs : List ℕ) → drop (length bs) (bs ++ cs) ≡ cs
drop-append [] cs = refl
drop-append (b ∷ bs) cs = drop-append bs cs

pub drop-append_exact : (n : ℕ) (bs cs : List ℕ) → n ≡ length bs → drop n (bs ++ cs) ≡ cs
drop-append_exact n bs cs e = subst (λ m. drop m (bs ++ cs) ≡ cs) (sym e) (drop-append bs cs)

-- The bytes of a field, and what stands behind, by their place.
pub memcpy-drop :
    (n k : ℕ) (a b c : List ℕ)
    → n ≡ length a
    → k ≡ length b
    → memcpy k (drop n (a ++ (b ++ c))) ≡ some b
memcpy-drop n k a b c e f =
    subst (λ xs. memcpy k xs ≡ some b) (sym (drop-append_exact n a (b ++ c) e))
      (memcpy-append_exact k b c f)
