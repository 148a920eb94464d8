-- ===== src/Allocator/Fit.antt =====
-- OverlayMemoryAllocator::findFreeBlock( ControlBlock* , unsigned int )
-- (overlay_memory_allocator.cpp) as a search for the first fit along a ring.
use miya_core.Base.{
  ℕ, zero, suc, ◌+◌, ◌-◌, ◌*◌, ◌^◌, ◌<◌, ◌≤◌, ◌≡◌, ◌≢◌, ◌⊎◌, inl, inr, true, false, Option, none,
  some, List, [], ◌∷◌, length, arith, ◌==◌, ltb, ==_of_ne, if◌then◌else◌, Bool-cases,
}
use miya_core.Memory.{Bytes}
use miya_core.Allocator.Block.{free_block_size}
use miya_core.Allocator.Ops.{find_free_block}
use miya_core.Allocator.Words.{Words, ptr, Rep}
use miya_core.Allocator.Access.{Returns, returns, bind}
use miya_core.Allocator.Rules.{block, InFile, next-word}
use miya_core.Allocator.Size.{free_block_size_lem}

-- The size of a block's free area, 0 where it has no end.
abbrev pub room : Words → ℕ → ℕ
room w i = if w (block i + 3) == 0 then 0 else w (block i + 3) - w (block i + 2)

-- The first block that has no end, or whose area is empty or large enough.
unfoldable pub first_fit : Words → ℕ → List ℕ → Option ℕ
first_fit w size [] = none
first_fit w size (i ∷ is) =
    let rest = first_fit w size is in
    if room w i == 0 then some i else if ltb (room w i) size then rest else some i

-- A block in the file whose area lies below 2 ^ 24.
pub record Sized (w : Words) (i : ℕ) : Type 0 where
  pub in_file : InFile i
  pub start : w (block i + 2) < 2 ^ 24
  pub end : w (block i + 3) < 2 ^ 24
  pub ordered : (w (block i + 3) ≡ 0) ⊎ (w (block i + 2) ≤ w (block i + 3))

-- Blocks linked forwards from x on.
unfoldable pub Links : Words → ℕ → List ℕ → Type 0
Links w x [] = Sized w x
Links w x (y ∷ ys) = Sized w x × (w (block x + 1) ≡ 5 * block y) × Links w y ys

size-room :
    {m : Bytes} {w : Words} (r : Rep m w) (i : ℕ)
    → Sized w i
    → Returns (room w i) w (free_block_size (ptr (block i)) m)
size-room {m = m} {w = w} r i s =
    let (none_case, some_case) = free_block_size_lem r i s.in_file s.start s.end in
    elim (Bool-cases (w (block i + 3) == 0)) [
      | inl e ↦ rw e (none_case (ground arith))
      | inr e ↦ rw e (some_case (ground arith) (ground (arith, s.ordered)))
    ]

ltb-lt : (a b : ℕ) → a < b → ltb a b ≡ true
ltb-lt a b h = ground arith

ltb-ge : (a b : ℕ) → b ≤ a → ltb a b ≡ false
ltb-ge a b h = ground arith

-- The first block fits, or the search goes on behind it.
head_fit :
    (w : Words) (size x j : ℕ) (ys : List ℕ)
    → first_fit w size (x ∷ ys) ≡ some j
    → ((room w x ≡ 0) × (x ≡ j))
      ⊎ ((room w x ≢ 0) × (size ≤ room w x) × (x ≡ j))
      ⊎ ((room w x ≢ 0) × (room w x < size) × (first_fit w size ys ≡ some j))
unfolding first_fit
head_fit w size x j ys f = elim (Bool-cases (room w x == 0)) [
  | inl e ↦ inl (ground arith, ground arith)
  | inr e ↦ elim (Bool-cases (ltb (room w x) size)) [
    | inl l ↦ inr (inr (ground arith, ground arith, ground arith))
    | inr l ↦ inr (inl (ground arith, ground arith, ground arith))
  ]
]

-- Along linked blocks below 2 ^ 24 whose areas lie below 2 ^ 24 and do not end before their
-- start, with fuel for each block, findFreeBlock returns the first that has no end or an empty
-- area or one of at least the size asked for, where there is one.
pub find_free_block_lem :
    {m : Bytes} {w : Words} (r : Rep m w) (fuel size x : ℕ) (ys : List ℕ) (j : ℕ)
    → length ys < fuel
    → Links w x ys
    → first_fit w size (x ∷ ys) ≡ some j
    → Returns (ptr (block j)) w (find_free_block fuel (ptr (block x)) size m)
unfolding find_free_block Links first_fit
find_free_block_lem r zero size x ys j l c f = absurd (omega arith)
find_free_block_lem {w = w} r (suc fuel) size x [] j l s f = bind _ (size-room r x s) (λ m1 r1.
    elim (head_fit w size x j [] f) [
      | inl (z, e) ↦ rw (z, e) (returns r1)
      | inr (inl (z, h, e)) ↦ rw (==_of_ne (room w x) 0 z, ltb-ge (room w x) size h, e) (returns r1)
      | inr (inr (z, h, g)) ↦ absurd (ground arith)
    ])
find_free_block_lem {w = w} r (suc fuel) size x (y ∷ ys) j l (s, n, c) f =
    bind _ (size-room r x s) (λ m1 r1. elim (head_fit w size x j (y ∷ ys) f) [
      | inl (z, e) ↦ rw (z, e) (returns r1)
      | inr (inl (z, h, e)) ↦ rw (==_of_ne (room w x) 0 z, ltb-ge (room w x) size h, e) (returns r1)
      | inr (inr (z, h, g)) ↦
          rw (==_of_ne (room w x) 0 z, ltb-lt (room w x) size h)
            (bind _ (next-word r1 x (block y) s.in_file n)
              (λ m2 r2. find_free_block_lem r2 fuel size y ys j (omega arith) c g))
    ])
