-- ===== src/Optr.antt =====
-- miya_db/strage_manager/MMyISAM/components/page_table/overlay_ptr.h and overlay_ptr.cpp.
-- An overlay pointer is five bytes, the most significant first. The doubles that `pow` yields
-- are exact below 2 ^ 53; a sum that leaves the range of the integer type it is stored in has
-- no defined value, which is `none` here.
pub mod Laws
use miya_core.Base.{
  ℕ, ◌+◌, ◌*◌, ◌/◌, ◌%◌, ◌^◌, Bool, ◌&&◌, Option, none, some, List, [], ◌∷◌, ◌==◌, if◌then◌else◌,
}

pub record Optr : Type 0 where
  pub b0 : ℕ
  pub b1 : ℕ
  pub b2 : ℕ
  pub b3 : ℕ
  pub b4 : ℕ

-- void optr::addr( unsigned long )
unfoldable pub set_addr : ℕ → Optr
set_addr n = record {
  b0 = n / 2 ^ 32 % 2 ^ 8;
  b1 = n / 2 ^ 24 % 2 ^ 8;
  b2 = n / 2 ^ 16 % 2 ^ 8;
  b3 = n / 2 ^ 8 % 2 ^ 8;
  b4 = n % 2 ^ 8;
}

unfoldable pub caddr : Optr → List ℕ
caddr o = o.b0 ∷ o.b1 ∷ o.b2 ∷ o.b3 ∷ o.b4 ∷ []

-- The weight of the first byte is 2 ^ 16, which no unsigned short holds.
unfoldable pub frame : Optr → Option ℕ
frame o = if o.b0 == 0 then some (o.b1 * 2 ^ 8 + o.b2) else none

unfoldable pub offset : Optr → ℕ
offset o = o.b3 * 2 ^ 8 + o.b4

-- The weight of the first byte is 2 ^ 64, which no uint64_t holds, and that of the second 2 ^ 32.
unfoldable pub optr_add : Optr → ℕ → Option Optr
unfolding set_addr
optr_add o addend =
    if o.b0 == 0
    then some (set_addr ((o.b1 * 2 ^ 32 + o.b2 * 2 ^ 16 + o.b3 * 2 ^ 8 + o.b4 + addend) % 2 ^ 64))
    else none

unfoldable pub optr_eq : Optr → Optr → Bool
optr_eq o p = o.b0 == p.b0 && o.b1 == p.b1 && o.b2 == p.b2 && o.b3 == p.b3 && o.b4 == p.b4
