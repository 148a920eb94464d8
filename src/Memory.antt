-- ===== src/Memory.antt =====
-- optr::value of page_table/overlay_ptr.cpp and the copies and comparisons of
-- page_table/optr_utils.cpp, all under miya_db/strage_manager/MMyISAM/components/.
-- A file is the function from its offsets to its bytes; a mapped frame shows 2 ^ 16 of them
-- (Cache), and a file grows by zero bytes, so an offset always has a byte.
pub mod Laws
pub mod Compare
mod Tests
use Prim.Native.Nat.{Ordering}
use miya_core.Base.{
  ℕ, zero, suc, ◌+◌, ◌*◌, ◌^◌, Option, none, some, List, [], ◌∷◌, ◌==◌, leb, if◌then◌else◌,
}
use miya_core.Base.Fallible.{◌>>=◌}
use miya_core.Optr.{Optr, frame, offset, optr_add}

abbrev pub Bytes : Type 0
Bytes = ℕ → ℕ

abbrev pub update : Bytes → ℕ → ℕ → Bytes
update m a v b = if b == a then v else m b

-- unsigned char optr::value()
unfoldable pub value : Bytes → Optr → Option ℕ
value m o = do f ← frame o; some (m (f * 2 ^ 16 + offset o))

-- void optr::value( unsigned char target )
unfoldable pub set_value : Bytes → Optr → ℕ → Option Bytes
set_value m o target = do f ← frame o; some (update m (f * 2 ^ 16 + offset o) target)

-- void *omemcpy( void *dest , optr *src , unsigned long n ), from round i, k rounds left
unfoldable pub copy_out : Bytes → Optr → ℕ → ℕ → Option (List ℕ)
copy_out m src i zero = some []
copy_out m src i (suc k) = do
  p ← optr_add src i
  v ← value m p
  rest ← copy_out m src (i + 1) k
  some (v ∷ rest)

-- optr *omemcpy( optr *dest , void *src , unsigned long n ), from round i, with the bytes left
unfoldable pub copy_in : Bytes → Optr → ℕ → List ℕ → Option Bytes
copy_in m dest i [] = some m
copy_in m dest i (b ∷ bs) = do p ← optr_add dest i; m' ← set_value m p b; copy_in m' dest (i + 1) bs

-- optr *omemcpy( optr *dest , optr *src , unsigned long n ) within one file
unfoldable pub copy : Bytes → Optr → Optr → ℕ → ℕ → Option Bytes
copy m dest src i zero = some m
copy m dest src i (suc k) = do
  p ← optr_add dest i
  q ← optr_add src i
  v ← value m q
  m' ← set_value m p v
  copy m' dest src (i + 1) k

-- int ocmp( optr* o1 , optr* o2, unsigned long size ): `lt` is -1, `eq` 0 and `gt` 1
unfoldable pub ocmp : Bytes → Optr → Optr → ℕ → ℕ → Option Ordering
ocmp m o1 o2 i zero = some Ordering.eq
ocmp m o1 o2 i (suc k) = do
  p ← optr_add o1 i
  q ← optr_add o2 i
  v ← value m p
  w ← value m q
  let rest = ocmp m o1 o2 (i + 1) k
  if v == w then rest else some (if leb v w then Ordering.lt else Ordering.gt)

-- int ocmp( optr* o1 , void* p2, unsigned long size )
unfoldable pub ocmp_raw : Bytes → Optr → ℕ → List ℕ → Option Ordering
ocmp_raw m o1 i [] = some Ordering.eq
ocmp_raw m o1 i (b ∷ bs) = do
  p ← optr_add o1 i
  v ← value m p
  let rest = ocmp_raw m o1 (i + 1) bs
  if v == b then rest else some (if leb v b then Ordering.lt else Ordering.gt)
