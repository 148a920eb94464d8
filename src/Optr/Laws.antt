-- ===== src/Optr/Laws.antt =====
-- What the operations of an overlay pointer compute, through the number that its bytes stand for.
use miya_core.Base.{ℕ, ◌+◌, ◌*◌, ◌/◌, ◌%◌, ◌^◌, ◌<◌, ◌≡◌, ◌≢◌, ◌↔◌, true, none, some, arith}
use miya_core.Base.Fallible.{◌>>=◌}
use miya_core.Optr.{Optr, set_addr, frame, offset, optr_add, optr_eq}

-- The forty-bit number of the five bytes.
abbrev pub address : Optr → ℕ
address o = o.b0 * 2 ^ 32 + o.b1 * 2 ^ 24 + o.b2 * 2 ^ 16 + o.b3 * 2 ^ 8 + o.b4

pub record IsOptr (o : Optr) : Type 0 where
  pub byte0 : o.b0 < 2 ^ 8
  pub byte1 : o.b1 < 2 ^ 8
  pub byte2 : o.b2 < 2 ^ 8
  pub byte3 : o.b3 < 2 ^ 8
  pub byte4 : o.b4 < 2 ^ 8

-- A pointer whose arithmetic weighs its bytes right.
pub record IsNear (o : Optr) : Type 0 where
  pub optr : IsOptr o
  pub near : address o < 2 ^ 24

pub set_addr-IsOptr : (n : ℕ) → IsOptr (set_addr n)
unfolding set_addr
set_addr-IsOptr n = omega arith

-- Storing an integer as an address keeps its low forty bits.
pub address-set_addr : (n : ℕ) → address (set_addr n) ≡ n % 2 ^ 40
unfolding set_addr
address-set_addr n = omega arith

-- An address of five bytes is what its number is stored as.
pub set_addr-address : (o : Optr) → IsOptr o → set_addr (address o) ≡ o
unfolding set_addr
set_addr-address o v = ground arith

pub address_injective : (o p : Optr) → IsOptr o → IsOptr p → address o ≡ address p → o ≡ p
address_injective o p v w h = ground arith

-- A pointer below 2 ^ 24 moves by any addend, within forty bits.
pub optr_add-address :
    (o : Optr) (n : ℕ)
    → IsOptr o
    → address o < 2 ^ 24
    → (p : Optr) × (optr_add o n ≡ some p) × IsOptr p × (address p ≡ (address o + n) % 2 ^ 40)
unfolding optr_add
optr_add-address o n v h = (
  set_addr ((o.b1 * 2 ^ 32 + o.b2 * 2 ^ 16 + o.b3 * 2 ^ 8 + o.b4 + n) % 2 ^ 64),
  ground arith,
  omega arith,
  omega arith,
)

-- A pointer whose first byte is zero and whose sum with the addend is below 2 ^ 32 is moved
-- beyond that sum by its second byte times 2 ^ 32 less 2 ^ 24.
pub optr_add-far :
    (o : Optr) (n : ℕ)
    → IsOptr o
    → o.b0 ≡ 0
    → address o + n < 2 ^ 32
    → (p : Optr) × (optr_add o n ≡ some p)
      × (address p + o.b1 * 2 ^ 24 ≡ address o + n + o.b1 * 2 ^ 32)
unfolding optr_add
optr_add-far o n v z h = (
  set_addr ((o.b1 * 2 ^ 32 + o.b2 * 2 ^ 16 + o.b3 * 2 ^ 8 + o.b4 + n) % 2 ^ 64),
  ground arith,
  omega arith,
)

-- Pointer arithmetic has no defined result exactly when the first byte is not zero.
pub optr_add-none : (o : Optr) (n : ℕ) → (optr_add o n ≡ none) ↔ (o.b0 ≢ 0)
unfolding optr_add
optr_add-none o n = (λ h. ground arith, λ h. ground arith)

-- Moving a pointer twice, within 2 ^ 24 the first time and within forty bits the second, is
-- moving it once by the sum.
pub optr_add-optr_add :
    (o : Optr) (m n : ℕ)
    → IsOptr o
    → address o + m < 2 ^ 24
    → address o + m + n < 2 ^ 40
    → (optr_add o m >>= λ p. optr_add p n) ≡ optr_add o (m + n)
unfolding optr_add
optr_add-optr_add o m n v h h' = ground arith

-- The frame and the offset are the two halves of a pointer below 2 ^ 32.
pub frame-offset :
    (o : Optr)
    → IsOptr o
    → address o < 2 ^ 32
    → (frame o ≡ some (address o / 2 ^ 16)) × (offset o ≡ address o % 2 ^ 16)
unfolding frame offset
frame-offset o v h = (ground arith, omega arith)

-- Two overlay pointers of bytes are equal exactly when they stand for the same number.
pub optr_eq_iff :
    (o p : Optr) → IsOptr o → IsOptr p → (optr_eq o p ≡ true) ↔ (address o ≡ address p)
unfolding optr_eq
optr_eq_iff o p v w = (λ h. ground arith, λ h. ground arith)
