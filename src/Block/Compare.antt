-- ===== src/Block/Compare.antt =====
-- mbitcmp, simple_mining.cpp, as a comparison of numbers.
use miya_core.Base.{
  ltb_self, ==_self, compare-cases, ℕ, zero, suc, ◌+◌, ◌*◌, ◌≡◌, some, List, [], ◌∷◌, arith, length,
  leb, inl, inr,
}
use miya_core.Base.Endian.{of_be, of_be_from, AreBytes, of_be_from-lt}
use miya_core.Block.Header.{mbitcmp_loop, mbitcmp}

mbitcmp_loop-leb :
    (n a : ℕ) (mask hash : List ℕ)
    → length mask ≡ n
    → length hash ≡ n
    → AreBytes mask
    → AreBytes hash
    → mbitcmp_loop n mask hash ≡ some (leb (of_be_from a hash) (of_be_from a mask))
unfolding mbitcmp_loop
mbitcmp_loop-leb zero a [] [] e f v w = ground arith
mbitcmp_loop-leb zero a [] (h ∷ hash) e f v w = absurd (omega arith)
mbitcmp_loop-leb zero a (m ∷ mask) hash e f v w = absurd (omega arith)
mbitcmp_loop-leb (suc n) a [] hash e f v w = absurd (omega arith)
mbitcmp_loop-leb (suc n) a (m ∷ mask) [] e f v w = absurd (omega arith)
mbitcmp_loop-leb (suc n) a (m ∷ mask) (h ∷ hash) e f (v, v') (w, w') =
    let ih = mbitcmp_loop-leb n (a * 256 + m) mask hash (omega arith) (omega arith) v' w' in
    elim (compare-cases m h) [
      | inl lt ↦
          let below =
            of_be_from-lt (a * 256 + m) (a * 256 + h) mask hash (omega arith) v' (omega arith) in
          ground arith
      | inr (inl eq) ↦ rw (← eq, ==_self m, ltb_self m) ih
      | inr (inr gt) ↦
          let above =
            of_be_from-lt (a * 256 + h) (a * 256 + m) hash mask (omega arith) w' (omega arith) in
          ground arith
    ]

-- On a mask and a hash of 32 bytes each, mbitcmp is whether the hash is at most the mask, both
-- read as numbers with the first byte the highest.
pub mbitcmp-leb :
    (mask hash : List ℕ)
    → length mask ≡ 32
    → length hash ≡ 32
    → AreBytes mask
    → AreBytes hash
    → mbitcmp mask hash ≡ some (leb (of_be hash) (of_be mask))
unfolding mbitcmp
mbitcmp-leb mask hash e f v w = mbitcmp_loop-leb 32 0 mask hash e f v w
