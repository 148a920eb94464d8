-- ===== src/Memory/Compare.antt =====
-- The copy within a file, and the comparisons, against the bytes that they meet.
use miya_core.Base.{
  ℕ, zero, suc, ◌+◌, ◌≤◌, ◌<◌, ◌^◌, ◌≡◌, refl, ◌⊎◌, some, List, [], ◌∷◌, arith, length, some,
}
use miya_core.Base.Bytes.{memcmp}
use miya_core.Optr.{Optr}
use miya_core.Optr.Laws.{IsNear, address}
use miya_core.Memory.{Bytes, update, copy, ocmp, ocmp_raw}
use miya_core.Memory.Laws.{
  read, write, value-address, set_value-address, optr_add-below, read_congr,
}

read-update :
    (m : Bytes) (a k c v : ℕ) → (c < a) ⊎ (a + k ≤ c) → read (update m c v) a k ≡ read m a k
read-update m a k c v h = read_congr _ _ a k (λ b l r. ground arith)

-- omemcpy within a file, through pointers below 2 ^ 24 and in ranges below 2 ^ 32, copies the
-- range as it was, where the destination does not start inside the source behind its start.
pub copy-write :
    (m : Bytes) (dest src : Optr) (i k : ℕ)
    → IsNear dest
    → IsNear src
    → address dest + i + k ≤ 2 ^ 32
    → address src + i + k ≤ 2 ^ 32
    → (address dest ≤ address src) ⊎ (address src + i + k ≤ address dest)
    → copy m dest src i k ≡ some (write m (address dest + i) (read m (address src + i) k))
unfolding copy write read
copy-write m dest src i zero v w h h' d = refl
copy-write m dest src i (suc k) v w h h' d =
    let (p, e, vp, q) = optr_add-below dest i v (omega arith) in
    let (p', e', vp', q') = optr_add-below src i w (omega arith) in
    let a : address dest + (i + 1) ≡ address dest + i + 1 = omega arith in
    let a' : address src + (i + 1) ≡ address src + i + 1 = omega arith in
    let m' = update m (address dest + i) (m (address src + i)) in
    rw (
      e,
      e',
      value-address m p' vp' (omega arith),
      q',
      set_value-address m p (m (address src + i)) vp (omega arith),
      q,
      copy-write m' dest src (i + 1) k v w (omega arith) (omega arith) (ground arith),
      a,
      a',
      read-update m (address src + i + 1) k (address dest + i) (m (address src + i)) (ground arith),
    )

-- ocmp of two ranges below 2 ^ 32, through pointers below 2 ^ 24, is memcmp of the bytes in
-- them.
pub ocmp-memcmp :
    (m : Bytes) (o1 o2 : Optr) (i k : ℕ)
    → IsNear o1
    → IsNear o2
    → address o1 + i + k ≤ 2 ^ 32
    → address o2 + i + k ≤ 2 ^ 32
    → ocmp m o1 o2 i k ≡ some (memcmp (read m (address o1 + i) k) (read m (address o2 + i) k))
unfolding ocmp memcmp read
ocmp-memcmp m o1 o2 i zero v w h h' = refl
ocmp-memcmp m o1 o2 i (suc k) v w h h' =
    let (p, e, vp, q) = optr_add-below o1 i v (omega arith) in
    let (p', e', vp', q') = optr_add-below o2 i w (omega arith) in
    let a : address o1 + (i + 1) ≡ address o1 + i + 1 = omega arith in
    let a' : address o2 + (i + 1) ≡ address o2 + i + 1 = omega arith in
    rw
      (
        e,
        e',
        value-address m p vp (omega arith),
        value-address m p' vp' (omega arith),
        q,
        q',
        ocmp-memcmp m o1 o2 (i + 1) k v w (omega arith) (omega arith),
        a,
        a',
      )
      (ground arith)

-- ocmp of a range below 2 ^ 32, through a pointer below 2 ^ 24, with bytes is memcmp of the
-- bytes in it with them.
pub ocmp_raw-memcmp :
    (m : Bytes) (o1 : Optr) (i : ℕ) (bs : List ℕ)
    → IsNear o1
    → address o1 + i + length bs ≤ 2 ^ 32
    → ocmp_raw m o1 i bs ≡ some (memcmp (read m (address o1 + i) (length bs)) bs)
unfolding ocmp_raw memcmp read
ocmp_raw-memcmp m o1 i [] v h = refl
ocmp_raw-memcmp m o1 i (b ∷ bs) v h =
    let (p, e, vp, q) = optr_add-below o1 i v (omega arith) in
    let a : address o1 + (i + 1) ≡ address o1 + i + 1 = omega arith in
    rw
      (e, value-address m p vp (omega arith), q, ocmp_raw-memcmp m o1 (i + 1) bs v (omega arith), a)
      (ground arith)
