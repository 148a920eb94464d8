-- ===== src/Memory/Laws.antt =====
-- The byte-wise copies against reads and writes of whole ranges of file offsets.
use miya_core.Base.{
  ℕ, zero, suc, ◌+◌, ◌≤◌, ◌<◌, ◌^◌, ◌≡◌, refl, ◌⊎◌, inl, ◌∙◌, some, List, [], ◌∷◌, arith, length,
  ==_self,
}
use miya_core.Optr.{Optr, optr_add}
use miya_core.Optr.Laws.{IsOptr, IsNear, address, optr_add-address, frame-offset}
use miya_core.Memory.{Bytes, update, value, set_value, copy_out, copy_in}

-- The k bytes from offset a on.
unfoldable pub read : Bytes → ℕ → ℕ → List ℕ
read m a zero = []
read m a (suc k) = m a ∷ read m (a + 1) k

-- The bytes put at offset a on.
unfoldable pub write : Bytes → ℕ → List ℕ → Bytes
write m a [] = m
write m a (b ∷ bs) = write (update m a b) (a + 1) bs

pub value-address :
    (m : Bytes) (o : Optr) → IsOptr o → address o < 2 ^ 32 → value m o ≡ some (m (address o))
unfolding value
value-address m o v h = ground (arith, frame-offset o)

pub set_value-address :
    (m : Bytes) (o : Optr) (x : ℕ)
    → IsOptr o
    → address o < 2 ^ 32
    → set_value m o x ≡ some (update m (address o) x)
unfolding set_value
set_value-address m o x v h = ground (arith, frame-offset o)

-- A pointer and what its addition reaches, below 2 ^ 32.
pub optr_add-below :
    (o : Optr) (n : ℕ)
    → IsNear o
    → address o + n < 2 ^ 32
    → (p : Optr) × (optr_add o n ≡ some p) × IsOptr p × (address p ≡ address o + n)
optr_add-below o n v h =
    let (p, e, w, q) = optr_add-address o n v.optr v.near in (p, e, w, omega arith)

-- omemcpy through a pointer below 2 ^ 24, out of a range below 2 ^ 32, reads the range of
-- offsets that it names, across frames.
pub copy_out-read :
    (m : Bytes) (src : Optr) (i k : ℕ)
    → IsNear src
    → address src + i + k ≤ 2 ^ 32
    → copy_out m src i k ≡ some (read m (address src + i) k)
unfolding copy_out read
copy_out-read m src i zero v h = refl
copy_out-read m src i (suc k) v h =
    let (p, e, w, q) = optr_add-below src i v (omega arith) in
    let a : address src + (i + 1) ≡ address src + i + 1 = omega arith in
    rw (e, value-address m p w (omega arith), copy_out-read m src (i + 1) k v (omega arith), q, a)

-- omemcpy through a pointer below 2 ^ 24, into a range below 2 ^ 32, writes the range of offsets
-- that it names, across frames.
pub copy_in-write :
    (m : Bytes) (dest : Optr) (i : ℕ) (bs : List ℕ)
    → IsNear dest
    → address dest + i + length bs ≤ 2 ^ 32
    → copy_in m dest i bs ≡ some (write m (address dest + i) bs)
unfolding copy_in write
copy_in-write m dest i [] v h = refl
copy_in-write m dest i (b ∷ bs) v h =
    let (p, e, w, q) = optr_add-below dest i v (omega arith) in
    let a : address dest + (i + 1) ≡ address dest + i + 1 = omega arith in
    rw (
      e,
      set_value-address m p b w (omega arith),
      q,
      copy_in-write (update m (address dest + i) b) dest (i + 1) bs v (omega arith),
      a,
    )

-- A write leaves every other offset as it was.
pub write_outside :
    (m : Bytes) (a : ℕ) (bs : List ℕ) (b : ℕ) → (b < a) ⊎ (a + length bs ≤ b) → write m a bs b ≡ m b
unfolding write
write_outside m a [] b h = refl
write_outside m a (x ∷ bs) b h =
    write_outside (update m a x) (a + 1) bs b (ground arith) ∙ ground arith

pub read_congr :
    (m m' : Bytes) (a k : ℕ) → ((b : ℕ) → a ≤ b → b < a + k → m b ≡ m' b) → read m a k ≡ read m' a k
unfolding read
read_congr m m' a zero h = refl
read_congr m m' a (suc k) h = rw (
  h a (omega arith) (omega arith),
  read_congr m m' (a + 1) k (λ b l r. h b (omega arith) (omega arith)),
)

pub read-write : (m : Bytes) (a : ℕ) (bs : List ℕ) → read (write m a bs) a (length bs) ≡ bs
unfolding read write
read-write m a [] = refl
read-write m a (b ∷ bs) = rw (
  write_outside (update m a b) (a + 1) bs a (inl (omega arith)),
  ==_self a,
  read-write (update m a b) (a + 1) bs,
)

-- A read of a range that a write does not meet.
pub read-write_outside :
    (m : Bytes) (a k c : ℕ) (bs : List ℕ)
    → (a + k ≤ c) ⊎ (c + length bs ≤ a)
    → read (write m c bs) a k ≡ read m a k
read-write_outside m a k c bs h =
    read_congr _ _ a k (λ b l r. write_outside m c bs b (ground arith))
