-- ===== src/Allocator/Words.antt =====
-- The free list file as an array of five-byte words: every field of the managed area and of a
-- control block is one of them, and the pointers and blocks stand at multiples of five.
use miya_core.Base.{
  ℕ, ◌+◌, ◌*◌, ◌^◌, ◌≤◌, ◌<◌, ◌≡◌, refl, ◌≢◌, ◌⊎◌, inl, inr, ap, sym, List, [], ◌∷◌, arith, length,
  ◌==◌, if◌then◌else◌, Bool-cases,
}
use miya_core.Optr.{Optr, set_addr, caddr}
use miya_core.Optr.Laws.{
  IsNear, set_addr-IsOptr, IsOptr, address, set_addr-address, address-set_addr,
}
use miya_core.Memory.{Bytes}
use miya_core.Memory.Laws.{read, write, read-write, read-write_outside}

abbrev pub word_of : List ℕ → ℕ
word_of (a ∷ b ∷ c ∷ d ∷ e ∷ []) = a * 2 ^ 32 + b * 2 ^ 24 + c * 2 ^ 16 + d * 2 ^ 8 + e
word_of bs = 0

abbrev pub Words : Type 0
Words = ℕ → ℕ

abbrev pub put : Words → ℕ → ℕ → Words
put w k v j = if j == k then v else w j

-- The pointer to a word.
abbrev pub ptr : ℕ → Optr
ptr k = set_addr (5 * k)

-- The word lies in what pointers reach.
abbrev pub Reached : ℕ → Type 0
Reached k = 5 * k + 5 ≤ 2 ^ 24

-- The bytes hold the words.
pub record Rep (m : Bytes) (w : Words) : Type 0 where
  pub bytes : (a : ℕ) → m a < 2 ^ 8
  pub words : (k : ℕ) → Reached k → word_of (read m (5 * k) 5) ≡ w k

pub ptr-address : (k : ℕ) → Reached k → address (ptr k) ≡ 5 * k
ptr-address k h = omega (arith, address-set_addr (5 * k))

pub ptr-IsNear : (k : ℕ) → Reached k → IsNear (ptr k)
ptr-IsNear k h = record { optr = set_addr-IsOptr (5 * k); near = omega (arith, ptr-address k h) }

-- The bytes of a word are those of the pointer with its number.
pub read-caddr :
    (m : Bytes) (w : Words) (k : ℕ)
    → Rep m w
    → Reached k
    → read m (5 * k) 5 ≡ caddr (set_addr (w k))
unfolding read caddr
read-caddr m w k r h =
    rw (← r.words k h) (go _ _ _ _ _ (r.bytes _) (r.bytes _) (r.bytes _) (r.bytes _) (r.bytes _))
  where
    go :
        (a b c d e : ℕ)
        → a < 2 ^ 8
        → b < 2 ^ 8
        → c < 2 ^ 8
        → d < 2 ^ 8
        → e < 2 ^ 8
        → a ∷ b ∷ c ∷ d ∷ e ∷ []
          ≡ caddr (set_addr (a * 2 ^ 32 + b * 2 ^ 24 + c * 2 ^ 16 + d * 2 ^ 8 + e))
    go a b c d e p q r s t = ap caddr (
        sym (
          set_addr-address (record { b0 = a; b1 = b; b2 = c; b3 = d; b4 = e })
            (record { byte0 = p; byte1 = q; byte2 = r; byte3 = s; byte4 = t })))

write-bytes :
    (m : Bytes) (a : ℕ) (o : Optr)
    → IsOptr o
    → ((b : ℕ) → m b < 2 ^ 8)
    → (b : ℕ) → write m a (caddr o) b < 2 ^ 8
unfolding write caddr
write-bytes m a o v h b = ground (arith, h b)

pub length-caddr : (o : Optr) → length (caddr o) ≡ 5
unfolding caddr
length-caddr o = refl

apart : (j k : ℕ) → j ≢ k → (5 * j + 5 ≤ 5 * k) ⊎ (5 * k + 5 ≤ 5 * j)
apart j k ne = ground arith

word-write :
    (m : Bytes) (k : ℕ) (o : Optr)
    → word_of (read (write m (5 * k) (caddr o)) (5 * k) 5) ≡ address o
unfolding caddr
word-write m k o = ap word_of (read-write m (5 * k) (caddr o))

-- Storing a pointer in a word changes that word, and no other.
pub write-Rep :
    (m : Bytes) (w : Words) (k : ℕ) (o : Optr)
    → Rep m w
    → IsOptr o
    → Rep (write m (5 * k) (caddr o)) (put w k (address o))
write-Rep m w k o r v = record {
  bytes = write-bytes m (5 * k) o v r.bytes;
  words = λ j h. elim (Bool-cases (j == k)) [
    | inl e ↦ let same : j ≡ k = ground arith in rw e (rw same (word-write m k o))
    | inr e ↦
        rw
          (
            e,
            read-write_outside m (5 * j) 5 (5 * k) (caddr o)
                (rw (length-caddr o) (apart j k (ground arith))),
          )
          (r.words j h)
  ];
}
