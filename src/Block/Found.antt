-- ===== src/Block/Found.antt =====
-- What simpleMining finds, simple_mining.cpp, verifies as the nonce of its header.
use miya_core.Base.{
  ◌/◌, replicate, ◌≢◌, set, compare-cases, ℕ, zero, suc, ◌+◌, ◌-◌, ◌%◌, ◌^◌, ◌≤◌, ◌<◌, ◌≡◌, refl,
  sym, ap, ◌∙◌, Bool, true, false, some, List, [], ◌∷◌, ◌++◌, append_assoc, arith, length,
  length-append, length-set, take, Bool-cases, inl, inr,
}
use miya_core.Base.Endian.{le32}
use miya_core.Base.Fallible.{>>=-eq-some}
use miya_core.Transaction.OpenSsl.{OpenSsl}
use miya_core.Block.Header.{
  mask_shift, BlockHeader, export_header, generaten_bit_mask, mbitcmp_loop, mbitcmp, verify_header,
}
use miya_core.Block.Mining.{put_nonce, mining_loop, simple_mining}

-- A comparison of enough bytes has an answer.
mbitcmp_loop-some :
    (n : ℕ) (mask hash : List ℕ)
    → length mask ≡ n
    → length hash ≡ n
    → (b : Bool) × (mbitcmp_loop n mask hash ≡ some b)
unfolding mbitcmp_loop
mbitcmp_loop-some zero mask hash e f = (true, refl)
mbitcmp_loop-some (suc n) [] hash e f = absurd (omega arith)
mbitcmp_loop-some (suc n) (m ∷ mask) [] e f = absurd (omega arith)
mbitcmp_loop-some (suc n) (m ∷ mask) (h ∷ hash) e f =
    let (b, q) = mbitcmp_loop-some n mask hash (omega arith) (omega arith) in
    elim (compare-cases m h) [
      | inl lt ↦ (false, ground arith)
      | inr (inl eq) ↦ (b, ground arith)
      | inr (inr gt) ↦ (true, ground arith)
    ]

mbitcmp-some :
    (mask hash : List ℕ)
    → length mask ≡ 32
    → length hash ≡ 32
    → (b : Bool) × (mbitcmp mask hash ≡ some b)
unfolding mbitcmp
mbitcmp-some mask hash e f = mbitcmp_loop-some 32 mask hash e f

length-three_set : (i j k a b c : ℕ) → length (set (set (set (replicate 32 0) i a) j b) k c) ≡ 32
length-three_set i j k a b c =
    length-set (set (set (replicate 32 0) i a) j b) k c
    ∙ length-set (set (replicate 32 0) i a) j b
    ∙ length-set (replicate 32 0) i a

length-generaten_bit_mask :
    (n_bits : ℕ) (mask : List ℕ) → generaten_bit_mask n_bits ≡ some mask → length mask ≡ 32
unfolding generaten_bit_mask
length-generaten_bit_mask n_bits mask h =
    let s = mask_shift (n_bits / 16777216 % 256) in
    ground (
      arith,
      length-three_set (29 - s) (30 - s) (31 - s) (n_bits / 65536 % 256) (n_bits / 256 % 256)
          (n_bits % 256),
    )

take-append : (xs ys : List ℕ) → take (length xs) (xs ++ ys) ≡ xs
take-append [] ys = refl
take-append (x ∷ xs) ys = ap (◌∷◌ x) (take-append xs ys)

put_nonce-append :
    (front : List ℕ) (old nonce : ℕ) → put_nonce (front ++ le32 old) nonce ≡ front ++ le32 nonce
unfolding put_nonce
put_nonce-append front old nonce =
    let n : length (front ++ le32 old) - 4 ≡ length front =
      omega (arith, length-append front (le32 old)) in
    rw (n, take-append front (le32 old))

-- A candidate stands where the header has its nonce.
put_nonce-export_header :
    (h : BlockHeader) (nonce : ℕ)
    → put_nonce (export_header h) nonce ≡ export_header (record h { nonce = nonce })
unfolding export_header
put_nonce-export_header h nonce =
    let front =
      le32 h.version
      ++ (h.previous_block_header_hash ++ (h.merkle_root ++ (le32 h.time ++ le32 h.n_bits))) in
    let whole : export_header h ≡ front ++ le32 h.nonce = simp append_assoc in
    let after : front ++ le32 nonce ≡ export_header (record h { nonce = nonce }) =
      simp append_assoc in
    ap (λ raw. put_nonce raw nonce) whole ∙ put_nonce-append front h.nonce nonce ∙ after

false-ne-true : some false ≡ some true → ⊥
false-ne-true h = cc

module _ (l : OpenSsl) (mask raw : List ℕ) where
  -- Whether a candidate is found.
  abbrev Tried : ℕ → Bool → Type 0
  Tried k b = mbitcmp mask (l.sha256 (put_nonce raw k)) ≡ some b

  mining_loop-found : (fuel c : ℕ) → Tried c true → mining_loop l (suc fuel) mask raw c ≡ some c
  unfolding mining_loop
  mining_loop-found fuel c e = rw e

  mining_loop-more :
      (fuel c : ℕ)
      → Tried c false
      → c + 1 < 2 ^ 32
      → mining_loop l (suc fuel) mask raw c ≡ mining_loop l fuel mask raw (c + 1)
  unfolding mining_loop
  mining_loop-more fuel c e h = let z : (c + 1) % 2 ^ 32 ≡ c + 1 = omega arith in rw (e, z)

  -- From a candidate on, the first that is found.
  mining_loop-first :
      (all : (k : ℕ) → (b : Bool) × Tried k b) (n fuel c : ℕ)
      → n < 2 ^ 32
      → Tried n true
      → c ≤ n
      → n < c + fuel
      → (m : ℕ) × (mining_loop l fuel mask raw c ≡ some m)
        × (m ≤ n)
        × Tried m true
        × ((k : ℕ) → c ≤ k → k < m → Tried k false)
  mining_loop-first all n zero c s t p q = absurd (omega arith)
  mining_loop-first all n (suc fuel) c s t p q =
      let (b, e) = all c in
      elim (Bool-cases b) [
        | inl found ↦
            let e' : Tried c true = rw (← found) e in
            (c, mining_loop-found fuel c e', p, e', λ k f g. absurd (omega arith))
        | inr missed ↦
            let e' : Tried c false = rw (← missed) e in
            let ne : c ≢ n = λ same. false-ne-true (sym e' ∙ rw same t) in
            let small : c + 1 < 2 ^ 32 = ground (arith, ne) in
            let (m, r, d, good, before) =
              mining_loop-first all n fuel (c + 1) s t (ground (arith, ne)) (omega arith) in
            (
              m,
              mining_loop-more fuel c e' small ∙ r,
              d,
              good,
              λ k f g. elim (compare-cases c k) [
                | inl lt ↦ before k (omega arith) g
                | inr (inl same) ↦ rw (← same) e'
                | inr (inr gt) ↦ absurd (omega arith)
              ],
            )
      ]

-- Where SHA-256 yields 32 bytes, and the header with the mask bits asked for and some nonce
-- below 2 ^ 32 verifies, simpleMining with fuel above that nonce ends, with the least nonce for
-- which the header verifies.
pub simple_mining-verify_header :
    (l : OpenSsl) (fuel n_bits n : ℕ) (h : BlockHeader)
    → ((bs : List ℕ) → length (l.sha256 bs) ≡ 32)
    → n < 2 ^ 32
    → n < fuel
    → verify_header l (record h { n_bits = n_bits; nonce = n }) ≡ some true
    → (m : ℕ) × (simple_mining l fuel n_bits h ≡ some m)
      × (m ≤ n)
      × (verify_header l (record h { n_bits = n_bits; nonce = m }) ≡ some true)
      × ((k : ℕ) → k < m → verify_header l (record h { n_bits = n_bits; nonce = k }) ≡ some false)
unfolding simple_mining verify_header
simple_mining-verify_header l fuel n_bits n h sha256_length s f v =
    let (mask, e, t) = >>=-eq-some (generaten_bit_mask n_bits) _ v in
    let raw = export_header (record h { n_bits = n_bits }) in
    let put = put_nonce-export_header (record h { n_bits = n_bits }) in
    let all : (k : ℕ) → (b : Bool) × Tried l mask raw k b = λ k.
      mbitcmp-some mask (l.sha256 (put_nonce raw k)) (length-generaten_bit_mask n_bits mask e)
        (sha256_length (put_nonce raw k)) in
    let tried : Tried l mask raw n true = rw (put n) t in
    let (m, r, b, found, before) =
      mining_loop-first l mask raw all n fuel 0 s tried (omega arith) (omega arith) in
    (m, rw e r, b, rw (e, ← put m) found, λ k g. rw (e, ← put k) (before k (omega arith) g))
