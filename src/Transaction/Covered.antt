-- ===== src/Transaction/Covered.antt =====
-- The two forms of an input that a signature covers, tx_in.cpp, and the loop over them in
-- P2PKH::txHashOnTxIn, p2pkh.cpp.
use miya_core.Transaction.Signature.{SignatureScript, export_pub_key_hash}
use miya_core.Transaction.PrevOut.{PrevOut, export_prev_out}
use miya_core.Transaction.TxIn.{export_empty, export_with_pub_key_hash, TxIn}
use miya_core.Transaction.OpenSsl.{OpenSsl}
use miya_core.Transaction.P2pkh.{assemble, P2pkh, pieces, export_ins_on, export_at}
use miya_core.Base.{
  ltb_of_lt, ◌*◌, ltb, suc, ==_self, ◌==◌, false, true, ◌<◌, ◌+◌, ℕ, ◌%◌, ◌^◌, ◌≡◌, refl, sym, some,
  List, [], ◌∷◌, ◌++◌, arith, length, length-append,
}
use miya_core.Base.Bytes.{memcpy_exact}
use miya_core.Base.Endian.{be32}

-- An input that names an output by an id of thirty-two bytes.
abbrev pub HasId : {Key : Type 0} → TxIn Key → Type 0
HasId t = length t.prev_out.tx_id ≡ 32

abbrev pub HaveIds : {Key : Type 0} → List (TxIn Key) → Type 0
HaveIds [] = Unit
HaveIds (t ∷ ins) = HasId t × HaveIds ins

-- The count of the bytes of inputs without their scripts.
abbrev pub bare_size : {Key : Type 0} → List (TxIn Key) → ℕ
bare_size [] = 0
bare_size (t ∷ ins) = 32 + length t.prev_out.index + length t.sequence + bare_size ins

export_prev_out-HasId :
    (p : PrevOut) → length p.tx_id ≡ 32 → export_prev_out p ≡ some (p.tx_id ++ p.index)
unfolding export_prev_out
export_prev_out-HasId p h = rw (memcpy_exact 32 p.tx_id (sym h))

-- The bytes that one signature of the transaction covers are fewer than 2 ^ 32.
abbrev pub IsBelow : {Key : Type 0} → P2pkh Key → Type 0
IsBelow tx = 36 + bare_size tx.ins + 41 * length tx.outs < 2 ^ 32

pub bare_size-replace :
    {Key : Type 0} (front : List (TxIn Key)) (t t' : TxIn Key) (rest : List (TxIn Key))
    → t'.prev_out ≡ t.prev_out
    → t'.sequence ≡ t.sequence
    → bare_size (front ++ t' ∷ rest) ≡ bare_size (front ++ t ∷ rest)
bare_size-replace [] t t' rest p q = rw (p, q) refl
bare_size-replace (x ∷ front) t t' rest p q = omega (arith, bare_size-replace front t t' rest p q)

pub assemble-some :
    (version : List ℕ) (n m : ℕ) (ins outs : List (List ℕ))
    → 12 + length (pieces ins) + length (pieces outs) < 2 ^ 32
    → (raw : List ℕ) × (assemble version n ins m outs ≡ some raw)
unfolding assemble
assemble-some version n m ins outs h =
    let a : ltb (length (pieces ins)) (2 ^ 32) ≡ true = ltb_of_lt _ _ (omega arith) in
    let b : ltb (length (pieces outs)) (2 ^ 32) ≡ true = ltb_of_lt _ _ (omega arith) in
    let c : ltb (4 + 4 + length (pieces ins) + 4 + length (pieces outs)) (2 ^ 32) ≡ true =
      ltb_of_lt _ _ (omega arith) in
    (version ++ (be32 n ++ (pieces ins ++ (be32 m ++ pieces outs))), rw (a, b, c))

module _ (l : OpenSsl) where
  open l use {Key}

  -- An input whose signature script is gone, with everything else that verify reads.
  abbrev pub Cleared : TxIn Key → TxIn Key → Type 0
  Cleared t t' =
      (t'.prev_out ≡ t.prev_out) × (t'.signature_script.script ≡ []) × (t'.sequence ≡ t.sequence)

  pub export_with_pub_key_hash-Cleared :
      (t : TxIn Key) (k : Key)
      → HasId t
      → t.signature_script.pkey ≡ some k
      → length (l.sha1 (l.to_raw_pub_key k)) ≡ 20
      → (t' : TxIn Key) × (raw : List ℕ) × (export_with_pub_key_hash l t ≡ some (t', raw))
        × Cleared t t'
        × (length raw ≡ 32 + length t.prev_out.index + length t.sequence + 24)
  unfolding export_with_pub_key_hash export_pub_key_hash
  export_with_pub_key_hash-Cleared t k h e n =
      let md = l.sha1 (l.to_raw_pub_key k) in
      let s : SignatureScript Key = record t.signature_script { script = [] } in
      let t' : TxIn Key = record t { signature_script = s; script_bytes = be32 (length md) } in
      let q : length md % 2 ^ 16 ≡ length md = omega (arith, n) in
      (
        t',
        t.prev_out.tx_id ++ t.prev_out.index ++ (be32 (length md) ++ (md ++ t.sequence)),
        rw (e, export_prev_out-HasId t.prev_out h, memcpy_exact (length md % 2 ^ 16) md q),
        (refl, refl, refl),
        omega (
          arith,
          h,
          n,
          length-append t.prev_out.tx_id t.prev_out.index,
          length-append md t.sequence,
          length-append (t.prev_out.tx_id ++ t.prev_out.index)
              (be32 (length md) ++ (md ++ t.sequence)),
        ),
      )

  export_at-false :
      (t : TxIn Key)
      → HasId t
      → export_at l false t ≡ some (t, t.prev_out.tx_id ++ t.prev_out.index ++ t.sequence)
  unfolding export_at export_empty
  export_at-false t h = rw (export_prev_out-HasId t.prev_out h)

  length-bare :
      (t : TxIn Key)
      → HasId t
      → length (t.prev_out.tx_id ++ t.prev_out.index ++ t.sequence)
        ≡ 32 + length t.prev_out.index + length t.sequence
  length-bare t h = omega (
    arith,
    h,
    length-append t.prev_out.tx_id t.prev_out.index,
    length-append (t.prev_out.tx_id ++ t.prev_out.index) t.sequence,
  )

  -- Behind the index the inputs are written without their scripts and stay as they are.
  export_ins_on-behind :
      (i index : ℕ) (ins : List (TxIn Key))
      → index < i
      → HaveIds ins
      → (raws : List (List ℕ)) × (export_ins_on l i index ins ≡ some (ins, raws))
        × (length (pieces raws) ≡ bare_size ins)
  unfolding export_ins_on pieces
  export_ins_on-behind i index [] h v = ([], refl, refl)
  export_ins_on-behind i index (t ∷ ins) h (v, w) =
      let ne : (i == index) ≡ false = ground arith in
      let (raws, e, m) = export_ins_on-behind (i + 1) index ins (omega arith) w in
      let raw = t.prev_out.tx_id ++ t.prev_out.index ++ t.sequence in
      (
        raw ∷ raws,
        rw (ne, export_at-false t v, e),
        omega (arith, length-append raw (pieces raws), length-bare t v),
      )

  -- The input at the index is written with the hash of its key, and loses its script.
  pub export_ins_on-Cleared :
      (i : ℕ) (front : List (TxIn Key)) (t : TxIn Key) (k : Key) (ins : List (TxIn Key))
      → HaveIds front
      → HasId t
      → HaveIds ins
      → t.signature_script.pkey ≡ some k
      → length (l.sha1 (l.to_raw_pub_key k)) ≡ 20
      → (t' : TxIn Key) × (raws : List (List ℕ)) × (export_ins_on l i
            (i + length front)
            (front ++ t ∷ ins)
          ≡ some (front ++ t' ∷ ins, raws))
        × Cleared t t'
        × (length (pieces raws) ≡ bare_size (front ++ t ∷ ins) + 24)
  unfolding export_ins_on pieces
  export_ins_on-Cleared i [] t k ins f v w e n =
      let z : i + 0 ≡ i = omega arith in
      let (t', raw, q, c, m) = export_with_pub_key_hash-Cleared t k v e n in
      let (raws, b, r) = export_ins_on-behind (i + 1) i ins (omega arith) w in
      let u : export_at l true t ≡ some (t', raw) = unfold export_at in q in
      (t', raw ∷ raws, rw (z, ==_self i, u, b), c, omega (arith, length-append raw (pieces raws)))
  export_ins_on-Cleared i (x ∷ front) t k ins (f, g) v w e n =
      let ne : (i == i + suc (length front)) ≡ false = ground arith in
      let z : i + suc (length front) ≡ i + 1 + length front = omega arith in
      let (t', raws, q, c, m) = export_ins_on-Cleared (i + 1) front t k ins g v w e n in
      let q' : export_ins_on l (i + 1) (i + suc (length front)) (front ++ t ∷ ins)
          ≡ some (front ++ t' ∷ ins, raws) =
        rw z q in
      (
        t',
        (x.prev_out.tx_id ++ x.prev_out.index ++ x.sequence) ∷ raws,
        rw (ne, export_at-false x f, q'),
        c,
        omega (
          arith,
          m,
          length-append (x.prev_out.tx_id ++ x.prev_out.index ++ x.sequence) (pieces raws),
          length-bare x f,
        ),
      )
