-- ===== src/Transaction/Paid.antt =====
-- The outputs of a transaction that are written and read back, tx_out.cpp and p2pkh.cpp.
use miya_core.Transaction.P2pkh.{pieces, import_outs, export_outs}
use miya_core.Base.{
  ◌%◌, ◌*◌, ◌^◌, ◌<◌, ◌+◌, append-nil, ℕ, ◌≡◌, refl, sym, ap, ◌∙◌, some, List, [], ◌∷◌, ◌++◌,
  append_assoc, arith, length, length-append, drop,
}
use miya_core.Base.Bytes.{memcpy-drop, drop-append, memcpy, memcpy-append_exact, drop-append_exact}
use miya_core.Base.Endian.{be64}
use miya_core.Script.RoundTrip.{encode}
use miya_core.Script.P2pkh.{p2pkh_pk_script}
use miya_core.Script.Within.{import_within, import_within-encode}
use miya_core.Transaction.TxOut.{TxOut, new_tx_out, export_tx_out, export_by_hash, import_tx_out}
use miya_core.Transaction.Export.{
  length-encode_out, encode_out, written_out, export_with_hash-encode_out, p2pkh_pk_script-IsScript,
  length-p2pkh_pk_script,
}

-- An output to a hash of twenty bytes, with a value of eight.
pub record IsPaid (o : TxOut) : Type 0 where
  pub hash : List ℕ
  pub value_length : length o.value ≡ 8
  pub hash_length : length hash ≡ 20
  pub has_hash : o.pub_key_hash ≡ some hash

abbrev pub ArePaid : List TxOut → Type 0
ArePaid [] = Unit {0}
ArePaid (o ∷ outs) = IsPaid o × ArePaid outs

-- The output that is written, and read back.
unfoldable pub paid_out : TxOut → List ℕ → TxOut
paid_out o hash = record {
  value = o.value;
  pk_script_bytes = be64 25;
  pk_script = p2pkh_pk_script hash;
  pub_key_hash = some hash;
}

export_tx_out-paid_out :
    (o : TxOut) (v : IsPaid o) → export_tx_out o ≡ some (paid_out o v.hash, encode_out o v.hash)
unfolding export_tx_out paid_out written_out
export_tx_out-paid_out o v =
    ap (export_by_hash o) v.has_hash
    ∙ export_with_hash-encode_out o v.hash v.value_length v.hash_length
    ∙ rw v.has_hash refl

import_tx_out-encode_out :
    (o : TxOut) (hash rest : List ℕ)
    → length o.value ≡ 8
    → length hash ≡ 20
    → import_tx_out new_tx_out (encode_out o hash ++ rest) ≡ some (paid_out o hash, 41)
unfolding import_tx_out new_tx_out encode_out paid_out
import_tx_out-encode_out o hash rest v h =
    let pk = encode (p2pkh_pk_script hash) in
    let n = length-p2pkh_pk_script hash h in
    let raw = encode_out o hash ++ rest in
    let whole : raw ≡ o.value ++ (be64 25 ++ (pk ++ rest)) = simp append_assoc in
    let a : memcpy 8 raw ≡ some o.value =
      rw whole (memcpy-append_exact 8 o.value (be64 25 ++ (pk ++ rest)) (sym v)) in
    let b : memcpy 8 (drop 8 raw) ≡ some (be64 25) =
      rw whole (memcpy-drop 8 8 o.value (be64 25) (pk ++ rest) (sym v) refl) in
    let at16 : raw ≡ (o.value ++ be64 25) ++ (pk ++ rest) = simp append_assoc in
    let c : drop 16 raw ≡ pk ++ rest = rw at16 (
      drop-append_exact 16 (o.value ++ be64 25) (pk ++ rest)
        (omega (arith, v, length-append o.value (be64 25)))) in
    let d : import_within [] (pk ++ rest) 25 ≡ some (p2pkh_pk_script hash, 25) =
      ap (import_within [] (pk ++ rest)) (sym n)
      ∙ import_within-encode (p2pkh_pk_script hash) rest (p2pkh_pk_script-IsScript hash h)
      ∙ ap (λ k. some (p2pkh_pk_script hash, k)) n in
    rw (a, b, c, d) (unfold p2pkh_pk_script in refl)

unfoldable pub paid_outs : (outs : List TxOut) → ArePaid outs → List TxOut
paid_outs [] v = []
paid_outs (o ∷ outs) (v, w) = paid_out o v.hash ∷ paid_outs outs w

unfoldable pub encode_outs : (outs : List TxOut) → ArePaid outs → List (List ℕ)
encode_outs [] v = []
encode_outs (o ∷ outs) (v, w) = encode_out o v.hash ∷ encode_outs outs w

pub length-encode_outs :
    (outs : List TxOut) (v : ArePaid outs) → length (pieces (encode_outs outs v)) ≡ 41 * length outs
unfolding encode_outs pieces
length-encode_outs [] v = refl
length-encode_outs (o ∷ outs) (v, w) = omega (
  arith,
  length-append (encode_out o v.hash) (pieces (encode_outs outs w)),
  length-encode_out o v.hash v.value_length v.hash_length,
  length-encode_outs outs w,
)

pub export_outs-paid_outs :
    (outs : List TxOut) (v : ArePaid outs)
    → export_outs outs ≡ some (paid_outs outs v, encode_outs outs v)
unfolding export_outs paid_outs encode_outs
export_outs-paid_outs [] v = refl
export_outs-paid_outs (o ∷ outs) (v, w) =
    rw (export_tx_out-paid_out o v, export_outs-paid_outs outs w)

pub import_outs-encode_outs :
    (outs acc : List TxOut) (v : ArePaid outs) (pre rest : List ℕ)
    → length (pre ++ pieces (encode_outs outs v)) < 2 ^ 32
    → import_outs (length outs) acc (pre ++ (pieces (encode_outs outs v) ++ rest)) (length pre)
      ≡ some (acc ++ paid_outs outs v, length (pre ++ pieces (encode_outs outs v)))
unfolding import_outs paid_outs encode_outs pieces
import_outs-encode_outs [] acc v pre rest b = rw (append-nil acc, append-nil pre)
import_outs-encode_outs (o ∷ outs) acc (v, w) pre rest b =
    let e = encode_out o v.hash in
    let es = pieces (encode_outs outs w) in
    let whole : pre ++ ((e ++ es) ++ rest) ≡ pre ++ (e ++ (es ++ rest)) = simp append_assoc in
    let next : pre ++ (e ++ (es ++ rest)) ≡ (pre ++ e) ++ (es ++ rest) = simp append_assoc in
    let one : import_tx_out new_tx_out (drop (length pre) (pre ++ (e ++ (es ++ rest))))
        ≡ some (paid_out o v.hash, 41) =
      rw (drop-append pre (e ++ (es ++ rest)))
        (import_tx_out-encode_out o v.hash (es ++ rest) v.value_length v.hash_length) in
    let b' : length ((pre ++ e) ++ es) < 2 ^ 32 = rw (append_assoc pre e es) b in
    let n : (length pre + 41) % 2 ^ 32 ≡ length (pre ++ e) = omega (
      arith,
      length-append pre e,
      length-encode_out o v.hash v.value_length v.hash_length,
      length-append (pre ++ e) es,
      b',
    ) in
    let more = import_outs-encode_outs outs (acc ++ paid_out o v.hash ∷ []) w (pre ++ e) rest b' in
    rw (
      whole,
      one,
      n,
      next,
      more,
      append_assoc acc (paid_out o v.hash ∷ []) (paid_outs outs w),
      append_assoc pre e es,
    )
