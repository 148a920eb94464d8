-- ===== src/Transaction/Inputs.antt =====
-- The inputs of a transaction that are written and read back, tx_in.cpp and p2pkh.cpp.
use miya_core.Transaction.TxIn.{new_tx_in, import_tx_in, TxIn}
use miya_core.Transaction.OpenSsl.{OpenSsl}
use miya_core.Transaction.P2pkh.{all_signed, import_ins, export_ins, pieces}
use miya_core.Base.{
  ◌≤◌, ◌%◌, ◌*◌, ◌^◌, ◌<◌, true, ◌+◌, append-nil, ℕ, ◌≡◌, refl, some, List, [], ◌∷◌, ◌++◌,
  append_assoc, arith, length, length-append, drop,
}
use miya_core.Base.Bytes.{drop-append}
use miya_core.Transaction.Signed.{
  its_length, length-encode_in, import_tx_in-encode_in, encode_in, received_in, IsSignedIn,
  export_with_signature-encode_in, written_in,
}

module _ (l : OpenSsl) where
  open l use {Key, sha256}

  abbrev pub AreSigned : List (TxIn Key) → Type 0
  AreSigned [] = Unit {0}
  AreSigned (t ∷ ins) = IsSignedIn l t × AreSigned ins

  -- The inputs as they are read back: as written, and not marked as signed.
  unfoldable pub received_ins : (ins : List (TxIn Key)) → AreSigned ins → List (TxIn Key)
  received_ins [] v = []
  received_ins (t ∷ ins) (v, w) = received_in l t v ∷ received_ins ins w

  unfoldable pub written_ins : (ins : List (TxIn Key)) → AreSigned ins → List (TxIn Key)
  written_ins [] v = []
  written_ins (t ∷ ins) (v, w) = written_in l t v ∷ written_ins ins w

  unfoldable pub encode_ins : (ins : List (TxIn Key)) → AreSigned ins → List (List ℕ)
  encode_ins [] v = []
  encode_ins (t ∷ ins) (v, w) = encode_in l t v ∷ encode_ins ins w

  -- The count of the bytes of the inputs, by those of the signatures and the keys.
  abbrev pub signed_size : (ins : List (TxIn Key)) → AreSigned ins → ℕ
  signed_size [] v = 0
  signed_size (t ∷ ins) (v, w) =
      46 + length v.sign + length (l.to_raw_pub_key v.pkey) + signed_size ins w

  pub length-encode_ins :
      (ins : List (TxIn Key)) (v : AreSigned ins)
      → length (pieces (encode_ins ins v)) ≡ signed_size ins v
  unfolding encode_ins pieces
  length-encode_ins [] v = refl
  length-encode_ins (t ∷ ins) (v, w) = omega (
    arith,
    length-append (encode_in l t v) (pieces (encode_ins ins w)),
    length-encode_in l t v,
    its_length l t v,
    length-encode_ins ins w,
  )

  pub few-signed_size :
      (ins : List (TxIn Key)) (v : AreSigned ins) → 46 * length ins ≤ signed_size ins v
  few-signed_size [] v = omega arith
  few-signed_size (t ∷ ins) (v, w) = omega (arith, few-signed_size ins w)

  pub all_signed-AreSigned : (ins : List (TxIn Key)) → AreSigned ins → all_signed ins ≡ true
  unfolding all_signed
  all_signed-AreSigned [] v = refl
  all_signed-AreSigned (t ∷ ins) (v, w) = rw (v.signed, all_signed-AreSigned ins w)

  pub export_ins-encode_ins :
      (ins : List (TxIn Key)) (v : AreSigned ins)
      → export_ins l ins ≡ some (written_ins ins v, encode_ins ins v)
  unfolding export_ins written_ins encode_ins
  export_ins-encode_ins [] v = refl
  export_ins-encode_ins (t ∷ ins) (v, w) =
      rw (export_with_signature-encode_in l t v, export_ins-encode_ins ins w)

  pub import_ins-encode_ins :
      (ins acc : List (TxIn Key)) (v : AreSigned ins) (pre rest : List ℕ)
      → length (pre ++ pieces (encode_ins ins v)) < 2 ^ 32
      → import_ins l (length ins) acc (pre ++ (pieces (encode_ins ins v) ++ rest)) (length pre)
        ≡ some (acc ++ received_ins ins v, length (pre ++ pieces (encode_ins ins v)))
  unfolding import_ins received_ins encode_ins pieces
  import_ins-encode_ins [] acc v pre rest b = rw (append-nil acc, append-nil pre)
  import_ins-encode_ins (t ∷ ins) acc (v, w) pre rest b =
      let e = encode_in l t v in
      let es = pieces (encode_ins ins w) in
      let whole : pre ++ ((e ++ es) ++ rest) ≡ pre ++ (e ++ (es ++ rest)) = simp append_assoc in
      let next : pre ++ (e ++ (es ++ rest)) ≡ (pre ++ e) ++ (es ++ rest) = simp append_assoc in
      let one : import_tx_in l new_tx_in (drop (length pre) (pre ++ (e ++ (es ++ rest))))
          ≡ some (received_in l t v, length e) =
        rw (drop-append pre (e ++ (es ++ rest))) (import_tx_in-encode_in l t v (es ++ rest)) in
      let b' : length ((pre ++ e) ++ es) < 2 ^ 32 = rw (append_assoc pre e es) b in
      let n : (length pre + length e) % 2 ^ 32 ≡ length (pre ++ e) =
        omega (arith, length-append pre e, length-append (pre ++ e) es, b') in
      let more = import_ins-encode_ins ins (acc ++ received_in l t v ∷ []) w (pre ++ e) rest b' in
      rw (
        whole,
        one,
        n,
        next,
        more,
        append_assoc acc (received_in l t v ∷ []) (received_ins ins w),
        append_assoc pre e es,
      )
