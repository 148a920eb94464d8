-- ===== src/Transaction/Signed.antt =====
-- The raw form of a signed input, tx_in.cpp and signature_script.cpp, and what importRaw makes of
-- it.
use miya_core.Script.Within.{import_within-encode}
use miya_core.Transaction.PrevOut.{import_prev_out, export_prev_out}
use miya_core.Base.{
  refl, append_assoc, sym, leb, false, true, ℕ, ◌+◌, ◌%◌, ◌^◌, ◌≤◌, ◌<◌, ◌≡◌, some, List, [], ◌∷◌,
  ◌++◌, arith, length, length-append, drop,
}
use miya_core.Base.Bytes.{
  memcpy-drop, memcpy_all, memcpy, memcpy_exact, memcpy-append_exact, drop-append_exact,
}
use miya_core.Base.Endian.{of_be-be32, be32}
use miya_core.Script.{Script, op_data}
use miya_core.Script.RoundTrip.{IsLength, IsScript, encode, export_raw-encode}
use miya_core.Script.P2pkh.Verify.{signed-IsScript}
use miya_core.Transaction.OpenSsl.{OpenSsl}
use miya_core.Transaction.Signature.{
  new_signature_script, import_signature_script, SignatureScript, signed_script, export_signature,
}
use miya_core.Transaction.TxIn.{new_tx_in, import_tx_in, export_with_signature, TxIn}

module _ (l : OpenSsl) where
  open l use {Key, to_pkey, to_raw_pub_key}

  -- An input whose parts have the lengths that the raw form gives them, signed under a key.
  pub record IsSignedIn (t : TxIn Key) : Type 0 where
    pub pkey : Key
    pub sign : List ℕ
    pub id_length : length t.prev_out.tx_id ≡ 32
    pub index_length : length t.prev_out.index ≡ 4
    pub sequence_length : length t.sequence ≡ 4
    pub signed : t.signature_script.is_signed ≡ true
    pub has_pkey : t.signature_script.pkey ≡ some pkey
    pub has_sign : t.signature_script.sign ≡ some sign
    pub has_length : t.signature_script.sign_length ≡ length sign
    pub sign_some : 0 < length sign
    pub key_some : 0 < length (to_raw_pub_key pkey)
    pub sign_fits : length sign < 2 ^ 8
    pub key_fits : length (to_raw_pub_key pkey) < 2 ^ 8
    pub long : 19 ≤ length sign + length (to_raw_pub_key pkey)
    pub sign_IsLength : IsLength (length sign)
    pub key_IsLength : IsLength (length (to_raw_pub_key pkey))

  -- The script of such an input.
  abbrev pub script_of : List ℕ → List ℕ → Script
  script_of sign key = (op_data (length sign), some sign) ∷ (op_data (length key), some key) ∷ []

  length-script_of :
      (sign key : List ℕ) → length (encode (script_of sign key)) ≡ 2 + length sign + length key
  unfolding encode
  length-script_of sign key =
      omega (arith, length-append sign (length key ∷ (key ++ [])), length-append key [])

  module _ (t : TxIn Key) (v : IsSignedIn t) where
    abbrev pub its_key : List ℕ
    its_key = to_raw_pub_key v.pkey

    abbrev pub its_script : Script
    its_script = script_of v.sign its_key

    abbrev pub its_bytes : List ℕ
    its_bytes = encode its_script

    -- The bytes of the input.
    unfoldable pub encode_in : List ℕ
    encode_in =
        (t.prev_out.tx_id ++ t.prev_out.index)
        ++ (be32 (length its_bytes) ++ (its_bytes ++ t.sequence))

    pub its_length : length its_bytes ≡ 2 + length v.sign + length its_key
    its_length = length-script_of v.sign its_key

    its-IsScript : IsScript its_script
    its-IsScript =
        signed-IsScript v.sign its_key v.sign_some v.key_some v.sign_IsLength v.key_IsLength

    signed_script-its_script : signed_script l t.signature_script v.pkey ≡ its_script
    unfolding signed_script
    signed_script-its_script =
        let u : length v.sign % 2 ^ 8 ≡ length v.sign = omega (arith, v.sign_fits) in
        let w : length its_key % 2 ^ 8 ≡ length its_key = omega (arith, v.key_fits) in
        rw (v.has_length, v.has_sign, u, w)

    export_signature-its_bytes :
        export_signature l t.signature_script
        ≡ some (record t.signature_script { script = its_script }, its_bytes)
    unfolding export_signature
    export_signature-its_bytes =
        let q : length its_bytes % 2 ^ 16 ≡ length its_bytes =
          omega (arith, its_length, v.sign_fits, v.key_fits) in
        rw (
          v.has_pkey,
          signed_script-its_script,
          export_raw-encode its_script its-IsScript,
          memcpy_exact (length its_bytes % 2 ^ 16) its_bytes q,
        )

    -- The input as it is left by its export.
    unfoldable pub written_in : TxIn Key
    written_in = record t {
      signature_script = record t.signature_script { script = its_script };
      script_bytes = be32 (length its_bytes);
    }

    pub export_with_signature-encode_in : export_with_signature l t ≡ some (written_in, encode_in)
    unfolding export_with_signature encode_in written_in
    export_with_signature-encode_in =
        let p : export_prev_out t.prev_out ≡ some (t.prev_out.tx_id ++ t.prev_out.index) =
          unfold export_prev_out in rw (memcpy_exact 32 t.prev_out.tx_id (sym v.id_length)) in
        rw (p, export_signature-its_bytes)

    -- What is read of the signature script: no mark that it is signed.
    unfoldable pub received_script : SignatureScript Key
    received_script = record {
      script = its_script;
      sign = some v.sign;
      sign_length = length v.sign;
      is_signed = false;
      pkey = to_pkey its_key;
    }

    import_signature_script-its_bytes :
        (rest : List ℕ)
        → import_signature_script l new_signature_script (its_bytes ++ rest) (length its_bytes)
          ≡ some (received_script, length its_bytes)
    unfolding import_signature_script new_signature_script received_script
    import_signature_script-its_bytes rest =
        let b : leb (length its_bytes) 20 ≡ false = ground (arith, its_length, v.long) in
        rw (b, import_within-encode its_script rest its-IsScript, memcpy_all its_key)

    -- The input that is read back.
    unfoldable pub received_in : TxIn Key
    unfolding received_script
    received_in = record {
      prev_out = t.prev_out;
      script_bytes = be32 (length its_bytes);
      signature_script = received_script;
      sequence = t.sequence;
      pkey = some (to_pkey its_key);
    }

    pub length-encode_in : length encode_in ≡ 44 + length its_bytes
    unfolding encode_in
    length-encode_in = omega (
      arith,
      v.id_length,
      v.index_length,
      v.sequence_length,
      length-append t.prev_out.tx_id t.prev_out.index,
      length-append its_bytes t.sequence,
      length-append (t.prev_out.tx_id ++ t.prev_out.index)
          (be32 (length its_bytes) ++ (its_bytes ++ t.sequence)),
    )

    pub import_tx_in-encode_in :
        (rest : List ℕ)
        → import_tx_in l new_tx_in (encode_in ++ rest) ≡ some (received_in, length encode_in)
    unfolding import_tx_in new_tx_in encode_in received_in import_prev_out
    import_tx_in-encode_in rest =
        let n = length its_bytes in
        let o = be32 n in
        let id = t.prev_out.tx_id in
        let ix = t.prev_out.index in
        let behind = its_bytes ++ (t.sequence ++ rest) in
        let raw = encode_in ++ rest in
        let small : n < 2 ^ 32 = omega (arith, its_length, v.sign_fits, v.key_fits) in
        let whole : raw ≡ id ++ (ix ++ (o ++ behind)) = simp append_assoc in
        let pre : length (id ++ ix) ≡ 36 =
          omega (arith, length-append id ix, v.id_length, v.index_length) in
        let a : memcpy 32 raw ≡ some id =
          rw whole (memcpy-append_exact 32 id (ix ++ (o ++ behind)) (sym v.id_length)) in
        let b : memcpy 4 (drop 32 raw) ≡ some ix =
          rw whole (memcpy-drop 32 4 id ix (o ++ behind) (sym v.id_length) (sym v.index_length)) in
        let at36 : raw ≡ (id ++ ix) ++ (o ++ behind) = simp append_assoc in
        let c : memcpy 4 (drop 36 raw) ≡ some o =
          rw at36 (memcpy-drop 36 4 (id ++ ix) o behind (sym pre) refl) in
        let at40 : raw ≡ (id ++ ix ++ o) ++ behind = simp append_assoc in
        let d : drop 40 raw ≡ behind = rw at40 (
          drop-append_exact 40 (id ++ ix ++ o) behind
            (omega (arith, pre, length-append (id ++ ix) o))) in
        let at_end : raw ≡ (id ++ ix ++ o ++ its_bytes) ++ (t.sequence ++ rest) =
          simp append_assoc in
        let wrapped : (40 + n) % 2 ^ 32 ≡ 40 + n =
          omega (arith, its_length, v.sign_fits, v.key_fits) in
        let f : memcpy 4 (drop ((40 + n) % 2 ^ 32) raw) ≡ some t.sequence =
          rw (wrapped, at_end)
            (memcpy-drop (40 + n) 4 (id ++ ix ++ o ++ its_bytes) t.sequence rest
              (omega
                (arith, pre, length-append (id ++ ix) o, length-append (id ++ ix ++ o) its_bytes))
              (sym v.sequence_length)) in
        let k : memcpy (length its_key % 2 ^ 8) its_key ≡ some its_key =
          memcpy_exact (length its_key % 2 ^ 8) its_key (omega (arith, v.key_fits)) in
        let m : (40 + n + 4) % 2 ^ 32 ≡ length encode_in =
          omega (arith, length-encode_in, its_length, v.sign_fits, v.key_fits) in
        rw (
          a,
          b,
          c,
          d,
          of_be-be32 n small,
          import_signature_script-its_bytes (t.sequence ++ rest),
          k,
          f,
          m,
        )
