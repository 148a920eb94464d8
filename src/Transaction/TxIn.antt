-- ===== src/Transaction/TxIn.antt =====
-- chain/transaction/tx/tx_in.h and tx_in.cpp: an input, with its signature script. The lengths
-- are held as the bytes in memory, in network order; a key that no constructor sets is `none`.
use miya_core.Base.{
  ℕ, ◌+◌, ◌%◌, ◌^◌, Bool, Option, none, some, List, ◌++◌, length, drop, get_elem?, replicate,
}
use miya_core.Base.Bytes.{memcpy}
use miya_core.Base.Endian.{be32, of_be}
use miya_core.Base.Fallible.{◌>>=◌}
use miya_core.Script.{op_data_length, bytes_of, export_raw}
use miya_core.Transaction.OpenSsl.{OpenSsl}
use miya_core.Transaction.PrevOut.{PrevOut, new_prev_out, export_prev_out, import_prev_out}
use miya_core.Transaction.Signature.{
  SignatureScript, new_signature_script, set_sign, export_pub_key_hash, export_signature,
  import_signature_script,
}

pub record TxIn (Key : Type 0) : Type 0 where
  pub prev_out : PrevOut
  pub script_bytes : List ℕ
  pub signature_script : SignatureScript Key
  pub sequence : List ℕ
  pub pkey : Option (Option Key)

-- TxIn::TxIn() and TxIn::Meta::Meta()
unfoldable pub new_tx_in : {Key : Type 0} → TxIn Key
unfolding new_signature_script
new_tx_in = record {
  prev_out = new_prev_out;
  script_bytes = replicate 4 0;
  signature_script = new_signature_script;
  sequence = replicate 4 255;
  pkey = none;
}

-- unsigned int TxIn::scriptBytes()
abbrev pub script_length : {Key : Type 0} → TxIn Key → ℕ
script_length t = of_be t.script_bytes

-- bool TxIn::isSigned()
abbrev pub is_signed : {Key : Type 0} → TxIn Key → Bool
is_signed t = t.signature_script.is_signed

-- void TxIn::sign
unfoldable pub sign_tx_in : {Key : Type 0} → TxIn Key → List ℕ → ℕ → Bool → TxIn Key
unfolding set_sign
sign_tx_in t sign sign_length is_signed = record t {
  signature_script = set_sign t.signature_script sign sign_length is_signed;
}

-- unsigned int TxIn::exportRaw
unfoldable pub export_tx_in : {Key : Type 0} → TxIn Key → Option (TxIn Key × List ℕ)
unfolding export_prev_out
export_tx_in t = do
  p ← export_prev_out t.prev_out
  raw ← export_raw t.signature_script.script
  some (
    record t { script_bytes = be32 (length raw) },
    p ++ (be32 (length raw) ++ (raw ++ t.sequence)),
  )

-- unsigned int TxIn::exportRawWithEmpty
unfoldable pub export_empty : {Key : Type 0} → TxIn Key → Option (List ℕ)
unfolding export_prev_out
export_empty t = export_prev_out t.prev_out >>= λ p. some (p ++ t.sequence)

module _ (l : OpenSsl) where
  open l use {Key, to_pkey}

  -- The key that exportRawWithPubKeyHash sets where the signature script has none; reading a key
  -- that no one set has no defined result.
  unfoldable pub keyed : TxIn Key → Option Key → Option (TxIn Key)
  keyed t (some k) = some t
  keyed t none =
      t.pkey >>= λ k. some (record t { signature_script = record t.signature_script { pkey = k } })

  -- unsigned int TxIn::exportRawWithPubKeyHash
  unfoldable pub export_with_pub_key_hash : TxIn Key → Option (TxIn Key × List ℕ)
  unfolding keyed export_prev_out export_pub_key_hash
  export_with_pub_key_hash t = do
    t' ← keyed t t.signature_script.pkey
    p ← export_prev_out t'.prev_out
    (s, hash) ← export_pub_key_hash l t'.signature_script
    some (
      record t' { signature_script = s; script_bytes = be32 (length hash) },
      p ++ (be32 (length hash) ++ (hash ++ t'.sequence)),
    )

  -- unsigned int TxIn::exportRawWithSignatureScript, behind its test of isSigned
  unfoldable pub export_with_signature : TxIn Key → Option (TxIn Key × List ℕ)
  unfolding export_prev_out export_signature
  export_with_signature t = do
    p ← export_prev_out t.prev_out
    (s, raw) ← export_signature l t.signature_script
    some (
      record t { signature_script = s; script_bytes = be32 (length raw) },
      p ++ (be32 (length raw) ++ (raw ++ t.sequence)),
    )

  -- int TxIn::importRaw: the object, and the count of bytes read
  unfoldable pub import_tx_in : TxIn Key → List ℕ → Option (TxIn Key × ℕ)
  unfolding import_prev_out import_signature_script
  import_tx_in t raw = do
    (p, n) ← import_prev_out t.prev_out raw
    script_bytes ← memcpy 4 (drop n raw)
    (s, m) ← import_signature_script l t.signature_script (drop (n + 4) raw) (of_be script_bytes)
    e ← get_elem? s.script 1
    key ← memcpy (op_data_length e.0 % 2 ^ 8) (bytes_of e.1)
    sequence ← memcpy 4 (drop ((n + 4 + m) % 2 ^ 32) raw)
    some (
      record {
        prev_out = p;
        script_bytes = script_bytes;
        signature_script = s;
        sequence = sequence;
        pkey = some (to_pkey key);
      },
      (n + 4 + m + 4) % 2 ^ 32,
    )
