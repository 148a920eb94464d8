-- ===== src/Transaction/Export.antt =====
-- The raw form of an output: exportRaw of tx_out.cpp, and the loop over them.
use miya_core.Transaction.P2pkh.{pieces, export_outs}
use miya_core.Base.{
  ◌*◌, ◌≤◌, ◌∙◌, ap, suc, ℕ, ◌%◌, ◌^◌, ◌≡◌, refl, sym, none, some, List, [], ◌∷◌, ◌++◌, arith,
  length, length-append,
}
use miya_core.Base.Bytes.{memcpy_exact}
use miya_core.Base.Endian.{be64}
use miya_core.Script.{Data}
use miya_core.Script.RoundTrip.{IsScript, encode, export_raw-encode}
use miya_core.Script.P2pkh.{p2pkh_pk_script, export_p2pkh_pk_script}
use miya_core.Transaction.TxOut.{export_by_hash, export_tx_out, TxOut, export_with_hash}

-- An output whose value is eight bytes and whose hash, where it has one, is twenty.
abbrev pub HasHash : Data → Type 0
HasHash none = Unit {0}
HasHash (some hash) = length hash ≡ 20

abbrev pub IsOut : TxOut → Type 0
IsOut o = (length o.value ≡ 8) × HasHash o.pub_key_hash

abbrev pub AreOuts : List TxOut → Type 0
AreOuts [] = Unit
AreOuts (o ∷ outs) = IsOut o × AreOuts outs

pub p2pkh_pk_script-IsScript : (hash : List ℕ) → length hash ≡ 20 → IsScript (p2pkh_pk_script hash)
unfolding p2pkh_pk_script
p2pkh_pk_script-IsScript hash h = (refl, (refl, ((omega arith, h), (refl, (refl, tt)))))

pub length-p2pkh_pk_script :
    (hash : List ℕ) → length hash ≡ 20 → length (encode (p2pkh_pk_script hash)) ≡ 25
unfolding p2pkh_pk_script encode
length-p2pkh_pk_script hash h = omega (arith, length-append hash (0x88 ∷ 0xac ∷ []))

pub export_p2pkh_pk_script-encode :
    (hash : List ℕ)
    → length hash ≡ 20
    → (export_p2pkh_pk_script (some hash) ≡ some (encode (p2pkh_pk_script hash)))
      × (length (encode (p2pkh_pk_script hash)) ≡ 25)
unfolding export_p2pkh_pk_script
export_p2pkh_pk_script-encode hash h = (
  export_raw-encode (p2pkh_pk_script hash) (p2pkh_pk_script-IsScript hash h),
  length-p2pkh_pk_script hash h,
)

-- The bytes of an output.
unfoldable pub encode_out : TxOut → List ℕ → List ℕ
encode_out o hash = o.value ++ (be64 25 ++ encode (p2pkh_pk_script hash))

pub length-encode_out :
    (o : TxOut) (hash : List ℕ)
    → length o.value ≡ 8
    → length hash ≡ 20
    → length (encode_out o hash) ≡ 41
unfolding encode_out
length-encode_out o hash v h = omega (
  arith,
  length-append o.value (be64 25 ++ encode (p2pkh_pk_script hash)),
  length-p2pkh_pk_script hash h,
)

-- An output with its script built anew, as exportRaw leaves it.
unfoldable pub written_out : TxOut → List ℕ → TxOut
written_out o hash = record o { pk_script_bytes = be64 25; pk_script = p2pkh_pk_script hash }

pub export_with_hash-encode_out :
    (o : TxOut) (hash : List ℕ)
    → length o.value ≡ 8
    → length hash ≡ 20
    → export_with_hash o hash ≡ some (written_out o hash, encode_out o hash)
unfolding export_with_hash encode_out written_out
export_with_hash-encode_out o hash v h =
    let (e, n) = export_p2pkh_pk_script-encode hash h in
    let w = length-encode_out o hash v h in
    let q : length (encode_out o hash) % 2 ^ 16 ≡ length (encode_out o hash) = omega (arith, w) in
    rw (
      e,
      n,
      memcpy_exact 25 (encode (p2pkh_pk_script hash)) (sym n),
      memcpy_exact (length (encode_out o hash) % 2 ^ 16) (encode_out o hash) q,
    )

export_tx_out-HasHash :
    (o : TxOut) (d : Data)
    → o.pub_key_hash ≡ d
    → length o.value ≡ 8
    → HasHash d
    → (o' : TxOut) × (raw : List ℕ) × (export_tx_out o ≡ some (o', raw))
      × IsOut o'
      × (length raw ≤ 41)
unfolding export_tx_out written_out
export_tx_out-HasHash o none e v h = (o, [], ap (export_by_hash o) e, (v, rw e tt), omega arith)
export_tx_out-HasHash o (some hash) e v h = (
  written_out o hash,
  encode_out o hash,
  ap (export_by_hash o) e ∙ export_with_hash-encode_out o hash v h,
  (v, rw e h),
  omega (arith, length-encode_out o hash v h),
)

-- Every output is written, and stays one.
pub export_tx_out-IsOut :
    (o : TxOut)
    → IsOut o
    → (o' : TxOut) × (raw : List ℕ) × (export_tx_out o ≡ some (o', raw))
      × IsOut o'
      × (length raw ≤ 41)
export_tx_out-IsOut o (v, h) = export_tx_out-HasHash o o.pub_key_hash refl v h

pub export_outs-AreOuts :
    (outs : List TxOut)
    → AreOuts outs
    → (outs' : List TxOut) × (raws : List (List ℕ)) × (export_outs outs ≡ some (outs', raws))
      × AreOuts outs'
      × (length outs' ≡ length outs)
      × (length (pieces raws) ≤ 41 * length outs)
unfolding export_outs pieces
export_outs-AreOuts [] v = ([], [], refl, tt, refl, omega arith)
export_outs-AreOuts (o ∷ outs) (v, w) =
    let (o', raw, e, v', n) = export_tx_out-IsOut o v in
    let (outs', raws, f, w', c, m) = export_outs-AreOuts outs w in
    (
      o' ∷ outs',
      raw ∷ raws,
      rw (e, f),
      (v', w'),
      ap suc c,
      omega (arith, length-append raw (pieces raws)),
    )
