-- ===== src/Transaction/TxOut.antt =====
-- chain/transaction/tx/tx_out.h and tx_out.cpp: an output to the hash of a public key. The value
-- and the length are held as the bytes in memory, in network order.
use miya_core.Base.{
  ℕ, ◌+◌, ◌%◌, ◌^◌, Option, none, some, List, [], ◌++◌, length, drop, get_elem?, replicate,
}
use miya_core.Base.Bytes.{memcpy}
use miya_core.Base.Endian.{be64, of_be}
use miya_core.Base.Fallible.{◌>>=◌}
use miya_core.Script.{Data, Script}
use miya_core.Script.P2pkh.{p2pkh_pk_script, export_p2pkh_pk_script}
use miya_core.Script.Within.{import_within}

pub record TxOut : Type 0 where
  pub value : List ℕ
  pub pk_script_bytes : List ℕ
  pub pk_script : Script
  pub pub_key_hash : Data

-- TxOut::TxOut(); the length of the script has no value in C++ until a call sets it
unfoldable pub new_tx_out : TxOut
new_tx_out = record {
  value = replicate 8 0;
  pk_script_bytes = replicate 8 0;
  pk_script = [];
  pub_key_hash = none;
}

-- void TxOut::init
unfoldable pub init : TxOut → ℕ → Data → TxOut
init o value pub_key_hash = record o { value = be64 (value % 2 ^ 32); pub_key_hash = pub_key_hash }

-- unsigned short TxOut::value()
unfoldable pub value_of : TxOut → ℕ
value_of o = of_be o.value % 2 ^ 16

-- unsigned int TxOut::pkScriptBytes() const
abbrev pub pk_script_length : List ℕ → ℕ
pk_script_length bytes = of_be bytes % 2 ^ 32

-- The rest of TxOut::exportRaw behind the test of the hash. The script is built anew.
unfoldable pub export_with_hash : TxOut → List ℕ → Option (TxOut × List ℕ)
unfolding export_p2pkh_pk_script p2pkh_pk_script
export_with_hash o hash = do
  pk ← export_p2pkh_pk_script (some hash)
  copied ← memcpy (pk_script_length (be64 (length pk))) pk
  let raw = o.value ++ (be64 (length pk) ++ copied)
  ret ← memcpy (length raw % 2 ^ 16) raw
  some (record o { pk_script_bytes = be64 (length pk); pk_script = p2pkh_pk_script hash }, ret)

unfoldable pub export_by_hash : TxOut → Data → Option (TxOut × List ℕ)
export_by_hash o none = some (o, [])
export_by_hash o (some hash) = export_with_hash o hash

-- unsigned short TxOut::exportRaw: no bytes without a hash
unfoldable pub export_tx_out : TxOut → Option (TxOut × List ℕ)
unfolding export_by_hash export_with_hash
export_tx_out o = export_by_hash o o.pub_key_hash

-- int TxOut::importRaw: the object, and the count of bytes read
unfoldable pub import_tx_out : TxOut → List ℕ → Option (TxOut × ℕ)
import_tx_out o raw = do
  value ← memcpy 8 raw
  pk_script_bytes ← memcpy 8 (drop 8 raw)
  (s, n) ← import_within o.pk_script (drop 16 raw) (pk_script_length pk_script_bytes)
  e ← get_elem? s 2
  some (
    record { value = value; pk_script_bytes = pk_script_bytes; pk_script = s; pub_key_hash = e.1 },
    (16 + n) % 2 ^ 32,
  )
