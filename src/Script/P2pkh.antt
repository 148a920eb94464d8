-- ===== src/Script/P2pkh.antt =====
-- chain/transaction/script/pk_script.cpp and signature_script.cpp: the two scripts of a
-- pay-to-public-key-hash output and of the input that spends it.
pub mod Verify
use miya_core.Base.{
  ℕ, ◌%◌, ◌^◌, ◌≡◌, Option, none, some, List, [], ◌∷◌, length, leb, if◌then◌else◌, get_elem?,
}
use miya_core.Base.Fallible.{◌>>=◌}
use miya_core.Script.{
  OpCode, dup, hash_160, equalverify, checksig, op_data, Data, Script, bytes_of, push_back,
  op_data_length, export_raw, import_raw,
}

-- The script that PkScript::exportRawWithP2PKHPkScript builds anew.
unfoldable pub p2pkh_pk_script : List ℕ → Script
unfolding push_back
p2pkh_pk_script pub_key_hash =
    push_back
      (push_back
        (push_back (push_back (push_back [] dup none) hash_160 none) (op_data 0x14)
          (some pub_key_hash))
        equalverify none)
      checksig none

-- unsigned int PkScript::exportRawWithP2PKHPkScript: no bytes without a hash
unfoldable pub export_p2pkh_pk_script : Data → Option (List ℕ)
unfolding p2pkh_pk_script
export_p2pkh_pk_script none = some []
export_p2pkh_pk_script (some pub_key_hash) = export_raw (p2pkh_pk_script pub_key_hash)

-- What SignatureScript::exportRawWithSignatureScript pushes: a signature and its stated length,
-- and the raw public key. The lengths are cut to a byte.
unfoldable pub p2pkh_signature_script : List ℕ → ℕ → List ℕ → Script
unfolding push_back
p2pkh_signature_script sign sign_length raw_pub_key =
    push_back (push_back [] (op_data (sign_length % 2 ^ 8)) (some sign))
      (op_data (length raw_pub_key % 2 ^ 8)) (some raw_pub_key)

-- unsigned short SignatureScript::exportRawWithSignatureScript, where a key is set
unfoldable pub export_signature_script : List ℕ → ℕ → List ℕ → Option (List ℕ)
unfolding p2pkh_signature_script
export_signature_script sign sign_length raw_pub_key =
    export_raw (p2pkh_signature_script sign sign_length raw_pub_key)

-- What SignatureScript::importRaw sets: the script, the signature, and the raw key it decodes.
pub record Signature : Type 0 where
  pub script : Script
  pub sign : Data
  pub sign_length : ℕ
  pub raw_pub_key : Data
  pub raw_pub_key_length : ℕ

pub data Import : Type 0 where
  too_short : Import
  imported : Signature → Import

-- unsigned int SignatureScript::importRaw into a new object; `none` is a read past the end or the
-- exception of vector::at
unfoldable pub import_signature : List ℕ → Option Import
unfolding import_raw
import_signature raw =
    if leb (length raw) 20
    then some too_short
    else (import_raw [] raw >>= λ s. get_elem? s 0 >>= λ sign. get_elem? s 1 >>= λ key. some (
        imported (record {
          script = s;
          sign = sign.1;
          sign_length = op_data_length sign.0;
          raw_pub_key = key.1;
          raw_pub_key_length = op_data_length key.0;
        })))
