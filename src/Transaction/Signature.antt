-- ===== src/Transaction/Signature.antt =====
-- chain/transaction/script/signature_script.h and .cpp: the unlocking script of an input with the
-- signature and the key that it is made of.
use miya_core.Base.{
  ℕ, ◌%◌, ◌^◌, Bool, false, Option, none, some, List, [], length, leb, if◌then◌else◌, get_elem?,
}
use miya_core.Base.Bytes.{memcpy}
use miya_core.Base.Fallible.{◌>>=◌}
use miya_core.Script.{op_data, Data, Script, push_back, op_data_length, export_raw}
use miya_core.Script.Validator.{content}
use miya_core.Script.Within.{import_within}
use miya_core.Transaction.OpenSsl.{OpenSsl}

pub record SignatureScript (Key : Type 0) : Type 0 where
  pub script : Script
  pub sign : Data
  pub sign_length : ℕ
  pub is_signed : Bool
  pub pkey : Option Key

-- SignatureScript::SignatureScript(); the stated length of no signature has no value in C++
unfoldable pub new_signature_script : {Key : Type 0} → SignatureScript Key
new_signature_script = record {
  script = [];
  sign = none;
  sign_length = 0;
  is_signed = false;
  pkey = none;
}

-- void SignatureScript::sign
unfoldable pub set_sign :
    {Key : Type 0} → SignatureScript Key → List ℕ → ℕ → Bool → SignatureScript Key
set_sign s sign sign_length is_signed = record s {
  sign = some sign;
  sign_length = sign_length;
  is_signed = is_signed;
}

module _ (l : OpenSsl) where
  open l use {Key, sha1, to_pkey, to_raw_pub_key}

  -- The rest of exportRawWithPubKeyHash behind the test of the key.
  unfoldable pub hash_of_key :
      SignatureScript Key → Option Key → Option (SignatureScript Key × List ℕ)
  hash_of_key s none = some (s, [])
  hash_of_key s (some k) =
      let md = sha1 (to_raw_pub_key k) in
      memcpy (length md % 2 ^ 16) md >>= λ ret. some (record s { script = [] }, ret)

  -- unsigned short SignatureScript::exportRawWithPubKeyHash: it clears the script
  unfoldable pub export_pub_key_hash : SignatureScript Key → Option (SignatureScript Key × List ℕ)
  unfolding hash_of_key
  export_pub_key_hash s = hash_of_key s s.pkey

  -- The script that exportRawWithSignatureScript builds anew.
  unfoldable pub signed_script : SignatureScript Key → Key → Script
  unfolding push_back
  signed_script s k =
      push_back (push_back [] (op_data (s.sign_length % 2 ^ 8)) s.sign)
        (op_data (length (to_raw_pub_key k) % 2 ^ 8)) (some (to_raw_pub_key k))

  -- The rest of exportRawWithSignatureScript behind the test of the key.
  unfoldable pub signature_of_key :
      SignatureScript Key → Option Key → Option (SignatureScript Key × List ℕ)
  unfolding signed_script
  signature_of_key s none = some (s, [])
  signature_of_key s (some k) = do
    raw ← export_raw (signed_script s k)
    ret ← memcpy (length raw % 2 ^ 16) raw
    some (record s { script = signed_script s k }, ret)

  -- unsigned short SignatureScript::exportRawWithSignatureScript: the script, and as many of its
  -- bytes as the length returned states
  unfoldable pub export_signature : SignatureScript Key → Option (SignatureScript Key × List ℕ)
  unfolding signature_of_key
  export_signature s = signature_of_key s s.pkey

  -- unsigned int SignatureScript::importRaw: the exception of vector::at is `none`
  unfoldable pub import_signature_script :
      SignatureScript Key → List ℕ → ℕ → Option (SignatureScript Key × ℕ)
  import_signature_script s raw raw_length = if leb raw_length 20 then some (s, 0) else (do
    (sc, i) ← import_within s.script raw raw_length
    sign ← get_elem? sc 0
    key ← get_elem? sc 1
    raw_key ← content key
    some (
      record s {
        script = sc;
        sign = sign.1;
        sign_length = op_data_length sign.0;
        pkey = to_pkey raw_key;
      },
      raw_length,
    ))
