-- ===== src/Script/P2pkh/Verify.antt =====
-- When an input may spend a pay-to-public-key-hash output.
use miya_core.Base.{
  ℕ, ◌+◌, ◌%◌, ◌^◌, ◌≤◌, ◌<◌, ◌≡◌, refl, ◌↔◌, sym, true, false, ◌&&◌, some, List, [], ◌∷◌, ◌++◌,
  arith, length, length-append, leb, Bool-cases, inl, inr,
}
use miya_core.Base.Bytes.{memcmp, memcmp-eq_iff, memcmp_self, memcpy, memcpy_all}
use miya_core.Script.{op_data, Script, import_raw}
use miya_core.Script.RoundTrip.{
  IsLength, IsScript, encode, export_raw-encode, import_raw-encode, import_raw-export_raw,
}
use miya_core.Script.Validator.{Crypto, is_eq, verify_p2pkh_script}
use miya_core.Script.P2pkh.{
  imported, p2pkh_pk_script, p2pkh_signature_script, export_p2pkh_pk_script,
  export_signature_script, import_signature,
}

copied : (n : ℕ) (bs : List ℕ) → n ≡ length bs → memcpy n bs ≡ some bs
copied n bs e = rw e (memcpy_all bs)

module _ (c : Crypto) (sha1_length : (bs : List ℕ) → length (c.sha1 bs) ≡ 20)
    (sign key hash tx_hash : List ℕ) (sign_fits : length sign < 2 ^ 8)
    (key_fits : length key < 2 ^ 8) (hash_length : length hash ≡ 20) where
  -- The stack machine on a signature script and a pay-to-public-key-hash script, at once.
  pub verify_p2pkh_lem :
      verify_p2pkh_script c
        (p2pkh_pk_script hash)
        (p2pkh_signature_script sign (length sign) key)
        tx_hash
      ≡ some (is_eq (memcmp hash (c.sha1 key)) && c.verify sign tx_hash (c.to_pkey key))
  unfolding verify_p2pkh_script p2pkh_pk_script p2pkh_signature_script
  verify_p2pkh_lem =
      let k : memcpy (length key % 2 ^ 8 % 2 ^ 8) key ≡ some key = copied _ key (omega arith) in
      let s : memcpy (length sign % 2 ^ 8 % 2 ^ 8) sign ≡ some sign = copied _ sign (omega arith) in
      let h : memcpy 20 hash ≡ some hash = copied 20 hash (sym hash_length) in
      let d : memcpy 20 (c.sha1 key) ≡ some (c.sha1 key) = copied 20 _ (sym (sha1_length key)) in
      rw (k, h, d)
        (elim (Bool-cases (is_eq (memcmp hash (c.sha1 key)))) [
          | inl e ↦
              rw (e, k, s)
                (elim (Bool-cases (c.verify sign tx_hash (c.to_pkey key))) [
                  | inl v ↦ rw v
                  | inr v ↦ rw v
                ])
          | inr e ↦ rw e
        ])

  -- Where SHA-1 yields twenty bytes, the output's hash has twenty and the signature and the key
  -- have under 256 each, the stack machine accepts the two scripts exactly when the key hashes
  -- to the output's hash and the signature verifies under that key.
  pub verify_p2pkh_iff :
      (verify_p2pkh_script c
          (p2pkh_pk_script hash)
          (p2pkh_signature_script sign (length sign) key)
          tx_hash
        ≡ some true)
      ↔ ((c.sha1 key ≡ hash) × (c.verify sign tx_hash (c.to_pkey key) ≡ true))
  verify_p2pkh_iff = rw verify_p2pkh_lem (
    λ h. ground (arith, (memcmp-eq_iff hash (c.sha1 key)).0),
    λ (e, v). rw (e, v, memcmp_self hash),
  )

-- The script for a hash of twenty bytes is read back from what exportRawWithP2PKHPkScript
-- writes.
pub p2pkh_pk_script-import :
    (hash : List ℕ)
    → length hash ≡ 20
    → (raw : List ℕ) × (export_p2pkh_pk_script (some hash) ≡ some raw)
      × (import_raw [] raw ≡ some (p2pkh_pk_script hash))
unfolding p2pkh_pk_script export_p2pkh_pk_script
p2pkh_pk_script-import hash h =
    import_raw-export_raw _ (refl, (refl, ((omega arith, h), (refl, (refl, tt)))))

pub signed-IsScript :
    (sign key : List ℕ)
    → 0 < length sign
    → 0 < length key
    → IsLength (length sign)
    → IsLength (length key)
    → IsScript ((op_data (length sign), some sign) ∷ (op_data (length key), some key) ∷ [])
signed-IsScript [] key p q l m = absurd (omega arith)
signed-IsScript (x ∷ sign) [] p q l m = absurd (omega arith)
signed-IsScript (x ∷ sign) (y ∷ key) p q l m = ((l, refl), ((m, refl), tt))

-- A signature and a key, of lengths under 256 that are no operation's code and at least 19
-- together, are read back by SignatureScript::importRaw from what exportRawWithSignatureScript
-- writes.
pub import_signature-export :
    (sign key : List ℕ)
    → 0 < length sign
    → 0 < length key
    → length sign < 2 ^ 8
    → length key < 2 ^ 8
    → 19 ≤ length sign + length key
    → IsLength (length sign)
    → IsLength (length key)
    → (raw : List ℕ) × (export_signature_script sign (length sign) key ≡ some raw)
      × (import_signature raw
          ≡ some (
              imported (record {
                script = p2pkh_signature_script sign (length sign) key;
                sign = some sign;
                sign_length = length sign;
                raw_pub_key = some key;
                raw_pub_key_length = length key;
              })))
unfolding export_signature_script import_signature p2pkh_signature_script encode
import_signature-export sign key p q a b n l m =
    let s : Script = (op_data (length sign), some sign) ∷ (op_data (length key), some key) ∷ [] in
    let u : length sign % 2 ^ 8 ≡ length sign = omega arith in
    let v : length key % 2 ^ 8 ≡ length key = omega arith in
    let w = signed-IsScript sign key p q l m in
    let long : leb (length (encode s)) 20 ≡ false =
      ground (arith, length-append sign (length key ∷ (key ++ [])), length-append key []) in
    rw (u, v) (encode s, export_raw-encode s w, rw (long, import_raw-encode s w))
