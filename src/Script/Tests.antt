-- ===== src/Script/Tests.antt =====
-- Scripts at concrete keys, with a hash and signatures that are simple functions.
use miya_core.Base.{
  ℕ, ◌≡◌, refl, ◌↔◌, true, none, some, List, [], ◌∷◌, arith, length, ◌==◌, zero, suc,
}
use miya_core.Base.Bytes.{memcpy}
use miya_core.Script.{dup, op_data, Script, export_raw}
use miya_core.Script.Validator.{Crypto, verify_p2pkh_script}
use miya_core.Script.P2pkh.{p2pkh_pk_script, p2pkh_signature_script}
use miya_core.Script.P2pkh.Verify.{verify_p2pkh_iff}

abbrev bytes : ℕ → ℕ → List ℕ
bytes zero b = []
bytes (suc n) b = b ∷ bytes n b

length-bytes : (n b : ℕ) → length (bytes n b) ≡ n
length-bytes zero b = refl
length-bytes (suc n) b = omega (arith, length-bytes n b)

-- The hash is the key's length twenty times; a signature is accepted when it has that length.
abbrev toy : Crypto
toy = record {
  Key = ℕ;
  sha1 = λ bs. bytes 20 (length bs);
  to_pkey = λ bs. length bs;
  verify = λ sign message key. length sign == key;
}

abbrev sign : List ℕ
sign = 1 ∷ 2 ∷ 3 ∷ 4 ∷ 5 ∷ 6 ∷ 7 ∷ 8 ∷ 9 ∷ 10 ∷ []

abbrev key : List ℕ
key = 10 ∷ 9 ∷ 8 ∷ 7 ∷ 6 ∷ 5 ∷ 4 ∷ 3 ∷ 2 ∷ 1 ∷ []

verify_p2pkh_example :
    (verify_p2pkh_script toy
        (p2pkh_pk_script (bytes 20 10))
        (p2pkh_signature_script sign 10 key)
        (5 ∷ [])
      ≡ some true)
    ↔ ((bytes 20 10 ≡ bytes 20 10) × ((10 == 10) ≡ true))
verify_p2pkh_example =
    verify_p2pkh_iff toy (λ bs. length-bytes 20 (length bs)) sign key (bytes 20 10) (5 ∷ [])
      (omega arith) (omega arith) (length-bytes 20 10)

abbrev script : Script
script = (dup, none) ∷ (op_data 2, some (7 ∷ 8 ∷ [])) ∷ []

script_export : export_raw script ≡ some (118 ∷ 2 ∷ 7 ∷ 8 ∷ [])
unfolding export_raw memcpy
script_export = refl
