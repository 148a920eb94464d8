-- ===== src/Transaction/Tests.antt =====
-- Transactions at concrete keys, with hashes and signatures that are simple functions.
use miya_core.Transaction.Unsigned.{import_p2pkh-export_p2pkh_none}
use miya_core.Transaction.PrevOut.{PrevOut}
use miya_core.Transaction.Verify.{verify-Spends, AllSpend}
use miya_core.Script.P2pkh.{p2pkh_pk_script, p2pkh_signature_script}
use miya_core.Base.{
  ◌^◌, ◌<◌, Option, ◌++◌, suc, zero, ℕ, ◌≡◌, refl, true, false, some, List, [], ◌∷◌, arith, length,
  replicate,
}
use miya_core.Script.{Script}
use miya_core.Transaction.OpenSsl.{OpenSsl}
use miya_core.Transaction.TxIn.{TxIn}
use miya_core.Transaction.TxOut.{TxOut}
use miya_core.Transaction.P2pkh.{calc_tx_id, verify, P2pkh, new_p2pkh, export_p2pkh, import_p2pkh}
use miya_core.Transaction.RoundTrip.{received, written, exported_size, import_p2pkh-export_p2pkh}
use miya_core.Transaction.Paid.{ArePaid}
use miya_core.Transaction.Inputs.{AreSigned, received_ins}

length-replicate : (n x : ℕ) → length (replicate n x) ≡ n
length-replicate zero x = refl
length-replicate (suc n) x = omega (arith, length-replicate n x)

-- A key is a number, its bytes that number ten times; a hash repeats the length of what it hashes,
-- and no signature verifies.
abbrev toy : OpenSsl
toy = record {
  Key = ℕ;
  sha1 = λ bs. replicate 20 (length bs);
  sha256 = λ bs. replicate 32 (length bs);
  to_pkey = λ bs. some (length bs);
  to_raw_pub_key = λ k. replicate 10 k;
  sign = λ raw key. replicate 9 (length raw);
  verify = λ sign message key. false;
}

abbrev paid : TxOut
paid = record {
  value = replicate 8 1;
  pk_script_bytes = replicate 8 0;
  pk_script = [];
  pub_key_hash = some (replicate 20 5);
}

abbrev spending : Script → TxIn ℕ
spending script = record {
  prev_out = record { tx_id = replicate 32 7; index = replicate 4 0 };
  script_bytes = replicate 4 0;
  signature_script = record {
    script = script;
    sign = some (replicate 10 3);
    sign_length = 10;
    is_signed = true;
    pkey = some 8;
  };
  sequence = replicate 4 255;
  pkey = some (some 8);
}

abbrev payment : P2pkh ℕ
payment = record { version = replicate 4 0; ins = spending [] ∷ []; outs = paid ∷ [] }

payment-AreSigned : AreSigned toy payment.ins
payment-AreSigned = (
  record {
    pkey = 8;
    sign = replicate 10 3;
    id_length = refl;
    index_length = refl;
    sequence_length = refl;
    signed = refl;
    has_pkey = refl;
    has_sign = refl;
    has_length = refl;
    sign_some = omega arith;
    key_some = omega arith;
    sign_fits = omega arith;
    key_fits = omega arith;
    long = omega arith;
    sign_IsLength = omega arith;
    key_IsLength = omega arith;
  },
  tt,
)

payment-ArePaid : ArePaid payment.outs
payment-ArePaid =
    (record { hash = replicate 20 5; value_length = refl; hash_length = refl; has_hash = refl }, tt)

payment_size : exported_size toy payment payment-AreSigned payment-ArePaid < 2 ^ 32
unfolding payment-AreSigned
payment_size = omega arith

import_p2pkh-export_p2pkh_example :
    (raw : List ℕ) × (export_p2pkh toy payment
      ≡ some (written toy payment payment-AreSigned payment-ArePaid, raw))
    × (import_p2pkh toy new_p2pkh (raw ++ 1 ∷ 2 ∷ [])
        ≡ some (received toy payment payment-AreSigned payment-ArePaid, length raw))
import_p2pkh-export_p2pkh_example =
    import_p2pkh-export_p2pkh toy payment payment-AreSigned payment-ArePaid (1 ∷ 2 ∷ []) refl
      payment_size

abbrev payment_bytes : List ℕ
payment_bytes =
    (import_p2pkh-export_p2pkh toy payment payment-AreSigned payment-ArePaid [] refl payment_size).0
    ++ []

abbrev payment_received : P2pkh ℕ
payment_received = received toy payment payment-AreSigned payment-ArePaid

import_p2pkh-export_p2pkh_none_example :
    (export_p2pkh toy payment_received ≡ some (payment_received, []))
    × (calc_tx_id toy payment_received ≡ some (payment_received, replicate 32 0))
unfolding received received_ins
import_p2pkh-export_p2pkh_none_example =
    import_p2pkh-export_p2pkh_none toy payment_bytes payment_received _
      (import_p2pkh-export_p2pkh toy payment payment-AreSigned payment-ArePaid [] refl
        payment_size).2
      (omega arith)

-- Every output is to the hash of some other key.
abbrev get : PrevOut → Option Script
get p = some (p2pkh_pk_script (replicate 20 5))

abbrev forged : P2pkh ℕ
forged = record {
  version = replicate 4 0;
  ins = spending (p2pkh_signature_script (replicate 10 3) 10 (replicate 10 8)) ∷ [];
  outs = paid ∷ [];
}

forged-AllSpend : AllSpend toy get forged.ins
forged-AllSpend = (
  record {
    sign = replicate 10 3;
    key = replicate 10 8;
    hash = replicate 20 5;
    pkey = 8;
    has_id = refl;
    sign_fits = omega arith;
    key_fits = omega arith;
    hash_length = refl;
    script = refl;
    has_pkey = refl;
    found = refl;
  },
  tt,
)

verify-Spends_example :
    (tx' : P2pkh ℕ) × (verify toy get forged ≡ some (true, tx'))
    × (verify toy get tx' ≡ some (false, tx'))
verify-Spends_example =
    verify-Spends toy (λ bs. length-replicate 20 (length bs)) get forged (omega arith)
      forged-AllSpend ((refl, refl), tt) (omega arith)
