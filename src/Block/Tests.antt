-- ===== src/Block/Tests.antt =====
-- Blocks at concrete transactions, with hashes that are simple functions.
use miya_core.Base.Bytes.{memcpy}
use miya_core.Script.{export_raw}
use miya_core.Transaction.TxOut.{new_tx_out}
use miya_core.Block.First.{calc_merkle_root-first}
use miya_core.Transaction.Coinbase.{new_coinbase_tx_in, calc_coinbase_id, Coinbase}
use miya_core.Block.Merkle.{Block, tx_ids, calc_merkle_root}
use miya_core.Transaction.P2pkh.{calc_tx_id, P2pkh}
use miya_core.Base.{
  ℕ, zero, suc, ◌≤◌, ◌<◌, ◌%◌, ◌≡◌, refl, true, false, some, List, [], ◌∷◌, ◌++◌, arith, length,
  replicate, leb,
}
use miya_core.Base.Endian.{of_be}
use miya_core.Transaction.OpenSsl.{OpenSsl}
use miya_core.Block.Header.{BlockHeader, export_header, import_header, mbitcmp, verify_header}
use miya_core.Block.Mining.{simple_mining}
use miya_core.Block.Compare.{mbitcmp-leb}
use miya_core.Block.Found.{simple_mining-verify_header}
use miya_core.Block.Layout.{import_header-export_header}

length-replicate : (n x : ℕ) → length (replicate n x) ≡ n
length-replicate zero x = refl
length-replicate (suc n) x = omega (arith, length-replicate n x)

-- A hash is the length of what is hashed, again and again.
abbrev toy : OpenSsl
toy = record {
  Key = ℕ;
  sha1 = λ bs. replicate 20 (length bs % 256);
  sha256 = λ bs. replicate 32 (length bs % 256);
  to_pkey = λ bs. some (length bs);
  to_raw_pub_key = λ k. replicate 10 k;
  sign = λ raw key. replicate 9 (length raw);
  verify = λ sign message key. false;
}

abbrev header : BlockHeader
header = record {
  version = 0;
  previous_block_header_hash = replicate 32 1;
  merkle_root = replicate 32 2;
  time = 1700000000;
  n_bits = 0;
  nonce = 9;
}

import_header-export_header_example :
    import_header (export_header header ++ 1 ∷ []) ≡ some (header, 80)
import_header-export_header_example = import_header-export_header header (1 ∷ []) (record {
  version_fits = omega arith;
  time_fits = omega arith;
  n_bits_fits = omega arith;
  nonce_fits = omega arith;
  hash_length = refl;
  root_length = refl;
})

mbitcmp-leb_example :
    mbitcmp (replicate 32 80) (replicate 32 79)
    ≡ some (leb (of_be (replicate 32 79)) (of_be (replicate 32 80)))
mbitcmp-leb_example =
    mbitcmp-leb (replicate 32 80) (replicate 32 79) refl refl (omega arith) (omega arith)

-- An exponent of 32 puts the coefficient in front.
easy : verify_header toy (record header { n_bits = 553648127; nonce = 3 }) ≡ some true
unfolding verify_header
easy = refl

simple_mining-verify_header_example :
    (m : ℕ) × (simple_mining toy 5 553648127 header ≡ some m)
    × (m ≤ 3)
    × (verify_header toy (record header { n_bits = 553648127; nonce = m }) ≡ some true)
    × ((k : ℕ)
        → k < m
        → verify_header toy (record header { n_bits = 553648127; nonce = k }) ≡ some false)
simple_mining-verify_header_example =
    simple_mining-verify_header toy 5 553648127 3 header
      (λ bs. length-replicate 32 (length bs % 256)) (omega arith) (omega arith) easy

abbrev coinbase : Coinbase
coinbase = record {
  version = replicate 4 0;
  tx_in = new_coinbase_tx_in 7 (replicate 5 65) 5;
  tx_out = record new_tx_out { value = replicate 8 1 };
  pubkey_hash = some (replicate 20 5);
}

abbrev plain : ℕ → P2pkh ℕ
plain v = record { version = replicate 4 v; ins = []; outs = [] }

abbrev block : ℕ → Block ℕ
block v = record { header = header; coinbase = some coinbase; tx_vector = plain v ∷ plain 3 ∷ [] }

coinbase-id : (c : Coinbase) × (id : List ℕ) × (calc_coinbase_id toy coinbase ≡ some (c, id))
unfolding calc_coinbase_id new_coinbase_tx_in new_tx_out memcpy export_raw
coinbase-id = (_, _, refl)

plain-ids :
    (v : ℕ)
    → tx_ids toy (plain v ∷ plain 3 ∷ [])
      ≡ some (plain v ∷ plain 3 ∷ [], replicate 32 12 ∷ replicate 32 12 ∷ [])
unfolding tx_ids calc_tx_id
plain-ids v = refl

calc_merkle_root-first_example :
    (root : List ℕ) × (calc_merkle_root toy (block 1)
      ≡ some (record (block 1) { coinbase = some coinbase-id.0 }, some root))
    × (calc_merkle_root toy (block 2)
        ≡ some (record (block 2) { coinbase = some coinbase-id.0 }, some root))
calc_merkle_root-first_example =
    calc_merkle_root-first toy (λ bs. length-replicate 32 (length bs % 256)) (block 1) (block 2)
      coinbase coinbase-id.0 coinbase-id.1 (plain 1 ∷ plain 3 ∷ []) (plain 2 ∷ plain 3 ∷ [])
      (replicate 32 12 ∷ replicate 32 12 ∷ []) (replicate 32 12 ∷ replicate 32 12 ∷ []) refl refl
      coinbase-id.2 (plain-ids 1) (plain-ids 2) refl
