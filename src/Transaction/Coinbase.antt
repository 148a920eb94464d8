-- ===== src/Transaction/Coinbase.antt =====
-- chain/transaction/coinbase/coinbase_tx_in.cpp and coinbase.cpp: the transaction that pays the
-- finder of a block. Its input names no output, and holds the block's height and a text.
use miya_core.Base.{
  ℕ, ◌+◌, ◌-◌, ◌%◌, ◌^◌, Option, none, some, List, [], ◌∷◌, ◌++◌, length, drop, leb, ltb,
  if◌then◌else◌, replicate,
}
use miya_core.Base.Bytes.{memcpy}
use miya_core.Base.Endian.{be32, of_be}
use miya_core.Base.Fallible.{◌>>=◌}
use miya_core.Script.{op_data, Data, Script, push_back, op_data_length, export_raw}
use miya_core.Script.Validator.{content}
use miya_core.Script.Within.{import_within}
use miya_core.Transaction.OpenSsl.{OpenSsl}
use miya_core.Transaction.PrevOut.{
  PrevOut, new_prev_out, set_tx_id, set_index, export_prev_out, import_prev_out,
}
use miya_core.Transaction.TxOut.{TxOut, export_tx_out, import_tx_out}

pub record CoinbaseTxIn : Type 0 where
  pub prev_out : PrevOut
  pub script_bytes : List ℕ
  pub script : Script
  pub sequence : List ℕ

-- textLength - sizeof(height), which is unsigned: a text of less than four bytes wraps around
unfoldable pub text_room : ℕ → ℕ
text_room text_length = (text_length + 2 ^ 64 - 4) % 2 ^ 64

-- coinbase_tx_in::coinbase_tx_in( height , text , textLength )
unfoldable pub new_coinbase_tx_in : ℕ → List ℕ → ℕ → CoinbaseTxIn
unfolding push_back set_tx_id set_index text_room
new_coinbase_tx_in height text text_length =
    let script = push_back [] (op_data 4) (some (be32 height)) in
    record {
      prev_out = set_index (set_tx_id new_prev_out none) 4294967295;
      script_bytes = replicate 4 0;
      script =
          if leb (text_room text_length) 100
          then push_back script (op_data (text_length % 2 ^ 8)) (some text)
          else script;
      sequence = replicate 4 0;
    }

-- unsigned short coinbase_tx_in::scriptBytes()
abbrev pub coinbase_script_length : List ℕ → ℕ
coinbase_script_length bytes = of_be bytes % 2 ^ 16

-- unsigned int coinbase_tx_in::exportRaw: the buffer has room for as much of the script as
-- scriptBytes() states, and a copy past it has no defined result
unfoldable pub export_coinbase_tx_in : CoinbaseTxIn → Option (CoinbaseTxIn × List ℕ)
unfolding export_prev_out
export_coinbase_tx_in t = do
  p ← export_prev_out t.prev_out
  raw ← export_raw t.script
  let fits = leb (length raw) (coinbase_script_length (be32 (length raw)))
  (if fits
      then some (
        record t { script_bytes = be32 (length raw) },
        p ++ (be32 (length raw) ++ (raw ++ t.sequence)),
      )
      else none)

-- unsigned int coinbase_tx_in::importRaw
unfoldable pub import_coinbase_tx_in : CoinbaseTxIn → List ℕ → Option (CoinbaseTxIn × ℕ)
unfolding import_prev_out
import_coinbase_tx_in t raw = do
  (p, n) ← import_prev_out t.prev_out raw
  script_bytes ← memcpy 4 (drop n raw)
  (s, m) ← import_within t.script (drop (n + 4) raw) (coinbase_script_length script_bytes)
  sequence ← memcpy 4 (drop (n + 4 + m) raw)
  some (
    record { prev_out = p; script_bytes = script_bytes; script = s; sequence = sequence },
    n + 4 + m + 4,
  )

-- int coinbase_tx_in::height(), before its conversion to a signed number; -1 is `none` inside
unfoldable pub coinbase_height : Script → Option (Option ℕ)
coinbase_height [] = some none
coinbase_height ((op, d) ∷ s) =
    if ltb 0 (op_data_length op)
    then (content (op, d) >>= λ raw. memcpy 4 raw >>= λ h. some (some (of_be h)))
    else some none

pub record Coinbase : Type 0 where
  pub version : List ℕ
  pub tx_in : CoinbaseTxIn
  pub tx_out : TxOut
  pub pubkey_hash : Data

-- The rest of coinbase::exportRaw behind its assert.
unfoldable pub export_coinbase_to : Coinbase → List ℕ → Option (Coinbase × List ℕ)
unfolding export_coinbase_tx_in export_tx_out
export_coinbase_to c hash = do
  (i, raw_in) ← export_coinbase_tx_in c.tx_in
  (o, raw_out) ← export_tx_out (record c.tx_out { pub_key_hash = some hash })
  some
      (record c { tx_in = i; tx_out = o }, c.version ++ (be32 1 ++ (raw_in ++ (be32 1 ++ raw_out))))

-- unsigned int coinbase::exportRaw: without a hash the program ends
unfoldable pub export_coinbase : Coinbase → Option (Coinbase × List ℕ)
unfolding export_coinbase_to
export_coinbase c = c.pubkey_hash >>= λ hash. export_coinbase_to c hash

-- size_t coinbase::importRawSequentially: the counts are skipped
unfoldable pub import_coinbase : Coinbase → List ℕ → Option (Coinbase × ℕ)
unfolding import_coinbase_tx_in import_tx_out
import_coinbase c raw = do
  version ← memcpy 4 raw
  in_count ← memcpy 4 (drop 4 raw)
  (i, n) ← import_coinbase_tx_in c.tx_in (drop 8 raw)
  out_count ← memcpy 4 (drop (8 + n) raw)
  (o, m) ← import_tx_out c.tx_out (drop (8 + n + 4) raw)
  some (record c { version = version; tx_in = i; tx_out = o }, 8 + n + 4 + m)

-- unsigned int coinbase::calcTxID
unfoldable pub calc_coinbase_id : OpenSsl → Coinbase → Option (Coinbase × List ℕ)
unfolding export_coinbase
calc_coinbase_id l c = export_coinbase c >>= λ (c', raw). some (c', l.sha256 raw)
