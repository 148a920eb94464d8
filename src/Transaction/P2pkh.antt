-- ===== src/Transaction/P2pkh.antt =====
-- chain/transaction/p2pkh/p2pkh.cpp: a transaction over its inputs and outputs. The objects behind
-- the vectors' pointers are held by value, so an operation that changes them returns them anew.
-- The output that an input names is found by `get`, LightUTXOSet::get, as its locking script.
use miya_core.Base.{
  ◌^◌, ltb, ◌%◌, none, ℕ, zero, suc, ◌+◌, Bool, true, false, ◌&&◌, Option, some, List, [], ◌∷◌,
  ◌++◌, length, drop, get_elem?, set, if◌then◌else◌, ◌==◌, replicate,
}
use miya_core.Base.Bytes.{memcpy}
use miya_core.Base.Endian.{be32, of_be}
use miya_core.Base.Fallible.{◌>>=◌}
use miya_core.Script.{Script}
use miya_core.Script.Validator.{verify_p2pkh_script}
use miya_core.Transaction.OpenSsl.{OpenSsl, crypto}
use miya_core.Transaction.PrevOut.{PrevOut}
use miya_core.Transaction.TxIn.{
  TxIn, new_tx_in, is_signed, sign_tx_in, export_empty, export_with_pub_key_hash,
  export_with_signature, import_tx_in,
}
use miya_core.Transaction.TxOut.{TxOut, new_tx_out, export_tx_out, import_tx_out}

pub record P2pkh (Key : Type 0) : Type 0 where
  pub version : List ℕ
  pub ins : List (TxIn Key)
  pub outs : List TxOut

-- P2PKH::P2PKH()
unfoldable pub new_p2pkh : {Key : Type 0} → P2pkh Key
new_p2pkh = record { version = replicate 4 0; ins = []; outs = [] }

-- The copies of formatExportedRawTxVector: the pieces behind one another.
unfoldable pub pieces : List (List ℕ) → List ℕ
pieces [] = []
pieces (raw ∷ raws) = raw ++ pieces raws

-- unsigned int P2PKH::formatExportedRawTxVector: where the sum of the lengths wraps around, the
-- buffer is too small for the copies
unfoldable pub format_exported_raw_tx_vector : List (List ℕ) → Option (List ℕ)
unfolding pieces
format_exported_raw_tx_vector raws =
    if ltb (length (pieces raws)) (2 ^ 32) then some (pieces raws) else none

-- The version, the counts and the pieces, as exportRaw, txHashOnTxIn and sign put them together, in
-- a buffer by the sum of their lengths, which is an unsigned int too.
unfoldable pub assemble : List ℕ → ℕ → List (List ℕ) → ℕ → List (List ℕ) → Option (List ℕ)
unfolding format_exported_raw_tx_vector
assemble version in_count ins out_count outs = do
  raw_ins ← format_exported_raw_tx_vector ins
  raw_outs ← format_exported_raw_tx_vector outs
  let fits = ltb (4 + 4 + length raw_ins + 4 + length raw_outs) (2 ^ 32)
  (if fits
      then some (version ++ (be32 in_count ++ (raw_ins ++ (be32 out_count ++ raw_outs))))
      else none)

-- The loop of exportRaw, txHashOnTxIn and sign over the outputs.
unfoldable pub export_outs : List TxOut → Option (List TxOut × List (List ℕ))
export_outs [] = some ([], [])
export_outs (o ∷ outs) = do
  (o', raw) ← export_tx_out o
  (outs', raws) ← export_outs outs
  some (o' ∷ outs', raw ∷ raws)

-- The rounds of a loop of importRawSequentially, whose `int i` overflows where there are 2 ^ 31 or
-- more.
unfoldable pub int_rounds : ℕ → Option ℕ
int_rounds n = if ltb n (2 ^ 31) then some n else none

-- The loop of importRawSequentially over the outputs, by the rounds left, with the place to read
-- from.
unfoldable pub import_outs : ℕ → List TxOut → List ℕ → ℕ → Option (List TxOut × ℕ)
unfolding new_tx_out
import_outs zero outs raw ptr = some (outs, ptr)
import_outs (suc n) outs raw ptr = do
  (o, k) ← import_tx_out new_tx_out (drop ptr raw)
  import_outs n (outs ++ o ∷ []) raw ((ptr + k) % 2 ^ 32)

unfoldable pub all_signed : {Key : Type 0} → List (TxIn Key) → Bool
all_signed [] = true
all_signed (t ∷ ins) = is_signed t && all_signed ins

module _ (l : OpenSsl) where
  open l use {Key, sha256}

  -- The loop of exportRaw over the inputs.
  unfoldable pub export_ins : List (TxIn Key) → Option (List (TxIn Key) × List (List ℕ))
  export_ins [] = some ([], [])
  export_ins (t ∷ ins) = do
    (t', raw) ← export_with_signature l t
    (ins', raws) ← export_ins ins
    some (t' ∷ ins', raw ∷ raws)

  unfoldable pub export_signed : P2pkh Key → Option (P2pkh Key × List ℕ)
  unfolding export_ins export_outs assemble
  export_signed tx = do
    (ins, raw_ins) ← export_ins tx.ins
    (outs, raw_outs) ← export_outs tx.outs
    raw ← assemble tx.version (length tx.ins) raw_ins (length tx.outs) raw_outs
    some (record tx { ins = ins; outs = outs }, raw)

  -- unsigned int P2PKH::exportRaw: no bytes while an input is not signed
  unfoldable pub export_p2pkh : P2pkh Key → Option (P2pkh Key × List ℕ)
  unfolding all_signed export_signed
  export_p2pkh tx = if all_signed tx.ins then export_signed tx else some (tx, [])

  -- unsigned int P2PKH::calcTxID
  unfoldable pub calc_tx_id : P2pkh Key → Option (P2pkh Key × List ℕ)
  unfolding export_p2pkh
  calc_tx_id tx = export_p2pkh tx >>= λ (tx', raw). some (tx', sha256 raw)

  -- The loop of importRawSequentially over the inputs.
  unfoldable pub import_ins : ℕ → List (TxIn Key) → List ℕ → ℕ → Option (List (TxIn Key) × ℕ)
  unfolding new_tx_in
  import_ins zero ins raw ptr = some (ins, ptr)
  import_ins (suc n) ins raw ptr = do
    (t, k) ← import_tx_in l new_tx_in (drop ptr raw)
    import_ins n (ins ++ t ∷ []) raw ((ptr + k) % 2 ^ 32)

  -- size_t P2PKH::importRawSequentially: the object, and the count of bytes read
  unfoldable pub import_p2pkh : P2pkh Key → List ℕ → Option (P2pkh Key × ℕ)
  unfolding import_ins import_outs int_rounds
  import_p2pkh tx raw = do
    version ← memcpy 4 raw
    in_count ← memcpy 4 (drop 4 raw)
    in_rounds ← int_rounds (of_be in_count)
    (ins, ptr) ← import_ins in_rounds tx.ins raw 8
    out_count ← memcpy 4 (drop ptr raw)
    out_rounds ← int_rounds (of_be out_count)
    (outs, end) ← import_outs out_rounds tx.outs raw ((ptr + 4) % 2 ^ 32)
    some (record { version = version; ins = ins; outs = outs }, end)

  -- One input as txHashOnTxIn writes it: with the hash of its key at the index, empty elsewhere.
  unfoldable pub export_at : Bool → TxIn Key → Option (TxIn Key × List ℕ)
  export_at true t = export_with_pub_key_hash l t
  export_at false t = export_empty t >>= λ raw. some (t, raw)

  -- The loop of txHashOnTxIn over the inputs from the place i on.
  unfoldable pub export_ins_on : ℕ → ℕ → List (TxIn Key) → Option (List (TxIn Key) × List (List ℕ))
  unfolding export_at
  export_ins_on i index [] = some ([], [])
  export_ins_on i index (t ∷ ins) = do
    (t', raw) ← export_at (i == index) t
    (ins', raws) ← export_ins_on (i + 1) index ins
    some (t' ∷ ins', raw ∷ raws)

  -- unsigned int P2PKH::txHashOnTxIn: the bytes, which are not hashed
  unfoldable pub tx_hash_on_tx_in : ℕ → P2pkh Key → Option (P2pkh Key × List ℕ)
  unfolding export_ins_on export_outs assemble
  tx_hash_on_tx_in index tx = do
    (ins, raw_ins) ← export_ins_on 0 index tx.ins
    (outs, raw_outs) ← export_outs tx.outs
    raw ← assemble tx.version (length tx.ins) raw_ins (length tx.outs) raw_outs
    some (record tx { ins = ins; outs = outs }, raw)

  -- A round of the loop of sign. It builds the same bytes as txHashOnTxIn.
  unfoldable pub sign_round : ℕ → P2pkh Key → Option (P2pkh Key)
  unfolding tx_hash_on_tx_in
  sign_round i tx = do
    (tx', raw) ← tx_hash_on_tx_in i tx
    t ← get_elem? tx'.ins i
    key ← t.pkey
    let sign = l.sign raw key
    some (record tx' { ins = set tx'.ins i (sign_tx_in t sign (length sign) true) })

  unfoldable pub sign_loop : ℕ → ℕ → P2pkh Key → Option (P2pkh Key)
  sign_loop zero i tx = some tx
  sign_loop (suc n) i tx = sign_round i tx >>= λ tx'. sign_loop n (i + 1) tx'

  -- bool P2PKH::sign
  unfoldable pub sign : P2pkh Key → Option (P2pkh Key)
  unfolding sign_loop sign_round
  sign tx = sign_loop (length tx.ins) 0 tx

  module _ (get : PrevOut → Option Script) where
    -- A round of the loop of verify, from the tests of the scripts on. The validator joins the
    -- scripts before txHashOnTxIn clears one, and its answer is not kept.
    unfoldable pub verify_scripts : ℕ → P2pkh Key → Script → Script → Option (Bool × P2pkh Key)
    verify_scripts i tx [] signature = some (false, tx)
    verify_scripts i tx (e ∷ pk) [] = some (false, tx)
    verify_scripts i tx (e ∷ pk) (s ∷ signature) = do
      (tx', raw) ← tx_hash_on_tx_in i tx
      flag ← verify_p2pkh_script (crypto l) (e ∷ pk) (s ∷ signature) raw
      some (true, tx')

    verify_found : ℕ → P2pkh Key → TxIn Key → Option Script → Option (Bool × P2pkh Key)
    verify_found i tx t none = some (false, tx)
    verify_found i tx t (some pk) = verify_scripts i tx pk t.signature_script.script

    -- The loop of verify, by the rounds left: an input that is not accepted ends it.
    unfoldable pub verify_loop : ℕ → ℕ → Bool → P2pkh Key → Option (Bool × P2pkh Key)
    unfolding verify_found verify_scripts
    verify_loop zero i flag tx = some (flag, tx)
    verify_loop (suc n) i flag tx = do
      t ← get_elem? tx.ins i
      (ok, tx') ← verify_found i tx t (get t.prev_out)
      let rest = verify_loop n (i + 1) ok tx'
      if ok then rest else some (false, tx')

    -- bool P2PKH::verify
    unfoldable pub verify : P2pkh Key → Option (Bool × P2pkh Key)
    unfolding verify_loop
    verify tx = verify_loop (length tx.ins) 0 false tx
