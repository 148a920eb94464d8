-- ===== src/Block/Merkle.antt =====
-- chain/block/block.cpp, Block: the Merkle root over the ids of the transactions, and the
-- verification of a block.
use miya_core.Base.{
  ℕ, zero, suc, ◌%◌, Bool, true, false, Option, none, some, List, [], ◌∷◌, ◌++◌, length, leb, ◌==◌,
  if◌then◌else◌, get_or, ◌-◌,
}
use miya_core.Base.Bytes.{memcpy, memcmp}
use miya_core.Base.Fallible.{◌>>=◌}
use miya_core.Script.{Data, Script}
use miya_core.Script.Validator.{is_eq}
use miya_core.Transaction.OpenSsl.{OpenSsl}
use miya_core.Transaction.PrevOut.{PrevOut}
use miya_core.Transaction.P2pkh.{P2pkh, calc_tx_id, verify}
use miya_core.Transaction.Coinbase.{Coinbase, calc_coinbase_id}
use miya_core.Block.Header.{
  BlockHeader, set_merkle_root, header_hash, verify_header, cmp_merkle_root,
}

pub record Block (Key : Type 0) : Type 0 where
  pub header : BlockHeader
  pub coinbase : Option Coinbase
  pub tx_vector : List (P2pkh Key)

-- The last id again behind an odd number of them.
unfoldable pub make_even : List (List ℕ) → List (List ℕ)
make_even ids = if length ids % 2 == 0 then ids else ids ++ get_or ids (length ids - 1) [] ∷ []

module _ (l : OpenSsl) where
  open l use {Key, sha256}

  -- What the loop of calcRoot pushes for the id at i: it copies that id into both halves.
  unfoldable pub hash_joined : List ℕ → Option (List ℕ)
  hash_joined id = do front ← memcpy 32 id; behind ← memcpy 32 id; some (sha256 (front ++ behind))

  -- The loop of calcRoot, which takes every second id.
  unfoldable pub join_ids : List (List ℕ) → Option (List (List ℕ))
  join_ids [] = some []
  join_ids (x ∷ []) = hash_joined x >>= λ h. some (h ∷ [])
  join_ids (x ∷ y ∷ ids) = do h ← hash_joined x; hs ← join_ids ids; some (h ∷ hs)

  -- calcRoot of calcMerkleRoot; a call with fewer ids takes one unit of fuel.
  unfoldable pub calc_root : ℕ → List (List ℕ) → Option (List (List ℕ))
  unfolding join_ids hash_joined
  calc_root zero ids = if leb (length ids) 1 then some ids else none
  calc_root (suc fuel) ids =
      let more = join_ids ids >>= λ alt. calc_root fuel alt in
      if leb (length ids) 1 then some ids else more

  -- The loop over the transactions for their ids.
  unfoldable pub tx_ids : List (P2pkh Key) → Option (List (P2pkh Key) × List (List ℕ))
  tx_ids [] = some ([], [])
  tx_ids (tx ∷ txs) = do
    (tx', id) ← calc_tx_id l tx
    (txs', ids) ← tx_ids txs
    some (tx' ∷ txs', id ∷ ids)

  -- The end of calcMerkleRoot: the root, where one is left.
  unfoldable pub root_of : List (List ℕ) → Data
  root_of (root ∷ []) = some root
  root_of ids = none

  -- The rest of calcMerkleRoot behind the test of the coinbase.
  unfoldable pub root_with : Block Key → Coinbase → Option (Block Key × Data)
  unfolding tx_ids make_even calc_root root_of
  root_with b c = do
    (c', id) ← calc_coinbase_id l c
    (txs, ids) ← tx_ids b.tx_vector
    let even = make_even (id ∷ ids)
    roots ← calc_root (length even) even
    some (record b { coinbase = some c'; tx_vector = txs }, root_of roots)

  unfoldable pub root_for : Block Key → Option Coinbase → Option (Block Key × Data)
  root_for b none = some (b, none)
  root_for b (some c) = root_with b c

  -- unsigned int Block::calcMerkleRoot: null without a coinbase
  unfoldable pub calc_merkle_root : Block Key → Option (Block Key × Data)
  unfolding root_for root_with
  calc_merkle_root b = root_for b b.coinbase

  -- void Block::merkleRoot
  unfoldable pub set_block_merkle_root : Block Key → List ℕ → Option (Block Key)
  set_block_merkle_root b target =
      set_merkle_root b.header target >>= λ h. some (record b { header = h })

  -- size_t Block::blockHash
  unfoldable pub block_hash : Block Key → List ℕ
  block_hash b = header_hash l b.header

  -- void Block::add
  unfoldable pub add : Block Key → P2pkh Key → Block Key
  add b tx = record b { tx_vector = b.tx_vector ++ tx ∷ [] }

  -- The loop of verify over the transactions; the first that fails ends it.
  unfoldable pub verify_txs :
      (PrevOut → Option Script) → List (P2pkh Key) → Option (Bool × List (P2pkh Key))
  verify_txs get [] = some (true, [])
  verify_txs get (tx ∷ txs) = do
    (ok, tx') ← verify l get tx
    let rest = verify_txs get txs >>= λ (b, txs'). some (b, tx' ∷ txs')
    (if ok then rest else some (false, tx' ∷ txs))

  -- The rest of Block::verify behind the test of the header.
  unfoldable pub verify_body : (PrevOut → Option Script) → Block Key → Option (Bool × Block Key)
  unfolding calc_merkle_root verify_txs cmp_merkle_root
  verify_body get b = do
    (b', merkle) ← calc_merkle_root b
    same ← cmp_merkle_root b'.header merkle
    let rest = verify_txs get b'.tx_vector >>= λ (ok, txs). some (ok, record b' { tx_vector = txs })
    (if same then rest else some (false, b'))

  -- bool Block::verify
  unfoldable pub verify_block : (PrevOut → Option Script) → Block Key → Option (Bool × Block Key)
  unfolding verify_body verify_header
  verify_block get b = do
    flag ← verify_header l b.header
    let rest = verify_body get b
    (if flag then rest else some (false, b))

  -- bool Block::compare
  unfoldable pub compare_block : Block Key → List ℕ → Option Bool
  unfolding block_hash
  compare_block b target = do
    a ← memcpy 32 (block_hash b)
    c ← memcpy 32 target
    some (is_eq (memcmp a c))
