-- ===== src/ChainSync/Pool.antt =====
-- chain/chain_sync_manager/block_header_pool.cpp with the keys of block_hash_as_key.cpp and
-- prev_block_hash_as_key.cpp: the headers received, by their hash and by the hash of the block
-- before. A header behind a shared pointer is held by value. Elements of a multimap with one key
-- are in the order in which they came, where the standard leaves the order open.
use miya_core.Base.{
  ℕ, ◌+◌, ◌%◌, ◌^◌, Bool, true, false, Option, none, some, List, [], ◌∷◌, ◌++◌, length,
  if◌then◌else◌,
}
use miya_core.Base.Bytes.{memcpy, memcmp}
use miya_core.Base.Fallible.{◌>>=◌}
use miya_core.Script.{Data}
use miya_core.Script.Validator.{is_eq}
use miya_core.Transaction.OpenSsl.{OpenSsl}
use miya_core.Block.Header.{BlockHeader, prev_block_hash, header_hash}

-- BlockHashAsKey::BlockHashAsKey and PrevBlockHashAsKey::PrevBlockHashAsKey of a hash: a null
-- pointer leaves what the memory of the key holds
unfoldable pub key_of : List ℕ → Data → Option (List ℕ)
key_of memory none = some memory
key_of memory (some hash) = memcpy 32 hash

-- operator== of the keys
abbrev pub same_key : List ℕ → List ℕ → Bool
same_key a b = is_eq (memcmp a b)

pub record HeaderPool : Type 0 where
  pub pool_block_hash : List (List ℕ × BlockHeader)
  pub pool_prev_block_hash : List (List ℕ × BlockHeader)

unfoldable pub find_key : {V : Type 0} → List (List ℕ × V) → List ℕ → Option V
find_key [] key = none
find_key ((k, v) ∷ pool) key =
    let rest = find_key pool key in if same_key k key then some v else rest

-- The elements with a key, which count and equal_range of a multimap see.
unfoldable pub equal_range : {V : Type 0} → List (List ℕ × V) → List ℕ → List V
equal_range [] key = []
equal_range ((k, v) ∷ pool) key =
    let rest = equal_range pool key in if same_key k key then v ∷ rest else rest

unfoldable pub insert_missing :
    {V : Type 0} → List (List ℕ × V) → List ℕ → V → Option V → List (List ℕ × V)
insert_missing pool key v none = pool ++ (key, v) ∷ []
insert_missing pool key v (some w) = pool

-- insert of an unordered_map, which keeps an element that is there
unfoldable pub insert_key : {V : Type 0} → List (List ℕ × V) → List ℕ → V → List (List ℕ × V)
unfolding insert_missing
insert_key pool key v = insert_missing pool key v (find_key pool key)

-- The rest of push behind the test of the hash of the block before.
unfoldable pub push_behind :
    OpenSsl → HeaderPool → BlockHeader → Data → Option ((Bool × ℕ) × HeaderPool)
unfolding insert_key equal_range key_of
push_behind l p target none = some ((false, 0), p)
push_behind l p target (some prev) = do
  pb_key ← key_of [] (some prev)
  b_key ← key_of [] (some (header_hash l target))
  let count = length (equal_range p.pool_prev_block_hash pb_key)
  some (
    (true, (count + 1) % 2 ^ 16),
    record {
      pool_block_hash = insert_key p.pool_block_hash b_key target;
      pool_prev_block_hash = p.pool_prev_block_hash ++ (pb_key, target) ∷ [];
    },
  )

-- std::pair<bool, short> BlockHeaderPool::push, the count as the bits of the short
unfoldable pub push : OpenSsl → HeaderPool → BlockHeader → Option ((Bool × ℕ) × HeaderPool)
unfolding push_behind
push l p target = push_behind l p target (prev_block_hash target)

-- std::shared_ptr<BlockHeader> BlockHeaderPool::findByBlockHash
unfoldable pub find_by_block_hash : List ℕ → HeaderPool → Data → Option (Option BlockHeader)
unfolding key_of find_key
find_by_block_hash memory p hash =
    key_of memory hash >>= λ key. some (find_key p.pool_block_hash key)

-- std::vector<std::shared_ptr<BlockHeader>> BlockHeaderPool::findByPrevBlockHash
unfoldable pub find_by_prev_block_hash : HeaderPool → List ℕ → Option (List BlockHeader)
unfolding key_of equal_range
find_by_prev_block_hash p prev =
    key_of [] (some prev) >>= λ key. some (equal_range p.pool_prev_block_hash key)
