-- ===== src/ChainSync/Tests.antt =====
-- Headers whose hash is their nonce, repeated, and chains of them.
use miya_core.ChainSync.Fork.{extend_all-build_subchain, stopped_at}
use miya_core.ChainSync.Manager.{
  finished, extend_all, build_subchain, pending, extend_each, SyncManager, insert_subchain,
}
use miya_core.ChainSync.Mask.{eq_of_same_key, closed_at-mask, named}
use miya_core.ChainSync.Closed.{closed_at}
use miya_core.Base.{
  ◌∙◌, inr, sym, inl, not, Bool-cases, List, none, ℕ, zero, suc, ◌≡◌, refl, ◌||◌, Bool, true, false,
  some, [], ◌∷◌, arith, length, replicate, get_or,
}
use miya_core.Base.Bytes.{memcmp, memcpy}
use miya_core.Transaction.OpenSsl.{OpenSsl}
use miya_core.Block.Header.{BlockHeader, header_hash, export_header, prev_block_hash}
use miya_core.ChainSync.Pool.{
  same_key, HeaderPool, push, find_by_prev_block_hash, key_of, equal_range, find_key, insert_key,
}
use miya_core.ChainSync.Subchain.{
  follow, latest_block_hash, digest_hash, chain_digest, same_subchain, SubChain, is_active, at_stop,
  extend, move_on,
}
use miya_core.ChainSync.Filter.{
  block_hash_received, mask, BdFilter, new_filter, filter_hash, filter_header,
}
use miya_core.ChainSync.Follow.{IsPrompt, extend-IsPath}
use miya_core.ChainSync.Twice.{extend-push_twice}
use miya_core.ChainSync.Seen.{filter_hash-filter_header}

abbrev toy : OpenSsl
toy = record {
  Key = ℕ;
  sha1 = λ bs. replicate 20 (get_or bs 32 0);
  sha256 = λ bs. replicate 32 (get_or bs 76 0);
  to_pkey = λ bs. some (length bs);
  to_raw_pub_key = λ k. replicate 10 k;
  sign = λ raw key. replicate 9 (length raw);
  verify = λ sign message key. false;
}

abbrev header : ℕ → ℕ → BlockHeader
header prev nonce = record {
  version = 0;
  previous_block_header_hash = replicate 32 prev;
  merkle_root = replicate 32 0;
  time = 0;
  n_bits = 0;
  nonce = nonce;
}

abbrev second : ℕ
second = 0

abbrev still : ℕ → ℕ
still t = second

still-IsPrompt : IsPrompt still
still-IsPrompt t = omega arith

-- Headers 2 and 3 behind a header 1.
abbrev pool : HeaderPool
pool = record {
  pool_block_hash = [];
  pool_prev_block_hash = (replicate 32 1, header 1 2) ∷ (replicate 32 2, header 2 3) ∷ [];
}

abbrev chain : SubChain
chain = record {
  start = header 0 1;
  latest = some (header 0 1);
  updated_at = 0;
  is_stoped = false;
  stop_hash = some (replicate 32 3);
}

extend-IsPath_example :
    (c' : SubChain) × (extend toy still still pool 5 0 0 chain ≡ some (true, c'))
    × (c'.start ≡ chain.start)
    × (c'.latest ≡ some (header 2 3))
    × (c'.is_stoped ≡ (chain.is_stoped || true))
unfolding is_active at_stop header_hash export_header find_by_prev_block_hash key_of equal_range
    memcmp memcpy
extend-IsPath_example =
    extend-IsPath toy pool still still 5 0 0 chain (header 0 1) (header 2 3)
      (header 1 2 ∷ header 2 3 ∷ []) true still-IsPrompt (omega arith) refl refl
      (refl, refl, (refl, refl, refl)) refl

abbrev start_chain : SubChain
start_chain = record {
  start = header 0 1;
  latest = some (header 0 1);
  updated_at = 0;
  is_stoped = false;
  stop_hash = some (replicate 32 9);
}

abbrev empty_pool : HeaderPool
empty_pool = record { pool_block_hash = []; pool_prev_block_hash = [] }

abbrev once : HeaderPool
once = record {
  pool_block_hash = (replicate 32 2, header 1 2) ∷ [];
  pool_prev_block_hash = (replicate 32 1, header 1 2) ∷ [];
}

abbrev twice : HeaderPool
twice = record {
  pool_block_hash = (replicate 32 2, header 1 2) ∷ [];
  pool_prev_block_hash = (replicate 32 1, header 1 2) ∷ (replicate 32 1, header 1 2) ∷ [];
}

extend-push_twice_example :
    (extend toy still still once 3 0 0 chain
      ≡ extend toy still still once 2 2 0 (move_on 0 chain (header 1 2)))
    × (extend toy still still twice 3 0 0 chain ≡ some (false, chain))
unfolding push is_active at_stop header_hash export_header find_by_prev_block_hash prev_block_hash
    key_of equal_range memcmp memcpy find_key insert_key
extend-push_twice_example =
    extend-push_twice toy still still empty_pool once twice 2 0 chain (header 0 1) (header 1 2)
      (true, 1) (true, 2) refl refl refl refl refl refl refl

length-replicate : (n x : ℕ) → length (replicate n x) ≡ n
length-replicate zero x = refl
length-replicate (suc n) x = omega (arith, length-replicate n x)

filter_hash-filter_header_example :
    (b : ℕ) × (f' : BdFilter) × (filter_header toy new_filter (header 0 1) false
      ≡ some (some b, f'))
    × ((is_reject : Bool)
        → filter_hash f' (header_hash toy (header 0 1)) is_reject ≡ some (some b, f'))
    × ((is_reject : Bool) → filter_header toy f' (header 0 1) is_reject ≡ some (some b, f'))
unfolding new_filter
filter_hash-filter_header_example =
    filter_hash-filter_header toy new_filter (header 0 1)
      (λ bs. length-replicate 32 (get_or bs 76 0)) refl

-- One block that is being downloaded.
abbrev one_block : BdFilter
one_block = record {
  is_close = false;
  filter_map = (replicate 32 1, 0) ∷ [];
  blocks =
      record {
        body = none;
        status = block_hash_received;
        block_hash = replicate 32 1;
        is_closed = true;
      }
      ∷ [];
}

find_key-one : (j k : List ℕ) (c b : ℕ) → find_key ((j, c) ∷ []) k ≡ some b → j ≡ k
unfolding find_key
find_key-one j k c b h = elim (Bool-cases (same_key j k)) [
  | inl e ↦ eq_of_same_key j k e
  | inr e ↦ absurd (ground arith)
]

closed_at-mask_example :
    (f' : BdFilter) × (mask toy one_block (header 0 3 ∷ header 0 1 ∷ []) ≡ some f')
    × (f'.filter_map ≡ one_block.filter_map)
    × ((k : List ℕ) (b : ℕ)
        → find_key one_block.filter_map k ≡ some b
        → closed_at f'.blocks b ≡ some (not (named toy (header 0 3 ∷ header 0 1 ∷ []) k)))
closed_at-mask_example =
    closed_at-mask toy one_block (header 0 3 ∷ header 0 1 ∷ [])
      (λ bs. length-replicate 32 (get_or bs 76 0)) (omega arith, tt)
      (λ k k' b e f.
        sym (find_key-one (replicate 32 1) k 0 b e) ∙ find_key-one (replicate 32 1) k' 0 b f)

-- Headers 2 and 4 behind the header 1, and a manager from it on, asked to stop at a hash 9.
abbrev forked : SyncManager
forked = record {
  header_subchain_set = start_chain ∷ [];
  start = header 0 1;
  stop_hash = some (replicate 32 9);
  pool = record {
    pool_block_hash = [];
    pool_prev_block_hash = (replicate 32 1, header 1 2) ∷ (replicate 32 1, header 1 4) ∷ [];
  };
  status = pending;
}

extend_all-build_subchain_example :
    (m' m'' : SyncManager) × (build_subchain toy still still 5 0 forked (header 1 4) ≡ some m')
    × (m'.header_subchain_set ≡ start_chain ∷ stopped_at toy 0 (header 0 1) (header 1 4) ∷ [])
    × (extend_all toy (λ i. still) still 5 false m' ≡ some (true, m''))
    × (m''.status ≡ finished)
unfolding is_active at_stop header_hash export_header find_by_prev_block_hash key_of equal_range
    memcmp memcpy insert_subchain extend_each same_subchain chain_digest digest_hash extend
    latest_block_hash follow
extend_all-build_subchain_example =
    extend_all-build_subchain toy (λ i. still) still 4 0 forked (header 1 4) false
      (start_chain ∷ []) (λ bs. length-replicate 32 (get_or bs 76 0)) (λ j. omega arith) refl refl
