-- ===== src/ChainSync/Manager.antt =====
-- chain/chain_sync_manager/virtual_header_sync_manager.cpp: the subchains that follow the headers
-- in the pool. The set of subchains is a list without two of one digest, in the order in which they
-- came, where the standard leaves the order open. The calls on a chain read `clock i`, for the
-- i-th chain. Log lines, the thread of start() and its requests are left out.
use miya_core.Base.{
  ℕ, ◌+◌, Bool, false, ◌&&◌, ◌||◌, Option, some, List, [], ◌∷◌, ltb, if◌then◌else◌,
}
use miya_core.Base.Fallible.{◌>>=◌}
use miya_core.Script.{Data}
use miya_core.Transaction.OpenSsl.{OpenSsl}
use miya_core.Block.Header.{BlockHeader, header_hash}
use miya_core.ChainSync.Pool.{HeaderPool, push}
use miya_core.ChainSync.Subchain.{SubChain, new_subchain, build, extend, same_subchain}

-- VirtualHeaderSyncManagerState
pub data ManagerState : Type 0 where
  working : ManagerState
  pending : ManagerState
  finished : ManagerState
  timed_out : ManagerState
  failed : ManagerState

pub record SyncManager : Type 0 where
  pub header_subchain_set : List SubChain
  pub start : BlockHeader
  pub stop_hash : Data
  pub pool : HeaderPool
  pub status : ManagerState

-- VirtualHeaderSyncManager::VirtualHeaderSyncManager at a time
unfoldable pub new_manager : ℕ → BlockHeader → Data → SyncManager
unfolding new_subchain
new_manager now start stop_hash = record {
  header_subchain_set = new_subchain now start stop_hash ∷ [];
  start = start;
  stop_hash = stop_hash;
  pool = record { pool_block_hash = []; pool_prev_block_hash = [] };
  status = pending;
}

module _ (l : OpenSsl) where
  -- insert of the set: a chain with the digest of one that is there is not put in
  unfoldable pub insert_subchain : List SubChain → SubChain → Option (List SubChain)
  insert_subchain [] c = some (c ∷ [])
  insert_subchain (d ∷ set) c = do
    same ← same_subchain l d c
    let rest = insert_subchain set c >>= λ set'. some (d ∷ set')
    (if same then some (d ∷ set) else rest)

  unfoldable pub insert_all : List SubChain → List SubChain → Option (List SubChain)
  unfolding insert_subchain
  insert_all set [] = some set
  insert_all set (c ∷ cs) = insert_subchain set c >>= λ set'. insert_all set' cs

  -- The loop of extend over the copies of the chains from the i-th on: whether one has reached its
  -- stop, and the chains.
  unfoldable pub extend_each :
      (ℕ → ℕ → ℕ) → (ℕ → ℕ) → HeaderPool → ℕ → ℕ → ℕ → List SubChain → Option (Bool × List SubChain)
  extend_each clock rand p fuel action i [] = some (false, [])
  extend_each clock rand p fuel action i (c ∷ cs) = do
    (stopped, c') ← extend l (clock i) rand p fuel 0 action c
    (any, cs') ← extend_each clock rand p fuel action (i + 1) cs
    some (stopped || any, c' ∷ cs')

  -- bool VirtualHeaderSyncManager::extend
  unfoldable pub extend_all :
      (ℕ → ℕ → ℕ) → (ℕ → ℕ) → ℕ → Bool → SyncManager → Option (Bool × SyncManager)
  unfolding extend_each insert_all
  extend_all clock rand fuel collision_action m = do
    (stopped, cs) ←
        extend_each clock rand m.pool fuel (if collision_action then 1 else 0) 0
          m.header_subchain_set
    set ← insert_all [] cs
    some (
      stopped,
      record m { header_subchain_set = set; status = if stopped then finished else m.status },
    )

  -- void VirtualHeaderSyncManager::build at a time
  unfoldable pub build_subchain :
      (ℕ → ℕ) → (ℕ → ℕ) → ℕ → ℕ → SyncManager → BlockHeader → Option SyncManager
  unfolding new_subchain build insert_subchain
  build_subchain clock rand fuel now m stop_header = do
    let c = new_subchain now m.start (some (header_hash l stop_header))
    (stopped, c') ← extend l clock rand m.pool fuel 0 0 (build c (some stop_header))
    set ← insert_subchain m.header_subchain_set c'
    some (record m { header_subchain_set = set })

  -- The loop of add over the headers: the pool, and those that share their block before.
  unfoldable pub push_all : HeaderPool → List BlockHeader → Option (HeaderPool × List BlockHeader)
  push_all p [] = some (p, [])
  push_all p (h ∷ hs) = do
    ((ok, count), p') ← push l p h
    (p'', duplicates) ← push_all p' hs
    let duplicate = ok && (ltb 1 count && ltb count 32768)
    some (p'', (if duplicate then h ∷ duplicates else duplicates))

  -- The loop of add over those headers.
  unfoldable pub build_each :
      (ℕ → ℕ) → (ℕ → ℕ) → ℕ → ℕ → SyncManager → List BlockHeader → Option SyncManager
  unfolding build_subchain
  build_each clock rand fuel now m [] = some m
  build_each clock rand fuel now m (h ∷ hs) = do
    m' ← build_subchain clock rand fuel now m h
    build_each clock rand fuel now m' hs

  -- void VirtualHeaderSyncManager::add; the calls that build chains read `clock 0` from its start
  unfoldable pub add_headers :
      (ℕ → ℕ → ℕ) → (ℕ → ℕ) → ℕ → ℕ → SyncManager → List BlockHeader → Option SyncManager
  unfolding push_all build_each extend_all
  add_headers clock rand fuel now m targets = do
    (p, duplicates) ← push_all m.pool targets
    m' ← build_each (clock 0) rand fuel now (record m { pool = p }) duplicates
    (stopped, m'') ← extend_all clock rand fuel false m'
    some (record m'' { status = if stopped then finished else m''.status })
