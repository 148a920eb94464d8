-- ===== src/ChainSync/Subchain.antt =====
-- chain/chain_sync_manager/virtual_header_subchain.h and .cpp: a chain of headers from a start,
-- which takes its next headers from the pool. The times that the calls read are the values of
-- `clock`, one behind another, and what std::rand() gives is `rand`. Log lines are left out.
use miya_core.Base.{
  ℕ, zero, suc, ◌+◌, ◌-◌, ◌%◌, ◌^◌, Bool, true, false, Option, none, some, List, [], ◌∷◌, ◌++◌,
  length, ltb, if◌then◌else◌, get_or, replicate,
}
use miya_core.Base.Bytes.{memcpy, memcmp}
use miya_core.Base.Fallible.{◌>>=◌}
use miya_core.Script.{Data}
use miya_core.Script.Validator.{is_eq}
use miya_core.Transaction.OpenSsl.{OpenSsl}
use miya_core.Block.Header.{BlockHeader, prev_block_hash, header_hash}
use miya_core.ChainSync.Pool.{HeaderPool, find_by_block_hash, find_by_prev_block_hash}

-- SUBCHAIN_LIFETIME
abbrev pub subchain_lifetime : ℕ
subchain_lifetime = 7

pub record SubChain : Type 0 where
  pub start : BlockHeader
  pub latest : Option BlockHeader
  pub updated_at : ℕ
  pub is_stoped : Bool
  pub stop_hash : Data

-- VirtualHeaderSubChain::VirtualHeaderSubChain at a time
unfoldable pub new_subchain : ℕ → BlockHeader → Data → SubChain
new_subchain now start stop_hash = record {
  start = start;
  latest = some start;
  updated_at = now % 2 ^ 32;
  is_stoped = false;
  stop_hash = stop_hash;
}

-- bool VirtualHeaderSubChain::isActive() at a time
unfoldable pub is_active : ℕ → SubChain → Bool
is_active now c = ltb ((now % 2 ^ 32 + 2 ^ 32 - c.updated_at) % 2 ^ 32) subchain_lifetime

-- void VirtualHeaderSubChain::build
unfoldable pub build : SubChain → Option BlockHeader → SubChain
build c latest = record c { latest = latest }

-- A header as the last one, and the time of it.
unfoldable pub move_on : ℕ → SubChain → BlockHeader → SubChain
move_on now c h = record c { latest = some h; updated_at = now % 2 ^ 32 }

-- What extend makes of the headers that name the last one: whether it goes on, and the chain. An
-- action that is not 0 or 1 changes nothing and goes on.
unfoldable pub follow : ℕ → ℕ → ℕ → SubChain → List BlockHeader → Bool × SubChain
unfolding move_on
follow now random action c [] = (false, c)
follow now random action c (h ∷ []) = (true, move_on now c h)
follow now random zero c (h ∷ i ∷ hs) = (false, c)
follow now random (suc zero) c (h ∷ i ∷ hs) =
    (true, move_on now c (get_or (h ∷ i ∷ hs) (random % length (h ∷ i ∷ hs)) h))
follow now random (suc (suc action)) c (h ∷ i ∷ hs) = (true, c)

-- The test of extend for the hash at which the chain is to stop.
unfoldable pub at_stop : List ℕ → Data → Option Bool
at_stop hash none = some false
at_stop hash (some stop) = do a ← memcpy 32 hash; b ← memcpy 32 stop; some (is_eq (memcmp a b))

module _ (l : OpenSsl) where
  -- std::shared_ptr<unsigned char> Context::latestBlockHash()
  unfoldable pub latest_block_hash : SubChain → Option (List ℕ)
  latest_block_hash c = c.latest >>= λ h. some (header_hash l h)

  -- The hash of the last header in a digest, zeros for a null pointer.
  unfoldable pub digest_hash : Option BlockHeader → List ℕ
  digest_hash none = replicate 32 0
  digest_hash (some h) = header_hash l h

  -- size_t VirtualHeaderSubChain::chainDigest
  unfoldable pub chain_digest : SubChain → Option (List ℕ)
  unfolding digest_hash
  chain_digest c = do
    start ← memcpy 32 (header_hash l c.start)
    latest ← memcpy 32 (digest_hash c.latest)
    some (l.sha1 (start ++ latest))

  -- bool VirtualHeaderSubChain::operator==
  unfoldable pub same_subchain : SubChain → SubChain → Option Bool
  unfolding chain_digest
  same_subchain c d = do a ← chain_digest c; b ← chain_digest d; some (is_eq (memcmp a b))

  -- bool VirtualHeaderSubChain::extend, from the reading t of the clock on. Each call that it makes
  -- of itself takes one unit of fuel.
  unfoldable pub extend :
      (ℕ → ℕ) → (ℕ → ℕ) → HeaderPool → ℕ → ℕ → ℕ → SubChain → Option (Bool × SubChain)
  unfolding latest_block_hash at_stop follow is_active
  extend clock rand p zero t action c = none
  extend clock rand p (suc fuel) t action c =
      let moved = (do
        hash ← latest_block_hash c
        stop ← at_stop hash c.stop_hash
        found ← find_by_prev_block_hash p hash
        let (goes_on, c') = follow (clock (t + 1)) (rand t) action c found
        let rest = extend clock rand p fuel (t + 2) action c'
        (if stop
            then some (true, record c { is_stoped = true })
            else if goes_on
            then rest
            else some (false, c'))) in
      if is_active (clock t) c then moved else some (false, c)

  -- The loop of exportChainVector, a unit of fuel for a header. What the memory of a key without a
  -- hash holds is `memory`.
  unfoldable pub export_loop :
      List ℕ → HeaderPool → ℕ → List BlockHeader → Option BlockHeader → Option (List BlockHeader)
  export_loop memory p fuel ret none = some ret
  export_loop memory p zero ret (some h) = none
  export_loop memory p (suc fuel) ret (some h) = do
    before ← find_by_block_hash memory p (prev_block_hash h)
    export_loop memory p fuel (ret ++ h ∷ []) before

  -- std::vector<std::shared_ptr<BlockHeader>> VirtualHeaderSubChain::exportChainVector
  unfoldable pub export_chain_vector :
      List ℕ → HeaderPool → ℕ → SubChain → Option (List BlockHeader)
  unfolding export_loop
  export_chain_vector memory p fuel c = export_loop memory p fuel [] c.latest
