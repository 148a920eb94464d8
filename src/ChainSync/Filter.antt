-- ===== src/ChainSync/Filter.antt =====
-- chain/chain_sync_manager/bd_filter.h and bd_filter.cpp with BDBCB.h and BDBCB.cpp: the control
-- blocks of the blocks that are being downloaded, by the hash of a block. The map holds shared
-- pointers, which are indices of the store `blocks`. Printing is left out, and so is the filter of
-- a whole block, which calls Block::height, a function that returns nothing.
use miya_core.Base.{
  ℕ, Bool, true, false, Option, none, some, List, [], ◌∷◌, ◌++◌, length, if◌then◌else◌, get_elem?,
  set,
}
use miya_core.Base.Fallible.{◌>>=◌}
use miya_core.Transaction.OpenSsl.{OpenSsl}
use miya_core.Block.Header.{BlockHeader, header_hash}
use miya_core.ChainSync.Pool.{key_of, find_key, insert_key}

-- BDState
pub data BdState : Type 0 where
  block_hash_received : BdState
  block_header_received : BdState
  block_header_validated : BdState
  block_body_received : BdState
  block_body_validated : BdState
  block_stored : BdState
  error_state : BdState
  empty_state : BdState

pub record Bdbcb : Type 0 where
  pub body : Option BlockHeader
  pub status : BdState
  pub block_hash : List ℕ
  pub is_closed : Bool

-- BDBCB::BDBCB( fromBlockHash )
unfoldable pub of_block_hash : List ℕ → Bdbcb
of_block_hash hash = record {
  body = none;
  status = block_hash_received;
  block_hash = hash;
  is_closed = false;
}

-- BDBCB::BDBCB( fromBlockHeader )
unfoldable pub of_block_header : OpenSsl → BlockHeader → Bdbcb
of_block_header l h = record {
  body = some h;
  status = block_header_received;
  block_hash = header_hash l h;
  is_closed = false;
}

pub record BdFilter : Type 0 where
  pub is_close : Bool
  pub filter_map : List (List ℕ × ℕ)
  pub blocks : List Bdbcb

-- BDFilter::BDFilter()
unfoldable pub new_filter : BdFilter
new_filter = record { is_close = false; filter_map = []; blocks = [] }

-- What BDFilter::filter does with an element that its map has or has not.
unfoldable pub filter_found : BdFilter → List ℕ → Bdbcb → Bool → Option ℕ → Option ℕ × BdFilter
unfolding insert_key
filter_found f key new is_reject (some b) = (some b, f)
filter_found f key new true none = (none, f)
filter_found f key new false none = (
  some (length f.blocks),
  record f {
    filter_map = insert_key f.filter_map key (length f.blocks);
    blocks = f.blocks ++ new ∷ [];
  },
)

-- The body of BDFilter::filter for a hash and what is made of it.
unfoldable pub filter_new : BdFilter → List ℕ → Bdbcb → Bool → Option (Option ℕ × BdFilter)
unfolding key_of find_key filter_found
filter_new f hash new is_reject =
    let found = key_of [] (some hash) >>= λ key.
    some (filter_found f key new is_reject (find_key f.filter_map key)) in
    if f.is_close then some (none, f) else found

-- std::shared_ptr<struct BDBCB> BDFilter::filter of a block hash
unfoldable pub filter_hash : BdFilter → List ℕ → Bool → Option (Option ℕ × BdFilter)
unfolding filter_new of_block_hash
filter_hash f target is_reject = filter_new f target (of_block_hash target) is_reject

-- std::shared_ptr<struct BDBCB> BDFilter::filter of a header
unfoldable pub filter_header :
    OpenSsl → BdFilter → BlockHeader → Bool → Option (Option ℕ × BdFilter)
unfolding filter_new of_block_header
filter_header l f target is_reject =
    filter_new f (header_hash l target) (of_block_header l target) is_reject

-- _isClosed of a control block; a pointer outside the store has no defined result
unfoldable pub set_closed : Bool → List Bdbcb → ℕ → Option (List Bdbcb)
set_closed closed blocks b =
    get_elem? blocks b >>= λ cb. some (set blocks b (record cb { is_closed = closed }))

-- The first loop of mask, over the elements of the map.
unfoldable pub close_all : List (List ℕ × ℕ) → List Bdbcb → Option (List Bdbcb)
unfolding set_closed
close_all [] blocks = some blocks
close_all ((k, b) ∷ fs) blocks = set_closed true blocks b >>= λ blocks'. close_all fs blocks'

unfoldable pub open_found : Option ℕ → List Bdbcb → Option (List Bdbcb)
unfolding set_closed
open_found none blocks = some blocks
open_found (some b) blocks = set_closed false blocks b

-- The second loop of mask, over the headers.
unfoldable pub open_each :
    OpenSsl → List (List ℕ × ℕ) → List BlockHeader → List Bdbcb → Option (List Bdbcb)
unfolding open_found find_key key_of
open_each l fs [] blocks = some blocks
open_each l fs (h ∷ hs) blocks = do
  key ← key_of [] (some (header_hash l h))
  blocks' ← open_found (find_key fs key) blocks
  open_each l fs hs blocks'

-- void BDFilter::mask
unfoldable pub mask : OpenSsl → BdFilter → List BlockHeader → Option BdFilter
unfolding close_all open_each
mask l f targets = do
  closed ← close_all f.filter_map f.blocks
  opened ← open_each l f.filter_map targets closed
  some (record f { blocks = opened })
