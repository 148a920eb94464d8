-- ===== src/ChainSync.antt =====
-- chain/chain_sync_manager/: what a node collects of the headers of its neighbours' chains. Pool
-- is the pool of headers (block_header_pool.cpp), Subchain a chain that is built of it
-- (virtual_header_subchain.cpp), Manager the set of these (virtual_header_sync_manager.cpp), and
-- Filter the blocks that are being downloaded (bd_filter.cpp).
pub mod Pool
pub mod Subchain
pub mod Filter
pub mod Manager
mod Follow
mod Twice
mod Seen
mod Closed
mod Mask
mod Fork
mod Tests
