-- ===== src/Block.antt =====
-- chain/block/block.h and block.cpp: a block, its Merkle root and its verification, over its
-- header (Header), the search for a nonce (Mining) and the transactions. The objects behind
-- pointers are held by value.
pub mod Header
pub mod Mining
pub mod Merkle
mod Layout
mod First
mod Compare
mod Found
mod Tests
