-- ===== src/Allocator.antt =====
-- The overlay memory allocator, miya_db/strage_manager/MMyISAM/components/page_table/:
-- control_block.cpp (Block), meta_block.cpp (Meta) and overlay_memory_allocator.cpp (Ops), over
-- the bytes of the free list file (Memory). Log lines are left out.
pub mod Command
pub mod Block
pub mod Meta
pub mod Ops
pub mod Words
pub mod Access
pub mod Rules
pub mod Heads
pub mod Unused
pub mod Ring
pub mod Reuse
pub mod Size
pub mod Fit
mod Tests
