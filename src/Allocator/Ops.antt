-- ===== src/Allocator/Ops.antt =====
-- overlay_memory_allocator.cpp. A walk along a ring takes fuel, one unit for a block; `none` is a
-- walk that outlasts it, or a step with no defined result.
use miya_core.Base.{
  ℕ, zero, suc, ◌%◌, ◌^◌, Bool, true, false, ◌||◌, Option, none, some, ltb, ◌==◌, if◌then◌else◌,
}
use miya_core.Optr.{Optr, set_addr, optr_eq}
use miya_core.Allocator.Command.{M, pure, ◌>>=◌, ◌>>◌, at, store}
use miya_core.Allocator.Block.{
  prev_control_block, set_prev_control_block, next_control_block, set_next_control_block,
  mapping_optr, set_mapping_optr, free_block_end, set_free_block_end, free_block_size,
}
use miya_core.Allocator.Meta.{
  primary_optr, free_offset, allocated_offset, unused_offset, head_at, deref, the_head, set_head,
  use_unused_control_block_head, set_control_block_tail, control_block_tail, format_id,
}

-- The do-while loops of findFreeBlock( optr* ) and findAllocatedBlock( optr* ).
unfoldable pub find_loop : ℕ → ℕ → Optr → Optr → M (Option Optr)
find_loop zero offset target current = λ m. none
find_loop (suc fuel) offset target current = do
  mapped ← mapping_optr current
  if optr_eq mapped target then pure (some current) else do
    next ← next_control_block current
    first ← the_head offset
    if optr_eq next first then pure none else find_loop fuel offset target next

-- findFreeBlock( optr* ), the free block that starts at an address, and findAllocatedBlock( optr* )
unfoldable pub find_mapped : ℕ → ℕ → Optr → M (Option Optr)
unfolding find_loop
find_mapped fuel offset target = do
  head ← head_at offset
  elim head [ none ↦ pure none | some current ↦ find_loop fuel offset target current ]

-- findFreeBlock( ControlBlock* , unsigned int ): the first block that is open-ended or large enough
unfoldable pub find_free_block : ℕ → Optr → ℕ → M Optr
find_free_block zero block size = λ m. none
find_free_block (suc fuel) block size = do
  free ← free_block_size block
  if free == 0
      then pure block
      else if ltb free size
      then (do next ← next_control_block block; find_free_block fuel next size)
      else pure block

-- OverlayMemoryAllocator::newControlBlock()
unfoldable pub new_control_block : M Optr
new_control_block = do
  last ← control_block_tail
  tail ← deref last
  block ← at tail 20
  set_control_block_tail block
  pure block

-- The head of a ring is a block, where a null head is a fault or an answer.
abbrev pub heads : ℕ → Optr → M Bool
heads offset block = do h ← the_head offset; pure (optr_eq h block)

abbrev pub heads? : ℕ → Optr → M Bool
heads? offset block = do
  head ← head_at offset
  elim head [ none ↦ pure false | some h ↦ pure (optr_eq h block) ]

abbrev pub advance_head : ℕ → Optr → M (Unit {0})
advance_head offset block = do next ← next_control_block block; set_head offset (some next)

-- OverlayMemoryAllocator::toUnUsedControlBlock
unfoldable pub to_unused_control_block : Optr → M (Unit {0})
to_unused_control_block block = do
  prev ← prev_control_block block
  next ← next_control_block block
  if optr_eq prev block || optr_eq next block
      then (do
        free ← heads free_offset block
        if free then set_head free_offset none else (do
          allocated ← heads allocated_offset block
          if allocated then set_head allocated_offset none else (do
            unused ← heads unused_offset block
            if unused then set_head unused_offset none else pure tt))
        set_head unused_offset (some block))
      else (do
        free ← heads? free_offset block
        if free then advance_head free_offset block else (do
          allocated ← heads? allocated_offset block
          if allocated then advance_head allocated_offset block else (do
            unused ← heads? unused_offset block
            if unused then advance_head unused_offset block else pure tt))
        n ← next_control_block block
        p ← prev_control_block block
        set_prev_control_block n p
        p' ← prev_control_block block
        n' ← next_control_block block
        set_next_control_block p' n'
        set_head unused_offset (some block))

-- A control block from the unused ones, or a new one.
abbrev pub fresh_block : M Optr
fresh_block = do
  unused ← use_unused_control_block_head
  elim unused [ none ↦ new_control_block | some block ↦ pure block ]

-- OverlayMemoryAllocator::allocate( unsigned long )
unfoldable pub allocate : ℕ → ℕ → M Optr
unfolding find_free_block to_unused_control_block new_control_block
allocate fuel size = do
  head ← the_head free_offset
  target ← find_free_block fuel head (size % 2 ^ 32)
  block ← fresh_block
  mapped ← mapping_optr target
  set_mapping_optr block mapped
  start ← mapping_optr block
  end ← at start size
  set_free_block_end block (some end)
  set_head allocated_offset (some block)
  room ← free_block_size target
  if room == 0 || ltb size room
      then (do
        rest ← fresh_block
        start' ← mapping_optr block
        end' ← at start' size
        set_mapping_optr rest end'
        limit ← free_block_end target
        set_free_block_end rest limit
        to_unused_control_block target
        set_head free_offset (some rest))
      else to_unused_control_block target
  mapping_optr block

-- OverlayMemoryAllocator::mergeControlBlock
unfoldable pub merge_control_block : ℕ → ℕ → Optr → M (Unit {0})
merge_control_block zero walk block = λ m. none
merge_control_block (suc fuel) walk block = do
  end ← free_block_end block
  elim end [
    | none ↦ pure tt
    | some e ↦ do
      found ← find_mapped walk free_offset e
      elim found [
        | none ↦ pure tt
        | some merged ↦ do
          limit ← free_block_end merged
          set_free_block_end block limit
          to_unused_control_block merged
          merge_control_block fuel walk block
      ]
  ]

-- OverlayMemoryAllocator::deallocate( optr* ): false where it throws
unfoldable pub deallocate : ℕ → Optr → M Bool
unfolding find_mapped merge_control_block to_unused_control_block new_control_block
deallocate fuel target = do
  found ← find_mapped fuel allocated_offset target
  elim found [
    | none ↦ pure false
    | some allocated ↦ do
      block ← fresh_block
      set_mapping_optr block target
      end ← free_block_end allocated
      set_free_block_end block end
      set_head free_offset (some block)
      to_unused_control_block allocated
      merge_control_block fuel fuel block
      pure true
  ]

-- OverlayMemoryAllocator::init()
unfoldable pub init : M (Unit {0})
init = do
  first ← at primary_optr 100
  set_prev_control_block first first
  set_next_control_block first first
  set_mapping_optr first (set_addr 0)
  set_free_block_end first none
  set_head free_offset (some first)
  set_control_block_tail first
  set_head unused_offset none
  store primary_optr format_id
