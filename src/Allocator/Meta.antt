-- ===== src/Allocator/Meta.antt =====
-- meta_block.cpp: the managed area at the start of the free list file holds the format code, the
-- heads of three rings of control blocks and the last control block made.
use Prim.Native.Nat.{Ordering}
use miya_core.Base.{ℕ, Bool, true, false, Option, none, some, List, [], ◌∷◌, if◌then◌else◌}
use miya_core.Optr.{Optr, caddr, optr_eq}
use miya_core.Memory.{ocmp_raw}
use miya_core.Allocator.Command.{M, pure, ◌>>=◌, ◌>>◌, at, load, store}
use miya_core.Allocator.Block.{
  zero_addr, load_optr, is_zero, prev_control_block, set_prev_control_block, next_control_block,
  set_next_control_block,
}

abbrev pub primary_optr : Optr
primary_optr = record { b0 = 0; b1 = 0; b2 = 0; b3 = 0; b4 = 0 }

-- CONTROL_BLOCK_HEAD_OFFSET, ALLOCATED_BLOCK_HEAD_OFFSET, UNUSED_BLOCK_HEAD_OFFSET,
-- CONTROL_BLOCK_TAIL_OFFSET and DB_STATE_OFFSET
abbrev pub free_offset : ℕ
free_offset = 15

abbrev pub allocated_offset : ℕ
allocated_offset = 20

abbrev pub unused_offset : ℕ
unused_offset = 25

abbrev pub tail_offset : ℕ
tail_offset = 30

abbrev pub db_state_offset : ℕ
db_state_offset = 50

-- The getters freeBlockHead(), allocatedBlockHead() and unUsedControlBlockHead(), which differ in
-- their offset: null where the five bytes are zero.
unfoldable pub head_at : ℕ → M (Option Optr)
head_at offset = do
  p ← at primary_optr offset
  z ← is_zero p
  if z then pure none else do h ← load_optr p; pure (some h)

-- A use of a pointer that may be null.
abbrev pub deref : Option Optr → M Optr
deref none m = none
deref (some o) m = some (o, m)

abbrev pub the_head : ℕ → M Optr
the_head offset = do h ← head_at offset; deref h

-- The setters freeBlockHead( target ), allocatedBlockHead( target ) and
-- unUsedControlBlockHead( target ): a ring of one, or the target put before the head.
unfoldable pub set_head : ℕ → Option Optr → M (Unit {0})
unfolding head_at prev_control_block set_prev_control_block set_next_control_block
set_head offset none = do p ← at primary_optr offset; store p zero_addr
set_head offset (some target) = do
  p ← at primary_optr offset
  old ← head_at offset
  elim old [
    | none ↦ do
      store p (caddr target)
      h ← the_head offset
      set_prev_control_block h h
      set_next_control_block h h
    | some h ↦ do
      set_next_control_block target h
      last ← prev_control_block h
      set_prev_control_block target last
      last' ← prev_control_block h
      set_next_control_block last' target
      set_prev_control_block h target
      store p (caddr target)
  ]

-- MetaBlock::useUnUsedControlBlockHead()
unfoldable pub use_unused_control_block_head : M (Option Optr)
unfolding set_head next_control_block
use_unused_control_block_head = do
  head ← head_at unused_offset
  elim head [
    | none ↦ pure none
    | some r ↦ do
      n ← next_control_block r
      if optr_eq r n then set_head unused_offset none else (do
        p ← prev_control_block r
        set_prev_control_block n p
        p' ← prev_control_block r
        n' ← next_control_block r
        set_next_control_block p' n'
        n'' ← next_control_block r
        set_head unused_offset (some n''))
      pure (some r)
  ]

-- MetaBlock::controlBlockTail( target ) and controlBlockTail()
unfoldable pub set_control_block_tail : Optr → M (Unit {0})
set_control_block_tail target = do p ← at primary_optr tail_offset; store p (caddr target)

unfoldable pub control_block_tail : M (Option Optr)
control_block_tail = do
  p ← at primary_optr tail_offset
  o ← load_optr p
  pure (if optr_eq o primary_optr then none else some o)

-- MetaBlock::dbState( target ) and dbState( &ret )
unfoldable pub set_db_state : List ℕ → M (Unit {0})
set_db_state target = do p ← at primary_optr db_state_offset; store p target

unfoldable pub db_state : M (List ℕ)
db_state = do p ← at primary_optr db_state_offset; load p 20

-- FORMAT_ID, "HELLOMIYACOIN!!"
abbrev pub format_id : List ℕ
format_id = 72 ∷ 69 ∷ 76 ∷ 76 ∷ 79 ∷ 77 ∷ 73 ∷ 89 ∷ 65 ∷ 67 ∷ 79 ∷ 73 ∷ 78 ∷ 33 ∷ 33 ∷ []

-- bool MetaBlock::isFileFormatted()
unfoldable pub is_file_formatted : M Bool
is_file_formatted m = elim (ocmp_raw m primary_optr 0 format_id) [
  | none ↦ none
  | some Ordering.eq ↦ some (true, m)
  | some _ ↦ some (false, m)
]
