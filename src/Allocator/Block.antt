-- ===== src/Allocator/Block.antt =====
-- control_block.cpp: a control block is twenty bytes, | prev | next | mapping | end |, and is known
-- by its overlay pointer.
use Prim.Native.Nat.{Ordering}
use miya_core.Base.{
  ℕ, ◌+◌, ◌-◌, ◌*◌, ◌%◌, ◌^◌, Bool, true, false, Option, none, some, List, [], ◌∷◌, ◌==◌,
  if◌then◌else◌,
}
use miya_core.Optr.{Optr, caddr}
use miya_core.Memory.{ocmp_raw}
use miya_core.Allocator.Command.{M, pure, ◌>>=◌, at, load, store}

abbrev pub zero_addr : List ℕ
zero_addr = 0 ∷ 0 ∷ 0 ∷ 0 ∷ 0 ∷ []

-- optr( unsigned char *addr ) of five bytes
abbrev pub of_bytes : List ℕ → M Optr
of_bytes (a ∷ b ∷ c ∷ d ∷ e ∷ []) m = some (record { b0 = a; b1 = b; b2 = c; b3 = d; b4 = e }, m)
of_bytes bs m = none

-- An address stored at a pointer, and five zero bytes there.
abbrev pub load_optr : Optr → M Optr
load_optr o = do bs ← load o 5; of_bytes bs

abbrev pub is_zero : Optr → M Bool
is_zero o m = elim (ocmp_raw m o 0 zero_addr) [
  | none ↦ none
  | some Ordering.eq ↦ some (true, m)
  | some _ ↦ some (false, m)
]

-- ControlBlock::prevControlBlock()
unfoldable pub prev_control_block : Optr → M Optr
prev_control_block b = load_optr b

unfoldable pub set_prev_control_block : Optr → Optr → M (Unit {0})
set_prev_control_block b target = store b (caddr target)

-- ControlBlock::nextControlBlock()
unfoldable pub next_control_block : Optr → M Optr
next_control_block b = do p ← at b 5; load_optr p

unfoldable pub set_next_control_block : Optr → Optr → M (Unit {0})
set_next_control_block b target = do p ← at b 5; store p (caddr target)

-- ControlBlock::mappingOptr()
unfoldable pub mapping_optr : Optr → M Optr
mapping_optr b = do p ← at b 10; load_optr p

unfoldable pub set_mapping_optr : Optr → Optr → M (Unit {0})
set_mapping_optr b target = do p ← at b 10; store p (caddr target)

-- ControlBlock::freeBlockEnd(): null where the five bytes are zero
unfoldable pub free_block_end : Optr → M (Option Optr)
free_block_end b = do
  p ← at b 15
  z ← is_zero p
  if z then pure none else do e ← load_optr p; pure (some e)

unfoldable pub set_free_block_end : Optr → Option Optr → M (Unit {0})
set_free_block_end b none = do p ← at b 15; store p zero_addr
set_free_block_end b (some target) = do p ← at b 15; store p (caddr target)

-- The weight of the first byte is 2 ^ 64, which no uint64_t holds, and that of the second 2 ^ 32.
abbrev pub to_uint64 : Optr → M ℕ
to_uint64 o m =
    if o.b0 == 0 then some (o.b1 * 2 ^ 32 + o.b2 * 2 ^ 16 + o.b3 * 2 ^ 8 + o.b4, m) else none

-- unsigned long ControlBlock::freeBlockSize()
unfoldable pub free_block_size : Optr → M ℕ
unfolding mapping_optr free_block_end
free_block_size b = do
  mapping ← mapping_optr b
  start ← to_uint64 mapping
  end ← free_block_end b
  elim end [
    | none ↦ pure 0
    | some e ↦ do stop ← to_uint64 e; pure ((stop + 2 ^ 64 - start) % 2 ^ 64)
  ]
