-- ===== src/ValueStore/Tests.antt =====
-- The value store on a concrete file.
use miya_core.Optr.Laws.{address}
use miya_core.ValueStore.Laws.{get-add, first_optr}
use miya_core.ValueStore.{import_binary, ValueFragmentHeader, get, add, Store}
use miya_core.Allocator.Block.{
  prev_control_block, next_control_block, mapping_optr, free_block_end, free_block_size,
  set_free_block_end, set_mapping_optr, set_next_control_block, set_prev_control_block,
}
use miya_core.Allocator.Meta.{
  use_unused_control_block_head, control_block_tail, set_control_block_tail, set_head, head_at,
}
use miya_core.Base.{arith, ◌+◌, ◌≤◌, ◌<◌, ◌⊎◌, ◌⊎◌, ◌<◌, ℕ, [], ◌∷◌, ◌≡◌, refl, Option, some, none}
use miya_core.Optr.{set_addr, optr_eq, caddr, offset, frame, optr_add, Optr}
use miya_core.Memory.{ocmp_raw, copy_out, copy_in, set_value, value, Bytes}
use miya_core.Allocator.Ops.{
  to_unused_control_block, new_control_block, find_free_block, allocate, init,
}

abbrev or_zeros : Option (Unit {0} × Bytes) → Bytes
or_zeros none = λ a. 0
or_zeros (some (u, m)) = m

-- The free list file as the allocator formats it.
free : Bytes
unfolding init
free = or_zeros (init (λ a. 0))

abbrev start : Optr
start = record { b0 = 0; b1 = 0; b2 = 0; b3 = 0; b4 = 0 }

abbrev first : {A B : Type 0} → Option (A × B) → Option A
first none = none
first (some (a, b)) = some a

of_first :
    {A B : Type 0} (r : Option (A × B)) (a : A) → first r ≡ some a → (b : B) × (r ≡ some (a, b))
of_first none a h = cc
of_first (some (c, b)) a h = (b, cc)

starts : first (allocate 4 31 free) ≡ some start
unfolding allocate free head_at optr_add ocmp_raw value frame set_prev_control_block copy_in caddr
    set_value set_next_control_block set_mapping_optr set_free_block_end set_head offset copy_out
    set_control_block_tail free_block_size free_block_end mapping_optr next_control_block
    prev_control_block control_block_tail use_unused_control_block_head find_free_block init
    new_control_block to_unused_control_block optr_eq set_addr
starts = refl

abbrev files : Store
files = record { file = λ a. a; free = free }

allocated : (after : Bytes) × (allocate 4 31 free ≡ some (start, after))
allocated = of_first (allocate 4 31 free) start starts

get-add_example :
    (s' : Store) × (add 4 0 1700000000 files (7 ∷ 8 ∷ 9 ∷ []) 3 ≡ some (start, s'))
    × (get s' start ≡ some (7 ∷ 8 ∷ 9 ∷ []))
    × ((h : ValueFragmentHeader) × (import_binary s'.file start ≡ some h)
        × (h.prev_flagment ≡ first_optr files.file)
        × (h.next_flagment ≡ first_optr files.file))
    × ((x : ℕ) → (x < address start) ⊎ (address start + 28 + 3 ≤ x) → s'.file x ≡ files.file x)
get-add_example =
    get-add 4 0 1700000000 files (7 ∷ 8 ∷ 9 ∷ []) start allocated.0 allocated.1
      (record {
        byte0 = omega arith;
        byte1 = omega arith;
        byte2 = omega arith;
        byte3 = omega arith;
        byte4 = omega arith;
      })
      (omega arith) (omega arith)
