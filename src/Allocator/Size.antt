-- ===== src/Allocator/Size.antt =====
-- ControlBlock::freeBlockSize (control_block.cpp), by the words of a control block.
use miya_core.Base.{ℕ, ◌+◌, ◌-◌, ◌%◌, ◌^◌, ◌<◌, ◌≤◌, ◌≡◌, refl, ◌≢◌, none, some, arith}
use miya_core.Optr.{set_addr}
use miya_core.Memory.{Bytes}
use miya_core.Allocator.Block.{mapping_optr, free_block_end, free_block_size, to_uint64}
use miya_core.Allocator.Words.{Words, ptr, Rep}
use miya_core.Allocator.Access.{Returns, returns, bind, at-ptr, load-word}
use miya_core.Allocator.Rules.{block, InFile, null, not-null}

to_uint64-set_addr :
    {m : Bytes} {w : Words}
    → Rep m w
    → (a : ℕ) → a < 2 ^ 24
    → Returns a w (to_uint64 (set_addr a) m)
unfolding set_addr
to_uint64-set_addr {m = m} {w = w} r a h =
    let e : to_uint64 (set_addr a) m ≡ some (a, m) = ground arith in rw e (returns r)

module _ {m : Bytes} {w : Words} (r : Rep m w) (i : ℕ) (b : InFile i) where
  mapping-word : Returns (set_addr (w (block i + 2))) w (mapping_optr (ptr (block i)) m)
  unfolding mapping_optr
  mapping-word =
      bind _ (at-ptr r (block i) 10 2 refl (omega arith))
        (λ m' r'. load-word r' (block i + 2) (omega arith))

  end-none : w (block i + 3) ≡ 0 → Returns none w (free_block_end (ptr (block i)) m)
  unfolding free_block_end
  end-none z =
      bind _ (at-ptr r (block i) 15 3 refl (omega arith))
        (λ m' r'. bind _ (null r' (block i + 3) (omega arith) z) (λ m2 r2. returns r2))

  end-some :
      w (block i + 3) ≢ 0
      → Returns (some (set_addr (w (block i + 3)))) w (free_block_end (ptr (block i)) m)
  unfolding free_block_end
  end-some ne = bind _ (at-ptr r (block i) 15 3 refl (omega arith)) (λ m' r'.
      bind _ (not-null r' (block i + 3) (omega arith) ne)
        (λ m2 r2. bind _ (load-word r2 (block i + 3) (omega arith)) (λ m3 r3. returns r3)))

-- freeBlockSize of a block below 2 ^ 24 whose area lies below 2 ^ 24 is 0 where the block has no
-- end, and otherwise, where the end is not before the start, the length of its area.
pub free_block_size_lem :
    {m : Bytes} {w : Words} (r : Rep m w) (i : ℕ)
    → InFile i
    → w (block i + 2) < 2 ^ 24
    → w (block i + 3) < 2 ^ 24
    → (w (block i + 3) ≡ 0 → Returns 0 w (free_block_size (ptr (block i)) m))
      × (w (block i + 3) ≢ 0
          → w (block i + 2) ≤ w (block i + 3)
          → Returns (w (block i + 3) - w (block i + 2)) w (free_block_size (ptr (block i)) m))
unfolding free_block_size
free_block_size_lem {w = w} r i b p q = (
  λ z. bind _ (mapping-word r i b) (λ m1 r1.
      bind _ (to_uint64-set_addr r1 (w (block i + 2)) p)
        (λ m2 r2. bind _ (end-none r2 i b z) (λ m3 r3. returns r3))),
  λ ne l.
      let v : (w (block i + 3) + 2 ^ 64 - w (block i + 2)) % 2 ^ 64
          ≡ w (block i + 3) - w (block i + 2) =
        omega arith in
      bind _ (mapping-word r i b) (λ m1 r1.
        bind _ (to_uint64-set_addr r1 (w (block i + 2)) p) (λ m2 r2.
          bind _ (end-some r2 i b ne) (λ m3 r3.
            bind _ (to_uint64-set_addr r3 (w (block i + 3)) q) (λ m4 r4. rw v (returns r4))))),
)
