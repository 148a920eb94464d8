-- ===== src/Allocator/Reuse.antt =====
-- What MetaBlock::useUnUsedControlBlockHead (meta_block.cpp) leaves of the ring of unused blocks:
-- its setter of the head puts the new head before the old one again.
use miya_core.Base.{ℕ, ◌≢◌, arith, some, sym, Option, List, [], length, ◌≤◌, ◌∷◌}
use miya_core.Optr.{Optr}
use miya_core.Memory.{Bytes}
use miya_core.Allocator.Command.{M, ◌>>=◌, pure}
use miya_core.Allocator.Meta.{use_unused_control_block_head}
use miya_core.Allocator.Words.{Words, put, ptr, Rep}
use miya_core.Allocator.Access.{Returns, returns, bind}
use miya_core.Allocator.Rules.{block, InFile}
use miya_core.Allocator.Ring.{Ring, Chain, AllInFile, last, last-prev, last-ne, last-InFile}
use miya_core.Base.Distinct.{Fresh, Distinct}
use miya_core.Allocator.Unused.{Heads, left, use_unused-several, use_unused-alone}

left-Heads :
    (w : Words) (h n p : ℕ) → h ≢ n → h ≢ p → n ≢ p → Heads w h n p → Heads (left w h n p) n h p
left-Heads w h n p ne ne' ne'' s = record {
  head = ground arith;
  next = ground arith;
  prev = ground arith;
}

-- Taking a block from a ring of one or two unused blocks below 2 ^ 24 returns its head and
-- leaves the ring of the rest.
pub use_unused-Ring :
    {m : Bytes} {w : Words} (r : Rep m w) (h : ℕ) (bs : List ℕ)
    → length bs ≤ 1
    → AllInFile (h ∷ bs)
    → Ring w 5 (h ∷ bs)
    → (w' : Words) × Returns (some (ptr (block h))) w' (use_unused_control_block_head m)
      × Ring w' 5 bs
unfolding AllInFile Ring Chain Distinct Fresh
use_unused-Ring {w = w} r h [] short (b, _) (e, (n, p), _) =
    (put w 5 0, use_unused-alone r h h b (record { head = e; next = n; prev = p }), ground arith)
use_unused-Ring {w = w} r h (n ∷ []) short (b, (c, _)) (e, (nh, pn, (nn, ph)), ((ne, _), _)) = (
  left w h n n,
  use_unused-several r h n n b c c ne ne (record { head = e; next = nh; prev = ph }),
  (ground arith, (ground arith, ground arith), (tt, tt)),
)
use_unused-Ring r h (n ∷ x ∷ bs) short bs' g = absurd (omega arith)

abbrev pub use_three : M (List (Option Optr))
use_three = do
  a ← use_unused_control_block_head
  b ← use_unused_control_block_head
  c ← use_unused_control_block_head
  pure (a ∷ b ∷ c ∷ [])

three :
    {m : Bytes} {w : Words} (r : Rep m w) (h n p : ℕ)
    → InFile h
    → InFile n
    → InFile p
    → h ≢ n
    → h ≢ p
    → n ≢ p
    → Heads w h n p
    → (w' : Words) × Returns
        (some (ptr (block h)) ∷ some (ptr (block n)) ∷ some (ptr (block h)) ∷ [])
        w'
        (use_three m)
three {w = w} r h n p bh bn bp ne ne' ne'' s =
    let s1 = left-Heads w h n p ne ne' ne'' s in
    let s2 = left-Heads _ n h p (λ e. ne (sym e)) ne'' ne' s1 in
    (
      _,
      bind _ (use_unused-several r h n p bh bn bp ne ne' s) (λ m1 r1.
          bind _ (use_unused-several r1 n h p bn bh bp (λ e. ne (sym e)) ne'' s1) (λ m2 r2.
            bind _ (use_unused-several r2 h n p bh bn bp ne ne' s2) (λ m3 r3. returns r3))),
    )

-- Three blocks taken from a ring of three or more unused blocks below 2 ^ 24 are the first, the
-- second, and the first again.
pub use_three-Ring :
    {m : Bytes} {w : Words} (r : Rep m w) (h n x : ℕ) (bs : List ℕ)
    → AllInFile (h ∷ n ∷ x ∷ bs)
    → Ring w 5 (h ∷ n ∷ x ∷ bs)
    → (w' : Words) × Returns
        (some (ptr (block h)) ∷ some (ptr (block n)) ∷ some (ptr (block h)) ∷ [])
        w'
        (use_three m)
unfolding AllInFile Ring Chain Distinct Fresh
use_three-Ring {w = w} r h n x bs (bh, (bn, (bx, all)))
      (e, (c, c', (d, d', f)), ((ne, (nx, fh)), ((nx', fn), _))) =
    three r h n (last x bs) bh bn (last-InFile x bs bx all) ne (last-ne h x bs nx fh)
      (last-ne n x bs nx' fn) (record { head = e; next = c; prev = last-prev w h x bs f })
