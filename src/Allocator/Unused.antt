-- ===== src/Allocator/Unused.antt =====
-- MetaBlock::useUnUsedControlBlockHead (meta_block.cpp), on rings of unused control blocks.
use miya_core.Base.{
  ℕ, ◌+◌, ◌*◌, ◌≡◌, refl, ◌≢◌, arith, none, some, true, false, inl, inr, Bool-cases,
}
use miya_core.Optr.{optr_eq}
use miya_core.Optr.Laws.{optr_eq_iff, set_addr-IsOptr}
use miya_core.Memory.{Bytes}
use miya_core.Allocator.Meta.{use_unused_control_block_head}
use miya_core.Allocator.Words.{Words, put, ptr, Rep, ptr-address}
use miya_core.Allocator.Access.{Returns, returns, bind}
use miya_core.Allocator.Rules.{
  block, InFile, head_at-none, head_at-some, prev-word, next-word, set_prev-word, set_next-word,
}
use miya_core.Allocator.Heads.{pushed, set_head-none, set_head-pushed}

-- The head of the unused blocks is h, followed by n and preceded by p.
pub record Heads (w : Words) (h n p : ℕ) : Type 0 where
  pub head : w 5 ≡ 5 * block h
  pub next : w (block h + 1) ≡ 5 * block n
  pub prev : w (block h) ≡ 5 * block p

-- The words left by taking h.
abbrev pub left : Words → ℕ → ℕ → ℕ → Words
left w h n p = pushed (put (put w (block n) (5 * block p)) (block p + 1) (5 * block n)) 5 h p n

ptr-eq : (i j : ℕ) → InFile i → InFile j → i ≡ j → optr_eq (ptr (block i)) (ptr (block j)) ≡ true
ptr-eq i j h b e =
    (optr_eq_iff (ptr (block i)) (ptr (block j)) (set_addr-IsOptr _) (set_addr-IsOptr _)).1
      (rw e refl)

ptr-ne : (i j : ℕ) → InFile i → InFile j → i ≢ j → optr_eq (ptr (block i)) (ptr (block j)) ≡ false
ptr-ne i j h b ne = elim (Bool-cases (optr_eq (ptr (block i)) (ptr (block j)))) [
  | inr e ↦ e
  | inl e ↦
      let q =
        (optr_eq_iff (ptr (block i)) (ptr (block j)) (set_addr-IsOptr _) (set_addr-IsOptr _)).0 e in
      absurd (
        ne (
          omega
            (arith, q, ptr-address (block i) (omega arith), ptr-address (block j) (omega arith))))
]

module _ {m : Bytes} {w : Words} (r : Rep m w) where
  pub use_unused-empty : w 5 ≡ 0 → Returns none w (use_unused_control_block_head m)
  unfolding use_unused_control_block_head
  use_unused-empty z = bind _ (head_at-none r 25 5 refl (omega arith) z) (λ m1 r1. returns r1)

  pub use_unused-alone :
      (h p : ℕ)
      → InFile h
      → Heads w h h p
      → Returns (some (ptr (block h))) (put w 5 0) (use_unused_control_block_head m)
  unfolding use_unused_control_block_head
  use_unused-alone h p b s =
      bind _ (head_at-some r 25 5 (block h) refl (omega arith) s.head (omega arith)) (λ m1 r1.
        bind _ (next-word r1 h (block h) b s.next) (λ m2 r2.
          rw (ptr-eq h h b b refl)
            (bind _ (set_head-none r2 25 5 refl (omega arith)) (λ m3 r3. returns r3))))

  pub use_unused-several :
      (h n p : ℕ)
      → InFile h
      → InFile n
      → InFile p
      → h ≢ n
      → h ≢ p
      → Heads w h n p
      → Returns (some (ptr (block h))) (left w h n p) (use_unused_control_block_head m)
  unfolding use_unused_control_block_head
  use_unused-several h n p bh bn bp ne ne' s =
      let hd = s.head in
      let nx = s.next in
      let pv = s.prev in
      bind _ (head_at-some r 25 5 (block h) refl (omega arith) hd (omega arith)) (λ m1 r1.
        bind _ (next-word r1 h (block n) bh nx) (λ m2 r2. rw (ptr-ne h n bh bn ne) (
          bind _
            (bind _ (prev-word r2 h (block p) bh pv) (λ m3 r3.
              bind _ (set_prev-word r3 n (block p) bn (omega arith)) (λ m4 r4.
                bind _ (prev-word r4 h (block p) bh (ground arith)) (λ m5 r5.
                  bind _ (next-word r5 h (block n) bh (ground arith)) (λ m6 r6.
                    bind _ (set_next-word r6 p (block n) bp (omega arith)) (λ m7 r7.
                      bind _ (next-word r7 h (block n) bh (ground arith)) (λ m8 r8.
                        set_head-pushed r8 25 5 refl (omega arith) h p n bh bp bn (ground arith)
                          (ground arith) (ground arith))))))))
            (λ m9 r9. returns r9))))
