-- ===== src/Allocator/Heads.antt =====
-- The setters of the ring heads (meta_block.cpp), by the words that they leave: the head of a ring
-- is the managed area's word k, at the offset 5 * k.
use miya_core.Base.{ℕ, ◌+◌, ◌*◌, ◌<◌, ◌≡◌, refl, ◌≢◌, arith, none, some, ==_self}
use miya_core.Optr.{caddr, set_addr}
use miya_core.Memory.{Bytes}
use miya_core.Allocator.Meta.{set_head}
use miya_core.Allocator.Words.{Words, put, ptr, Rep}
use miya_core.Allocator.Access.{Returns, returns, bind}
use miya_core.Allocator.Rules.{
  block, InFile, at-primary, head_at-none, head_at-some, prev-word, set_prev-word, set_next-word,
  store-ptr,
}

-- The words of a ring of one, and those of a block put before the head h, whose last block is l.
abbrev pub alone : Words → ℕ → ℕ → Words
alone w k t = put (put (put w k (5 * block t)) (block t) (5 * block t)) (block t + 1) (5 * block t)

abbrev pub pushed : Words → ℕ → ℕ → ℕ → ℕ → Words
pushed w k h l t =
    put
      (put
        (put (put (put w (block t + 1) (5 * block h)) (block t) (5 * block l)) (block l + 1)
          (5 * block t))
        (block h) (5 * block t))
      k (5 * block t)

module _ {m : Bytes} {w : Words} (r : Rep m w) (n k : ℕ) (e : n ≡ 5 * k) (b : k < 20) where
  pub set_head-none : Returns tt (put w k 0) (set_head n none m)
  unfolding set_head set_addr caddr
  set_head-none =
      bind _ (at-primary r n k e (omega arith))
        (λ m' r'. store-ptr r' k 0 (omega arith) (omega arith))

  pub set_head-alone :
      (t : ℕ) → InFile t → w k ≡ 0 → Returns tt (alone w k t) (set_head n (some (ptr (block t))) m)
  unfolding set_head
  set_head-alone t h z = bind _ (at-primary r n k e (omega arith)) (λ m1 r1.
      bind _ (head_at-none r1 n k e (omega arith) z) (λ m2 r2.
        bind _ (store-ptr r2 k (block t) (omega arith) (omega arith)) (λ m3 r3.
          bind _
            (bind _
              (head_at-some r3 n k (block t) e (omega arith) (rw (==_self k) refl) (omega arith))
              (λ m4 r4. returns r4))
            (λ m4 r4.
              bind _ (set_prev-word r4 t (block t) h (omega arith))
                (λ m5 r5. set_next-word r5 t (block t) h (omega arith))))))

  pub set_head-pushed :
      (h l t : ℕ)
      → InFile h
      → InFile l
      → InFile t
      → t ≢ h
      → w k ≡ 5 * block h
      → w (block h) ≡ 5 * block l
      → Returns tt (pushed w k h l t) (set_head n (some (ptr (block t))) m)
  unfolding set_head
  set_head-pushed h l t ih il it ne q p = bind _ (at-primary r n k e (omega arith)) (λ m1 r1.
      bind _ (head_at-some r1 n k (block h) e (omega arith) q (omega arith)) (λ m2 r2.
        bind _ (set_next-word r2 t (block h) it (omega arith)) (λ m3 r3.
          bind _ (prev-word r3 h (block l) ih (ground arith)) (λ m4 r4.
            bind _ (set_prev-word r4 t (block l) it (omega arith)) (λ m5 r5.
              bind _ (prev-word r5 h (block l) ih (ground arith)) (λ m6 r6.
                bind _ (set_next-word r6 l (block t) il (omega arith)) (λ m7 r7.
                  bind _ (set_prev-word r7 h (block t) ih (omega arith))
                    (λ m8 r8. store-ptr r8 k (block t) (omega arith) (omega arith)))))))))
