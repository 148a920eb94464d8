-- ===== src/Allocator/Rules.antt =====
-- The commands of Block and Meta, by the words that they read and write. Block i stands at word
-- 20 + 4 * i, behind the managed area.
use miya_core.Base.{
  ℕ, ◌+◌, ◌*◌, ◌^◌, ◌≤◌, ◌≡◌, refl, ◌≢◌, arith, none, some, ==_of_ne, subst, true, false,
}
use miya_core.Optr.{caddr, set_addr}
use miya_core.Optr.Laws.{set_addr-IsOptr}
use miya_core.Memory.{Bytes}
use miya_core.Allocator.Block.{
  prev_control_block, set_prev_control_block, next_control_block, set_next_control_block,
}
use miya_core.Allocator.Words.{Words, put, ptr, Reached, Rep, ptr-address}
use miya_core.Allocator.Access.{Returns, returns, bind, at-ptr, load-word, store-word, is_zero-word}
use miya_core.Allocator.Command.{at, store}
use miya_core.Allocator.Meta.{head_at, primary_optr}
use miya_core.Allocator.Block.{is_zero, load_optr}

abbrev pub block : ℕ → ℕ
block i = 20 + 4 * i

-- The whole block lies in what pointers reach.
abbrev pub InFile : ℕ → Type 0
InFile i = 5 * (block i + 4) ≤ 2 ^ 24

module _ {m : Bytes} {w : Words} (r : Rep m w) where
  pub prev-word :
      (i c : ℕ)
      → InFile i
      → w (block i) ≡ 5 * c
      → Returns (ptr c) w (prev_control_block (ptr (block i)) m)
  unfolding prev_control_block
  prev-word i c h e = rw (← e) (load-word r (block i) (omega arith))

  pub next-word :
      (i c : ℕ)
      → InFile i
      → w (block i + 1) ≡ 5 * c
      → Returns (ptr c) w (next_control_block (ptr (block i)) m)
  unfolding next_control_block
  next-word i c h e = rw (← e) (
      bind _ (at-ptr r (block i) 5 1 refl (omega arith))
        (λ m' r'. load-word r' (block i + 1) (omega arith)))

  pub store-ptr :
      (k c : ℕ)
      → Reached k
      → Reached c
      → Returns tt (put w k (5 * c)) (store (ptr k) (caddr (ptr c)) m)
  store-ptr k c h b =
      subst (λ v. Returns tt (put w k v) (store (ptr k) (caddr (ptr c)) m)) (ptr-address c b)
        (store-word r k (ptr c) (set_addr-IsOptr _) h)

  pub set_prev-word :
      (i c : ℕ)
      → InFile i
      → Reached c
      → Returns tt (put w (block i) (5 * c)) (set_prev_control_block (ptr (block i)) (ptr c) m)
  unfolding set_prev_control_block
  set_prev-word i c h b = store-ptr (block i) c (omega arith) b

  primary : primary_optr ≡ ptr 0
  unfolding set_addr
  primary = refl

  -- The managed area's word at an offset.
  pub at-primary : (n k : ℕ) → n ≡ 5 * k → Reached k → Returns (ptr k) w (at primary_optr n m)
  at-primary n k e h =
      let z : 0 + k ≡ k = omega arith in
      rw primary (subst (λ j. Returns (ptr j) w (at (ptr 0) n m)) z (at-ptr r 0 n k e (rw z h)))

  pub load-ptr : (k c : ℕ) → Reached k → w k ≡ 5 * c → Returns (ptr c) w (load_optr (ptr k) m)
  load-ptr k c h e = rw (← e) (load-word r k h)

  pub null : (k : ℕ) → Reached k → w k ≡ 0 → Returns true w (is_zero (ptr k) m)
  null k h z = subst (λ b. Returns b w (is_zero (ptr k) m)) (rw z refl) (is_zero-word r k h)

  pub not-null : (k : ℕ) → Reached k → w k ≢ 0 → Returns false w (is_zero (ptr k) m)
  not-null k h ne =
      subst (λ b. Returns b w (is_zero (ptr k) m)) (==_of_ne (w k) 0 ne) (is_zero-word r k h)

module _ {m : Bytes} {w : Words} (r : Rep m w) where
  pub set_next-word :
      (i c : ℕ)
      → InFile i
      → Reached c
      → Returns tt (put w (block i + 1) (5 * c)) (set_next_control_block (ptr (block i)) (ptr c) m)
  unfolding set_next_control_block
  set_next-word i c h b =
      bind _ (at-ptr r (block i) 5 1 refl (omega arith))
        (λ m' r'. store-ptr r' (block i + 1) c (omega arith) b)

  pub head_at-none : (n k : ℕ) → n ≡ 5 * k → Reached k → w k ≡ 0 → Returns none w (head_at n m)
  unfolding head_at
  head_at-none n k e h z =
      bind _ (at-primary r n k e h) (λ m' r'. bind _ (null r' k h z) (λ m'' r''. returns r''))

  pub head_at-some :
      (n k c : ℕ)
      → n ≡ 5 * k
      → Reached k
      → w k ≡ 5 * c
      → c ≢ 0
      → Returns (some (ptr c)) w (head_at n m)
  unfolding head_at
  head_at-some n k c e h q ne = bind _ (at-primary r n k e h) (λ m' r'.
      bind _ (not-null r' k h (omega arith))
        (λ m'' r''. bind _ (load-ptr r'' k c h q) (λ m3 r3. returns r3)))
