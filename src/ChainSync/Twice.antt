-- ===== src/ChainSync/Twice.antt =====
-- What a header that is received twice does to the pool and to the chain that it would extend,
-- block_header_pool.cpp and virtual_header_subchain.cpp.
use miya_core.Base.{
  arith, sym, inr, inl, Bool-cases, ℕ, suc, ◌+◌, ◌≡◌, refl, ap, ◌∙◌, Bool, true, false, some, List,
  [], ◌∷◌, ◌++◌,
}
use miya_core.Base.Bytes.{memcpy, memcmp_self}
use miya_core.Base.Fallible.{>>=-eq-some}
use miya_core.Transaction.OpenSsl.{OpenSsl}
use miya_core.Block.Header.{BlockHeader, header_hash, prev_block_hash}
use miya_core.ChainSync.Pool.{
  HeaderPool, push, push_behind, key_of, equal_range, find_by_prev_block_hash, same_key,
}
use miya_core.ChainSync.Subchain.{SubChain, is_active, at_stop, extend, move_on, follow}
use miya_core.ChainSync.Follow.{extend-step}

pub same_key_self : (k : List ℕ) → same_key k k ≡ true
same_key_self k = rw (memcmp_self k) refl

equal_range-snoc :
    {V : Type 0} (pool : List (List ℕ × V)) (k : List ℕ) (v : V)
    → equal_range (pool ++ (k, v) ∷ []) k ≡ equal_range pool k ++ v ∷ []
unfolding equal_range
equal_range-snoc [] k v = rw (same_key_self k) refl
equal_range-snoc ((j, w) ∷ pool) k v = elim (Bool-cases (same_key j k)) [
  | inl e ↦ rw (e, equal_range-snoc pool k v) refl
  | inr e ↦ rw (e, equal_range-snoc pool k v) refl
]

module _ (l : OpenSsl) where
  -- A header that the pool takes in is behind those that name the same block.
  find-push_behind :
      (p p' : HeaderPool) (h : BlockHeader) (prev : List ℕ) (r : Bool × ℕ) (hs : List BlockHeader)
      → push_behind l p h (some prev) ≡ some (r, p')
      → find_by_prev_block_hash p prev ≡ some hs
      → find_by_prev_block_hash p' prev ≡ some (hs ++ h ∷ [])
  unfolding push_behind find_by_prev_block_hash key_of
  find-push_behind p p' h prev r hs q f =
      let (k, a, q1) = >>=-eq-some (memcpy 32 prev) _ q in
      let (b, _, q2) = >>=-eq-some (memcpy 32 (header_hash l h)) _ q1 in
      let (k', a', f') = >>=-eq-some (memcpy 32 prev) _ f in
      let v : p'.pool_prev_block_hash ≡ p.pool_prev_block_hash ++ (k, h) ∷ [] = ground arith in
      let w : k' ≡ k = cc in
      let u : equal_range p.pool_prev_block_hash k ≡ hs = cc in
      rw (a, v, equal_range-snoc p.pool_prev_block_hash k h, u) refl

  -- With a pool in which no header names the last one of a chain that is active and not at its
  -- stop, a header that names it and is received once is taken by extend, which goes on from it;
  -- when it is received again, extend with action 0 answers false and leaves the chain.
  pub extend-push_twice :
      (clock rand : ℕ → ℕ) (p p' p'' : HeaderPool) (fuel t : ℕ) (c : SubChain) (g h : BlockHeader)
      (r r' : Bool × ℕ)
      → prev_block_hash h ≡ some (header_hash l g)
      → find_by_prev_block_hash p (header_hash l g) ≡ some []
      → push l p h ≡ some (r, p')
      → push l p' h ≡ some (r', p'')
      → c.latest ≡ some g
      → is_active (clock t) c ≡ true
      → at_stop (header_hash l g) c.stop_hash ≡ some false
      → (extend l clock rand p' (suc fuel) t 0 c
          ≡ extend l clock rand p' fuel (t + 2) 0 (move_on (clock (t + 1)) c h))
        × (extend l clock rand p'' (suc fuel) t 0 c ≡ some (false, c))
  unfolding push follow
  extend-push_twice clock rand p p' p'' fuel t c g h r r' e f q q' w a s =
      let hash = header_hash l g in
      let once = find-push_behind p p' h hash r [] (ap (push_behind l p h) (sym e) ∙ q) f in
      let twice =
        find-push_behind p' p'' h hash r' (h ∷ []) (ap (push_behind l p' h) (sym e) ∙ q') once in
      (
        extend-step l p' clock rand fuel t 0 c g false (h ∷ []) w a s once,
        extend-step l p'' clock rand fuel t 0 c g false (h ∷ h ∷ []) w a s twice,
      )
