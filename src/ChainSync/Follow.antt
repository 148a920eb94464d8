-- ===== src/ChainSync/Follow.antt =====
-- How far VirtualHeaderSubChain::extend gets, virtual_header_subchain.cpp.
use miya_core.Base.{
  ap, ℕ, zero, suc, ◌+◌, ◌-◌, ◌%◌, ◌^◌, ◌<◌, ◌≡◌, refl, sym, ◌∙◌, Bool, true, false, ◌||◌, none,
  some, List, [], ◌∷◌, arith, length, if◌then◌else◌,
}
use miya_core.Base.Bytes.{memcpy}
use miya_core.Base.Fallible.{◌>>=◌, >>=-eq-some}
use miya_core.Script.{Data}
use miya_core.Transaction.OpenSsl.{OpenSsl}
use miya_core.Block.Header.{BlockHeader, header_hash}
use miya_core.ChainSync.Pool.{HeaderPool, find_by_prev_block_hash, key_of, equal_range}
use miya_core.ChainSync.Subchain.{
  SubChain, is_active, move_on, follow, at_stop, latest_block_hash, extend,
}

-- Any two readings of the clock in succession are less than the lifetime of a chain apart.
abbrev pub IsPrompt : (ℕ → ℕ) → Type 0
IsPrompt clock = (t : ℕ) → (clock (t + 1) % 2 ^ 32 + 2 ^ 32 - clock t % 2 ^ 32) % 2 ^ 32 < 7

pub or-true : (b : Bool) → (b || true) ≡ true
or-true true = refl
or-true false = refl

or-false : (b : Bool) → (b || false) ≡ b
or-false true = refl
or-false false = refl

is_active-move_on :
    (clock : ℕ → ℕ) (t u : ℕ) (c : SubChain) (h : BlockHeader)
    → IsPrompt clock
    → t + 1 ≡ u
    → is_active (clock u) (move_on (clock t) c h) ≡ true
unfolding is_active move_on
is_active-move_on clock t u c h v e = rw (← e) (ground (arith, v t))

module _ (l : OpenSsl) (p : HeaderPool) where
  -- Headers behind a first one, up to a last one: each is the only one in the pool that names the
  -- one before it, and none but the last has the hash to stop at.
  abbrev pub IsPath : Data → BlockHeader → List BlockHeader → BlockHeader → Type 0
  IsPath stop h [] last = h ≡ last
  IsPath stop h (x ∷ xs) last =
      (at_stop (header_hash l h) stop ≡ some false)
      × (find_by_prev_block_hash p (header_hash l h) ≡ some (x ∷ []))
      × IsPath stop x xs last

  -- The last header has the hash to stop at; or has not, and no header in the pool names it.
  abbrev pub IsEnd : Data → Bool → BlockHeader → Type 0
  IsEnd stop true last = at_stop (header_hash l last) stop ≡ some true
  IsEnd stop false last =
      (at_stop (header_hash l last) stop ≡ some false)
      × (find_by_prev_block_hash p (header_hash l last) ≡ some [])

  find-at_stop :
      (hash : List ℕ) (stop : Data)
      → at_stop hash stop ≡ some true
      → (found : List BlockHeader) × (find_by_prev_block_hash p hash ≡ some found)
  unfolding at_stop find_by_prev_block_hash key_of
  find-at_stop hash none h = absurd (ground arith)
  find-at_stop hash (some stop) h =
      let (a, e, _) = >>=-eq-some (memcpy 32 hash) _ h in
      (
        equal_range p.pool_prev_block_hash a,
        ap (λ k. k >>= λ key. some (equal_range p.pool_prev_block_hash key)) e,
      )

  module _ (clock rand : ℕ → ℕ) where
    -- A call of an active chain, by its test and the headers that it finds.
    pub extend-step :
        (fuel t action : ℕ) (c : SubChain) (h : BlockHeader) (stop : Bool)
        (found : List BlockHeader)
        → c.latest ≡ some h
        → is_active (clock t) c ≡ true
        → at_stop (header_hash l h) c.stop_hash ≡ some stop
        → find_by_prev_block_hash p (header_hash l h) ≡ some found
        → extend l clock rand p (suc fuel) t action c ≡ (
            if stop
            then some (true, record c { is_stoped = true })
            else if (follow (clock (t + 1)) (rand t) action c found).0
            then extend l clock rand p fuel
                (t + 2)
                action
                (follow (clock (t + 1)) (rand t) action c found).1
            else some (false, (follow (clock (t + 1)) (rand t) action c found).1))
    unfolding extend latest_block_hash
    extend-step fuel t action c h stop found e a s f = rw (a, e, s, f) refl

    -- With readings of the clock less than seven seconds apart and an active chain whose last
    -- header is followed by a path in the pool, each header of it the only one that names the
    -- one before and none but its last with the stop hash, extend with fuel above the length of
    -- the path ends, whatever the action: with true and the chain stopped where the last header
    -- of the path has the stop hash, with false where it has not and no header names it; the
    -- last header of the chain is that of the path.
    pub extend-IsPath :
        (fuel t action : ℕ) (c : SubChain) (h last : BlockHeader) (xs : List BlockHeader)
        (ended : Bool)
        → IsPrompt clock
        → length xs < fuel
        → c.latest ≡ some h
        → is_active (clock t) c ≡ true
        → IsPath c.stop_hash h xs last
        → IsEnd c.stop_hash ended last
        → (c' : SubChain) × (extend l clock rand p fuel t action c ≡ some (ended, c'))
          × (c'.start ≡ c.start)
          × (c'.latest ≡ some last)
          × (c'.is_stoped ≡ (c.is_stoped || ended))
    unfolding follow move_on
    extend-IsPath zero t action c h last xs ended v n e a w z = absurd (omega arith)
    extend-IsPath (suc fuel) t action c h last [] true v n e a w z =
        let s : at_stop (header_hash l h) c.stop_hash ≡ some true = rw w z in
        let (found, f) = find-at_stop (header_hash l h) c.stop_hash s in
        (
          record c { is_stoped = true },
          extend-step fuel t action c h true found e a s f,
          refl,
          rw (e, w) refl,
          sym (or-true c.is_stoped),
        )
    extend-IsPath (suc fuel) t action c h last [] false v n e a w (s, f) = (
      c,
      extend-step fuel t action c h false [] e a (rw w s) (rw w f),
      refl,
      rw (e, w) refl,
      sym (or-false c.is_stoped),
    )
    extend-IsPath (suc fuel) t action c h last (x ∷ xs) ended v n e a (s, f, w) z =
        let c' = move_on (clock (t + 1)) c x in
        let (d, q, b, e2, z2) =
          extend-IsPath fuel (t + 2) action c' x last xs ended v (omega arith) refl
            (is_active-move_on clock (t + 1) (t + 2) c x v (omega arith)) w z in
        (d, extend-step fuel t action c h false (x ∷ []) e a s f ∙ q, b, e2, z2)
