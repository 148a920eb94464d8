-- ===== src/ChainSync/Fork.antt =====
-- What the manager makes of a header that forks the chain, virtual_header_sync_manager.cpp.
use miya_core.Base.{
  replicate, if◌then◌else◌, ℕ, suc, ◌+◌, ◌-◌, ◌%◌, ◌^◌, ◌<◌, ◌≡◌, refl, sym, ap, ◌∙◌, Bool, true,
  false, Option, some, none, List, [], ◌∷◌, ◌++◌, length, arith,
}
use miya_core.Base.Bytes.{memcpy, memcpy_exact}
use miya_core.Base.Fallible.{◌>>=◌, >>=-eq-some}
use miya_core.Transaction.OpenSsl.{OpenSsl}
use miya_core.Block.Header.{BlockHeader, header_hash, export_header}
use miya_core.ChainSync.Pool.{HeaderPool, find_by_prev_block_hash, key_of, equal_range, same_key}
use miya_core.ChainSync.Twice.{same_key_self}
use miya_core.ChainSync.Follow.{or-true, extend-step}
use miya_core.ChainSync.Subchain.{
  SubChain, new_subchain, build, extend, same_subchain, chain_digest, digest_hash, at_stop,
  is_active,
}
use miya_core.ChainSync.Manager.{
  SyncManager, finished, insert_subchain, insert_all, extend_each, extend_all, build_subchain,
}

if-some :
    {A : Type 0} (b : Bool) (x y : A) → (if b then some x else some y) ≡ some (if b then x else y)
if-some true x y = refl
if-some false x y = refl

-- The chain that build puts in: the start and the header, stopped at the header's own hash.
abbrev pub stopped_at : OpenSsl → ℕ → BlockHeader → BlockHeader → SubChain
stopped_at l now start h = record {
  start = start;
  latest = some h;
  updated_at = now % 2 ^ 32;
  is_stoped = true;
  stop_hash = some (header_hash l h);
}

module _ (l : OpenSsl) (sha256_length : (bs : List ℕ) → length (l.sha256 bs) ≡ 32) where
  memcpy-header_hash : (h : BlockHeader) → memcpy 32 (header_hash l h) ≡ some (header_hash l h)
  unfolding header_hash
  memcpy-header_hash h =
      memcpy_exact 32 (l.sha256 (export_header h)) (sym (sha256_length (export_header h)))

  memcpy-digest_hash :
      (o : Option BlockHeader) → (bs : List ℕ) × (memcpy 32 (digest_hash l o) ≡ some bs)
  unfolding digest_hash memcpy
  memcpy-digest_hash none = (replicate 32 0, refl)
  memcpy-digest_hash (some h) = (header_hash l h, memcpy-header_hash h)

  chain_digest-some : (c : SubChain) → (bs : List ℕ) × (chain_digest l c ≡ some bs)
  unfolding chain_digest
  chain_digest-some c =
      let (bs, e) = memcpy-digest_hash c.latest in
      (l.sha1 (header_hash l c.start ++ bs), rw (memcpy-header_hash c.start, e) refl)

  same_subchain-some : (c d : SubChain) → (b : Bool) × (same_subchain l c d ≡ some b)
  unfolding same_subchain
  same_subchain-some c d =
      let (xs, e) = chain_digest-some c in
      let (bs, f) = chain_digest-some d in (same_key xs bs, rw (e, f) refl)

  insert_subchain-some :
      (set : List SubChain) (c : SubChain)
      → (set' : List SubChain) × (insert_subchain l set c ≡ some set')
  unfolding insert_subchain
  insert_subchain-some [] c = (c ∷ [], refl)
  insert_subchain-some (d ∷ set) c =
      let (b, e) = same_subchain-some d c in
      let (set', f) = insert_subchain-some set c in
      ((if b then d ∷ set else d ∷ set'), rw (e, f) (if-some b (d ∷ set) (d ∷ set')))

  insert_all-some :
      (set cs : List SubChain) → (set' : List SubChain) × (insert_all l set cs ≡ some set')
  unfolding insert_all
  insert_all-some set [] = (set, refl)
  insert_all-some set (c ∷ cs) =
      let (mid, e) = insert_subchain-some set c in
      let (last, f) = insert_all-some mid cs in (last, ap (λ o. o >>= λ s. insert_all l s cs) e ∙ f)

  -- A chain whose last header has its stop hash ends at once, marked as stopped.
  extend-stopped :
      (clock rand : ℕ → ℕ) (p : HeaderPool) (fuel action : ℕ) (c : SubChain) (h : BlockHeader)
      → is_active (clock 0) c ≡ true
      → c.latest ≡ some h
      → c.stop_hash ≡ some (header_hash l h)
      → extend l clock rand p (suc fuel) 0 action c ≡ some (true, record c { is_stoped = true })
  unfolding at_stop find_by_prev_block_hash key_of
  extend-stopped clock rand p fuel action c h a e s =
      let m = memcpy-header_hash h in
      let hash = header_hash l h in
      extend-step l p clock rand fuel 0 action c h true (equal_range p.pool_prev_block_hash hash) e
        a (rw (s, m) (ap some (same_key_self hash))) (rw m refl)

  extend_each-snoc :
      (clock : ℕ → ℕ → ℕ) (rand : ℕ → ℕ) (p : HeaderPool) (fuel action i : ℕ)
      (cs cs' : List SubChain) (c c' : SubChain) (any : Bool)
      → extend_each l clock rand p fuel action i cs ≡ some (any, cs')
      → ((j : ℕ) → extend l (clock j) rand p fuel 0 action c ≡ some (true, c'))
      → (q : List SubChain) × (extend_each l clock rand p fuel action i (cs ++ c ∷ [])
          ≡ some (true, q))
  unfolding extend_each
  extend_each-snoc clock rand p fuel action i [] cs' c c' any h v = (c' ∷ [], rw (v i) refl)
  extend_each-snoc clock rand p fuel action i (d ∷ cs) cs' c c' any h v =
      let ((b, d'), e, h1) = >>=-eq-some (extend l (clock i) rand p fuel 0 action d) _ h in
      let ((b', ds), f, h2) =
        >>=-eq-some (extend_each l clock rand p fuel action (i + 1) cs) _ h1 in
      let (q, g) = extend_each-snoc clock rand p fuel action (i + 1) cs ds c c' b' f v in
      (d' ∷ q, rw (e, g) (ap (λ b. some (b, d' ∷ q)) (or-true b)))

-- Where SHA-256 yields 32 bytes, the first clock reading of each call is less than seven seconds
-- after the time at which the chain is made, no chain of the set has the digest of a chain from
-- the start to the header, and the chains of the set end their extension: build of a header puts
-- in the chain from the start to that header, marked as stopped and extended by nothing, and
-- extend then answers true and sets the state to finished, whatever the hash is at which the
-- manager is to stop.
pub extend_all-build_subchain :
    (l : OpenSsl) (clock : ℕ → ℕ → ℕ) (rand : ℕ → ℕ) (fuel now : ℕ) (m : SyncManager)
    (h : BlockHeader) (any : Bool) (cs : List SubChain)
    → ((bs : List ℕ) → length (l.sha256 bs) ≡ 32)
    → ((j : ℕ) → (clock j 0 % 2 ^ 32 + 2 ^ 32 - now % 2 ^ 32) % 2 ^ 32 < 7)
    → insert_subchain l m.header_subchain_set (stopped_at l now m.start h)
      ≡ some (m.header_subchain_set ++ stopped_at l now m.start h ∷ [])
    → extend_each l clock rand m.pool (suc fuel) 0 0 m.header_subchain_set ≡ some (any, cs)
    → (m' m'' : SyncManager) × (build_subchain l (clock 0) rand (suc fuel) now m h ≡ some m')
      × (m'.header_subchain_set ≡ m.header_subchain_set ++ stopped_at l now m.start h ∷ [])
      × (extend_all l clock rand (suc fuel) false m' ≡ some (true, m''))
      × (m''.status ≡ finished)
unfolding build_subchain extend_all new_subchain build is_active
extend_all-build_subchain l clock rand fuel now m h any cs s v n e =
    let c = stopped_at l now m.start h in
    let new : SubChain = record c { is_stoped = false } in
    let ends : (j : ℕ) → extend l (clock j) rand m.pool (suc fuel) 0 0 c ≡ some (true, c) =
      λ j. extend-stopped l s (clock j) rand m.pool fuel 0 c h (ground (arith, v j)) refl refl in
    let first : extend l (clock 0) rand m.pool (suc fuel) 0 0 new ≡ some (true, c) =
      extend-stopped l s (clock 0) rand m.pool fuel 0 new h (ground (arith, v 0)) refl refl in
    let (q, f) =
      extend_each-snoc l s clock rand m.pool (suc fuel) 0 0 m.header_subchain_set cs c c any e
        ends in
    let (set, g) = insert_all-some l s [] q in
    (
      record m { header_subchain_set = m.header_subchain_set ++ c ∷ [] },
      record m { header_subchain_set = set; status = finished },
      rw (first, n) refl,
      refl,
      rw (f, g) refl,
      refl,
    )
