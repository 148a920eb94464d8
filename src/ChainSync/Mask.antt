-- ===== src/ChainSync/Mask.antt =====
-- Which control blocks BDFilter::mask closes, bd_filter.cpp.
use miya_core.ChainSync.Twice.{same_key_self}
use miya_core.Base.{
  ◌&&◌, inr, inl, subst, ℕ, ◌≡◌, refl, sym, ap, ◌∙◌, Bool, true, false, not, ◌||◌, none, some, List,
  [], ◌∷◌, length, arith, Option-cases, Bool-cases,
}
use miya_core.Base.Bytes.{eq_of_memcmp, memcpy_exact}
use miya_core.Base.Fallible.{◌>>=◌}
use miya_core.Transaction.OpenSsl.{OpenSsl}
use miya_core.Block.Header.{export_header, BlockHeader, header_hash}
use miya_core.ChainSync.Pool.{find_key, same_key, key_of}
use miya_core.ChainSync.Filter.{BdFilter, Bdbcb, open_found, open_each, mask}
use miya_core.ChainSync.Closed.{
  AreIn, AreApart, closed_at, set_closed-some, find_key-AreIn, close_all-some,
}

one_by_one : (a b w : Bool) → (not b && (not (a || false) && w)) ≡ (not (a || b) && w)
one_by_one true true w = refl
one_by_one true false w = refl
one_by_one false true w = refl
one_by_one false false w = refl

and-true : (b : Bool) → (b && true) ≡ b
and-true true = refl
and-true false = refl

pub eq_of_same_key : (j k : List ℕ) → same_key j k ≡ true → j ≡ k
eq_of_same_key j k h = eq_of_memcmp j k (ground arith)

-- Whether one of the headers has a hash.
abbrev pub named : OpenSsl → List BlockHeader → List ℕ → Bool
named l [] k = false
named l (h ∷ hs) k = same_key (header_hash l h) k || named l hs k

module _ (l : OpenSsl) (sha256_length : (bs : List ℕ) → length (l.sha256 bs) ≡ 32) where
  key_of-header_hash :
      (h : BlockHeader) → key_of [] (some (header_hash l h)) ≡ some (header_hash l h)
  unfolding key_of header_hash
  key_of-header_hash h =
      memcpy_exact 32 (l.sha256 (export_header h)) (sym (sha256_length (export_header h)))

  -- What open_each leaves: of the blocks of the map those open that a header names, and the others
  -- as they were.
  record AreOpened (fs : List (List ℕ × ℕ)) (hs : List BlockHeader) (blocks blocks' : List Bdbcb)
      : Type 0 where
    opens :
        (k : List ℕ) (b : ℕ) (v : Bool)
        → find_key fs k ≡ some b
        → closed_at blocks b ≡ some v
        → closed_at blocks' b ≡ some (not (named l hs k) && v)

  open_found-some :
      (fs : List (List ℕ × ℕ)) (h : BlockHeader) (blocks : List Bdbcb)
      → AreIn fs (length blocks)
      → AreApart fs
      → (blocks' : List Bdbcb) × (open_found (find_key fs (header_hash l h)) blocks ≡ some blocks')
        × (length blocks' ≡ length blocks)
        × AreOpened fs (h ∷ []) blocks blocks'
  unfolding open_found
  open_found-some fs h blocks v a = elim (Option-cases (find_key fs (header_hash l h))) [
    | inl e ↦ (
      blocks,
      ap (λ o. open_found o blocks) e,
      refl,
      record {
        opens = λ k b w f g. elim (Bool-cases (same_key (header_hash l h) k)) [
          | inl t ↦ absurd (
              let q = eq_of_same_key (header_hash l h) k t in
              let z : find_key fs k ≡ none = rw (← q) e in ground arith)
          | inr t ↦ rw t g
        ];
      },
    )
    | inr (c, e) ↦
        (let (mid, q, s) =
            set_closed-some false blocks c
              (find_key-AreIn fs (length blocks) (header_hash l h) c v e) in
          (
            mid,
            ap (λ o. open_found o blocks) e ∙ q,
            s.keeps_length,
            record {
              opens = λ k b w f g. elim (Bool-cases (same_key (header_hash l h) k)) [
                | inl t ↦
                    (let q = eq_of_same_key (header_hash l h) k t in
                      let z : find_key fs k ≡ some c = rw (← q) e in
                      let y : c ≡ b = ground arith in rw (t, ← y) s.sets)
                | inr t ↦ rw t (
                    s.keeps b (λ y. absurd (
                      let q : header_hash l h ≡ k = a (header_hash l h) k c e (rw (← y) f) in
                      let z : same_key (header_hash l h) k ≡ true = rw q (same_key_self k) in
                      ground arith))
                    ∙ g)
              ];
            },
          ))
  ]

  open_each-some :
      (fs : List (List ℕ × ℕ)) (hs : List BlockHeader) (blocks : List Bdbcb)
      → AreIn fs (length blocks)
      → AreApart fs
      → (blocks' : List Bdbcb) × (open_each l fs hs blocks ≡ some blocks')
        × AreOpened fs hs blocks blocks'
  unfolding open_each
  open_each-some fs [] blocks v a = (blocks, refl, record { opens = λ k b w f g. g })
  open_each-some fs (h ∷ hs) blocks v a =
      let hash = header_hash l h in
      let (mid, e, n, o) = open_found-some fs h blocks v a in
      let (last, q, r) = open_each-some fs hs mid (subst (AreIn fs) (sym n) v) a in
      (
        last,
        ap (λ m. m >>= λ key. open_found (find_key fs key) blocks >>= λ bs. open_each l fs hs bs)
              (key_of-header_hash h)
            ∙ ap (λ m. m >>= λ bs. open_each l fs hs bs) e
            ∙ q,
        record {
          opens = λ k b w f g.
              r.opens k b (not (same_key hash k || false) && w) f (o.opens k b w f g)
              ∙ ap some (one_by_one (same_key hash k) (named l hs k) w);
        },
      )

-- Where SHA-256 yields 32 bytes, on a filter whose map has pointers into its store and no two
-- keys with one pointer, mask ends and leaves the map, and the control block of each key in the
-- map is closed exactly when no header of the list has the key as its hash.
pub closed_at-mask :
    (l : OpenSsl) (f : BdFilter) (targets : List BlockHeader)
    → ((bs : List ℕ) → length (l.sha256 bs) ≡ 32)
    → AreIn f.filter_map (length f.blocks)
    → AreApart f.filter_map
    → (f' : BdFilter) × (mask l f targets ≡ some f')
      × (f'.filter_map ≡ f.filter_map)
      × ((k : List ℕ) (b : ℕ)
          → find_key f.filter_map k ≡ some b
          → closed_at f'.blocks b ≡ some (not (named l targets k)))
unfolding mask
closed_at-mask l f targets s v a =
    let fs = f.filter_map in
    let (mid, e, c) = close_all-some fs f.blocks v in
    let (last, q, o) =
      open_each-some l s fs targets mid (subst (AreIn fs) (sym c.keeps_length) v) a in
    (
      record f { blocks = last },
      ap
            (λ m. m >>= λ bs.
              open_each l fs targets bs >>= λ opened. some (record f { blocks = opened }))
            e
          ∙ ap (λ m. m >>= λ opened. some (record f { blocks = opened })) q,
      refl,
      λ k b h. o.opens k b true h (c.closes k b h) ∙ ap some (and-true (not (named l targets k))),
    )
