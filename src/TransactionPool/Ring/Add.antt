-- ===== src/TransactionPool/Ring/Add.antt =====
-- TxCBBucket::add (txcb_bucket.cpp) before its test for scaling, as an insertion at the back of the ring.
use miya_core.Base.{
  ℕ, ◌+◌, ◌%◌, ◌^◌, ◌≤◌, ◌≡◌, refl, sym, ◌≢◌, ◌⊎◌, inl, inr, Bool, true, false, Option, none, some,
  List, [], ◌∷◌, arith, length,
}
use miya_core.Base.Distinct.{Fresh, Distinct, In}
use miya_core.TransactionPool.{Store, set_prev, set_next}
use miya_core.TransactionPool.Bucket.{Bucket, find, link, add_to_ring}
use miya_core.TransactionPool.Ring.{Chain, Ring, Unknown, Finds}
use miya_core.TransactionPool.Ring.Find.{find-Ring}

-- The list with a control block at the back, which find visits after the head.
unfoldable pub insert : ℕ → List ℕ → List ℕ
insert t [] = t ∷ []
insert t (h ∷ bs) = h ∷ t ∷ bs

abbrev linked : Store → ℕ → ℕ → ℕ → Store
unfolding set_next set_prev
linked st h l t = set_next (set_prev (set_prev (set_next st t h) t l) h t) l t

module _ (st : Store) (h t : ℕ) (ne : h ≢ t) where
  linked-Chain :
      (l x : ℕ) (ys : List ℕ)
      → Chain st h x ys
      → Fresh h (x ∷ ys)
      → Fresh t (x ∷ ys)
      → Fresh l ys
      → h ≢ l
      → Chain (linked st h l t) h x ys
  unfolding Chain Fresh linked
  linked-Chain l x [] (p, n) (hx, fh) (tx, ft) fl hl = (ground arith, ground arith)
  linked-Chain l x (y ∷ ys) (p, n, c) (hx, fh) (tx, ft) (ly, fl) hl =
      (ground arith, ground arith, linked-Chain l y ys c fh ft fl hl)

  link-Ring :
      (bs : List ℕ)
      → Chain st h h bs
      → Distinct (h ∷ bs)
      → Fresh t bs
      → (st' : Store) × (link st h t ≡ some st')
        × Chain st' h h (t ∷ bs)
        × ((q : ℕ) → (st' q).tx_id ≡ (st q).tx_id)
  unfolding link Chain Distinct Fresh linked
  link-Ring [] (p, n) (f, d) g = (
    linked st h h t,
    rw (p, n) refl,
    (ground arith, ground arith, (ground arith, ground arith)),
    λ q. ground arith,
  )
  link-Ring (b ∷ bs) (p, n, c) ((hb, f), (fb, d)) (tb, g) = (
    linked st h b t,
    rw (p, n) refl,
    (
      ground arith,
      ground arith,
      (ground arith, ground arith, linked-Chain b b bs c (hb, f) (tb, g) fb hb),
    ),
    λ q. ground arith,
  )

-- What add_to_ring answers: a control block with the id was there, or the target is the new back.
abbrev pub Adds : Store → Bucket → List ℕ → ℕ → Option (Bool × Store × Bucket) → Type 0
Adds st b ps t r =
    ((p : ℕ) × In p ps × ((st p).tx_id ≡ (st t).tx_id) × (r ≡ some (false, st, b)))
    ⊎ ((st' : Store) × (b' : Bucket) × Unknown st (st t).tx_id ps
        × (r ≡ some (true, st', b'))
        × Ring st' b' (insert t ps)
        × (b'.tx_count ≡ (b.tx_count + 1) % 2 ^ 64)
        × ((q : ℕ) → (st' q).tx_id ≡ (st q).tx_id))

known :
    (fuel : ℕ) (st : Store) (b : Bucket) (ps : List ℕ) (t p : ℕ)
    → find fuel st b (st t).tx_id ≡ some (some p)
    → Finds st (st t).tx_id ps (some p)
    → Adds st b ps t (add_to_ring fuel st b t)
unfolding add_to_ring Finds
known fuel st b ps t p e (i, s) = inl (p, i, s, rw e refl)

first :
    (fuel : ℕ) (st : Store) (b : Bucket) (t : ℕ)
    → find fuel st b (st t).tx_id ≡ some none
    → Ring st b []
    → Adds st b [] t (add_to_ring fuel st b t)
unfolding add_to_ring Ring Chain Distinct Fresh insert Unknown set_prev set_next
first fuel st b t e g = inr (
  set_next (set_prev st t t) t t,
  record { txcb_head = some t; tx_count = (b.tx_count + 1) % 2 ^ 64 },
  tt,
  rw (e, g) refl,
  (refl, (ground arith, ground arith), (tt, tt)),
  refl,
  λ q. ground arith,
)

behind :
    (fuel : ℕ) (st : Store) (b : Bucket) (h : ℕ) (bs : List ℕ) (t : ℕ)
    → find fuel st b (st t).tx_id ≡ some none
    → Unknown st (st t).tx_id (h ∷ bs)
    → Ring st b (h ∷ bs)
    → Fresh t (h ∷ bs)
    → Adds st b (h ∷ bs) t (add_to_ring fuel st b t)
unfolding add_to_ring Ring Chain Distinct Fresh insert
behind fuel st b h bs t e u (hd, c, (hb, d)) (th, f) =
    let (st', le, c', ids) = link-Ring st h t (λ w. th (sym w)) bs c (hb, d) f in
    inr (
      st',
      record { txcb_head = some h; tx_count = (b.tx_count + 1) % 2 ^ 64 },
      u,
      rw (e, hd, le) refl,
      (refl, c', (((λ w. th (sym w)), hb), (f, d))),
      refl,
      ids,
    )

-- The list of the ring after add_to_ring, and everything else that it answers.
pub add_to_ring-Ring :
    (fuel : ℕ) (st : Store) (b : Bucket) (ps : List ℕ) (t : ℕ)
    → length ps ≤ fuel
    → Ring st b ps
    → Fresh t ps
    → Adds st b ps t (add_to_ring fuel st b t)
unfolding Unknown Finds
add_to_ring-Ring fuel st b ps t l g f = go ps g f (find-Ring fuel st b ps (st t).tx_id l g)
  where
    go :
        (ps : List ℕ)
        → Ring st b ps
        → Fresh t ps
        → (r : Option ℕ) × (find fuel st b (st t).tx_id ≡ some r) × Finds st (st t).tx_id ps r
        → Adds st b ps t (add_to_ring fuel st b t)
    go ps g f (some p, e, s) = known fuel st b ps t p e s
    go [] g f (none, e, u) = first fuel st b t e g
    go (h ∷ bs) g f (none, e, u) = behind fuel st b h bs t e u g f
