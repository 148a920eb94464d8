-- ===== src/Block/First.antt =====
-- What calcMerkleRoot, block.cpp, depends on.
use miya_core.Base.{
  ℕ, zero, suc, ◌+◌, ◌/◌, ◌%◌, ◌≤◌, ◌≡◌, refl, sym, ap, ◌∙◌, false, some, List, [], ◌∷◌, ◌++◌,
  arith, length, length-append, leb, ◌==◌, if◌then◌else◌, get_or, Bool-cases, inl, inr,
}
use miya_core.Base.Bytes.{memcpy_exact}
use miya_core.Base.Fallible.{>>=-eq-some}
use miya_core.Transaction.OpenSsl.{OpenSsl}
use miya_core.Transaction.P2pkh.{export_p2pkh, P2pkh, calc_tx_id}
use miya_core.Transaction.Coinbase.{export_coinbase, Coinbase, calc_coinbase_id}
use miya_core.Block.Merkle.{
  root_for, Block, make_even, hash_joined, join_ids, calc_root, tx_ids, root_of, calc_merkle_root,
}

-- Ids of thirty-two bytes.
abbrev AreIds : List (List ℕ) → Type 0
AreIds [] = Unit {0}
AreIds (x ∷ ids) = (length x ≡ 32) × AreIds ids

AreIds-append :
    (xs : List (List ℕ)) (y : List ℕ) → AreIds xs → length y ≡ 32 → AreIds (xs ++ y ∷ [])
AreIds-append [] y v w = (w, tt)
AreIds-append (x ∷ xs) y (v, v') w = (v, AreIds-append xs y v' w)

last-IsId :
    (x : List ℕ) (xs : List (List ℕ))
    → AreIds (x ∷ xs)
    → length (get_or (x ∷ xs) (length xs) []) ≡ 32
last-IsId x [] (v, w) = v
last-IsId x (y ∷ xs) (v, w) = last-IsId y xs w

-- What is put behind the first of a list of ids that is made even.
even_tail : List ℕ → List (List ℕ) → List (List ℕ)
even_tail x xs = if length (x ∷ xs) % 2 == 0 then xs else xs ++ get_or (x ∷ xs) (length xs) [] ∷ []

make_even-cons : (x : List ℕ) (xs : List (List ℕ)) → make_even (x ∷ xs) ≡ x ∷ even_tail x xs
unfolding make_even even_tail
make_even-cons x xs = ground arith

even_tail-AreIds : (x : List ℕ) (xs : List (List ℕ)) → AreIds (x ∷ xs) → AreIds (even_tail x xs)
unfolding even_tail
even_tail-AreIds x xs (v, w) = elim (Bool-cases (length (x ∷ xs) % 2 == 0)) [
  | inl e ↦ rw e w
  | inr e ↦ rw e (AreIds-append xs (get_or (x ∷ xs) (length xs) []) w (last-IsId x xs (v, w)))
]

length-even_tail :
    (x : List ℕ) (xs ys : List (List ℕ))
    → length xs ≡ length ys
    → length (even_tail x xs) ≡ length (even_tail x ys)
unfolding even_tail
length-even_tail x xs ys e = ground (
  arith,
  length-append xs (get_or (x ∷ xs) (length xs) [] ∷ []),
  length-append ys (get_or (x ∷ ys) (length ys) [] ∷ []),
)

module _ (l : OpenSsl) (sha256_length : (bs : List ℕ) → length (l.sha256 bs) ≡ 32) where
  open l use {Key, sha256}

  calc_tx_id-length :
      (tx tx' : P2pkh Key) (id : List ℕ) → calc_tx_id l tx ≡ some (tx', id) → length id ≡ 32
  unfolding calc_tx_id
  calc_tx_id-length tx tx' id h =
      let ((a, raw), e, g) = >>=-eq-some (export_p2pkh l tx) _ h in
      let q : id ≡ sha256 raw = ground arith in rw q (sha256_length raw)

  calc_coinbase_id-length :
      (c c' : Coinbase) (id : List ℕ) → calc_coinbase_id l c ≡ some (c', id) → length id ≡ 32
  unfolding calc_coinbase_id
  calc_coinbase_id-length c c' id h =
      let ((a, raw), e, g) = >>=-eq-some (export_coinbase c) _ h in
      let q : id ≡ sha256 raw = ground arith in rw q (sha256_length raw)

  hash_joined-some : (x : List ℕ) → length x ≡ 32 → hash_joined l x ≡ some (sha256 (x ++ x))
  unfolding hash_joined
  hash_joined-some x v = rw (memcpy_exact 32 x (sym v))

  join_ids-some :
      (ids : List (List ℕ))
      → AreIds ids
      → (hs : List (List ℕ)) × (join_ids l ids ≡ some hs)
        × AreIds hs
        × (length hs ≡ (length ids + 1) / 2)
  unfolding join_ids
  join_ids-some [] v = ([], refl, tt, omega arith)
  join_ids-some (x ∷ []) (v, w) =
      (sha256 (x ++ x) ∷ [], rw (hash_joined-some x v), (sha256_length (x ++ x), tt), omega arith)
  join_ids-some (x ∷ y ∷ ids) (v, (w, u)) =
      let (hs, e, a, n) = join_ids-some ids u in
      (sha256 (x ++ x) ∷ hs, rw (hash_joined-some x v, e), (sha256_length (x ++ x), a), omega arith)

  join_ids-cons :
      (x y : List ℕ) (ids hs : List (List ℕ))
      → length x ≡ 32
      → join_ids l ids ≡ some hs
      → join_ids l (x ∷ y ∷ ids) ≡ some (sha256 (x ++ x) ∷ hs)
  unfolding join_ids
  join_ids-cons x y ids hs v e = rw (hash_joined-some x v, e)

  calc_root-suc :
      (fuel : ℕ) (x y : List ℕ) (ids hs : List (List ℕ))
      → join_ids l (x ∷ y ∷ ids) ≡ some hs
      → calc_root l (suc fuel) (x ∷ y ∷ ids) ≡ calc_root l fuel hs
  unfolding calc_root
  calc_root-suc fuel x y ids hs e =
      let t : leb (length (x ∷ y ∷ ids)) 1 ≡ false = ground arith in rw (t, e)

  calc_root-one : (fuel : ℕ) (x : List ℕ) → calc_root l fuel (x ∷ []) ≡ some (x ∷ [])
  unfolding calc_root
  calc_root-one zero x = refl
  calc_root-one (suc fuel) x = refl

  -- Lists of one length with one first id have one root, and with enough fuel they have one.
  calc_root-first :
      (fuel : ℕ) (x : List ℕ) (xs ys : List (List ℕ))
      → length xs ≡ length ys
      → length xs ≤ fuel
      → AreIds (x ∷ xs)
      → AreIds (x ∷ ys)
      → (r : List ℕ) × (calc_root l fuel (x ∷ xs) ≡ some (r ∷ []))
        × (calc_root l fuel (x ∷ ys) ≡ some (r ∷ []))
  calc_root-first fuel x [] [] e f v w = (x, calc_root-one fuel x, calc_root-one fuel x)
  calc_root-first fuel x [] (b ∷ ys) e f v w = absurd (omega arith)
  calc_root-first fuel x (a ∷ xs) [] e f v w = absurd (omega arith)
  calc_root-first zero x (a ∷ xs) (b ∷ ys) e f v w = absurd (omega arith)
  calc_root-first (suc fuel) x (a ∷ xs) (b ∷ ys) e f (v, (v', v'')) (w, (w', w'')) =
      let (hs, p, i, n) = join_ids-some xs v'' in
      let (ks, q, j, m) = join_ids-some ys w'' in
      let h = sha256 (x ++ x) in
      let (r, s, t) =
        calc_root-first fuel h hs ks (omega arith) (omega arith) (sha256_length (x ++ x), i)
          (sha256_length (x ++ x), j) in
      (
        r,
        calc_root-suc fuel x a xs (h ∷ hs) (join_ids-cons x a xs hs v p) ∙ s,
        calc_root-suc fuel x b ys (h ∷ ks) (join_ids-cons x b ys ks v q) ∙ t,
      )

  tx_ids-AreIds :
      (txs txs' : List (P2pkh Key)) (ids : List (List ℕ))
      → tx_ids l txs ≡ some (txs', ids)
      → AreIds ids × (length ids ≡ length txs)
  unfolding tx_ids
  tx_ids-AreIds [] txs' ids h = let e : ids ≡ [] = ground arith in rw e (tt, refl)
  tx_ids-AreIds (tx ∷ txs) txs' ids h =
      let ((tx', id), e, h1) = >>=-eq-some (calc_tx_id l tx) _ h in
      let ((ts, rest), f, h2) = >>=-eq-some (tx_ids l txs) _ h1 in
      let q : ids ≡ id ∷ rest = ground arith in
      let (v, n) = tx_ids-AreIds txs ts rest f in
      rw q ((calc_tx_id-length tx tx' id e, v), omega arith)

  -- The root of a block of which the ids are known.
  calc_merkle_root-ids :
      (b : Block Key) (c c' : Coinbase) (id r : List ℕ) (txs : List (P2pkh Key))
      (ids : List (List ℕ))
      → b.coinbase ≡ some c
      → calc_coinbase_id l c ≡ some (c', id)
      → tx_ids l b.tx_vector ≡ some (txs, ids)
      → calc_root l (length (id ∷ even_tail id ids)) (id ∷ even_tail id ids) ≡ some (r ∷ [])
      → calc_merkle_root l b ≡ some (record b { coinbase = some c'; tx_vector = txs }, some r)
  unfolding calc_merkle_root root_of
  calc_merkle_root-ids b c c' id r txs ids e f g h =
      ap (root_for l b) e ∙ rw (f, g, make_even-cons id ids, h)

  -- Where SHA-256 yields 32 bytes, two blocks with the same coinbase and as many transactions,
  -- whose ids all have an outcome, have the same Merkle root, whatever the transactions are.
  pub calc_merkle_root-first :
      (b d : Block Key) (c c' : Coinbase) (id : List ℕ) (txs us : List (P2pkh Key))
      (ids js : List (List ℕ))
      → b.coinbase ≡ some c
      → d.coinbase ≡ some c
      → calc_coinbase_id l c ≡ some (c', id)
      → tx_ids l b.tx_vector ≡ some (txs, ids)
      → tx_ids l d.tx_vector ≡ some (us, js)
      → length b.tx_vector ≡ length d.tx_vector
      → (root : List ℕ) × (calc_merkle_root l b
          ≡ some (record b { coinbase = some c'; tx_vector = txs }, some root))
        × (calc_merkle_root l d ≡ some (record d { coinbase = some c'; tx_vector = us }, some root))
  calc_merkle_root-first b d c c' id txs us ids js e f g h k n =
      let (v, i) = tx_ids-AreIds b.tx_vector txs ids h in
      let (w, j) = tx_ids-AreIds d.tx_vector us js k in
      let x : length id ≡ 32 = calc_coinbase_id-length c c' id g in
      let same : length (even_tail id ids) ≡ length (even_tail id js) =
        length-even_tail id ids js (i ∙ n ∙ sym j) in
      let (r, p, q) =
        calc_root-first (length (id ∷ even_tail id ids)) id (even_tail id ids) (even_tail id js)
          same (omega arith) (x, even_tail-AreIds id ids (x, v))
          (x, even_tail-AreIds id js (x, w)) in
      (
        r,
        calc_merkle_root-ids b c c' id r txs ids e g h p,
        calc_merkle_root-ids d c c' id r us js f g k
            (ap (λ (m : ℕ). calc_root l (suc m) (id ∷ even_tail id js)) (sym same) ∙ q),
      )
