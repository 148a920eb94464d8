-- ===== src/Transaction/Verify.antt =====
-- What P2PKH::verify answers for inputs with pay-to-public-key-hash scripts, p2pkh.cpp.
use miya_core.Script.P2pkh.Verify.{verify_p2pkh_lem}
use miya_core.Base.{
  sym, ◌∙◌, ap, length-append, false, suc, append_assoc, Bool, true, ℕ, ◌+◌, ◌^◌, ◌<◌, ◌≡◌, refl,
  Option, some, List, [], ◌∷◌, ◌++◌, arith, length, get_elem?,
}
use miya_core.Script.{Script}
use miya_core.Script.P2pkh.{p2pkh_pk_script, p2pkh_signature_script}
use miya_core.Transaction.OpenSsl.{crypto, OpenSsl}
use miya_core.Transaction.PrevOut.{PrevOut}
use miya_core.Transaction.TxIn.{TxIn}
use miya_core.Transaction.P2pkh.{
  verify, verify_scripts, verify_loop, export_ins_on, P2pkh, tx_hash_on_tx_in,
}
use miya_core.Transaction.Export.{AreOuts, export_outs-AreOuts}
use miya_core.Transaction.Covered.{
  IsBelow, bare_size-replace, assemble-some, HasId, HaveIds, Cleared, bare_size,
  export_ins_on-Cleared,
}

get_elem?-append :
    {A : Type 0} (front : List A) (t : A) (rest : List A)
    → get_elem? (front ++ t ∷ rest) (length front) ≡ some t
get_elem?-append [] t rest = refl
get_elem?-append (x ∷ front) t rest = get_elem?-append front t rest

module _ (l : OpenSsl) (get : PrevOut → Option Script) where
  open l use {Key}

  -- An input with a key, a signature and a key's bytes in its script, whose output is found and is
  -- to the hash of a key. Nothing ties the signature and the hash to the key.
  pub record Spends (t : TxIn Key) : Type 0 where
    pub sign : List ℕ
    pub key : List ℕ
    pub hash : List ℕ
    pub pkey : Key
    pub has_id : HasId t
    pub sign_fits : length sign < 2 ^ 8
    pub key_fits : length key < 2 ^ 8
    pub hash_length : length hash ≡ 20
    pub script : t.signature_script.script ≡ p2pkh_signature_script sign (length sign) key
    pub has_pkey : t.signature_script.pkey ≡ some pkey
    pub found : get t.prev_out ≡ some (p2pkh_pk_script hash)

  abbrev pub AllSpend : List (TxIn Key) → Type 0
  AllSpend [] = Unit {0}
  AllSpend (t ∷ ins) = Spends t × AllSpend ins

  AllSpend-HaveIds : (ins : List (TxIn Key)) → AllSpend ins → HaveIds ins
  AllSpend-HaveIds [] v = tt
  AllSpend-HaveIds (t ∷ ins) (v, w) = (v.has_id, AllSpend-HaveIds ins w)

  HaveIds-snoc :
      (front : List (TxIn Key)) (t : TxIn Key) → HaveIds front → HasId t → HaveIds (front ++ t ∷ [])
  HaveIds-snoc [] t f h = (h, tt)
  HaveIds-snoc (x ∷ front) t (f, g) h = (f, HaveIds-snoc front t g h)

module _ (l : OpenSsl) (sha1_length : (bs : List ℕ) → length (l.sha1 bs) ≡ 20)
    (get : PrevOut → Option Script) where
  open l use {Key}

  tx_hash_on_tx_in-Cleared :
      (tx : P2pkh Key) (front : List (TxIn Key)) (t : TxIn Key) (rest : List (TxIn Key))
      → tx.ins ≡ front ++ t ∷ rest
      → HaveIds front
      → Spends l get t
      → HaveIds rest
      → AreOuts tx.outs
      → IsBelow tx
      → (t' : TxIn Key) × (tx' : P2pkh Key) × (raw : List ℕ) × (tx_hash_on_tx_in l (length front) tx
          ≡ some (tx', raw))
        × Cleared l t t'
        × (tx'.ins ≡ front ++ t' ∷ rest)
        × AreOuts tx'.outs
        × IsBelow tx'
  unfolding tx_hash_on_tx_in
  tx_hash_on_tx_in-Cleared tx front t rest e f s w o k =
      let (t', raws, q, c, m) =
        export_ins_on-Cleared l 0 front t s.pkey rest f s.has_id w s.has_pkey
          (sha1_length (l.to_raw_pub_key s.pkey)) in
      let (outs, raw_outs, u, o', n, r) = export_outs-AreOuts tx.outs o in
      let z : 0 + length front ≡ length front = omega arith in
      let q' : export_ins_on l 0 (length front) tx.ins ≡ some (front ++ t' ∷ rest, raws) =
        rw (e, ← z) q in
      let same : bare_size tx.ins ≡ bare_size (front ++ t ∷ rest) = ap bare_size e in
      let kept : bare_size (front ++ t' ∷ rest) ≡ bare_size (front ++ t ∷ rest) =
        bare_size-replace front t t' rest c.0 c.2 in
      let (raw, x) =
        assemble-some tx.version (length tx.ins) (length tx.outs) raws raw_outs (omega arith) in
      (
        t',
        record tx { ins = front ++ t' ∷ rest; outs = outs },
        raw,
        rw (q', u, x),
        c,
        refl,
        o',
        omega arith,
      )

  verify_scripts-true :
      (tx tx' : P2pkh Key) (raw : List ℕ) (i : ℕ) (t : TxIn Key) (s : Spends l get t)
      → tx_hash_on_tx_in l i tx ≡ some (tx', raw)
      → verify_scripts l get i tx
          (p2pkh_pk_script s.hash)
          (p2pkh_signature_script s.sign (length s.sign) s.key)
        ≡ some (true, tx')
  unfolding verify_scripts p2pkh_pk_script p2pkh_signature_script
  verify_scripts-true tx tx' raw i t s e =
      let v =
        verify_p2pkh_lem (crypto l) sha1_length s.sign s.key s.hash raw s.sign_fits s.key_fits
          s.hash_length in
      rw (e, v)

  -- A round accepts its input, and goes on with its script cleared.
  verify_loop-suc :
      (n : ℕ) (flag : Bool) (tx : P2pkh Key) (front : List (TxIn Key)) (t : TxIn Key)
      (rest : List (TxIn Key))
      → tx.ins ≡ front ++ t ∷ rest
      → HaveIds front
      → Spends l get t
      → HaveIds rest
      → AreOuts tx.outs
      → IsBelow tx
      → (t' : TxIn Key) × (tx' : P2pkh Key) × (verify_loop l get (suc n) (length front) flag tx
          ≡ verify_loop l get n (length front + 1) true tx')
        × Cleared l t t'
        × (tx'.ins ≡ front ++ t' ∷ rest)
        × AreOuts tx'.outs
        × IsBelow tx'
  unfolding verify_loop
  verify_loop-suc n flag tx front t rest e f s w o k =
      let (t', tx', raw, q, c, u, o', k') = tx_hash_on_tx_in-Cleared tx front t rest e f s w o k in
      let g : get_elem? tx.ins (length front) ≡ some t = rw e (get_elem?-append front t rest) in
      let r = verify_scripts-true tx tx' raw (length front) t s q in
      (t', tx', rw (g, s.found, s.script, r), c, u, o', k')

  verify_loop-true :
      (rest front : List (TxIn Key)) (tx : P2pkh Key)
      → tx.ins ≡ front ++ rest
      → HaveIds front
      → AllSpend l get rest
      → AreOuts tx.outs
      → IsBelow tx
      → (tx' : P2pkh Key) × (rest' : List (TxIn Key)) × (verify_loop l get
            (length rest)
            (length front)
            true
            tx
          ≡ some (true, tx'))
        × (tx'.ins ≡ front ++ rest')
  verify_loop-true [] front tx e f v o k = (tx, [], unfold verify_loop in refl, e)
  verify_loop-true (t ∷ rest) front tx e f (s, v) o k =
      let (t', tx1, q, c, u, o1, k1) =
        verify_loop-suc (length rest) true tx front t rest e f s (AllSpend-HaveIds l get rest v) o
          k in
      let a = append_assoc front (t' ∷ []) rest in
      let n : length (front ++ t' ∷ []) ≡ length front + 1 =
        omega (arith, length-append front (t' ∷ [])) in
      let id : HasId t' = ap (λ (p : PrevOut). length p.tx_id) c.0 ∙ s.has_id in
      let (tx', rest', r, w) =
        verify_loop-true rest (front ++ t' ∷ []) tx1 (u ∙ sym a) (HaveIds-snoc l get front t' f id)
          v o1 k1 in
      (
        tx',
        t' ∷ rest',
        q ∙ ap (λ i. verify_loop l get (length rest) i true tx1) (sym n) ∙ r,
        w ∙ append_assoc front (t' ∷ []) rest',
      )

  verify_by :
      (tx : P2pkh Key) (ins : List (TxIn Key))
      → tx.ins ≡ ins
      → 0 < length ins
      → AllSpend l get ins
      → AreOuts tx.outs
      → IsBelow tx
      → (tx' : P2pkh Key) × (verify l get tx ≡ some (true, tx'))
        × (verify l get tx' ≡ some (false, tx'))
  unfolding verify
  verify_by tx [] e p v o k = absurd (omega arith)
  verify_by tx (t ∷ ins) e p (s, v) o k =
      let (t', tx1, q, c, u, o1, k1) =
        verify_loop-suc (length ins) false tx [] t ins e tt s (AllSpend-HaveIds l get ins v) o k in
      let id : HasId t' = ap (λ (p : PrevOut). length p.tx_id) c.0 ∙ s.has_id in
      let (tx', rest', r, w) = verify_loop-true ins (t' ∷ []) tx1 u (id, tt) v o1 k1 in
      let found : get t'.prev_out ≡ some (p2pkh_pk_script s.hash) = ap get c.0 ∙ s.found in
      let again : verify_loop l get (length (t' ∷ rest')) 0 false tx' ≡ some (false, tx') =
        unfold verify_loop p2pkh_pk_script in rw (w, found, c.1) in
      (
        tx',
        ap (λ (xs : List (TxIn Key)). verify_loop l get (length xs) 0 false tx) e ∙ q ∙ r,
        ap (λ (xs : List (TxIn Key)). verify_loop l get (length xs) 0 false tx') w ∙ again,
      )

  -- Where SHA-1 yields twenty bytes, for a transaction with an input, whose inputs each have a
  -- key, name an output that is found and pays to some twenty bytes, and have a script of a
  -- signature and of a key, each under 256 bytes, whose outputs are well-formed, and of which a
  -- signature covers fewer than 2 ^ 32 bytes, verify answers true whatever the signatures, keys
  -- and hashes are, and false when called again on the transaction it leaves.
  pub verify-Spends :
      (tx : P2pkh Key)
      → 0 < length tx.ins
      → AllSpend l get tx.ins
      → AreOuts tx.outs
      → IsBelow tx
      → (tx' : P2pkh Key) × (verify l get tx ≡ some (true, tx'))
        × (verify l get tx' ≡ some (false, tx'))
  verify-Spends tx p v o k = verify_by tx tx.ins refl p v o k
