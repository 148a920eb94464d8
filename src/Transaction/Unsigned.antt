-- ===== src/Transaction/Unsigned.antt =====
-- What P2PKH::importRawSequentially leaves has no mark that it is signed, so exportRaw writes
-- none of it, p2pkh.cpp.
use miya_core.Base.Endian.{of_be}
use miya_core.Base.Bytes.{memcpy}
use miya_core.Transaction.P2pkh.{
  P2pkh, calc_tx_id, export_p2pkh, new_p2pkh, import_ins, import_p2pkh, int_rounds, all_signed,
}
use miya_core.Base.Fallible.{>>=-eq-some}
use miya_core.Base.{
  ◌^◌, ◌%◌, sym, ◌+◌, drop, subst, length, ◌<◌, [], ◌∷◌, ◌++◌, refl, false, suc, zero, ℕ, ◌≡◌, some,
  List, arith,
}
use miya_core.Transaction.OpenSsl.{OpenSsl}
use miya_core.Transaction.Signature.{SignatureScript, import_signature_script}
use miya_core.Transaction.TxIn.{new_tx_in, TxIn, is_signed, import_tx_in}

module _ (l : OpenSsl) where
  open l use {Key, sha256}

  import_signature_script-is_signed :
      (s s' : SignatureScript Key) (raw : List ℕ) (n k : ℕ)
      → import_signature_script l s raw n ≡ some (s', k)
      → s'.is_signed ≡ s.is_signed
  unfolding import_signature_script
  import_signature_script-is_signed s s' raw n k h = ground arith

  import_tx_in-is_signed :
      (t t' : TxIn Key) (raw : List ℕ) (k : ℕ)
      → import_tx_in l t raw ≡ some (t', k)
      → is_signed t' ≡ is_signed t
  unfolding import_tx_in
  import_tx_in-is_signed t t' raw k h = ground (
    arith,
    λ (s' : SignatureScript Key) (r : List ℕ) (n m : ℕ).
        import_signature_script-is_signed t.signature_script s' r n m,
  )

  abbrev AreUnsigned : List (TxIn Key) → Type 0
  AreUnsigned [] = Unit {0}
  AreUnsigned (t ∷ ins) = (is_signed t ≡ false) × AreUnsigned ins

  AreUnsigned-snoc :
      (ins : List (TxIn Key)) (t : TxIn Key)
      → AreUnsigned ins
      → is_signed t ≡ false
      → AreUnsigned (ins ++ t ∷ [])
  AreUnsigned-snoc [] t v h = (h, tt)
  AreUnsigned-snoc (x ∷ ins) t (v, w) h = (v, AreUnsigned-snoc ins t w h)

  import_ins-AreUnsigned :
      (n : ℕ) (acc ins : List (TxIn Key)) (raw : List ℕ) (ptr end : ℕ)
      → AreUnsigned acc
      → import_ins l n acc raw ptr ≡ some (ins, end)
      → AreUnsigned ins
  unfolding import_ins new_tx_in
  import_ins-AreUnsigned zero acc ins raw ptr end v h =
      let e : acc ≡ ins = cc in subst AreUnsigned e v
  import_ins-AreUnsigned (suc n) acc ins raw ptr end v h =
      let ((t, k), e, more) =
        >>=-eq-some (import_tx_in l new_tx_in (drop ptr raw))
          (λ (t, k). import_ins l n (acc ++ t ∷ []) raw ((ptr + k) % 2 ^ 32)) h in
      let u : is_signed t ≡ false = import_tx_in-is_signed new_tx_in t (drop ptr raw) k e in
      import_ins-AreUnsigned n (acc ++ t ∷ []) ins raw ((ptr + k) % 2 ^ 32) end
        (AreUnsigned-snoc acc t v u) more

  all_signed-AreUnsigned :
      (ins : List (TxIn Key)) → AreUnsigned ins → 0 < length ins → all_signed ins ≡ false
  unfolding all_signed
  all_signed-AreUnsigned [] v h = absurd (omega arith)
  all_signed-AreUnsigned (t ∷ ins) (v, w) h = rw v

  -- Whatever bytes importRawSequentially reads into a new transaction, if it has an input then
  -- exportRaw writes no bytes of it, and its id is the SHA-256 hash of no bytes.
  pub import_p2pkh-export_p2pkh_none :
      (raw : List ℕ) (tx : P2pkh Key) (n : ℕ)
      → import_p2pkh l new_p2pkh raw ≡ some (tx, n)
      → 0 < length tx.ins
      → (export_p2pkh l tx ≡ some (tx, [])) × (calc_tx_id l tx ≡ some (tx, sha256 []))
  unfolding import_p2pkh new_p2pkh export_p2pkh calc_tx_id
  import_p2pkh-export_p2pkh_none raw tx n h p =
      let (ver, e1, h1) = >>=-eq-some (memcpy 4 raw) _ h in
      let (count, e2, h2) = >>=-eq-some (memcpy 4 (drop 4 raw)) _ h1 in
      let (rounds, _, h3) = >>=-eq-some (int_rounds (of_be count)) _ h2 in
      let ((ins, ptr), e3, h4) = >>=-eq-some (import_ins l rounds [] raw 8) _ h3 in
      let q : tx.ins ≡ ins = ground arith in
      let v : AreUnsigned tx.ins =
        subst AreUnsigned (sym q) (import_ins-AreUnsigned rounds [] ins raw 8 ptr tt e3) in
      rw (all_signed-AreUnsigned tx.ins v p) (refl, refl)
