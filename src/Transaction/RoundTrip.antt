-- ===== src/Transaction/RoundTrip.antt =====
-- P2PKH::exportRaw and P2PKH::importRawSequentially, p2pkh.cpp: what is read back of what is
-- written.
use miya_core.Transaction.OpenSsl.{OpenSsl}
use miya_core.Transaction.P2pkh.{
  int_rounds, new_p2pkh, assemble, export_p2pkh, import_p2pkh, P2pkh, import_ins, pieces,
  import_outs,
}
use miya_core.Base.{
  ltb_of_lt, ◌%◌, ltb, ◌*◌, ◌^◌, ◌<◌, true, ◌+◌, ℕ, ◌≡◌, refl, sym, ap, some, List, [], ◌++◌,
  append_assoc, arith, length, length-append, drop,
}
use miya_core.Base.Bytes.{memcpy-drop, memcpy, memcpy-append_exact}
use miya_core.Base.Endian.{of_be-be32, be32}
use miya_core.Transaction.Paid.{
  ArePaid, paid_outs, encode_outs, length-encode_outs, export_outs-paid_outs,
  import_outs-encode_outs,
}
use miya_core.Transaction.Inputs.{
  AreSigned, signed_size, few-signed_size, length-encode_ins, received_ins, written_ins, encode_ins,
  all_signed-AreSigned, export_ins-encode_ins, import_ins-encode_ins,
}

int_rounds-lt : (n : ℕ) → n < 2 ^ 31 → int_rounds n ≡ some n
unfolding int_rounds
int_rounds-lt n h = ground arith

module _ (l : OpenSsl) where
  open l use {Key, sha256}

  module _ (tx : P2pkh Key) (v : AreSigned l tx.ins) (w : ArePaid tx.outs) where
    abbrev in_bytes : List ℕ
    in_bytes = pieces (encode_ins l tx.ins v)

    abbrev out_bytes : List ℕ
    out_bytes = pieces (encode_outs tx.outs w)

    -- The count of the bytes of the transaction.
    abbrev pub exported_size : ℕ
    exported_size = 12 + signed_size l tx.ins v + 41 * length tx.outs

    encode_tx : List ℕ
    encode_tx =
        tx.version ++ (be32 (length tx.ins) ++ (in_bytes ++ (be32 (length tx.outs) ++ out_bytes)))

    -- The transaction as it is read back.
    unfoldable pub received : P2pkh Key
    unfolding received_ins paid_outs
    received = record {
      version = tx.version;
      ins = received_ins l tx.ins v;
      outs = paid_outs tx.outs w;
    }

    -- The transaction as its export leaves it.
    unfoldable pub written : P2pkh Key
    unfolding written_ins paid_outs
    written = record tx { ins = written_ins l tx.ins v; outs = paid_outs tx.outs w }

    assemble-encode_tx :
        exported_size < 2 ^ 32
        → assemble tx.version
            (length tx.ins)
            (encode_ins l tx.ins v)
            (length tx.outs)
            (encode_outs tx.outs w)
          ≡ some encode_tx
    unfolding assemble encode_tx
    assemble-encode_tx h =
        let n = length-encode_ins l tx.ins v in
        let m = length-encode_outs tx.outs w in
        let a : ltb (length in_bytes) (2 ^ 32) ≡ true = ltb_of_lt _ _ (omega arith) in
        let b : ltb (length out_bytes) (2 ^ 32) ≡ true = ltb_of_lt _ _ (omega arith) in
        let c : ltb (4 + 4 + length in_bytes + 4 + length out_bytes) (2 ^ 32) ≡ true =
          ltb_of_lt _ _ (omega arith) in
        rw (a, b, c)

    export_p2pkh-encode_tx : exported_size < 2 ^ 32 → export_p2pkh l tx ≡ some (written, encode_tx)
    unfolding export_p2pkh written
    export_p2pkh-encode_tx h = rw (
      all_signed-AreSigned l tx.ins v,
      export_ins-encode_ins l tx.ins v,
      export_outs-paid_outs tx.outs w,
      assemble-encode_tx h,
    )

    import_p2pkh-encode_tx :
        (rest : List ℕ)
        → length tx.version ≡ 4
        → exported_size < 2 ^ 32
        → import_p2pkh l new_p2pkh (encode_tx ++ rest) ≡ some (received, length encode_tx)
    unfolding import_p2pkh new_p2pkh encode_tx received
    import_p2pkh-encode_tx rest q h =
        let ver = tx.version in
        let n = be32 (length tx.ins) in
        let m = be32 (length tx.outs) in
        let es = in_bytes in
        let fs = out_bytes in
        let sn = length-encode_ins l tx.ins v in
        let sm = length-encode_outs tx.outs w in
        let few_ins : length tx.ins < 2 ^ 31 = omega (arith, few-signed_size l tx.ins v) in
        let few_outs : length tx.outs < 2 ^ 31 = omega arith in
        let a : length tx.ins < 2 ^ 32 = omega arith in
        let b : length tx.outs < 2 ^ 32 = omega arith in
        let raw = encode_tx ++ rest in
        let whole : raw ≡ ver ++ (n ++ (es ++ (m ++ (fs ++ rest)))) = simp append_assoc in
        let at8 : raw ≡ (ver ++ n) ++ (es ++ (m ++ (fs ++ rest))) = simp append_assoc in
        let at_outs : raw ≡ ((ver ++ n) ++ es) ++ (m ++ (fs ++ rest)) = simp append_assoc in
        let behind : raw ≡ (((ver ++ n) ++ es) ++ m) ++ (fs ++ rest) = simp append_assoc in
        let all : encode_tx ≡ (((ver ++ n) ++ es) ++ m) ++ fs = simp append_assoc in
        let c : memcpy 4 raw ≡ some ver = rw whole (memcpy-append_exact 4 ver _ (sym q)) in
        let d : memcpy 4 (drop 4 raw) ≡ some n =
          rw whole (memcpy-drop 4 4 ver n (es ++ (m ++ (fs ++ rest))) (sym q) refl) in
        let p8 : length (ver ++ n) ≡ 8 = omega (arith, q, length-append ver n) in
        let e : import_ins l (length tx.ins) [] raw 8
            ≡ some (received_ins l tx.ins v, length ((ver ++ n) ++ es)) =
          rw (at8, ← p8)
            (import_ins-encode_ins l tx.ins [] v (ver ++ n) (m ++ (fs ++ rest))
              (omega (arith, p8, length-append (ver ++ n) es))) in
        let f : memcpy 4 (drop (length ((ver ++ n) ++ es)) raw) ≡ some m =
          rw at_outs (
            memcpy-drop (length ((ver ++ n) ++ es)) 4 ((ver ++ n) ++ es) m (fs ++ rest) refl
              refl) in
        let size : length encode_tx ≡ exported_size = omega (
          arith,
          p8,
          ap length all,
          length-append (ver ++ n) es,
          length-append ((ver ++ n) ++ es) m,
          length-append (((ver ++ n) ++ es) ++ m) fs,
        ) in
        let pm : (length ((ver ++ n) ++ es) + 4) % 2 ^ 32 ≡ length (((ver ++ n) ++ es) ++ m) =
          omega (arith, p8, length-append (ver ++ n) es, length-append ((ver ++ n) ++ es) m) in
        let g : import_outs (length tx.outs) [] raw ((length ((ver ++ n) ++ es) + 4) % 2 ^ 32)
            ≡ some (paid_outs tx.outs w, length encode_tx) =
          rw (behind, pm, all)
            (import_outs-encode_outs tx.outs [] w (((ver ++ n) ++ es) ++ m) rest (
              let z : length ((((ver ++ n) ++ es) ++ m) ++ fs) < 2 ^ 32 =
                rw (← all) (omega (arith, size)) in
              z)) in
        rw (
          c,
          d,
          of_be-be32 (length tx.ins) a,
          int_rounds-lt (length tx.ins) few_ins,
          e,
          f,
          of_be-be32 (length tx.outs) b,
          int_rounds-lt (length tx.outs) few_outs,
          g,
        )

    -- For a signed transaction whose parts have the stated lengths and whose bytes are fewer
    -- than 2 ^ 32, and whatever bytes follow, exportRaw writes bytes, of which
    -- importRawSequentially into a new transaction reads exactly those, and gives the version,
    -- the outputs, and the inputs with their scripts, but not marked as signed.
    pub import_p2pkh-export_p2pkh :
        (rest : List ℕ)
        → length tx.version ≡ 4
        → exported_size < 2 ^ 32
        → (raw : List ℕ) × (export_p2pkh l tx ≡ some (written, raw))
          × (import_p2pkh l new_p2pkh (raw ++ rest) ≡ some (received, length raw))
    import_p2pkh-export_p2pkh rest q h =
        (encode_tx, export_p2pkh-encode_tx h, import_p2pkh-encode_tx rest q h)
