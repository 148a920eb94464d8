-- ===== src/Script/Size.antt =====
-- The buffer that Script::exportRaw allocates against the bytes that it writes.
use miya_core.Base.{
  ℕ, ◌+◌, ◌^◌, ◌<◌, ◌≡◌, refl, some, List, [], ◌∷◌, arith, length, length-append, Option-cases, inl,
  inr,
}
use miya_core.Base.Bytes.{memcpy, memcpy-some}
use miya_core.Script.{
  OpCode, common, dup, hash_160, equalverify, checksig, op_data, Script, bytes_of, op_data_length,
  export_script_content_size, export_raw_size, export_raw,
}

content_size : (op : OpCode) → export_script_content_size op ≡ op_data_length op + 1
unfolding export_script_content_size
content_size common = refl
content_size dup = refl
content_size hash_160 = refl
content_size equalverify = refl
content_size checksig = refl
content_size (op_data n) = refl

-- exportRawSize is the number of bytes that exportRaw writes, below 2 ^ 32.
pub length-export_raw :
    (s : Script) (raw : List ℕ)
    → export_raw s ≡ some raw
    → length raw < 2 ^ 32
    → export_raw_size s ≡ length raw
unfolding export_raw export_raw_size
length-export_raw [] raw h b = ground arith
length-export_raw ((op, d) ∷ s) raw h b =
    elim (Option-cases (memcpy (op_data_length op) (bytes_of d))) [
      | inl e ↦ absurd (ground arith)
      | inr (c, e) ↦ elim (Option-cases (export_raw s)) [
        | inl e' ↦ absurd (ground arith)
        | inr (r, e') ↦ ground (
          arith,
          content_size op,
          memcpy-some (op_data_length op) (bytes_of d) c e,
          length-append c r,
          length-export_raw s r e',
        )
      ]
    ]
