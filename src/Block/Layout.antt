-- ===== src/Block/Layout.antt =====
-- The memory of a block's header, block_header.cpp, read back.
use miya_core.Base.{
  ℕ, ◌^◌, ◌<◌, ◌≡◌, refl, sym, some, List, ◌++◌, append_assoc, arith, length, length-append, drop,
}
use miya_core.Base.Bytes.{memcpy, memcpy-append_exact, memcpy-drop}
use miya_core.Base.Endian.{le32, of_le-le32}
use miya_core.Block.Header.{BlockHeader, export_header, import_header}

-- A header whose numbers fit in their members and whose hashes have thirty-two bytes.
pub record IsHeader (h : BlockHeader) : Type 0 where
  pub version_fits : h.version < 2 ^ 32
  pub time_fits : h.time < 2 ^ 32
  pub n_bits_fits : h.n_bits < 2 ^ 32
  pub nonce_fits : h.nonce < 2 ^ 32
  pub hash_length : length h.previous_block_header_hash ≡ 32
  pub root_length : length h.merkle_root ≡ 32

-- A header whose numbers have 32 bits and whose hashes have 32 bytes is read back from what
-- exportRaw writes, whatever bytes follow, with 80 bytes read.
pub import_header-export_header :
    (h : BlockHeader) (rest : List ℕ)
    → IsHeader h
    → import_header (export_header h ++ rest) ≡ some (h, 80)
unfolding import_header export_header
import_header-export_header h rest v =
    let p = h.previous_block_header_hash in
    let m = h.merkle_root in
    let a = le32 h.version in
    let t = le32 h.time in
    let n = le32 h.n_bits in
    let o = le32 h.nonce in
    let raw = export_header h ++ rest in
    let e0 : raw ≡ a ++ (p ++ (m ++ (t ++ (n ++ (o ++ rest))))) = simp append_assoc in
    let e36 : raw ≡ (a ++ p) ++ (m ++ (t ++ (n ++ (o ++ rest)))) = simp append_assoc in
    let e68 : raw ≡ (a ++ p ++ m) ++ (t ++ (n ++ (o ++ rest))) = simp append_assoc in
    let e72 : raw ≡ (a ++ p ++ m ++ t) ++ (n ++ (o ++ rest)) = simp append_assoc in
    let e76 : raw ≡ (a ++ p ++ m ++ t ++ n) ++ (o ++ rest) = simp append_assoc in
    let l36 : length (a ++ p) ≡ 36 = omega (arith, length-append a p, v.hash_length) in
    let l68 : length (a ++ p ++ m) ≡ 68 =
      omega (arith, length-append (a ++ p) m, l36, v.root_length) in
    let l72 : length (a ++ p ++ m ++ t) ≡ 72 = omega (arith, length-append (a ++ p ++ m) t, l68) in
    let l76 : length (a ++ p ++ m ++ t ++ n) ≡ 76 =
      omega (arith, length-append (a ++ p ++ m ++ t) n, l72) in
    let f0 : memcpy 4 raw ≡ some a =
      rw e0 (memcpy-append_exact 4 a (p ++ (m ++ (t ++ (n ++ (o ++ rest))))) refl) in
    let f4 : memcpy 32 (drop 4 raw) ≡ some p =
      rw e0 (memcpy-drop 4 32 a p (m ++ (t ++ (n ++ (o ++ rest)))) refl (sym v.hash_length)) in
    let f36 : memcpy 32 (drop 36 raw) ≡ some m =
      rw e36
        (memcpy-drop 36 32 (a ++ p) m (t ++ (n ++ (o ++ rest))) (sym l36) (sym v.root_length)) in
    let f68 : memcpy 4 (drop 68 raw) ≡ some t =
      rw e68 (memcpy-drop 68 4 (a ++ p ++ m) t (n ++ (o ++ rest)) (sym l68) refl) in
    let f72 : memcpy 4 (drop 72 raw) ≡ some n =
      rw e72 (memcpy-drop 72 4 (a ++ p ++ m ++ t) n (o ++ rest) (sym l72) refl) in
    let f76 : memcpy 4 (drop 76 raw) ≡ some o =
      rw e76 (memcpy-drop 76 4 (a ++ p ++ m ++ t ++ n) o rest (sym l76) refl) in
    rw (
      f0,
      f4,
      f36,
      f68,
      f72,
      f76,
      of_le-le32 h.version v.version_fits,
      of_le-le32 h.time v.time_fits,
      of_le-le32 h.n_bits v.n_bits_fits,
      of_le-le32 h.nonce v.nonce_fits,
    )
