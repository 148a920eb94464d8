-- ===== src/MessageHeader/Relays.antt =====
-- What EKP2PMessageHeader::importRawSequentially reads of what exportRaw writes, header.cpp.
use miya_core.Base.{
  ℕ, zero, suc, ◌+◌, ◌*◌, ◌/◌, ◌%◌, ◌^◌, ◌≤◌, ◌<◌, ◌≡◌, refl, sym, ap, ◌∙◌, some, List, [], ◌∷◌,
  ◌++◌, append_assoc, append-nil, arith, length, length-append, length-set, take, drop, set, get_or,
  get_or-set_self, get_or-set_ne,
}
use miya_core.Base.Bytes.{memcpy, memcpy_exact, memcpy-append_exact, memcpy-drop, drop-append}
use miya_core.MessageHeader.{
  MessageHeader, Addr, meta_size, addr_size, field, set_field, export_relays, export_message_header,
  import_relays, relay_count, import_message_header,
}

abbrev pub AreAddrs : List Addr → Type 0
AreAddrs [] = Unit {0}
AreAddrs (r ∷ rs) = (length r ≡ addr_size) × AreAddrs rs

-- The bytes of addresses behind one another.
joined : List Addr → List ℕ
joined [] = []
joined (r ∷ rs) = r ++ joined rs

export_relays-joined : (rs : List Addr) → AreAddrs rs → export_relays rs ≡ some (joined rs)
unfolding export_relays joined
export_relays-joined [] v = refl
export_relays-joined (r ∷ rs) (v, w) =
    rw (memcpy_exact addr_size r (sym v), export_relays-joined rs w)

import_relays-joined :
    (n : ℕ) (rs acc : List Addr) (pre rest : List ℕ)
    → n ≤ length rs
    → AreAddrs rs
    → import_relays n acc (pre ++ (joined rs ++ rest)) (length pre) ≡ some (acc ++ take n rs)
unfolding import_relays joined
import_relays-joined zero rs acc pre rest h v = rw (append-nil acc)
import_relays-joined (suc n) [] acc pre rest h v = absurd (omega arith)
import_relays-joined (suc n) (r ∷ rs) acc pre rest h (v, w) =
    let whole : pre ++ ((r ++ joined rs) ++ rest) ≡ pre ++ (r ++ (joined rs ++ rest)) =
      simp append_assoc in
    let next : pre ++ (r ++ (joined rs ++ rest)) ≡ (pre ++ r) ++ (joined rs ++ rest) =
      simp append_assoc in
    let one : memcpy addr_size (drop (length pre) (pre ++ (r ++ (joined rs ++ rest)))) ≡ some r =
      rw (drop-append pre (r ++ (joined rs ++ rest)))
        (memcpy-append_exact addr_size r (joined rs ++ rest) (sym v)) in
    let place : length pre + addr_size ≡ length (pre ++ r) =
      omega (arith, v, length-append pre r) in
    let more = import_relays-joined n rs (acc ++ r ∷ []) (pre ++ r) rest (omega arith) w in
    rw (whole, one, place, next, more, append_assoc acc (r ∷ []) (take n rs))

field-set_field :
    (meta : List ℕ) (n : ℕ)
    → length meta ≡ meta_size
    → n < 2 ^ 16
    → field (set_field meta 4 n) 4 ≡ n
field-set_field meta n l h =
    let low : get_or (set (set meta 4 (n / 256 % 256)) 5 (n % 256)) 5 0 ≡ n % 256 =
      get_or-set_self (set meta 4 (n / 256 % 256)) 5 (n % 256) 0
        (omega (arith, length-set meta 4 (n / 256 % 256))) in
    let high : get_or (set (set meta 4 (n / 256 % 256)) 5 (n % 256)) 4 0 ≡ n / 256 % 256 =
      get_or-set_ne (set meta 4 (n / 256 % 256)) (n % 256) 0 (omega arith)
      ∙ get_or-set_self meta 4 (n / 256 % 256) 0 (omega arith) in
    rw (low, high) (omega arith)

relay_count_lem : (n : ℕ) → 48 + n * 26 < 2 ^ 16 → relay_count (48 + n * 26) ≡ n
unfolding relay_count
relay_count_lem n h = omega arith

-- What exportRaw writes of a header with a source, whose addresses have 26 bytes and whose size
-- is below 2 ^ 16, followed by any payload and read into a header with a source address and no
-- relays, gives the sent meta data and source, and as relays the source followed by all relays
-- but the last.
pub import_message_header-export :
    (h h' : MessageHeader) (source memory : Addr) (payload : List ℕ)
    → length h.meta ≡ meta_size
    → h.source ≡ some source
    → AreAddrs (source ∷ h.relays)
    → meta_size + addr_size + length h.relays * addr_size < 2 ^ 16
    → h'.source ≡ some memory
    → h'.relays ≡ []
    → (raw : List ℕ) × (sent : MessageHeader) × (export_message_header h ≡ some (sent, raw))
      × (import_message_header h' (raw ++ payload)
          ≡ some (record {
            meta = sent.meta;
            source = some source;
            relays = take (length h.relays) (source ∷ h.relays);
          }))
unfolding export_message_header import_message_header joined
import_message_header-export h h' source memory payload l e (v, w) f g k =
    let n = length h.relays in
    let size : (48 + n * 26) % 2 ^ 32 ≡ 48 + n * 26 = omega arith in
    let meta = set_field h.meta 4 (48 + n * 26) in
    let lm : length meta ≡ meta_size =
      length-set (set h.meta 4 ((48 + n * 26) / 256 % 256)) 5 ((48 + n * 26) % 256)
      ∙ length-set h.meta 4 ((48 + n * 26) / 256 % 256)
      ∙ l in
    let raw = meta ++ (source ++ joined h.relays) in
    let whole : raw ++ payload ≡ meta ++ ((source ++ joined h.relays) ++ payload) =
      simp append_assoc in
    let split : raw ++ payload ≡ meta ++ (source ++ (joined h.relays ++ payload)) =
      simp append_assoc in
    let m : memcpy meta_size (raw ++ payload) ≡ some meta =
      rw whole
        (memcpy-append_exact meta_size meta ((source ++ joined h.relays) ++ payload) (sym lm)) in
    let s : memcpy addr_size (drop meta_size (raw ++ payload)) ≡ some source =
      rw split (
        memcpy-drop meta_size addr_size meta source (joined h.relays ++ payload) (sym lm)
          (sym v)) in
    let r : import_relays n [] (raw ++ payload) meta_size ≡ some (take n (source ∷ h.relays)) =
      rw (whole, ← lm)
        (import_relays-joined n (source ∷ h.relays) [] meta payload (omega arith) (v, w)) in
    let c : relay_count (field meta 4) ≡ n =
      ap relay_count (field-set_field h.meta (48 + n * 26) l f) ∙ relay_count_lem n f in
    (
      raw,
      record h { meta = meta },
      rw (size, e, memcpy_exact addr_size source (sym v), export_relays-joined h.relays w),
      rw (m, g, k, s, c, r),
    )
