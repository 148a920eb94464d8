-- ===== src/ValueStore/Laws.antt =====
-- A value that is added is got again, value_store_manager.cpp.
use miya_core.Base.Bytes.{memcpy_all}
use miya_core.Base.{
  length-append, inr, ◌⊎◌, append-nil, sym, ap, append_assoc, ℕ, suc, ◌+◌, ◌%◌, ◌^◌, ◌≤◌, ◌<◌, ◌≡◌,
  refl, ◌∙◌, inl, some, List, [], ◌∷◌, ◌++◌, arith, length,
}
use miya_core.Base.Endian.{of_le, of_le-le64, le16, le64}
use miya_core.Optr.{Optr, set_addr}
use miya_core.Optr.Laws.{IsOptr, IsNear, address}
use miya_core.Memory.{copy_in, Bytes, update, copy_out}
use miya_core.Memory.Laws.{
  write_outside, copy_in-write, read, write, optr_add-below, copy_out-read, read-write,
  read-write_outside,
}
use miya_core.ValueStore.{
  allocate, Store, add, get, new_fragment_header, ValueFragmentHeader, set_value_length,
  export_binary, import_binary, bytes_at,
}

write-append :
    (m : Bytes) (a : ℕ) (xs ys : List ℕ)
    → write m a (xs ++ ys) ≡ write (write m a xs) (a + length xs) ys
unfolding write
write-append m a [] ys = let z : a + 0 ≡ a = omega arith in rw z
write-append m a (x ∷ xs) ys =
    let z : a + 1 + length xs ≡ a + suc (length xs) = omega arith in
    write-append (update m a x) (a + 1) xs ys ∙ rw z

-- A piece of what was written is read at its place.
read-write_piece :
    (m : Bytes) (a n k : ℕ) (xs ys zs : List ℕ)
    → n ≡ length xs
    → k ≡ length ys
    → read (write m a (xs ++ (ys ++ zs))) (a + n) k ≡ ys
read-write_piece m a n k xs ys zs e f =
    let w : write m a (xs ++ (ys ++ zs))
        ≡ write (write (write m a xs) (a + length xs) ys) (a + length xs + length ys) zs =
      write-append m a xs (ys ++ zs) ∙ write-append (write m a xs) (a + length xs) ys zs in
    rw (w, e, f)
      (read-write_outside (write (write m a xs) (a + length xs) ys) (a + length xs) (length ys)
          (a + length xs + length ys) zs (inl (omega arith))
        ∙ read-write (write m a xs) (a + length xs) ys)

bytes_at-read :
    (m : Bytes) (o : Optr) (at n : ℕ)
    → IsOptr o
    → address o + at < 2 ^ 24
    → address o + at + n ≤ 2 ^ 32
    → bytes_at m o at n ≡ some (read m (address o + at) n)
bytes_at-read m o at n v h k =
    let (p, e, w, q) =
      optr_add-below o at (record { optr = v; near = omega arith }) (omega arith) in
    let z : address p + 0 ≡ address o + at = omega (arith, q) in
    rw (
      e,
      copy_out-read m p 0 n (record { optr = w; near = omega (arith, q) }) (omega (arith, q)),
      z,
    )

null-IsNear : IsNear (set_addr 0)
unfolding set_addr
null-IsNear = record {
  optr = record {
    byte0 = omega arith;
    byte1 = omega arith;
    byte2 = omega arith;
    byte3 = omega arith;
    byte4 = omega arith;
  };
  near = omega arith;
}

module _ (m : Bytes) (now n : ℕ) where
  -- The bytes of a new fragment's header.
  unfoldable header_of : List ℕ
  unfolding read
  header_of = le16 28 ++ (read m 0 5 ++ (read m 0 5 ++ (le64 (n % 2 ^ 64) ++ le64 (now % 2 ^ 64))))

  length-header_of : length header_of ≡ 28
  unfolding header_of
  length-header_of = refl

  null-read : copy_out m (set_addr 0) 0 5 ≡ some (read m 0 5)
  null-read =
      let z : address (set_addr 0) + 0 ≡ 0 = unfold set_addr in omega arith in
      copy_out-read m (set_addr 0) 0 5 null-IsNear (unfold set_addr in omega arith) ∙ rw z

  export_binary-header_of :
      (memory : ℕ)
      → (h : ValueFragmentHeader) × (export_binary m
            (set_value_length (new_fragment_header memory now) n)
          ≡ some (h, header_of))
        × (h.header_length ≡ 28)
  unfolding export_binary header_of set_value_length new_fragment_header
  export_binary-header_of memory = (
    record {
      header_length = 28;
      prev_flagment = set_addr 0;
      next_flagment = set_addr 0;
      value_length = n % 2 ^ 64;
      timestamp = now % 2 ^ 64;
    },
    rw null-read,
    refl,
  )

-- The address that the first bytes of a file are.
unfoldable pub first_optr : Bytes → Optr
first_optr m = record { b0 = m 0; b1 = m 1; b2 = m 2; b3 = m 3; b4 = m 4 }

-- The header that is read of a fragment: in the place of its neighbours it has the first bytes of
-- the file.
module _ (m : Bytes) (now : ℕ) (value : List ℕ) (o : Optr) (v : IsOptr o)
    (near : address o + 28 < 2 ^ 24) (room : address o + 28 + length value ≤ 2 ^ 32) where
  stored : Bytes
  stored = write m (address o) (header_of m now (length value) ++ value)

  import_binary-stored :
      (h : ValueFragmentHeader) × (import_binary stored o ≡ some h)
      × (h.header_length ≡ 28)
      × (h.value_length ≡ length value)
      × (h.prev_flagment ≡ first_optr m)
      × (h.next_flagment ≡ first_optr m)
  unfolding import_binary stored header_of read first_optr
  import_binary-stored =
      let a = address o in
      let first = read m 0 5 in
      let vl = le64 (length value % 2 ^ 64) in
      let ts = le64 (now % 2 ^ 64) in
      let hl = le16 28 in
      let whole = header_of m now (length value) ++ value in
      let e0 : whole ≡ [] ++ (hl ++ (first ++ (first ++ (vl ++ (ts ++ value))))) =
        simp append_assoc in
      let e2 : whole ≡ hl ++ (first ++ (first ++ (vl ++ (ts ++ value)))) = simp append_assoc in
      let e7 : whole ≡ (hl ++ first) ++ (first ++ (vl ++ (ts ++ value))) = simp append_assoc in
      let e12 : whole ≡ (hl ++ first ++ first) ++ (vl ++ (ts ++ value)) = simp append_assoc in
      let e20 : whole ≡ (hl ++ first ++ first ++ vl) ++ (ts ++ value) = simp append_assoc in
      let z : a + 0 ≡ a = omega arith in
      let f0 : copy_out stored o 0 2 ≡ some hl =
        copy_out-read stored o 0 2 (record { optr = v; near = omega arith }) (omega arith)
        ∙ ap some (
            ap (λ xs. read (write m a xs) (a + 0) 2) e0
            ∙ read-write_piece m a 0 2 [] hl (first ++ (first ++ (vl ++ (ts ++ value)))) refl
                refl) in
      let f2 : bytes_at stored o 2 5 ≡ some first =
        bytes_at-read stored o 2 5 v (omega arith) (omega arith)
        ∙ ap some (
            ap (λ xs. read (write m a xs) (a + 2) 5) e2
            ∙ read-write_piece m a 2 5 hl first (first ++ (vl ++ (ts ++ value))) refl refl) in
      let f7 : bytes_at stored o 7 5 ≡ some first =
        bytes_at-read stored o 7 5 v (omega arith) (omega arith)
        ∙ ap some (
            ap (λ xs. read (write m a xs) (a + 7) 5) e7
            ∙ read-write_piece m a 7 5 (hl ++ first) first (vl ++ (ts ++ value)) refl refl) in
      let f12 : bytes_at stored o 12 8 ≡ some vl =
        bytes_at-read stored o 12 8 v (omega arith) (omega arith)
        ∙ ap some (
            ap (λ xs. read (write m a xs) (a + 12) 8) e12
            ∙ read-write_piece m a 12 8 (hl ++ first ++ first) vl (ts ++ value) refl refl) in
      let f20 : bytes_at stored o 20 8 ≡ some ts =
        bytes_at-read stored o 20 8 v (omega arith) (omega arith)
        ∙ ap some (
            ap (λ xs. read (write m a xs) (a + 20) 8) e20
            ∙ read-write_piece m a 20 8 (hl ++ first ++ first ++ vl) ts value refl refl) in
      let small : length value % 2 ^ 64 < 2 ^ 64 = omega arith in
      let same : length value % 2 ^ 64 ≡ length value = omega arith in
      (
        record {
          header_length = of_le hl;
          prev_flagment = first_optr m;
          next_flagment = first_optr m;
          value_length = of_le vl;
          timestamp = of_le ts;
        },
        rw (f0, f2, f7, f12, f20),
        refl,
        of_le-le64 (length value % 2 ^ 64) small ∙ same,
        refl,
        refl,
      )

  -- The value stands behind the header.
  value-stored : (n : ℕ) → n ≡ length value → (k : ℕ) → k ≡ 28 → bytes_at stored o k n ≡ some value
  unfolding stored
  value-stored n e k f =
      let hd = header_of m now (length value) in
      let l = length-header_of m now (length value) in
      bytes_at-read stored o k n v (omega arith) (omega arith)
      ∙ ap some (
          ap (λ xs. read (write m (address o) xs) (address o + k) n)
            (sym (append-nil (hd ++ value)) ∙ append_assoc hd value [])
          ∙ read-write_piece m (address o) k n hd value [] (f ∙ sym l) e)

  get-stored : (free : Bytes) → get (record { file = stored; free = free }) o ≡ some value
  unfolding get
  get-stored free =
      let (h, e, hl, vl, p, n) = import_binary-stored in
      rw e (value-stored h.value_length vl h.header_length hl)

-- Where the allocator gives a pointer below 2 ^ 24 with the 28 bytes behind it below 2 ^ 24, and
-- the value behind those within 2 ^ 32, add stores the value, get at the pointer returns it, the
-- neighbours that the fragment names are the first five bytes of the file as it was, and no byte
-- outside the range changes.
pub get-add :
    (fuel memory now : ℕ) (s : Store) (value : List ℕ) (o : Optr) (free : Bytes)
    → allocate fuel (28 + length value) s.free ≡ some (o, free)
    → IsOptr o
    → address o + 28 < 2 ^ 24
    → address o + 28 + length value ≤ 2 ^ 32
    → (s' : Store) × (add fuel memory now s value (length value) ≡ some (o, s'))
      × (get s' o ≡ some value)
      × ((h : ValueFragmentHeader) × (import_binary s'.file o ≡ some h)
          × (h.prev_flagment ≡ first_optr s.file)
          × (h.next_flagment ≡ first_optr s.file))
      × ((x : ℕ) → (x < address o) ⊎ (address o + 28 + length value ≤ x) → s'.file x ≡ s.file x)
unfolding add stored
get-add fuel memory now s value o free e v near room =
    let n = length value in
    let a = address o in
    let (h, x, hl) = export_binary-header_of s.file now n memory in
    let hd = header_of s.file now n in
    let l = length-header_of s.file now n in
    let one : copy_in s.file o 0 hd ≡ some (write s.file a hd) =
      copy_in-write s.file o 0 hd (record { optr = v; near = omega arith }) (omega (arith, l))
      ∙ (let z : a + 0 ≡ a = omega arith in rw z) in
    let (p, q, w, at) =
      optr_add-below o 28 (record { optr = v; near = omega arith }) (omega arith) in
    let two : copy_in (write s.file a hd) p 0 value
        ≡ some (write (write s.file a hd) (a + 28) value) =
      copy_in-write (write s.file a hd) p 0 value (record { optr = w; near = omega (arith, at) })
        (omega (arith, at))
      ∙ (let z : address p + 0 ≡ a + 28 = omega (arith, at) in rw z) in
    let whole : write (write s.file a hd) (a + 28) value ≡ write s.file a (hd ++ value) =
      rw (write-append s.file a hd value, l) in
    (
      record { file = write s.file a (hd ++ value); free = free },
      rw (x, l, e, one, hl, q, memcpy_all value, two, whole),
      get-stored s.file now value o v near room free,
      (let (f, g, _, _, r, u) = import_binary-stored s.file now value o v near room in
          (f, g, r, u)),
      λ x f. write_outside s.file a (hd ++ value) x (elim f [
        | inl before ↦ inl before
        | inr behind ↦ inr (omega (arith, l, length-append hd value))
      ]),
    )
