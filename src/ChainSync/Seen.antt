-- ===== src/ChainSync/Seen.antt =====
-- That BDFilter hands out one control block for a block, bd_filter.cpp.
use miya_core.Base.{
  if◌then◌else◌, Option-cases, inr, arith, inl, Bool-cases, ℕ, ◌≡◌, refl, sym, ap, ◌∙◌, Bool, false,
  none, some, List, [], ◌∷◌, ◌++◌, length,
}
use miya_core.Base.Bytes.{memcpy_exact, memcpy}
use miya_core.Base.Fallible.{◌>>=◌}
use miya_core.Transaction.OpenSsl.{OpenSsl}
use miya_core.Block.Header.{export_header, BlockHeader, header_hash}
use miya_core.ChainSync.Pool.{find_key, insert_key, insert_missing, same_key, key_of}
use miya_core.ChainSync.Twice.{same_key_self}
use miya_core.ChainSync.Filter.{
  of_block_hash, of_block_header, BdFilter, Bdbcb, filter_new, filter_found, filter_hash,
  filter_header,
}

find_key-snoc :
    {V : Type 0} (pool : List (List ℕ × V)) (k : List ℕ) (v : V)
    → find_key pool k ≡ none
    → find_key (pool ++ (k, v) ∷ []) k ≡ some v
unfolding find_key
find_key-snoc [] k v h = rw (same_key_self k) refl
find_key-snoc ((j, w) ∷ pool) k v h = elim (Bool-cases (same_key j k)) [
  | inl e ↦ absurd (ground arith)
  | inr e ↦
      rw (e, find_key-snoc pool k v (ap (λ b. if b then some w else find_key pool k) (sym e) ∙ h))
        refl
]

-- A key stands for the value put in for it where it had none.
find_key-insert_key :
    {V : Type 0} (pool : List (List ℕ × V)) (k : List ℕ) (v : V)
    → find_key pool k ≡ none
    → find_key (insert_key pool k v) k ≡ some v
unfolding insert_key insert_missing
find_key-insert_key pool k v h = rw h (find_key-snoc pool k v h)

-- An open filter, by the key and what the map has for it.
filter_new-open :
    (f : BdFilter) (hash key : List ℕ) (new : Bdbcb) (is_reject : Bool)
    → f.is_close ≡ false
    → memcpy 32 hash ≡ some key
    → filter_new f hash new is_reject
      ≡ some (filter_found f key new is_reject (find_key f.filter_map key))
unfolding filter_new key_of
filter_new-open f hash key new is_reject c e =
    ap
      (λ b.
        if b
        then some (none, f)
        else (memcpy 32 hash >>= λ k.
            some (filter_found f k new is_reject (find_key f.filter_map k))))
      c
    ∙ ap (λ m. m >>= λ k. some (filter_found f k new is_reject (find_key f.filter_map k))) e

-- With an element for the key, filter gives it and changes nothing.
filter_new-found :
    (f : BdFilter) (hash key : List ℕ) (new : Bdbcb) (is_reject : Bool) (b : ℕ)
    → f.is_close ≡ false
    → memcpy 32 hash ≡ some key
    → find_key f.filter_map key ≡ some b
    → filter_new f hash new is_reject ≡ some (some b, f)
unfolding filter_found
filter_new-found f hash key new is_reject b c e h =
    filter_new-open f hash key new is_reject c e
    ∙ ap (λ o. some (filter_found f key new is_reject o)) h

-- A filter with an element for the key of a hash.
record Has (f : BdFilter) (key : List ℕ) (b : ℕ) : Type 0 where
  is_open : f.is_close ≡ false
  has : find_key f.filter_map key ≡ some b

-- Whether the filter has one or not, there is one afterwards, and it is what filter gives.
filter_new-Has :
    (f : BdFilter) (hash key : List ℕ) (new : Bdbcb)
    → f.is_close ≡ false
    → memcpy 32 hash ≡ some key
    → (b : ℕ) × (f' : BdFilter) × (filter_new f hash new false ≡ some (some b, f')) × Has f' key b
unfolding filter_found
filter_new-Has f hash key new c e = elim (Option-cases (find_key f.filter_map key)) [
  | inr (b, h) ↦
      (b, f, filter_new-found f hash key new false b c e h, record { is_open = c; has = h })
  | inl h ↦ (
    length f.blocks,
    record f {
      filter_map = insert_key f.filter_map key (length f.blocks);
      blocks = f.blocks ++ new ∷ [];
    },
    filter_new-open f hash key new false c e ∙ ap (λ o. some (filter_found f key new false o)) h,
    record { is_open = c; has = find_key-insert_key f.filter_map key (length f.blocks) h },
  )
]

-- Where SHA-256 yields 32 bytes, an open filter gives a control block for a header, new or not,
-- and afterwards gives that control block for the hash of the header and for the header, with or
-- without rejection, and does not change.
pub filter_hash-filter_header :
    (l : OpenSsl) (f : BdFilter) (h : BlockHeader)
    → ((bs : List ℕ) → length (l.sha256 bs) ≡ 32)
    → f.is_close ≡ false
    → (b : ℕ) × (f' : BdFilter) × (filter_header l f h false ≡ some (some b, f'))
      × ((is_reject : Bool) → filter_hash f' (header_hash l h) is_reject ≡ some (some b, f'))
      × ((is_reject : Bool) → filter_header l f' h is_reject ≡ some (some b, f'))
unfolding filter_header filter_hash header_hash
filter_hash-filter_header l f h s c =
    let hash = header_hash l h in
    let e : memcpy 32 hash ≡ some hash = memcpy_exact 32 hash (sym (s (export_header h))) in
    let (b, f', q, v) = filter_new-Has f hash hash (of_block_header l h) c e in
    (
      b,
      f',
      q,
      λ is_reject. filter_new-found f' hash hash (of_block_hash hash) is_reject b v.is_open e v.has,
      λ is_reject.
          filter_new-found f' hash hash (of_block_header l h) is_reject b v.is_open e v.has,
    )
