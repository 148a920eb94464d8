-- ===== src/Script/Within.antt =====
-- Script::importRaw on a buffer that goes on behind the script, as the transactions call it:
-- data that reach behind the stated length are read from what follows.
use miya_core.Script.RoundTrip.{parse-length, IsElement, IsScript, IsLength, encode}
use miya_core.Base.{
  ap, length-append, append_assoc, append-nil, ◌∙◌, ◌≤◌, ◌++◌, true, ◌<◌, false, arith, ◌≡◌, ℕ,
  zero, suc, ◌+◌, Option, none, some, List, [], ◌∷◌, length, drop, ltb, if◌then◌else◌,
}
use miya_core.Base.Bytes.{drop-append, memcpy-append, memcpy}
use miya_core.Base.Fallible.{◌>>=◌}
use miya_core.Script.{
  checksig, equalverify, hash_160, dup, common, op_data, bytes_of, Data, raw_op_code, OpCode,
  Script, push_back, op_data_length, parse_raw_op_code,
}

-- The body of the loop behind the operation's byte, for a `loop` over the index and the bytes.
abbrev pub within_round :
    (ℕ → Script → List ℕ → Option (Script × ℕ)) → ℕ → Script → OpCode → List ℕ → Option (Script × ℕ)
within_round loop i s op rest =
    if ltb 0 (op_data_length op)
    then (memcpy (op_data_length op) rest >>= λ content.
        loop (i + 1 + op_data_length op) (push_back s op (some content))
          (drop (op_data_length op) rest))
    else loop (i + 1) (push_back s op none) rest

-- The loop, with the bytes behind the index i; `none` is a read past the end of the buffer. A
-- round takes at least one byte.
unfoldable pub within_loop : ℕ → ℕ → ℕ → Script → List ℕ → Option (Script × ℕ)
within_loop fuel from_raw_length i s [] = if ltb i from_raw_length then none else some (s, i)
within_loop zero from_raw_length i s (b ∷ rest) =
    if ltb i from_raw_length then none else some (s, i)
within_loop (suc fuel) from_raw_length i s (b ∷ rest) =
    let more = within_round (within_loop fuel from_raw_length) i s (parse_raw_op_code b) rest in
    if ltb i from_raw_length then more else some (s, i)

-- int Script::importRaw( fromRaw , fromRawLength ): the script, and the index behind what it read
unfoldable pub import_within : Script → List ℕ → ℕ → Option (Script × ℕ)
unfolding within_loop parse_raw_op_code push_back
import_within s raw from_raw_length = within_loop (length raw) from_raw_length 0 s raw

within_loop-end :
    (fuel n i : ℕ) (s : Script) (raw : List ℕ)
    → ltb i n ≡ false
    → within_loop fuel n i s raw ≡ some (s, i)
unfolding within_loop
within_loop-end zero n i s [] h = rw h
within_loop-end (suc fuel) n i s [] h = rw h
within_loop-end zero n i s (b ∷ raw) h = rw h
within_loop-end (suc fuel) n i s (b ∷ raw) h = rw h

within_data :
    (fuel n i : ℕ) (acc : Script) (bs rest : List ℕ)
    → IsLength (length bs)
    → 0 < length bs
    → ltb i n ≡ true
    → within_loop (suc fuel) n i acc (length bs ∷ (bs ++ rest))
      ≡ within_loop fuel n (i + 1 + length bs) (acc ++ (op_data (length bs), some bs) ∷ []) rest
unfolding within_loop push_back
within_data fuel n i acc bs rest l p q =
    let t : ltb 0 (length bs) ≡ true = ground arith in
    rw (q, parse-length (length bs) l, t, memcpy-append bs rest, drop-append bs rest)

add-zero : (n : ℕ) → n + 0 ≡ n
add-zero n = omega arith

-- One round of the loop takes one element off the bytes.
within_element :
    (fuel n i : ℕ) (acc : Script) (op : OpCode) (d : Data) (rest : List ℕ)
    → IsElement op d
    → ltb i n ≡ true
    → within_loop (suc fuel) n i acc (raw_op_code op ∷ (bytes_of d ++ rest))
      ≡ within_loop fuel n (i + 1 + length (bytes_of d)) (acc ++ (op, d) ∷ []) rest
unfolding within_loop raw_op_code parse_raw_op_code push_back
within_element fuel n i acc common d rest h q = absurd h
within_element fuel n i acc dup d rest h q = rw (h, q, add-zero (i + 1))
within_element fuel n i acc hash_160 d rest h q = rw (h, q, add-zero (i + 1))
within_element fuel n i acc equalverify d rest h q = rw (h, q, add-zero (i + 1))
within_element fuel n i acc checksig d rest h q = rw (h, q, add-zero (i + 1))
within_element fuel n i acc (op_data zero) d rest h q = rw (h, q, add-zero (i + 1))
within_element fuel n i acc (op_data (suc k)) none rest h q = absurd h
within_element fuel n i acc (op_data (suc k)) (some bs) rest (l, e) q =
    rw (← e) (within_data fuel n i acc bs rest (rw e l) (omega arith) q)

within_loop-encode :
    (fuel n i : ℕ) (acc s : Script) (rest : List ℕ)
    → IsScript s
    → length (encode s ++ rest) ≤ fuel
    → n ≡ i + length (encode s)
    → within_loop fuel n i acc (encode s ++ rest) ≡ some (acc ++ s, n)
unfolding encode
within_loop-encode fuel n i acc [] rest v h e =
    let j : i ≡ n = omega arith in
    within_loop-end fuel n i acc rest (ground arith) ∙ rw (append-nil acc, j)
within_loop-encode zero n i acc ((op, d) ∷ s) rest v h e = absurd (omega arith)
within_loop-encode (suc fuel) n i acc ((op, d) ∷ s) rest v h e =
    let a = append_assoc (bytes_of d) (encode s) rest in
    let k = length-append (bytes_of d) (encode s) in
    rw a (
      within_element fuel n i acc op d (encode s ++ rest) v.0 (ground (arith, k))
      ∙ within_loop-encode fuel n (i + 1 + length (bytes_of d)) (acc ++ (op, d) ∷ []) s rest v.1
          (omega (arith, ap length a, length-append (bytes_of d) (encode s ++ rest)))
          (omega (arith, k))
      ∙ ap (λ s. some (s, n)) (append_assoc acc ((op, d) ∷ []) s))

-- A script is read back in front of whatever follows it.
pub import_within-encode :
    (s : Script) (rest : List ℕ)
    → IsScript s
    → import_within [] (encode s ++ rest) (length (encode s)) ≡ some (s, length (encode s))
unfolding import_within
import_within-encode s rest v =
    within_loop-encode (length (encode s ++ rest)) (length (encode s)) 0 [] s rest v (omega arith)
      (omega arith)
