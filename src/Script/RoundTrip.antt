-- ===== src/Script/RoundTrip.antt =====
-- Script::exportRaw and Script::importRaw are inverse to one another.
use miya_core.Base.{
  ℕ, zero, suc, ◌≤◌, ◌<◌, ◌≡◌, refl, ◌≢◌, ◌∙◌, ap, true, none, some, List, [], ◌∷◌, ◌++◌,
  append_assoc, append-nil, arith, length, length-append, ltb,
}
use miya_core.Base.Bytes.{drop-append, memcpy, memcpy_all, memcpy-append}
use miya_core.Script.{
  OpCode, common, dup, hash_160, equalverify, checksig, op_data, Data, Script, push_back, bytes_of,
  parse_raw_op_code, raw_op_code, export_raw, import_loop, import_raw,
}

-- A byte that stands for the length of data, and for no operation.
abbrev pub IsLength : ℕ → Type 0
IsLength n = (n ≢ 0x76) × (n ≢ 0xa9) × (n ≢ 0x88) × (n ≢ 0xac)

-- What importRaw makes of bytes: data of the stated length, none where the length is 0.
abbrev pub IsElement : OpCode → Data → Type 0
IsElement common d = ⊥
IsElement (op_data zero) d = d ≡ none
IsElement (op_data (suc n)) none = ⊥
IsElement (op_data (suc n)) (some bs) = IsLength (suc n) × (length bs ≡ suc n)
IsElement op d = d ≡ none

abbrev pub IsScript : Script → Type 0
IsScript [] = Unit
IsScript ((op, d) ∷ s) = IsElement op d × IsScript s

pub push_back-append :
    (s : Script) (op : OpCode) (d : Data) → IsElement op d → push_back s op d ≡ s ++ (op, d) ∷ []
unfolding push_back
push_back-append s common d h = absurd h
push_back-append s dup d h = rw h
push_back-append s hash_160 d h = rw h
push_back-append s equalverify d h = rw h
push_back-append s checksig d h = rw h
push_back-append s (op_data n) d h = refl

-- The raw form of a script whose data have the stated lengths.
unfoldable pub encode : Script → List ℕ
unfolding raw_op_code
encode [] = []
encode ((op, d) ∷ s) = raw_op_code op ∷ (bytes_of d ++ encode s)

module _ (s : Script) (rest : export_raw s ≡ some (encode s)) where
  export_element :
      (op : OpCode) (d : Data)
      → IsElement op d
      → export_raw ((op, d) ∷ s) ≡ some (encode ((op, d) ∷ s))
  unfolding export_raw encode memcpy
  export_element common d h = absurd h
  export_element dup d h = rw (h, rest)
  export_element hash_160 d h = rw (h, rest)
  export_element equalverify d h = rw (h, rest)
  export_element checksig d h = rw (h, rest)
  export_element (op_data zero) d h = rw (h, rest)
  export_element (op_data (suc n)) none h = absurd h
  export_element (op_data (suc n)) (some bs) (l, e) = rw (← e, memcpy_all bs, rest)

pub export_raw-encode : (s : Script) → IsScript s → export_raw s ≡ some (encode s)
unfolding export_raw encode
export_raw-encode [] v = refl
export_raw-encode ((op, d) ∷ s) v = export_element s (export_raw-encode s v.1) op d v.0

pub parse-length : (n : ℕ) → IsLength n → parse_raw_op_code n ≡ op_data n
unfolding parse_raw_op_code
parse-length n h = ground arith

import_data :
    (fuel : ℕ) (acc : Script) (bs rest : List ℕ)
    → IsLength (length bs)
    → 0 < length bs
    → import_loop (suc fuel) acc (length bs ∷ (bs ++ rest))
      ≡ import_loop fuel (acc ++ (op_data (length bs), some bs) ∷ []) rest
unfolding import_loop push_back
import_data fuel acc bs rest l p =
    let t : ltb 0 (length bs) ≡ true = ground arith in
    rw (parse-length (length bs) l, t, memcpy-append bs rest, drop-append bs rest)

-- One round of the loop takes one element off the bytes.
import_element :
    (fuel : ℕ) (acc : Script) (op : OpCode) (d : Data) (rest : List ℕ)
    → IsElement op d
    → import_loop (suc fuel) acc (raw_op_code op ∷ (bytes_of d ++ rest))
      ≡ import_loop fuel (acc ++ (op, d) ∷ []) rest
unfolding import_loop raw_op_code parse_raw_op_code push_back
import_element fuel acc common d rest h = absurd h
import_element fuel acc dup d rest h = rw h
import_element fuel acc hash_160 d rest h = rw h
import_element fuel acc equalverify d rest h = rw h
import_element fuel acc checksig d rest h = rw h
import_element fuel acc (op_data zero) d rest h = rw h
import_element fuel acc (op_data (suc n)) none rest h = absurd h
import_element fuel acc (op_data (suc n)) (some bs) rest (l, e) =
    rw (← e) (import_data fuel acc bs rest (rw e l) (omega arith))

pub import_loop-nil : (fuel : ℕ) (acc : Script) → import_loop fuel acc [] ≡ some acc
unfolding import_loop
import_loop-nil zero acc = refl
import_loop-nil (suc fuel) acc = refl

import_loop-encode :
    (fuel : ℕ) (acc s : Script)
    → IsScript s
    → length (encode s) ≤ fuel
    → import_loop fuel acc (encode s) ≡ some (acc ++ s)
unfolding encode
import_loop-encode fuel acc [] v h = rw (import_loop-nil fuel acc, append-nil acc)
import_loop-encode zero acc ((op, d) ∷ s) v h = absurd (omega arith)
import_loop-encode (suc fuel) acc ((op, d) ∷ s) v h =
    import_element fuel acc op d (encode s) v.0
    ∙ import_loop-encode fuel (acc ++ (op, d) ∷ []) s v.1
        (omega (arith, length-append (bytes_of d) (encode s)))
    ∙ ap some (append_assoc acc ((op, d) ∷ []) s)

pub import_raw-encode : (s : Script) → IsScript s → import_raw [] (encode s) ≡ some s
unfolding import_raw
import_raw-encode s v = import_loop-encode (length (encode s)) [] s v (omega arith)

pub import_raw-export_raw :
    (s : Script)
    → IsScript s
    → (raw : List ℕ) × (export_raw s ≡ some raw) × (import_raw [] raw ≡ some s)
import_raw-export_raw s v = (encode s, export_raw-encode s v, import_raw-encode s v)
