-- ===== src/Script/Validator.antt =====
-- chain/transaction/script/script_validator.cpp and the operations of script.cpp: a stack machine
-- over the signature script joined with the public key script. The head of a stack is the back of
-- the vector. OpenSSL is a parameter: `sha1` is what hash::SHAHash( .., "sha1" ) yields, `to_pkey`
-- what cipher::ECDSAManager::toPkey reads from a raw key, and `verify` what
-- cipher::ECDSAManager::verify( sign, message, key, "sha256" ) answers.
use Prim.Native.Nat.{Ordering}
use miya_core.Base.{
  ℕ, ◌%◌, ◌^◌, Bool, true, false, Option, none, some, List, [], ◌∷◌, ◌++◌, if◌then◌else◌,
}
use miya_core.Base.Bytes.{memcmp, memcpy}
use miya_core.Base.Fallible.{◌>>=◌}
use miya_core.Script.{
  OpCode, common, dup, hash_160, equalverify, checksig, op_data, Data, Script, bytes_of,
  op_data_length,
}

pub record Crypto : Type 1 where
  pub Key : Type 0
  pub sha1 : List ℕ → List ℕ
  pub to_pkey : List ℕ → Key
  pub verify : List ℕ → List ℕ → Key → Bool

-- ValidationStack::popBack on an empty vector, and a copy past a buffer, have no defined result.
abbrev pub Stack : Type 0
Stack = List (OpCode × Data)

abbrev pub pop_back : Stack → Option ((OpCode × Data) × Stack)
pop_back [] = none
pop_back (e ∷ s) = some (e, s)

-- The bytes that an element of the stack stands for.
abbrev pub content : OpCode × Data → Option (List ℕ)
content (op, d) = memcpy (op_data_length op) (bytes_of d)

abbrev pub is_eq : Ordering → Bool
is_eq Ordering.eq = true
is_eq o = false

-- Whether an operation went well, and the stack that it leaves.
abbrev pub Outcome : Type 0
Outcome = Option (Bool × Stack)

-- bool OP_DUP::exe
unfoldable pub exe_dup : Stack → Outcome
exe_dup s = do (e, s') ← pop_back s; some (true, e ∷ e ∷ s')

-- bool OP_DATA::exe, with the data that verifyP2PKHScript puts in the options; the length passes
-- through an unsigned char
unfoldable pub exe_data : ℕ → Data → Stack → Outcome
exe_data n d s = some (true, (op_data (n % 2 ^ 8), d) ∷ s)

-- bool OP_EQUALVERIFY::exe: the first element popped gives the length compared
unfoldable pub exe_equalverify : Stack → Outcome
exe_equalverify s = do
  (e1, s1) ← pop_back s
  (e2, s2) ← pop_back s1
  a ← memcpy (op_data_length e1.0) (bytes_of e1.1)
  b ← memcpy (op_data_length e1.0) (bytes_of e2.1)
  some (is_eq (memcmp a b), s2)

module _ (c : Crypto) where
  open c use {sha1, to_pkey, verify}

  -- bool OP_HASH_160::exe
  unfoldable pub exe_hash_160 : Stack → Outcome
  exe_hash_160 s = do
    (e, s') ← pop_back s
    bytes ← content e
    some (true, (op_data 0x14, some (sha1 bytes)) ∷ s')

  -- bool OP_CHECKSIG::exe
  unfoldable pub exe_checksig : List ℕ → Stack → Outcome
  exe_checksig tx_hash s = do
    (e1, s1) ← pop_back s
    (e2, s2) ← pop_back s1
    key ← content e1
    sign ← content e2
    some (verify sign tx_hash (to_pkey key), s2)

  -- The body of the loop of verifyP2PKHScript; an operation that is not defined is skipped.
  unfoldable pub execute : List ℕ → OpCode × Data → Stack → Outcome
  unfolding exe_dup exe_data exe_equalverify exe_hash_160 exe_checksig
  execute tx_hash (common, d) s = some (true, s)
  execute tx_hash (dup, d) s = exe_dup s
  execute tx_hash (hash_160, d) s = exe_hash_160 s
  execute tx_hash (equalverify, d) s = exe_equalverify s
  execute tx_hash (checksig, d) s = exe_checksig tx_hash s
  execute tx_hash (op_data n, d) s = exe_data n d s

  -- The loop: the first operation that fails ends it.
  unfoldable pub run : List ℕ → Script → Stack → Option Bool
  unfolding execute
  run tx_hash [] s = some true
  run tx_hash (e ∷ script) s = execute tx_hash e s >>= λ (ok, s').
      (let rest = run tx_hash script s' in if ok then rest else some false)

  -- bool ScriptValidator::verifyP2PKHScript of ScriptValidator( pkScript , signatureScript )
  unfoldable pub verify_p2pkh_script : Script → Script → List ℕ → Option Bool
  unfolding run
  verify_p2pkh_script pk_script signature_script tx_hash =
      run tx_hash (signature_script ++ pk_script) []
