-- ===== src/Script.antt =====
-- chain/transaction/script/script.h and script.cpp: a script is a list of operations, each with
-- its data, and its raw form is the bytes that a transaction carries.
pub mod RoundTrip
pub mod Parse
pub mod Size
pub mod Validator
pub mod Within
pub mod P2pkh
mod Tests
use miya_core.Base.{
  ℕ, zero, suc, ◌+◌, ◌%◌, ◌^◌, Option, none, some, List, [], ◌∷◌, ◌++◌, length, drop, ltb, ◌==◌,
  if◌then◌else◌,
}
use miya_core.Base.Bytes.{memcpy}
use miya_core.Base.Fallible.{◌>>=◌}

pub data OpCode : Type 0 where
  common dup hash_160 equalverify checksig : OpCode
  op_data : ℕ → OpCode

-- A null pointer, or a buffer.
abbrev pub Data : Type 0
Data = Option (List ℕ)

abbrev pub Script : Type 0
Script = List (OpCode × Data)

-- void Script::pushBack: only OP_DATA keeps its data
unfoldable pub push_back : Script → OpCode → Data → Script
push_back s (op_data n) d = s ++ (op_data n, d) ∷ []
push_back s op d = s ++ (op, none) ∷ []

-- unsigned int Script::OP_DATALength( OP_CODES opcode )
abbrev pub op_data_length : OpCode → ℕ
op_data_length (op_data n) = n
op_data_length op = 0

-- OP_CODES Script::parseRawOPCode
unfoldable pub parse_raw_op_code : ℕ → OpCode
parse_raw_op_code b =
    if b == 0x76
    then dup
    else if b == 0xa9
    then hash_160
    else if b == 0x88
    then equalverify
    else if b == 0xac
    then checksig
    else op_data b

-- unsigned char Script::rawOPCode
unfoldable pub raw_op_code : OpCode → ℕ
raw_op_code dup = 0x76
raw_op_code hash_160 = 0xa9
raw_op_code equalverify = 0x88
raw_op_code checksig = 0xac
raw_op_code (op_data n) = n
raw_op_code common = 0

-- unsigned short Script::exportScriptContentSize
unfoldable pub export_script_content_size : OpCode → ℕ
export_script_content_size (op_data n) = n + 1
export_script_content_size op = 1

-- unsigned int Script::exportRawSize, the size of the buffer that exportRaw allocates
unfoldable pub export_raw_size : Script → ℕ
export_raw_size [] = 0
export_raw_size ((op, d) ∷ s) = (export_script_content_size op + export_raw_size s) % 2 ^ 32

-- The bytes of a buffer; through a null pointer only a copy of no bytes is defined.
abbrev pub bytes_of : Data → List ℕ
bytes_of none = []
bytes_of (some bs) = bs

-- The loop of Script::exportRaw: the bytes written, `none` where a copy leaves its buffer.
unfoldable pub export_raw : Script → Option (List ℕ)
unfolding raw_op_code
export_raw [] = some []
export_raw ((op, d) ∷ s) = do
  content ← memcpy (op_data_length op) (bytes_of d)
  rest ← export_raw s
  some (raw_op_code op ∷ (content ++ rest))

-- The body of the loop of Script::importRaw behind the operation's byte, where `loop` runs over
-- the bytes behind it; `none` is a read past the end.
abbrev pub import_round :
    (Script → List ℕ → Option Script) → Script → OpCode → List ℕ → Option Script
import_round loop s op rest =
    if ltb 0 (op_data_length op)
    then (memcpy (op_data_length op) rest >>= λ content.
        loop (push_back s op (some content)) (drop (op_data_length op) rest))
    else loop (push_back s op none) rest

-- The loop of Script::importRaw over the bytes left. One round takes at least one byte, so the
-- count of bytes is fuel enough.
unfoldable pub import_loop : ℕ → Script → List ℕ → Option Script
import_loop fuel s [] = some s
import_loop zero s (b ∷ rest) = none
import_loop (suc fuel) s (b ∷ rest) = import_round (import_loop fuel) s (parse_raw_op_code b) rest

-- int Script::importRaw: it appends to what the script holds
unfoldable pub import_raw : Script → List ℕ → Option Script
unfolding import_loop parse_raw_op_code push_back
import_raw s raw = import_loop (length raw) s raw
