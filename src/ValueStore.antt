-- ===== src/ValueStore.antt =====
-- miya_db/strage_manager/MMyISAM/components/value_store_manager/value_store_manager.h and .cpp: a
-- value stands in the data file behind the header of its fragment, in room that the allocator
-- finds by the free list file. A log line is left out, the time is an argument, and the moves of
-- the safe mode are not modelled.
mod Laws
mod Tests
use miya_core.Base.Bytes.{memcpy}
use miya_core.Base.{ℕ, ◌+◌, ◌%◌, ◌^◌, Option, none, some, List, ◌++◌, length}
use miya_core.Base.Endian.{of_le, le16, le64}
use miya_core.Base.Fallible.{◌>>=◌}
use miya_core.Optr.{Optr, set_addr, optr_add}
use miya_core.Memory.{Bytes, copy_out, copy_in}
use miya_core.Allocator.Block.{of_bytes}
use miya_core.Allocator.Ops.{allocate}

pub record ValueFragmentHeader : Type 0 where
  pub header_length : ℕ
  pub prev_flagment : Optr
  pub next_flagment : Optr
  pub value_length : ℕ
  pub timestamp : ℕ

-- DEFAULT_VALUE_FLAGMENT_HEADER_SIZE
abbrev pub header_size : ℕ
header_size = 28

-- ValueFragmentHeader::ValueFragmentHeader at a time, with what the memory of the length holds
unfoldable pub new_fragment_header : ℕ → ℕ → ValueFragmentHeader
new_fragment_header memory now = record {
  header_length = memory;
  prev_flagment = set_addr 0;
  next_flagment = set_addr 0;
  value_length = 0;
  timestamp = now % 2 ^ 64;
}

-- void ValueFragmentHeader::valueLength( size_t valueLength )
unfoldable pub set_value_length : ValueFragmentHeader → ℕ → ValueFragmentHeader
set_value_length h n = record h { value_length = n % 2 ^ 64 }

-- A copy of n bytes out of the file from a place behind a pointer.
abbrev pub bytes_at : Bytes → Optr → ℕ → ℕ → Option (List ℕ)
bytes_at m o at n = optr_add o at >>= λ p. copy_out m p 0 n

-- An address of five bytes.
abbrev pub optr_of : List ℕ → Option Optr
optr_of bs = of_bytes bs (λ _. 0) >>= λ (o, _). some o

-- void ValueFragmentHeader::importBinary
unfoldable pub import_binary : Bytes → Optr → Option ValueFragmentHeader
import_binary m start = do
  header_length ← copy_out m start 0 2
  prev ← bytes_at m start 2 5
  next ← bytes_at m start 7 5
  value_length ← bytes_at m start 12 8
  timestamp ← bytes_at m start 20 8
  p ← optr_of prev
  n ← optr_of next
  some (record {
    header_length = of_le header_length;
    prev_flagment = p;
    next_flagment = n;
    value_length = of_le value_length;
    timestamp = of_le timestamp;
  })

-- size_t ValueFragmentHeader::exportBianry: the object and its bytes. The copies for the
-- neighbours read what the file has where their pointers point.
unfoldable pub export_binary : Bytes → ValueFragmentHeader → Option (ValueFragmentHeader × List ℕ)
export_binary m h = do
  prev ← copy_out m h.prev_flagment 0 5
  next ← copy_out m h.next_flagment 0 5
  some (
    record h { header_length = header_size },
    le16 header_size ++ (prev ++ (next ++ (le64 h.value_length ++ le64 h.timestamp))),
  )

-- The data file, and the free list file of its memory manager.
pub record Store : Type 0 where
  pub file : Bytes
  pub free : Bytes

-- std::shared_ptr<optr> ValueStoreManager::add, with fuel for the walk along the free blocks
unfoldable pub add : ℕ → ℕ → ℕ → Store → List ℕ → ℕ → Option (Optr × Store)
unfolding export_binary new_fragment_header set_value_length
add fuel memory now s value value_length = do
  (h, raw) ← export_binary s.file (set_value_length (new_fragment_header memory now) value_length)
  (o, free) ← allocate fuel (length raw + value_length) s.free
  file ← copy_in s.file o 0 raw
  behind ← optr_add o h.header_length
  copied ← memcpy value_length value
  file' ← copy_in file behind 0 copied
  some (o, record { file = file'; free = free })

-- size_t ValueStoreManager::get: the value
unfoldable pub get : Store → Optr → Option (List ℕ)
unfolding import_binary
get s target = do
  h ← import_binary s.file target
  behind ← optr_add target h.header_length
  copy_out s.file behind 0 h.value_length
