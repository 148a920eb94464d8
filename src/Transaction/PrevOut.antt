-- ===== src/Transaction/PrevOut.antt =====
-- chain/transaction/tx/prev_out.cpp: the output that an input spends. The members are held as the
-- bytes in memory, the index in network order.
use miya_core.Base.{ℕ, ◌%◌, ◌^◌, Option, none, some, List, ◌++◌, drop, replicate}
use miya_core.Base.Bytes.{memcpy}
use miya_core.Base.Endian.{be32, of_be}
use miya_core.Base.Fallible.{◌>>=◌}
use miya_core.Script.{Data}

pub record PrevOut : Type 0 where
  pub tx_id : List ℕ
  pub index : List ℕ

-- prev_out::prev_out()
abbrev pub new_prev_out : PrevOut
new_prev_out = record { tx_id = replicate 32 0; index = replicate 4 255 }

-- void prev_out::txID( std::shared_ptr<unsigned char> target )
unfoldable pub set_tx_id : PrevOut → Data → PrevOut
set_tx_id p none = record p { tx_id = replicate 32 0 }
set_tx_id p (some target) = record p { tx_id = target }

-- void prev_out::txID( const unsigned char *target )
unfoldable pub copy_tx_id : PrevOut → Data → Option PrevOut
copy_tx_id p none = some (record p { tx_id = replicate 32 0 })
copy_tx_id p (some target) = memcpy 32 target >>= λ id. some (record p { tx_id = id })

-- unsigned short prev_out::index()
unfoldable pub index_of : PrevOut → ℕ
index_of p = of_be p.index % 2 ^ 16

-- void prev_out::index( uint32_t target )
unfoldable pub set_index : PrevOut → ℕ → PrevOut
set_index p target = record p { index = be32 target }

-- unsigned int prev_out::exportRaw
unfoldable pub export_prev_out : PrevOut → Option (List ℕ)
export_prev_out p = memcpy 32 p.tx_id >>= λ id. some (id ++ p.index)

-- int prev_out::importRaw: the object, and the count of bytes read
unfoldable pub import_prev_out : PrevOut → List ℕ → Option (PrevOut × ℕ)
import_prev_out p raw = do
  id ← memcpy 32 raw
  i ← memcpy 4 (drop 32 raw)
  some (record p { tx_id = id; index = i }, 36)
