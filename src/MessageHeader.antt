-- ===== src/MessageHeader.antt =====
-- ekp2p/network/header/header.h and header.cpp: the header of a message between nodes. The _meta
-- member is held as its bytes, of which the padding of a struct that is not packed makes
-- twenty-two, and an address, kademlia/k_node.h, as its twenty-six.
mod Relays
mod Tests
use miya_core.Base.{
  ℕ, zero, suc, ◌+◌, ◌-◌, ◌*◌, ◌/◌, ◌%◌, ◌^◌, Bool, Option, none, some, List, [], ◌∷◌, ◌++◌, length,
  take, drop, get_or, set, replicate,
}
use miya_core.Base.Bytes.{memcpy, memcmp}
use miya_core.Base.Endian.{of_be, be16}
use miya_core.Base.Fallible.{◌>>=◌}
use miya_core.Script.Validator.{is_eq}

-- sizeof(_meta) and sizeof( struct KNodeAddr )
abbrev pub meta_size : ℕ
meta_size = 22

abbrev pub addr_size : ℕ
addr_size = 26

abbrev pub miya : List ℕ
miya = b'M' ∷ b'I' ∷ b'Y' ∷ b'A' ∷ []

abbrev pub Addr : Type 0
Addr = List ℕ

pub record MessageHeader : Type 0 where
  pub meta : List ℕ
  pub source : Option Addr
  pub relays : List Addr

-- EKP2PMessageHeader::EKP2PMessageHeader(), with what the memory of the new address holds
unfoldable pub new_message_header : Addr → MessageHeader
new_message_header memory = record {
  meta = miya ++ (replicate 8 0 ++ 1 ∷ replicate 9 0);
  source = some memory;
  relays = [];
}

-- A member of two bytes, in network order, at its place in _meta.
abbrev pub field : List ℕ → ℕ → ℕ
field meta at = of_be (get_or meta at 0 ∷ get_or meta (at + 1) 0 ∷ [])

abbrev pub set_field : List ℕ → ℕ → ℕ → List ℕ
set_field meta at n = set (set meta at (n / 256 % 256)) (at + 1) (n % 256)

-- size_t headerLength(), unsigned short payloadLength(), rpcType() and protocol()
abbrev pub header_length : MessageHeader → ℕ
header_length h = field h.meta 4

unfoldable pub payload_length : MessageHeader → ℕ
payload_length h = field h.meta 6

unfoldable pub rpc_type : MessageHeader → ℕ
rpc_type h = field h.meta 8

unfoldable pub protocol : MessageHeader → ℕ
protocol h = field h.meta 10

-- void payloadLength( length ), rpcType( type ) and protocol( type )
unfoldable pub set_payload_length : MessageHeader → ℕ → MessageHeader
set_payload_length h n = record h { meta = set_field h.meta 6 n }

unfoldable pub set_rpc_type : MessageHeader → ℕ → MessageHeader
set_rpc_type h n = record h { meta = set_field h.meta 8 n }

unfoldable pub set_protocol : MessageHeader → ℕ → MessageHeader
set_protocol h n = record h { meta = set_field h.meta 10 n }

-- void EKP2PMessageHeader::sourceKNodeAddr( nodeAddr )
unfoldable pub set_source : MessageHeader → Option Addr → MessageHeader
set_source h addr = record h { source = addr }

-- void EKP2PMessageHeader::relayKNodeAddrVector( targetVector ): it adds to what is there
unfoldable pub add_relays : MessageHeader → List Addr → MessageHeader
add_relays h targets = record h { relays = h.relays ++ targets }

-- bool EKP2PMessageHeader::validate()
unfoldable pub validate : MessageHeader → Bool
validate h = is_eq (memcmp (take 4 h.meta) miya)

-- The copies of the relay addresses.
unfoldable pub export_relays : List Addr → Option (List ℕ)
export_relays [] = some []
export_relays (r ∷ rs) = do raw ← memcpy addr_size r; rest ← export_relays rs; some (raw ++ rest)

-- The bytes of the source address, zeros for a null pointer.
unfoldable pub export_source : Option Addr → Option (List ℕ)
export_source none = some (replicate addr_size 0)
export_source (some addr) = memcpy addr_size addr

-- size_t EKP2PMessageHeader::exportRaw
unfoldable pub export_message_header : MessageHeader → Option (MessageHeader × List ℕ)
unfolding export_relays export_source
export_message_header h = do
  let ret_length = (meta_size + addr_size + length h.relays * addr_size) % 2 ^ 32
  let meta = set_field h.meta 4 ret_length
  source ← export_source h.source
  relays ← export_relays h.relays
  some (record h { meta = meta }, meta ++ (source ++ relays))

-- The loop of importRawSequentially over the relay addresses, by the rounds left.
unfoldable pub import_relays : ℕ → List Addr → List ℕ → ℕ → Option (List Addr)
import_relays zero relays raw ptr = some relays
import_relays (suc n) relays raw ptr = do
  addr ← memcpy addr_size (drop ptr raw)
  import_relays n (relays ++ addr ∷ []) raw (ptr + addr_size)

-- (headerLength() - sizeof(_meta) - sizeof( struct KNodeAddr )) / sizeof(struct KNodeAddr), which
-- is unsigned
unfoldable pub relay_count : ℕ → ℕ
relay_count n = (n + 2 ^ 64 - (meta_size + addr_size)) % 2 ^ 64 / addr_size

import_source : Option Addr → List ℕ → Option Addr
import_source none raw = none
import_source (some addr) raw = memcpy addr_size (drop meta_size raw)

-- bool EKP2PMessageHeader::importRawSequentially: the place to read from stays behind _meta when
-- the source address is read
unfoldable pub import_message_header : MessageHeader → List ℕ → Option MessageHeader
unfolding import_source import_relays relay_count
import_message_header h raw = do
  meta ← memcpy meta_size raw
  source ← import_source h.source raw
  relays ← import_relays (relay_count (field meta 4)) h.relays raw meta_size
  some (record { meta = meta; source = some source; relays = relays })
