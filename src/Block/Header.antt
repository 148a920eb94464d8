-- ===== src/Block/Header.antt =====
-- chain/block/block_header.h and block_header.cpp, BlockHeader, and the mask and the comparison of
-- chain/mining/simple_mining.cpp that its verification calls. The memory of a header is that of a
-- little-endian host, without padding.
use miya_core.Base.{
  get_elem?, ℕ, zero, suc, ◌+◌, ◌-◌, ◌%◌, ◌^◌, Bool, true, false, Option, none, some, List, [], ◌∷◌,
  ◌++◌, drop, leb, ltb, ◌==◌, if◌then◌else◌, replicate, set,
}
use miya_core.Base.Bytes.{memcpy, memcmp}
use miya_core.Base.Endian.{be32, le32, of_le}
use miya_core.Base.Fallible.{◌>>=◌}
use miya_core.Script.{Data}
use miya_core.Script.Validator.{is_eq}
use miya_core.Transaction.OpenSsl.{OpenSsl}

pub record BlockHeader : Type 0 where
  pub version : ℕ
  pub previous_block_header_hash : List ℕ
  pub merkle_root : List ℕ
  pub time : ℕ
  pub n_bits : ℕ
  pub nonce : ℕ

-- BlockHeader::BlockHeader() at a time, with what the memory of the Merkle root holds
unfoldable pub new_header : List ℕ → ℕ → BlockHeader
new_header memory now = record {
  version = 0;
  previous_block_header_hash = replicate 32 0;
  merkle_root = memory;
  time = now % 2 ^ 32;
  n_bits = 0;
  nonce = 0;
}

-- void BlockHeader::merkleRoot
unfoldable pub set_merkle_root : BlockHeader → List ℕ → Option BlockHeader
set_merkle_root h target = memcpy 32 target >>= λ root. some (record h { merkle_root = root })

-- void BlockHeader::prevBlockHash( target )
unfoldable pub set_prev_block_hash : BlockHeader → Data → Option BlockHeader
set_prev_block_hash h none = some (record h { previous_block_header_hash = replicate 32 0 })
set_prev_block_hash h (some target) =
    memcpy 32 target >>= λ hash. some (record h { previous_block_header_hash = hash })

-- std::shared_ptr<unsigned char> BlockHeader::prevBlockHash(): null for zeros
unfoldable pub prev_block_hash : BlockHeader → Data
prev_block_hash h =
    if is_eq (memcmp h.previous_block_header_hash (replicate 32 0))
    then none
    else some h.previous_block_header_hash

-- unsigned int BlockHeader::exportRaw
unfoldable pub export_header : BlockHeader → List ℕ
export_header h =
    le32 h.version
    ++ (h.previous_block_header_hash
        ++ (h.merkle_root ++ (le32 h.time ++ (le32 h.n_bits ++ le32 h.nonce))))

-- size_t BlockHeader::importRawSequentially
unfoldable pub import_header : List ℕ → Option (BlockHeader × ℕ)
import_header raw = do
  version ← memcpy 4 raw
  prev ← memcpy 32 (drop 4 raw)
  root ← memcpy 32 (drop 36 raw)
  time ← memcpy 4 (drop 68 raw)
  n_bits ← memcpy 4 (drop 72 raw)
  nonce ← memcpy 4 (drop 76 raw)
  some (
    record {
      version = of_le version;
      previous_block_header_hash = prev;
      merkle_root = root;
      time = of_le time;
      n_bits = of_le n_bits;
      nonce = of_le nonce;
    },
    80,
  )

-- static_cast<unsigned short>(exponent) - 3 in an unsigned short
abbrev pub mask_shift : ℕ → ℕ
mask_shift exponent = (exponent + 65536 - 3) % 65536

-- std::array<uint8_t,32> generatenBitMask: an index outside the array has no defined result
unfoldable pub generaten_bit_mask : ℕ → Option (List ℕ)
generaten_bit_mask n_bits = do
  exponent ← get_elem? (be32 n_bits) 0
  a ← get_elem? (be32 n_bits) 1
  b ← get_elem? (be32 n_bits) 2
  c ← get_elem? (be32 n_bits) 3
  let shift = mask_shift exponent
  (if leb shift 29
      then some (set (set (set (replicate 32 0) (29 - shift) a) (30 - shift) b) (31 - shift) c)
      else none)

-- The loop of mbitcmp from a place on, with the places left.
unfoldable pub mbitcmp_loop : ℕ → List ℕ → List ℕ → Option Bool
mbitcmp_loop zero mask hash = some true
mbitcmp_loop (suc n) [] hash = none
mbitcmp_loop (suc n) (m ∷ mask) [] = none
mbitcmp_loop (suc n) (m ∷ mask) (h ∷ hash) =
    let rest = mbitcmp_loop n mask hash in
    if ltb m h then some false else if m == h then rest else some true

-- bool mbitcmp( unsigned char* rawNBitMask , unsigned char* hash )
unfoldable pub mbitcmp : List ℕ → List ℕ → Option Bool
unfolding mbitcmp_loop
mbitcmp mask hash = mbitcmp_loop 32 mask hash

-- size_t BlockHeader::headerHash
unfoldable pub header_hash : OpenSsl → BlockHeader → List ℕ
unfolding export_header
header_hash l h = l.sha256 (export_header h)

-- bool BlockHeader::verify()
unfoldable pub verify_header : OpenSsl → BlockHeader → Option Bool
unfolding generaten_bit_mask export_header mbitcmp
verify_header l h =
    generaten_bit_mask h.n_bits >>= λ mask. mbitcmp mask (l.sha256 (export_header h))

-- bool BlockHeader::compare
unfoldable pub compare_header : OpenSsl → BlockHeader → List ℕ → Option Bool
compare_header l h target = do
  a ← memcpy 32 (header_hash l h)
  b ← memcpy 32 target
  some (is_eq (memcmp a b))

-- bool BlockHeader::cmpMerkleRoot
unfoldable pub cmp_merkle_root : BlockHeader → Data → Option Bool
cmp_merkle_root h target =
    target >>= λ bs. memcpy 32 bs >>= λ root. some (is_eq (memcmp h.merkle_root root))

-- bool BlockHeader::cmpPrevBlockHash
unfoldable pub cmp_prev_block_hash : BlockHeader → Data → Option Bool
cmp_prev_block_hash h target = target >>= λ bs.
    memcpy 32 bs >>= λ hash. some (is_eq (memcmp h.previous_block_header_hash hash))
