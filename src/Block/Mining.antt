-- ===== src/Block/Mining.antt =====
-- chain/mining/simple_mining.cpp: the search for a nonce, and that the header it is found for
-- verifies.
use miya_core.Base.{
  ℕ, zero, suc, ◌+◌, ◌-◌, ◌%◌, ◌^◌, Option, none, some, List, ◌++◌, length, take, if◌then◌else◌,
}
use miya_core.Base.Endian.{le32}
use miya_core.Base.Fallible.{◌>>=◌}
use miya_core.Transaction.OpenSsl.{OpenSsl}
use miya_core.Block.Header.{BlockHeader, export_header, generaten_bit_mask, mbitcmp}

-- memcpy of a candidate into the last four bytes of the raw header
unfoldable pub put_nonce : List ℕ → ℕ → List ℕ
put_nonce raw nonce = take (length raw - 4) raw ++ le32 nonce

module _ (l : OpenSsl) where
  -- The loop of simpleMining; without fuel it is not at its end.
  unfoldable pub mining_loop : ℕ → List ℕ → List ℕ → ℕ → Option ℕ
  unfolding put_nonce
  mining_loop zero mask raw candidate = none
  mining_loop (suc fuel) mask raw candidate =
      let more = mining_loop fuel mask raw ((candidate + 1) % 2 ^ 32) in
      mbitcmp mask (l.sha256 (put_nonce raw candidate)) >>= λ found.
      if found then some candidate else more

  -- std::uint32_t simpleMining: the nonce, which the header does not get
  unfoldable pub simple_mining : ℕ → ℕ → BlockHeader → Option ℕ
  unfolding mining_loop
  simple_mining fuel n_bits h = generaten_bit_mask n_bits >>= λ mask.
      mining_loop fuel mask (export_header (record h { n_bits = n_bits })) 0
