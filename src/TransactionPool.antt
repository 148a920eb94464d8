-- ===== src/TransactionPool.antt =====
-- chain/transaction_pool/: transactions by id. A control block (txcb.h) is linked in a ring in a
-- bucket (txcb_bucket.cpp, Bucket), and tables branch on the half-bytes of the id
-- (txcb_table.cpp and transaction_pool.cpp, Table). Control blocks live in a store, by pointer.
pub mod Bucket
pub mod Ring
pub mod Table
mod Scaling
mod Tests
use miya_core.Base.{ℕ, Option, none, some, List, ◌==◌, if◌then◌else◌}

-- TxCB: the links and the id that operations read
pub record TxCb : Type 0 where
  pub tx_id : List ℕ
  pub prev : Option ℕ
  pub next : Option ℕ

abbrev pub Store : Type 0
Store = ℕ → TxCb

-- TxCB::prev( target ) and TxCB::next( target )
unfoldable pub set_prev : Store → ℕ → ℕ → Store
set_prev st p target q = if q == p then record (st p) { prev = some target } else st q

unfoldable pub set_next : Store → ℕ → ℕ → Store
set_next st p target q = if q == p then record (st p) { next = some target } else st q
