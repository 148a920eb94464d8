-- ===== src/Transaction.antt =====
-- chain/transaction/: the transactions, p2pkh/p2pkh.cpp (P2pkh) with their inputs and outputs,
-- tx/prev_out.cpp, tx_in.cpp and tx_out.cpp (PrevOut, TxIn, TxOut), and the signature scripts
-- that the inputs hold (Signature). OpenSSL is a parameter (OpenSsl).
pub mod OpenSsl
pub mod PrevOut
pub mod Signature
pub mod TxIn
pub mod TxOut
pub mod P2pkh
pub mod Coinbase
mod Export
mod Covered
mod Signed
mod Paid
mod Inputs
mod Unsigned
mod Verify
mod RoundTrip
mod Tests
