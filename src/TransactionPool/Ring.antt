-- ===== src/TransactionPool/Ring.antt =====
-- The ring of a bucket (txcb_bucket.cpp) as a list: the head, then the others from the back on, in
-- the order in which find visits them.
pub mod Find
pub mod Add
pub mod Remove
use miya_core.Base.{ℕ, ◌≡◌, Option, none, some, List, [], ◌∷◌, ◌≢◌}
use miya_core.Base.Distinct.{Distinct, In}
use miya_core.TransactionPool.{TxCb, Store}
use miya_core.TransactionPool.Bucket.{Bucket}

-- The links backwards from x through the list and round to h, and the links forwards beside them.
unfoldable pub Chain : Store → ℕ → ℕ → List ℕ → Type 0
Chain st h x [] = ((st x).prev ≡ some h) × ((st h).next ≡ some x)
Chain st h x (y ∷ ys) = ((st x).prev ≡ some y) × ((st y).next ≡ some x) × Chain st h y ys

unfoldable pub Ring : Store → Bucket → List ℕ → Type 0
unfolding Chain Distinct
Ring st b [] = b.txcb_head ≡ none
Ring st b (h ∷ bs) = (b.txcb_head ≡ some h) × Chain st h h bs × Distinct (h ∷ bs)

-- No control block of the list has the id.
unfoldable pub Unknown : Store → List ℕ → List ℕ → Type 0
Unknown st id [] = Unit {0}
Unknown st id (p ∷ ps) = ((st p).tx_id ≢ id) × Unknown st id ps

-- A control block of the list that has the id, or none if there is none.
unfoldable pub Finds : Store → List ℕ → List ℕ → Option ℕ → Type 0
unfolding Unknown In
Finds st id ps none = Unknown st id ps
Finds st id ps (some p) = In p ps × ((st p).tx_id ≡ id)
