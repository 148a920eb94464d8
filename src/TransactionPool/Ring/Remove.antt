-- ===== src/TransactionPool/Ring/Remove.antt =====
-- TxCBBucket::remove (txcb_bucket.cpp): what it takes out of the ring.
use miya_core.Base.{ℕ, ◌≡◌, ◌≢◌, ◌⊎◌, Option, none, some, List}
use miya_core.Base.Distinct.{Distinct, In, delete}
use miya_core.TransactionPool.{Store}
use miya_core.TransactionPool.Bucket.{Bucket}
use miya_core.TransactionPool.Ring.{Ring, Unknown}

-- The neighbours of a control block behind x.
record Between (st : Store) (h x : ℕ) (ys : List ℕ) (p before after : ℕ) : Type 0 where
  pub prev : (st p).prev ≡ some before
  pub next : (st p).next ≡ some after
  pub after_in : (after ≡ x) ⊎ In after ys
  pub before_in : (before ≡ h) ⊎ In before ys
  pub after_apart : after ≢ p
  pub before_apart : before ≢ p

-- What remove leaves: everything, nothing when the id is the head's, or all but a control block
-- with the id.
abbrev pub Removes : Store → Bucket → List ℕ → List ℕ → Option (Store × Bucket) → Type 0
Removes st b ps id r =
    (Unknown st id ps × (r ≡ some (st, b)))
    ⊎ ((h : ℕ) × (b.txcb_head ≡ some h)
        × ((st h).tx_id ≡ id)
        × (r ≡ some (st, record b { txcb_head = none })))
    ⊎ ((p : ℕ) × (st' : Store) × ((st p).tx_id ≡ id)
        × In p ps
        × (r ≡ some (st', b))
        × Ring st' b (delete p ps))
