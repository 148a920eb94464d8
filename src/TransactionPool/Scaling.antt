-- ===== src/TransactionPool/Scaling.antt =====
-- The whole of TxCBBucket::add (txcb_bucket.cpp): the ring with the target, or the table that takes
-- the place of a full bucket.
use miya_core.Base.{ℕ, ◌+◌, ◌%◌, ◌^◌, ◌≤◌, ◌<◌, ◌≡◌, ◌⊎◌, true, false, Option, none, some, List}
use miya_core.Base.Fallible.{◌>>=◌}
use miya_core.Base.Distinct.{In}
use miya_core.TransactionPool.{Store}
use miya_core.TransactionPool.Bucket.{Bucket}
use miya_core.TransactionPool.Table.{bucket, Added, Scale}
use miya_core.TransactionPool.Ring.{Ring, Unknown}
use miya_core.TransactionPool.Ring.Add.{insert}

-- What the new ring becomes: it stays in the bucket, or its head is scaled up.
abbrev pub Keeps : Scale → ℕ → Store → Bucket → Option ℕ → Added → Type 0
Keeps scale parent st b none r = r ≡ some (true, st, bucket b)
Keeps scale parent st b (some h) r =
    (b.tx_count < 3 → r ≡ some (true, st, bucket b))
    × (3 ≤ b.tx_count → r ≡ (scale parent st h >>= λ (st', c). some (true, st', c)))

-- What add answers: a control block with the id was there and nothing changes, or none was and the
-- target is at the back of a ring that stays or is scaled up.
abbrev pub Outcome : Scale → ℕ → Store → Bucket → List ℕ → ℕ → Added → Type 0
Outcome scale parent st b ps t r =
    ((p : ℕ) × In p ps × ((st p).tx_id ≡ (st t).tx_id) × (r ≡ some (false, st, bucket b)))
    ⊎ ((st' : Store) × (b' : Bucket) × Unknown st (st t).tx_id ps
        × Ring st' b' (insert t ps)
        × (b'.tx_count ≡ (b.tx_count + 1) % 2 ^ 64)
        × ((q : ℕ) → (st' q).tx_id ≡ (st q).tx_id)
        × Keeps scale parent st' b' b.txcb_head r)
