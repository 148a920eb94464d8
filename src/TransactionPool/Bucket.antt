-- ===== src/TransactionPool/Bucket.antt =====
-- chain/transaction_pool/txcb_bucket.cpp: a walk along the ring takes fuel, one unit for a control
-- block; `none` is a walk that outlasts it, or a use of a null pointer.
use Prim.Native.Nat.{Ordering}
use miya_core.Base.{
  ℕ, zero, suc, ◌+◌, ◌%◌, ◌^◌, Bool, true, false, ◌||◌, Option, none, some, List, ◌==◌,
  if◌then◌else◌,
}
use miya_core.Base.Bytes.{memcmp}
use miya_core.Base.Fallible.{◌>>=◌}
use miya_core.TransactionPool.{Store, set_prev, set_next}

pub record Bucket : Type 0 where
  pub txcb_head : Option ℕ
  pub tx_count : ℕ

-- TxCBBucket::TxCBBucket
abbrev pub new_bucket : Bucket
new_bucket = record { txcb_head = none; tx_count = 0 }

abbrev pub is_same : List ℕ → List ℕ → Bool
is_same a b = elim (memcmp a b) [ Ordering.eq ↦ true | _ ↦ false ]

-- The loop of TxCBBucket::find, from the back of the ring on.
unfoldable pub find_loop : ℕ → Store → ℕ → List ℕ → ℕ → Option (Option ℕ)
find_loop zero st head id current = none
find_loop (suc fuel) st head id current =
    let rest = find_loop fuel st head id in
    if is_same (st current).tx_id id
    then some (some current)
    else ((st current).prev >>= λ p. if p == head then some none else rest p)

-- std::shared_ptr<TxCB> TxCBBucket::find
unfoldable pub find : ℕ → Store → Bucket → List ℕ → Option (Option ℕ)
unfolding find_loop
find fuel st b id = elim b.txcb_head [ none ↦ some none | some h ↦ find_loop fuel st h id h ]

-- What is left by putting the target behind the tail of the ring with this head.
unfoldable pub link : Store → ℕ → ℕ → Option Store
link st head target = do
  tail ← (st head).prev
  after ← (st tail).next
  some (
      set_next (set_prev (set_prev (set_next st target after) target tail) after target) tail
        target)

-- int TxCBBucket::add before its test for scaling (`bucket_add` in Table is the whole): whether the
-- target was added
unfoldable pub add_to_ring : ℕ → Store → Bucket → ℕ → Option (Bool × Store × Bucket)
unfolding find link set_prev set_next
add_to_ring fuel st b target = do
  found ← find fuel st b (st target).tx_id
  elim found [
    | some p ↦ some (false, st, b)
    | none ↦ elim b.txcb_head [
      | none ↦ some (
        true,
        set_next (set_prev st target target) target target,
        record { txcb_head = some target; tx_count = (b.tx_count + 1) % 2 ^ 64 },
      )
      | some h ↦ do
        st' ← link st h target
        some (true, st', record { txcb_head = some h; tx_count = (b.tx_count + 1) % 2 ^ 64 })
    ]
  ]

-- What is left by taking a control block out of a ring.
unfoldable pub unlink : Store → ℕ → ℕ → ℕ → Store
unlink st p before after = set_prev (set_next st before after) after before

-- void TxCBBucket::remove
unfoldable pub remove : ℕ → Store → Bucket → List ℕ → Option (Store × Bucket)
unfolding find unlink
remove fuel st b id = do
  found ← find fuel st b id
  elim found [
    | none ↦ some (st, b)
    | some p ↦ elim b.txcb_head [
      | none ↦ none
      | some h ↦ do
        before ← (st p).prev
        after ← (st p).next
        if p == h || after == p || before == p
            then some (st, record b { txcb_head = none })
            else some (unlink st p before after, b)
    ]
  ]
