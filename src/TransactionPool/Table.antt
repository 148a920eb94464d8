-- ===== src/TransactionPool/Table.antt =====
-- chain/transaction_pool/txcb_table.cpp, the scaling of txcb_bucket.cpp and the operations of
-- transaction_pool.cpp by id. A table has sixteen containers, by the half-byte of the id at its
-- layer. Scaling takes fuel for the depth of tables, and walks take it as in Bucket.
use miya_core.Base.{
  ℕ, zero, suc, ◌+◌, ◌/◌, ◌%◌, Bool, true, Option, none, some, List, [], ◌∷◌, get_elem?, leb, ◌==◌,
  if◌then◌else◌,
}
use miya_core.Base.Fallible.{◌>>=◌}
use miya_core.TransactionPool.{Store}
use miya_core.TransactionPool.Bucket.{Bucket, new_bucket, find, add_to_ring, remove}

-- TxCBContainer; a table keeps its layer
pub data Container : Type 0 where
  bucket : Bucket → Container
  table : ℕ → (ℕ → Container) → Container

-- TxCBTable::TxCBTable( unsigned int layer )
abbrev pub new_table : ℕ → Container
new_table layer = table layer (λ i. bucket new_bucket)

-- TxCBTable::txContainer( index , target ), of an index in range
abbrev pub tx_container : (ℕ → Container) → ℕ → Container → ℕ → Container
tx_container cs index target i = if i == index then target else cs i

-- The half-byte of the id at a layer; `none` is a read past the id.
unfoldable pub target_symbol : ℕ → List ℕ → Option ℕ
target_symbol layer id = do
  b ← get_elem? id (layer / 2)
  some (if layer % 2 == 0 then b / 16 else b % 16)

-- TxCBTable::find
unfoldable pub find_in : ℕ → Store → Container → List ℕ → Option (Option ℕ)
unfolding target_symbol
find_in walk st (bucket b) id = find walk st b id
find_in walk st (table layer cs) id = target_symbol layer id >>= λ i. find_in walk st (cs i) id

-- TxCBTable::remove
unfoldable pub remove_in : ℕ → Store → Container → List ℕ → Option (Store × Container)
unfolding target_symbol
remove_in walk st (bucket b) id = remove walk st b id >>= λ (st', b'). some (st', bucket b')
remove_in walk st (table layer cs) id = target_symbol layer id >>= λ i.
    remove_in walk st (cs i) id >>= λ (st', c). some (st', table layer (tx_container cs i c))

-- Whether a target was added, the store and the container left.
abbrev pub Added : Type 0
Added = Option (Bool × Store × Container)

-- DEFAULT_SCALE_SIZE
abbrev pub scale_size : ℕ
scale_size = 3

-- A full bucket's autoScaleUp, by the layer of its parent, the store and the head.
abbrev pub Scale : Type 0
Scale = ℕ → Store → ℕ → Option (Store × Container)

-- The test of TxCBBucket::add for scaling, which puts a table in the place of the bucket. A bucket
-- that had no head, and one that keeps the target out, do not come to it.
unfoldable pub scale_full : Scale → ℕ → Option ℕ → Bool → Store → Bucket → Added
scale_full scale parent (some h) true st b =
    let scaled = scale parent st h >>= λ (st', c). some (true, st', c) in
    if leb scale_size b.tx_count then scaled else some (true, st, bucket b)
scale_full scale parent head added st b = some (added, st, bucket b)

-- int TxCBBucket::add
unfoldable pub bucket_add : Scale → ℕ → ℕ → Store → Bucket → ℕ → Added
unfolding add_to_ring scale_full
bucket_add scale walk parent st b target = add_to_ring walk st b target >>= λ (added, st', b').
    scale_full scale parent b.txcb_head added st' b'

-- TxCBTable::add, where `scale` answers a full bucket's autoScaleUp
unfoldable pub add_in : Scale → ℕ → Store → ℕ → Container → ℕ → Added
unfolding target_symbol bucket_add
add_in scale walk st parent (bucket b) target = bucket_add scale walk parent st b target
add_in scale walk st parent (table layer cs) target = target_symbol layer (st target).tx_id >>= λ i.
    add_in scale walk st layer (cs i) target >>= λ (added, st', c).
    some (added, st', table layer (tx_container cs i c))

-- The loop of TxCBBucket::autoScaleUp: each control block of the ring goes into the new table.
unfoldable pub scale_loop :
    ℕ → (Store → Container → ℕ → Added) → Store → ℕ → ℕ → Container → Option (Store × Container)
scale_loop zero put st head current new = none
scale_loop (suc fuel) put st head current new =
    let rest = scale_loop fuel put in
    (st current).next >>= λ next. put st new current >>= λ (added, st', new').
    (if next == head then some (st', new') else rest st' head next new')

-- TxCBBucket::autoScaleUp
unfoldable pub auto_scale_up : ℕ → ℕ → ℕ → Store → ℕ → Option (Store × Container)
unfolding scale_loop add_in
auto_scale_up zero walk parent st head = none
auto_scale_up (suc depth) walk parent st head =
    scale_loop walk (λ st' new target. add_in (auto_scale_up depth walk) walk st' parent new target)
      st head head (new_table (parent + 1))

-- TransactionPool::TransactionPool(), add( std::shared_ptr<TxCB> ), and find and remove by id
abbrev pub empty_pool : Container
empty_pool = new_table 0

unfoldable pub add_txcb : ℕ → ℕ → Store → Container → ℕ → Added
unfolding auto_scale_up add_in
add_txcb depth walk st root target = add_in (auto_scale_up depth walk) walk st 0 root target

-- The loop of TransactionPool::add( std::shared_ptr<Block> ), over the control blocks of its
-- transactions: those that were added, in order
unfoldable pub add_all : ℕ → ℕ → Store → Container → List ℕ → Option (List ℕ × Store × Container)
unfolding add_txcb
add_all depth walk st root [] = some ([], st, root)
add_all depth walk st root (t ∷ ts) = add_txcb depth walk st root t >>= λ (added, st', root').
    add_all depth walk st' root' ts >>= λ (us, st'', root'').
    some (if added then t ∷ us else us, st'', root'')

-- The loop of TransactionPool::remove( std::shared_ptr<Block> ), over the ids
unfoldable pub remove_all : ℕ → Store → Container → List (List ℕ) → Option (Store × Container)
unfolding remove_in
remove_all walk st root [] = some (st, root)
remove_all walk st root (id ∷ ids) =
    remove_in walk st root id >>= λ (st', root'). remove_all walk st' root' ids
