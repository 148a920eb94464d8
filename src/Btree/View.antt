-- ===== src/Btree/View.antt =====
-- ViewItemSet of o_node.cpp: arrays in memory with one place more than an item set, by which a
-- full node is split. A place that nothing was put in is null, which is `none`.
use miya_core.Base.{
  ℕ, zero, suc, ◌+◌, ◌-◌, Option, none, some, List, [], ◌∷◌, length, set, get_or, ltb,
  if◌then◌else◌,
}
use miya_core.Optr.{Optr}
use miya_core.Allocator.Command.{M, pure, ◌>>=◌, load}
use miya_core.Btree.ItemSet.{
  default_key_count, default_child_count, default_data_optr_count, key_size, non_null, key_count,
  key,
}
use miya_core.Btree.Links.{child_optr_count, child_optr, data_optr_count, data_optr}

pub record View : Type 0 where
  pub keys : List (Option (List ℕ))
  pub children : List (Option Optr)
  pub data_optrs : List (Option Optr)

-- An array of places, the first of them filled.
abbrev pub pad {ℓ} : {A : Type ℓ} → ℕ → List (Option A) → List (Option A)
pad zero xs = xs
pad (suc n) [] = none ∷ pad n []
pad (suc n) (x ∷ xs) = x ∷ pad n xs

-- `at` throws beyond the array.
abbrev within : {A : Type 0} → ℕ → ℕ → M A → M A
within count size r = if ltb size count then (λ m. none) else r

-- The loops of the exports from index i on, with as many rounds.
unfoldable pub export_keys : Optr → ℕ → ℕ → M (List (Option (List ℕ)))
unfolding key
export_keys s i zero = pure []
export_keys s i (suc k) = do
  p ← key s i
  q ← non_null p
  bs ← load q key_size
  rest ← export_keys s (i + 1) k
  pure (some bs ∷ rest)

unfoldable pub export_key_array : Optr → M (List (Option (List ℕ)))
unfolding export_keys key_count
export_key_array s = do
  n ← key_count s
  within n default_key_count (do ks ← export_keys s 0 n; pure (pad default_key_count ks))

unfoldable pub export_children : Optr → ℕ → ℕ → M (List (Option Optr))
unfolding child_optr
export_children s i zero = pure []
export_children s i (suc k) = do
  c ← child_optr s i
  rest ← export_children s (i + 1) k
  pure (c ∷ rest)

unfoldable pub export_child_optr_array : Optr → M (List (Option Optr))
unfolding export_children child_optr_count
export_child_optr_array s = do
  n ← child_optr_count s
  within n default_child_count (do cs ← export_children s 0 n; pure (pad default_child_count cs))

unfoldable pub export_data_optrs : Optr → ℕ → ℕ → M (List (Option Optr))
unfolding data_optr
export_data_optrs s i zero = pure []
export_data_optrs s i (suc k) = do
  d ← data_optr s i
  rest ← export_data_optrs s (i + 1) k
  pure (d ∷ rest)

unfoldable pub export_data_optr_array : Optr → M (List (Option Optr))
unfolding export_data_optrs data_optr_count
export_data_optr_array s = do
  n ← data_optr_count s
  within n default_data_optr_count
      (do ds ← export_data_optrs s 0 n; pure (pad default_data_optr_count ds))

-- ViewItemSet::importItemSet into a view of null places
unfoldable pub import_item_set : Optr → M View
unfolding export_key_array export_child_optr_array export_data_optr_array
import_item_set s = do
  ks ← export_key_array s
  ds ← export_data_optr_array s
  cs ← export_child_optr_array s
  pure (record {
    keys = pad (default_key_count + 1) ks;
    children = pad (default_child_count + 1) cs;
    data_optrs = pad (default_data_optr_count + 1) ds;
  })

-- The loops of moveInsertChildOptr and moveInsertDataOptr from i on, with as many rounds.
unfoldable pub shift_places {ℓ} : {A : Type ℓ} → List (Option A) → ℕ → ℕ → List (Option A)
shift_places xs i zero = xs
shift_places xs i (suc k) = shift_places (set xs i (get_or xs (i - 1) none)) (i - 1) k

-- ViewItemSet::moveInsertChildOptr and moveInsertDataOptr, which differ in the array: `none` where
-- `at` throws.
unfoldable pub move_insert {ℓ} :
    {A : Type ℓ} → List (Option A) → ℕ → Option A → Option (List (Option A))
unfolding shift_places
move_insert xs index target =
    if ltb index (length xs)
    then some (set (shift_places xs (length xs - 1) (length xs - 1 - index)) index target)
    else none
