-- ===== src/Btree/Split.antt =====
-- The split of a full node, the lambda `splitONode` of ONode::recursiveAdd, o_node.cpp. std::sort,
-- with the order of the keys' bytes, is the parameter `sort`.
use miya_core.Base.{
  ℕ, ◌+◌, ◌-◌, ◌/◌, ◌%◌, Option, none, some, List, [], ◌∷◌, length, set, take, drop, ltb, ◌==◌,
  if◌then◌else◌,
}
use miya_core.Optr.{Optr}
use miya_core.Allocator.Command.{M, pure, ◌>>=◌, ◌>>◌}
use miya_core.Btree.ItemSet.{
  default_key_count, non_null, parent, set_parent, set_key, set_key_count,
}
use miya_core.Btree.Links.{
  child_optr_count, child_optr, set_child_optr, set_child_optr_count, set_data_optr,
  set_data_optr_count,
}
use miya_core.Btree.View.{View, move_insert}
use miya_core.Btree.Node.{same_bytes, child}

abbrev pub separator_key_index : ℕ
separator_key_index =
    if (default_key_count + 1) % 2 == 0
    then (default_key_count + 1) / 2 - 1
    else (default_key_count + 1) / 2

-- The place of the first of the keys, from i on, that is the target: 0 where there is none.
unfoldable pub inserted_index : List (List ℕ) → List ℕ → ℕ → ℕ
inserted_index [] target i = 0
inserted_index (k ∷ ks) target i =
    let rest = inserted_index ks target (i + 1) in if same_bytes k target then i else rest

-- The view with the key, the data and the node to add, its keys sorted.
pub record Wide : Type 0 where
  pub keys : List (List ℕ)
  pub children : List (Option Optr)
  pub data_optrs : List (Option Optr)

abbrev pub all_keys : List (Option (List ℕ)) → Option (List (List ℕ))
all_keys [] = some []
all_keys (none ∷ ks) = none
all_keys (some k ∷ ks) = elim (all_keys ks) [ none ↦ none | some r ↦ some (k ∷ r) ]

unfoldable pub widen :
    (List (List ℕ) → List (List ℕ)) → View → List ℕ → Option Optr → Option Optr → Option Wide
unfolding inserted_index move_insert
widen sort v target data_optr onode = elim (all_keys (set v.keys default_key_count (some target))) [
  | none ↦ none
  | some ks ↦
      let keys = sort ks in
      let index = inserted_index keys target 0 in
      elim (move_insert v.data_optrs index data_optr) [
        | none ↦ none
        | some ds ↦ elim onode [
          | none ↦ some (record { keys = keys; children = v.children; data_optrs = ds })
          | some c ↦ elim (move_insert v.children (index + 1) (some c)) [
            | none ↦ none
            | some cs ↦ some (record { keys = keys; children = cs; data_optrs = ds })
          ]
        ]
      ]
]

-- Keys and data pointers set from index i on.
unfoldable pub put_keys : Optr → ℕ → List (List ℕ) → M (Unit {0})
unfolding set_key
put_keys s i [] = pure tt
put_keys s i (k ∷ ks) = do set_key s i (some k); put_keys s (i + 1) ks

unfoldable pub put_data_optrs : Optr → ℕ → List (Option Optr) → M (Unit {0})
unfolding set_data_optr
put_data_optrs s i [] = pure tt
put_data_optrs s i (d ∷ ds) = do set_data_optr s i d; put_data_optrs s (i + 1) ds

unfoldable pub put_items : Optr → List (List ℕ) → List (Option Optr) → M (Unit {0})
unfolding put_keys put_data_optrs set_key_count set_data_optr_count
put_items s ks ds = do
  put_keys s 0 ks
  set_key_count s (length ks)
  put_data_optrs s 0 ds
  set_data_optr_count s (length ds)

unfoldable pub put_left_children : Optr → ℕ → List (Option Optr) → M (Unit {0})
unfolding set_child_optr
put_left_children s i [] = pure tt
put_left_children s i (c ∷ cs) = do set_child_optr s i c; put_left_children s (i + 1) cs

-- The children of the right node, which becomes their parent.
unfoldable pub put_right_children : Optr → ℕ → List (Option Optr) → M (Unit {0})
unfolding set_child_optr set_child_optr_count child_optr child set_parent
put_right_children s i [] = pure tt
put_right_children s i (c ∷ cs) = do
  set_child_optr s i c
  set_child_optr_count s (i + 1)
  d ← child_optr s i
  elim d [ none ↦ pure tt | some _ ↦ do t ← child s i; t' ← non_null t; set_parent t' (some s) ]
  put_right_children s (i + 1) cs

unfoldable pub split_children : Optr → Optr → List (Option Optr) → M (Unit {0})
unfolding put_left_children put_right_children set_child_optr_count
split_children s right cs = do
  let center = length cs / 2
  put_left_children s 0 (take center cs)
  set_child_optr_count s center
  put_right_children right 0 (drop center cs)
  set_child_optr_count right (length cs - center)

-- The distribution of the view over the node and its new right neighbour.
unfoldable pub distribute : Optr → Optr → Wide → M (Unit {0})
unfolding put_items parent set_parent child_optr_count split_children
distribute s right w = do
  put_items right (drop (separator_key_index + 1) w.keys)
      (drop (separator_key_index + 1) w.data_optrs)
  p ← parent s
  set_parent right (some p)
  put_items s (take separator_key_index w.keys) (take separator_key_index w.data_optrs)
  n ← child_optr_count s
  if ltb 0 n then split_children s right w.children else pure tt
