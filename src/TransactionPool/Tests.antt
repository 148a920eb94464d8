-- ===== src/TransactionPool/Tests.antt =====
-- A bucket of two control blocks, and a pool that scales.
use miya_core.Base.{ℕ, ◌≡◌, refl, none, some, Option, List, [], ◌∷◌, if◌then◌else◌, ◌==◌}
use miya_core.Base.Distinct.{Distinct}
use miya_core.Base.Bytes.{memcmp}
use miya_core.TransactionPool.{Store}
use miya_core.TransactionPool.Bucket.{Bucket, add_to_ring}
use miya_core.TransactionPool.Table.{empty_pool, add_all, find_in}
use miya_core.TransactionPool.Ring.{Ring}

abbrev unlinked : Store
unlinked p = record { tx_id = p ∷ p ∷ []; prev = none; next = none }

-- 7 and 8 in a ring.
abbrev pair : Store
pair p =
    if p == 7
    then record { tx_id = 7 ∷ 7 ∷ []; prev = some 8; next = some 8 }
    else if p == 8
    then record { tx_id = 8 ∷ 8 ∷ []; prev = some 7; next = some 7 }
    else unlinked p

abbrev two : Bucket
two = record { txcb_head = some 7; tx_count = 2 }

-- Three control blocks of one bucket: the third scales it up to a table, where each is found.
abbrev found : List ℕ → Option (Option ℕ)
unfolding add_all find_in
found id = elim (add_all 3 8 unlinked empty_pool (1 ∷ 2 ∷ 3 ∷ 2 ∷ [])) [
  | none ↦ none
  | some (added, st, root) ↦ find_in 8 st root id
]

found_third : found (3 ∷ 3 ∷ []) ≡ some (some 3)
unfolding found add_all find_in add_to_ring memcmp
found_third = refl

found_fourth : found (4 ∷ 4 ∷ []) ≡ some none
unfolding found add_all find_in add_to_ring memcmp
found_fourth = refl
