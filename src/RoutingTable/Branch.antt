-- ===== src/RoutingTable/Branch.antt =====
-- The branch of an id (k_routing_table.cpp) is the Hamming distance to the host's id.
use miya_core.Base.{
  true, false, leb, sym, ◌∙◌, ◌-◌, Option, get_elem?, none, some, ℕ, zero, suc, ◌+◌, ◌*◌, ◌/◌, ◌%◌,
  ◌^◌, ◌≤◌, ◌<◌, ◌≡◌, refl, ◌≢◌, ◌⊎◌, inl, inr, ◌↔◌, List, [], ◌∷◌, arith, length,
}
use miya_core.RoutingTable.{k_bucket_size, k_bucket, distance_bit, byte_distance, calc_branch}

abbrev pub IsBytes : List ℕ → Type 0
IsBytes [] = Unit
IsBytes (b ∷ ys) = (b < 2 ^ 8) × IsBytes ys

byte-le : (a b n : ℕ) → byte_distance a b n ≤ n
unfolding byte_distance
byte-le a b zero = omega arith
byte-le a b (suc n) = omega (arith, byte-le a b n)

byte_comm : (a b n : ℕ) → byte_distance a b n ≡ byte_distance b a n
unfolding byte_distance
byte_comm a b zero = refl
byte_comm a b (suc n) = omega (arith, byte_comm a b n)

byte_self : (a n : ℕ) → byte_distance a a n ≡ 0
unfolding byte_distance
byte_self a zero = refl
byte_self a (suc n) = omega (arith, byte_self a n)

bit : (a b i n : ℕ) → byte_distance a b n ≡ 0 → i < n → a / 2 ^ i % 2 ≡ b / 2 ^ i % 2
unfolding byte_distance distance_bit
bit a b i zero e h = absurd (omega arith)
bit a b i (suc n) e h = elim (compare_eq i n) [
  | inl q ↦ rw q (omega arith)
  | inr q ↦ bit a b i n (omega arith) (omega arith)
]
  where
    compare_eq : (i n : ℕ) → (i ≡ n) ⊎ (i ≢ n)
    compare_eq i n = ground arith

halves : (a b : ℕ) → a % 2 ≡ b % 2 → a / 2 ≡ b / 2 → a ≡ b
halves a b p q = omega arith

step :
    (a b i : ℕ)
    → byte_distance a b 8 ≡ 0
    → i < 8
    → a / 2 ^ i / 2 ≡ b / 2 ^ i / 2
    → a / 2 ^ i ≡ b / 2 ^ i
step a b i e h q = halves (a / 2 ^ i) (b / 2 ^ i) (bit a b i 8 e h) q

eq_of_byte : (a b : ℕ) → a < 2 ^ 8 → b < 2 ^ 8 → byte_distance a b 8 ≡ 0 → a ≡ b
eq_of_byte a b h h' e =
    let e7 : a / 128 ≡ b / 128 = step a b 7 e (omega arith) (omega (arith, h, h')) in
    let e6 : a / 64 ≡ b / 64 = step a b 6 e (omega arith) (omega (arith, e7)) in
    let e5 : a / 32 ≡ b / 32 = step a b 5 e (omega arith) (omega (arith, e6)) in
    let e4 : a / 16 ≡ b / 16 = step a b 4 e (omega arith) (omega (arith, e5)) in
    let e3 : a / 8 ≡ b / 8 = step a b 3 e (omega arith) (omega (arith, e4)) in
    let e2 : a / 4 ≡ b / 4 = step a b 2 e (omega arith) (omega (arith, e3)) in
    let e1 : a / 2 ≡ b / 2 = step a b 1 e (omega arith) (omega (arith, e2)) in
    let e0 : a / 1 ≡ b / 1 = step a b 0 e (omega arith) (omega (arith, e1)) in omega (arith, e0)

-- A branch is at most the number of bits.
pub calc_branch-le : (xs ys : List ℕ) → calc_branch xs ys ≤ 8 * length xs
unfolding calc_branch
calc_branch-le [] ys = omega arith
calc_branch-le (a ∷ xs) [] = omega arith
calc_branch-le (a ∷ xs) (b ∷ ys) = omega (arith, byte-le a b 8, calc_branch-le xs ys)

-- The branch of two ids is the same both ways.
pub calc_branch_comm : (xs ys : List ℕ) → calc_branch xs ys ≡ calc_branch ys xs
unfolding calc_branch
calc_branch_comm [] [] = refl
calc_branch_comm [] (b ∷ ys) = refl
calc_branch_comm (a ∷ xs) [] = refl
calc_branch_comm (a ∷ xs) (b ∷ ys) = omega (arith, byte_comm a b 8, calc_branch_comm xs ys)

self : (xs : List ℕ) → calc_branch xs xs ≡ 0
unfolding calc_branch
self [] = refl
self (a ∷ xs) = omega (arith, byte_self a 8, self xs)

eq_of_calc_branch :
    (xs ys : List ℕ)
    → IsBytes xs
    → IsBytes ys
    → length xs ≡ length ys
    → calc_branch xs ys ≡ 0
    → xs ≡ ys
unfolding calc_branch
eq_of_calc_branch [] [] v w e z = refl
eq_of_calc_branch [] (b ∷ ys) v w e z = absurd (omega arith)
eq_of_calc_branch (a ∷ xs) [] v w e z = absurd (omega arith)
eq_of_calc_branch (a ∷ xs) (b ∷ ys) (p, v) (q, w) e z =
    rw (eq_of_byte a b p q (omega arith), eq_of_calc_branch xs ys v w (omega arith) (omega arith))
      refl

-- For ids of bytes and of one length, the branch is 0 exactly when the ids are equal.
pub calc_branch-zero_iff :
    (xs ys : List ℕ)
    → IsBytes xs
    → IsBytes ys
    → length xs ≡ length ys
    → (calc_branch xs ys ≡ 0) ↔ (xs ≡ ys)
calc_branch-zero_iff xs ys v w e = (eq_of_calc_branch xs ys v w e, λ q. rw q (self ys))

in_range : (bs : List ℕ) (n : ℕ) → n < length bs → (b : ℕ) × (get_elem? bs n ≡ some b)
in_range [] n h = absurd (omega arith)
in_range (b ∷ bs) zero h = (b, refl)
in_range (b ∷ bs) (suc n) h = in_range bs n (omega arith)

-- The id with every bit different.
abbrev pub complement : List ℕ → List ℕ
complement [] = []
complement (b ∷ ys) = (255 - b) ∷ complement ys

length-complement : (ys : List ℕ) → length (complement ys) ≡ length ys
length-complement [] = refl
length-complement (b ∷ ys) = omega (arith, length-complement ys)

complement-IsBytes : (ys : List ℕ) → IsBytes (complement ys)
complement-IsBytes [] = tt
complement-IsBytes (b ∷ ys) = (omega arith, complement-IsBytes ys)

distance_bit-flip :
    (a b c i : ℕ) → b / 2 ^ i % 2 + c / 2 ^ i % 2 ≡ 1 → distance_bit a b i + distance_bit a c i ≡ 1
unfolding distance_bit
distance_bit-flip a b c i h = omega arith

byte_distance-flip :
    (a b c n : ℕ)
    → ((i : ℕ) → i < n → b / 2 ^ i % 2 + c / 2 ^ i % 2 ≡ 1)
    → byte_distance a b n + byte_distance a c n ≡ n
unfolding byte_distance
byte_distance-flip a b c zero v = refl
byte_distance-flip a b c (suc n) v = omega (
  arith,
  byte_distance-flip a b c n (λ i h. v i (omega arith)),
  distance_bit-flip a b c n (v n (omega arith)),
)

-- 255 less a byte has each bit flipped.
bit-flip : (b i : ℕ) → b < 2 ^ 8 → i < 8 → b / 2 ^ i % 2 + (255 - b) / 2 ^ i % 2 ≡ 1
bit-flip b zero h k = omega arith
bit-flip b (suc zero) h k = omega arith
bit-flip b (suc (suc zero)) h k = omega arith
bit-flip b (suc (suc (suc zero))) h k = omega arith
bit-flip b (suc (suc (suc (suc zero)))) h k = omega arith
bit-flip b (suc (suc (suc (suc (suc zero))))) h k = omega arith
bit-flip b (suc (suc (suc (suc (suc (suc zero)))))) h k = omega arith
bit-flip b (suc (suc (suc (suc (suc (suc (suc zero))))))) h k = omega arith
bit-flip b (suc (suc (suc (suc (suc (suc (suc (suc i)))))))) h k = absurd (omega arith)

pub calc_branch-complement :
    (xs ys : List ℕ)
    → IsBytes ys
    → length xs ≡ length ys
    → calc_branch xs ys + calc_branch xs (complement ys) ≡ 8 * length xs
unfolding calc_branch
calc_branch-complement [] ys w e = refl
calc_branch-complement (a ∷ xs) [] w e = absurd (omega arith)
calc_branch-complement (a ∷ xs) (b ∷ ys) (h, w) e = omega (
  arith,
  byte_distance-flip a b (255 - b) 8 (λ i k. bit-flip b i h k),
  calc_branch-complement xs ys w (omega arith),
)

-- In a table of 160 buckets, for ids of twenty bytes, kBucket of the branch throws nothing: it
-- is null exactly when every bit of the ids is different, and otherwise the bucket at the
-- branch.
pub k_bucket-calc_branch :
    (bs xs ys : List ℕ)
    → length bs ≡ 160
    → length xs ≡ 20
    → length ys ≡ 20
    → IsBytes xs
    → IsBytes ys
    → (r : Option ℕ) × (k_bucket bs (calc_branch xs ys) ≡ some r)
      × ((r ≡ none) ↔ (xs ≡ complement ys))
      × (xs ≢ complement ys → r ≡ get_elem? bs (calc_branch xs ys))
unfolding k_bucket
k_bucket-calc_branch bs xs ys e lx ly v w =
    let c = calc_branch xs ys in
    let all = calc_branch-complement xs ys w (lx ∙ sym ly) in
    let far : xs ≡ complement ys → c ≡ 160 = λ q.
      let z : calc_branch xs (complement ys) ≡ 0 = rw (← q) (self xs) in
      omega (arith, all, z, lx) in
    let at_far : c ≡ 160 → xs ≡ complement ys = λ q.
      eq_of_calc_branch xs (complement ys) v (complement-IsBytes ys)
        (lx ∙ sym ly ∙ sym (length-complement ys)) (omega arith) in
    elim (below_or_at c (omega (arith, calc_branch-le xs ys))) [
      | inl h ↦
          (let (b, g) = in_range bs c (omega arith) in
            let l : leb k_bucket_size c ≡ false = ground arith in
            (some b, rw (l, g) refl, (λ n. cc, λ q. absurd (omega (arith, far q))), λ ne. sym g))
      | inr h ↦
          (let l : leb k_bucket_size c ≡ true = ground arith in
            (none, rw l refl, (λ n. at_far h, λ q. refl), λ ne. absurd (ne (at_far h))))
    ]
  where
    below_or_at : (c : ℕ) → c ≤ 160 → (c < 160) ⊎ (c ≡ 160)
    below_or_at c h = ground arith
