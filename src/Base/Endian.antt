-- ===== src/Base/Endian.antt =====
-- Numbers as the bytes of a member: in network order after htons, htonl and htobe64, and in the
-- order of a little-endian host otherwise.
use miya_core.Base.Lists.{length}
use Prim.Native.Nat.{ℕ, ◌+◌, ◌*◌, ◌/◌, ◌%◌, ◌^◌, ◌<◌}
use mathlib.Core.Path.{◌≡◌}
use mathlib.Core.List.{List, [], ◌∷◌, ◌++◌}
use native.Mathlib.Omega.{arith}

-- The first byte is the highest.
abbrev pub of_be_from : ℕ → List ℕ → ℕ
of_be_from n [] = n
of_be_from n (b ∷ bs) = of_be_from (n * 256 + b) bs

abbrev pub of_be : List ℕ → ℕ
of_be bs = of_be_from 0 bs

-- The first byte is the lowest.
abbrev pub of_le : List ℕ → ℕ
of_le [] = 0
of_le (b ∷ bs) = b + 256 * of_le bs

abbrev pub be16 : ℕ → List ℕ
be16 n = (n / 256 % 256) ∷ (n % 256) ∷ []

abbrev pub be32 : ℕ → List ℕ
be32 n = (n / 16777216 % 256) ∷ (n / 65536 % 256) ∷ be16 n

abbrev pub be64 : ℕ → List ℕ
be64 n = be32 (n / 4294967296) ++ be32 n

abbrev pub le32 : ℕ → List ℕ
le32 n = (n % 256) ∷ (n / 256 % 256) ∷ (n / 65536 % 256) ∷ (n / 16777216 % 256) ∷ []

abbrev pub le16 : ℕ → List ℕ
le16 n = (n % 256) ∷ (n / 256 % 256) ∷ []

abbrev pub le64 : ℕ → List ℕ
le64 n = le32 n ++ le32 (n / 4294967296)

pub of_be-be16 : (n : ℕ) → n < 2 ^ 16 → of_be (be16 n) ≡ n
of_be-be16 n h = omega arith

pub of_be-be32 : (n : ℕ) → n < 2 ^ 32 → of_be (be32 n) ≡ n
of_be-be32 n h = omega arith

pub of_be-be64 : (n : ℕ) → n < 2 ^ 64 → of_be (be64 n) ≡ n
of_be-be64 n h = omega arith

pub of_le-le32 : (n : ℕ) → n < 2 ^ 32 → of_le (le32 n) ≡ n
of_le-le32 n h = omega arith

pub of_le-le64 : (n : ℕ) → n < 2 ^ 64 → of_le (le64 n) ≡ n
of_le-le64 n h = omega arith

-- Every byte of a list.
abbrev pub AreBytes : List ℕ → Type 0
AreBytes [] = Unit
AreBytes (b ∷ bs) = (b < 256) × AreBytes bs

-- A smaller beginning makes a smaller number, whatever bytes follow.
pub of_be_from-lt :
    (a b : ℕ) (xs ys : List ℕ)
    → length xs ≡ length ys
    → AreBytes xs
    → a < b
    → of_be_from a xs < of_be_from b ys
of_be_from-lt a b [] [] e v h = h
of_be_from-lt a b [] (y ∷ ys) e v h = absurd (omega arith)
of_be_from-lt a b (x ∷ xs) [] e v h = absurd (omega arith)
of_be_from-lt a b (x ∷ xs) (y ∷ ys) e (v, w) h =
    of_be_from-lt (a * 256 + x) (b * 256 + y) xs ys (omega arith) w (omega arith)
