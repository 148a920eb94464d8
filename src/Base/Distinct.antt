-- ===== src/Base/Distinct.antt =====
-- Lists of distinct numbers.
use miya_core.Base.{ℕ, ◌≡◌, ◌≢◌, ◌⊎◌, inl, inr, List, [], ◌∷◌, if◌then◌else◌, ◌==◌, arith}

-- No member of the list is t.
unfoldable pub Fresh : ℕ → List ℕ → Type 0
Fresh t [] = Unit {0}
Fresh t (b ∷ bs) = (t ≢ b) × Fresh t bs

unfoldable pub Distinct : List ℕ → Type 0
unfolding Fresh
Distinct [] = Unit {0}
Distinct (b ∷ bs) = Fresh b bs × Distinct bs

unfoldable pub In : {A : Type 0} → A → List A → Type 0
In t [] = ⊥
In t (b ∷ bs) = (t ≡ b) ⊎ In t bs

unfoldable pub delete : ℕ → List ℕ → List ℕ
delete t [] = []
delete t (b ∷ bs) = if t == b then bs else b ∷ delete t bs

pub Fresh-ne : (t p : ℕ) (bs : List ℕ) → Fresh t bs → In p bs → t ≢ p
unfolding Fresh In
Fresh-ne t p [] f i = absurd i
Fresh-ne t p (b ∷ bs) (n, f) (inl e) = rw e n
Fresh-ne t p (b ∷ bs) (n, f) (inr i) = Fresh-ne t p bs f i

pub delete-Fresh : (t p : ℕ) (bs : List ℕ) → Fresh t bs → Fresh t (delete p bs)
unfolding Fresh delete
delete-Fresh t p [] f = f
delete-Fresh t p (b ∷ bs) (n, f) = ground (arith, delete-Fresh t p bs f)

pub delete-Distinct : (p : ℕ) (bs : List ℕ) → Distinct bs → Distinct (delete p bs)
unfolding Distinct delete Fresh
delete-Distinct p [] d = d
delete-Distinct p (b ∷ bs) (f, d) = ground (arith, delete-Distinct p bs d, delete-Fresh b p bs f)
