-- ===== src/ChainSync/Closed.antt =====
-- What setting the flag of one control block does, and the first loop of BDFilter::mask, which
-- closes all, bd_filter.cpp.
use miya_core.Base.{
  get_elem?-set_ne, if◌then◌else◌, get_elem?-set_self, inr, length-set, inl, subst, ◌⊎◌, ℕ, zero,
  suc, ◌<◌, ◌≡◌, ◌≢◌, refl, sym, ap, ◌∙◌, Bool, true, Option, some, List, [], ◌∷◌, length,
  get_elem?, set, arith, Bool-cases,
}
use miya_core.Base.Fallible.{◌>>=◌}
use miya_core.ChainSync.Pool.{find_key, same_key}
use miya_core.ChainSync.Filter.{Bdbcb, set_closed, close_all}

-- Whether the control block behind a pointer is closed.
abbrev pub closed_at : List Bdbcb → ℕ → Option Bool
closed_at blocks b = get_elem? blocks b >>= λ cb. some cb.is_closed

-- The pointers of a map are in a store of n blocks.
abbrev pub AreIn : List (List ℕ × ℕ) → ℕ → Type 0
AreIn [] n = Unit {0}
AreIn ((k, b) ∷ fs) n = (b < n) × AreIn fs n

-- Two keys have two pointers.
abbrev pub AreApart : List (List ℕ × ℕ) → Type 0
AreApart fs = (k k' : List ℕ) (b : ℕ) → find_key fs k ≡ some b → find_key fs k' ≡ some b → k ≡ k'

==-cases : (a b : ℕ) → (a ≡ b) ⊎ (a ≢ b)
==-cases a b = ground arith

-- A call of set_closed in the store: it keeps the store's length, sets the flag, and keeps others.
pub record IsFlagged (closed : Bool) (blocks blocks' : List Bdbcb) (b : ℕ) : Type 0 where
  pub keeps_length : length blocks' ≡ length blocks
  pub sets : closed_at blocks' b ≡ some closed
  pub keeps : (x : ℕ) → x ≢ b → closed_at blocks' x ≡ closed_at blocks x

get_elem?-below :
    {A : Type 0} (xs : List A) (i : ℕ) → i < length xs → (x : A) × (get_elem? xs i ≡ some x)
get_elem?-below [] i h = absurd (omega arith)
get_elem?-below (x ∷ xs) zero h = (x, refl)
get_elem?-below (x ∷ xs) (suc i) h = get_elem?-below xs i (omega arith)

pub set_closed-some :
    (closed : Bool) (blocks : List Bdbcb) (b : ℕ)
    → b < length blocks
    → (blocks' : List Bdbcb) × (set_closed closed blocks b ≡ some blocks')
      × IsFlagged closed blocks blocks' b
unfolding set_closed
set_closed-some closed blocks b h =
    let (cb, e) = get_elem?-below blocks b h in
    let new = record cb { is_closed = closed } in
    let flag : Option Bdbcb → Option Bool = λ o. o >>= λ cb. some cb.is_closed in
    (
      set blocks b new,
      ap (λ o. o >>= λ cb. some (set blocks b (record cb { is_closed = closed }))) e,
      record {
        keeps_length = length-set blocks b new;
        sets = ap flag (get_elem?-set_self blocks b new h);
        keeps = λ x ne. ap flag (get_elem?-set_ne blocks new (λ e. ne (sym e)));
      },
    )

pub find_key-AreIn :
    (fs : List (List ℕ × ℕ)) (n : ℕ) (k : List ℕ) (b : ℕ)
    → AreIn fs n
    → find_key fs k ≡ some b
    → b < n
unfolding find_key
find_key-AreIn [] n k b v h = absurd (ground arith)
find_key-AreIn ((j, c) ∷ fs) n k b (v, w) h = elim (Bool-cases (same_key j k)) [
  | inl e ↦ (let q : c ≡ b = ground arith in omega arith)
  | inr e ↦ find_key-AreIn fs n k b w (ap (λ t. if t then some c else find_key fs k) (sym e) ∙ h)
]

-- What close_all leaves: every block of the map closed, and no block opened.
pub record AreClosed (fs : List (List ℕ × ℕ)) (blocks blocks' : List Bdbcb) : Type 0 where
  pub keeps_length : length blocks' ≡ length blocks
  pub stays : (b : ℕ) → closed_at blocks b ≡ some true → closed_at blocks' b ≡ some true
  pub closes : (k : List ℕ) (b : ℕ) → find_key fs k ≡ some b → closed_at blocks' b ≡ some true

pub close_all-some :
    (fs : List (List ℕ × ℕ)) (blocks : List Bdbcb)
    → AreIn fs (length blocks)
    → (blocks' : List Bdbcb) × (close_all fs blocks ≡ some blocks') × AreClosed fs blocks blocks'
unfolding close_all find_key
close_all-some [] blocks v = (
  blocks,
  refl,
  record { keeps_length = refl; stays = λ b h. h; closes = λ k b h. absurd (ground arith) },
)
close_all-some ((j, c) ∷ fs) blocks (v, w) =
    let (mid, e, s) = set_closed-some true blocks c v in
    let (last, q, r) = close_all-some fs mid (subst (AreIn fs) (sym s.keeps_length) w) in
    (
      last,
      ap (λ o. o >>= λ bs. close_all fs bs) e ∙ q,
      record {
        keeps_length = r.keeps_length ∙ s.keeps_length;
        stays = λ b h.
            r.stays b (elim (==-cases b c) [ inl e ↦ rw e s.sets | inr ne ↦ s.keeps b ne ∙ h ]);
        closes = λ k b h. elim (Bool-cases (same_key j k)) [
          | inl e ↦ (let q : c ≡ b = ground arith in rw (← q) (r.stays c s.sets))
          | inr e ↦ r.closes k b (ap (λ t. if t then some c else find_key fs k) (sym e) ∙ h)
        ];
      },
    )
