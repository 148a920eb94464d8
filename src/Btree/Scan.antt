-- ===== src/Btree/Scan.antt =====
-- The loop over the keys of a node, and the step to a child behind it, in the searches of ONode.
use Prim.Native.Nat.{Ordering}
use miya_core.Base.{
  ℕ, zero, suc, ◌+◌, ◌*◌, ◌≤◌, ◌<◌, ◌≡◌, refl, sym, ap, ◌∙◌, Option, none, some, List, [], ◌∷◌,
  length, take, arith, inl, inr,
}
use miya_core.Base.Bytes.{memcmp, Ordering-cases}
use miya_core.Optr.{Optr}
use miya_core.Optr.Laws.{address}
use miya_core.Memory.{Bytes}
use miya_core.Memory.Laws.{read}
use miya_core.Allocator.Command.{M, ◌>>=◌}
use miya_core.Btree.ItemSet.{pred16}
use miya_core.Btree.Links.{child_optr_count}
use miya_core.Btree.Node.{child, key_bytes, Place, scan_keys}
use miya_core.Btree.Node.Place.{below, here, past}
use miya_core.Btree.Layout.{IsNode, chain, load-read, child_optr_count-node}
use miya_core.Btree.Slots.{child_optr-null, optr_at, key-node, child_optr-node}
use miya_core.Btree.Search.{
  Tree, Branches, last, branch, optr_of, keys_of, HasKeys, HasChildren, scan, search, search_in,
  search_in-last, search_in-branch,
}

pub take-read : (m : Bytes) (a n k : ℕ) → n ≤ k → take n (read m a k) ≡ read m a n
unfolding read
take-read m a zero k h = refl
take-read m a (suc n) zero h = absurd (omega arith)
take-read m a (suc n) (suc k) h = ap (λ bs. m a ∷ bs) (take-read m (a + 1) n k (omega arith))

-- Where the loop ends.
abbrev pub place : ℕ → List ℕ → ℕ → List (List ℕ) → Place
place size target i [] = past
place size target i (k ∷ ks) = elim (memcmp (take size target) (take size k)) [
  | Ordering.lt ↦ below i
  | Ordering.eq ↦ here i
  | Ordering.gt ↦ place size target (i + 1) ks
]

-- What the searches do there, with what they do at a child and at a key.
abbrev pub follow : {A : Type 0} → (Optr → M A) → (ℕ → M A) → M A → Optr → Place → M A
follow visit hit miss s (here i) = hit i
follow visit hit miss s (below i) = do c ← child s i; elim c [ none ↦ miss | some t ↦ visit t ]
follow visit hit miss s past = do
  m ← child_optr_count s
  c ← child s (pred16 m)
  elim c [ none ↦ miss | some t ↦ visit t ]

module _ (m : Bytes) (s : Optr) (v : IsNode s) where
  pub key_bytes-node :
      (i size : ℕ)
      → i < 4
      → i ≤ m (address s + 5)
      → size ≤ 20
      → key_bytes s i size m ≡ some (take size (read m (address s + 6 + i * 20) 20), m)
  unfolding key_bytes
  key_bytes-node i size h l e =
      let (p, f, w, q) = key-node m s v i h l in
      chain _ f (
        load-read m p size w (omega arith)
        ∙ rw q (ap (λ bs. some (bs, m)) (sym (take-read m (address s + 6 + i * 20) size 20 e))))

  pub scan_keys-place :
      (target : List ℕ) (size i : ℕ) (ks : List (List ℕ))
      → size ≤ 20
      → i + length ks ≤ 3
      → i + length ks ≤ m (address s + 5)
      → HasKeys m s i ks
      → scan_keys s target size i (length ks) m ≡ some (place size target i ks, m)
  unfolding scan_keys
  scan_keys-place target size i [] e l l' h = refl
  scan_keys-place target size i (k ∷ ks) e l l' (q, h) =
      chain _ (key_bytes-node i size (omega arith) (omega arith) e)
        (elim (Ordering-cases (memcmp (take size target) (take size k))) [
          | inl f ↦ rw (q, place, f) refl
          | inr (inl f) ↦ rw (q, place, f) refl
          | inr (inr f) ↦
              rw (q, place, f)
                (scan_keys-place target size (i + 1) ks e (omega arith) (omega arith) h)
        ])

-- The visit of each child gives the answer to the search of its tree.
abbrev pub Visits :
    {A : Type 0} → (Optr → M A) → (Option (Optr × ℕ) → M A) → ℕ → List ℕ → Bytes → Branches → Type 0
Visits visit answer size target m (last t) = visit (optr_of t) m ≡ answer (search size t target) m
Visits visit answer size target m (branch t k bs) =
    (visit (optr_of t) m ≡ answer (search size t target) m) × Visits visit answer size target m bs

module _ {A : Type 0} (visit : Optr → M A) (answer : Option (Optr × ℕ) → M A) (m : Bytes) (s : Optr)
    (v : IsNode s) where
  descend_to :
      (i : ℕ) (t : Tree)
      → i < 4
      → i < m (address s + 66)
      → optr_at m (address s + 67 + i * 5) ≡ optr_of t
      → (child s i >>= λ c. elim c [ none ↦ answer none | some t' ↦ visit t' ]) m
        ≡ visit (optr_of t) m
  unfolding child
  descend_to i t h l e = chain _ (child_optr-node m s v i h l) (rw e refl)

  pub follow-search_in :
      (target : List ℕ) (size i : ℕ) (bs : Branches)
      → i + length (keys_of bs) ≤ 3
      → m (address s + 66) ≡ suc (i + length (keys_of bs))
      → HasChildren m s i bs
      → Visits visit answer size target m bs
      → follow visit
          (λ j. answer (some (s, j)))
          (answer none)
          s
          (place size target i (keys_of bs))
          m
        ≡ answer (search_in size s i bs target) m
  follow-search_in target size i (last t) l n c f =
      let e : pred16 (m (address s + 66)) ≡ i = omega (arith, n) in
      chain _ (child_optr_count-node m s v) (
        rw (e, search_in-last size s i t target) (descend_to i t (omega arith) (omega arith) c ∙ f))
  follow-search_in target size i (branch t k bs) l n (c, cs) (f, fs) =
      elim (Ordering-cases (memcmp (take size target) (take size k))) [
        | inl e ↦
            rw (search_in-branch size s i t target k bs, follow, place, e)
              (descend_to i t (omega arith) (omega arith) c ∙ f)
        | inr (inl e) ↦ rw (search_in-branch size s i t target k bs, follow, place, e) refl
        | inr (inr e) ↦
            rw (search_in-branch size s i t target k bs, place, e)
              (follow-search_in target size (i + 1) bs (omega arith) (omega arith) cs fs)
      ]

  none_of :
      (i : ℕ)
      → m (address s + 66) ≤ i
      → (child s i >>= λ c. elim c [ none ↦ answer none | some t ↦ visit t ]) m ≡ answer none m
  unfolding child
  none_of i l = chain _ (child_optr-null m s v i l) refl

  pub follow-scan :
      (target : List ℕ) (size i : ℕ) (ks : List (List ℕ))
      → m (address s + 66) ≡ 0
      → follow visit (λ j. answer (some (s, j))) (answer none) s (place size target i ks) m
        ≡ answer (scan size s target i ks) m
  follow-scan target size i [] z =
      chain _ (child_optr_count-node m s v) (rw z (none_of 65535 (omega (arith, z))))
  follow-scan target size i (k ∷ ks) z =
      elim (Ordering-cases (memcmp (take size target) (take size k))) [
        | inl e ↦ rw (follow, place, scan, e) (none_of i (omega (arith, z)))
        | inr (inl e) ↦ rw (follow, place, scan, e) refl
        | inr (inr e) ↦ rw (place, scan, e) (follow-scan target size (i + 1) ks z)
      ]
