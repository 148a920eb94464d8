-- ===== src/Allocator/Ring.antt =====
-- A ring of control blocks stands for the list of them from the head on: the setters of the ring
-- heads (meta_block.cpp) as operations on that list.
use miya_core.Base.{ℕ, ◌+◌, ◌*◌, ◌<◌, ◌≡◌, refl, ◌≢◌, arith, some, List, [], ◌∷◌}
use miya_core.Base.Distinct.{Fresh, Distinct}
use miya_core.Memory.{Bytes}
use miya_core.Allocator.Meta.{set_head}
use miya_core.Allocator.Words.{Words, ptr, Rep}
use miya_core.Allocator.Access.{Returns}
use miya_core.Allocator.Rules.{block, InFile}
use miya_core.Allocator.Heads.{alone, pushed, set_head-alone, set_head-pushed}

-- The links from block x on, through the list and back to h.
unfoldable pub Chain : Words → ℕ → ℕ → List ℕ → Type 0
Chain w h x [] = (w (block x + 1) ≡ 5 * block h) × (w (block h) ≡ 5 * block x)
Chain w h x (y ∷ ys) =
    (w (block x + 1) ≡ 5 * block y) × (w (block y) ≡ 5 * block x) × Chain w h y ys

-- The ring whose head is the word k consists of these blocks, which are distinct.
unfoldable pub Ring : Words → ℕ → List ℕ → Type 0
Ring w k [] = w k ≡ 0
Ring w k (h ∷ bs) = (w k ≡ 5 * block h) × Chain w h h bs × Distinct (h ∷ bs)

unfoldable pub AllInFile : List ℕ → Type 0
AllInFile [] = Unit {0}
AllInFile (b ∷ bs) = InFile b × AllInFile bs

unfoldable pub last : ℕ → List ℕ → ℕ
last x [] = x
last x (y ∷ ys) = last y ys

pub last-prev :
    (w : Words) (h x : ℕ) (ys : List ℕ) → Chain w h x ys → w (block h) ≡ 5 * block (last x ys)
unfolding last Chain
last-prev w h x [] (a, b) = b
last-prev w h x (y ∷ ys) (a, b, c) = last-prev w h y ys c

pub last-InFile : (x : ℕ) (ys : List ℕ) → InFile x → AllInFile ys → InFile (last x ys)
unfolding last AllInFile
last-InFile x [] b bs = b
last-InFile x (y ∷ ys) b (c, cs) = last-InFile y ys c cs

pub last-ne : (t x : ℕ) (ys : List ℕ) → t ≢ x → Fresh t ys → t ≢ last x ys
unfolding last Fresh
last-ne t x [] ne f = ne
last-ne t x (y ∷ ys) ne (f, g) = last-ne t y ys f g

module _ (w : Words) (k h t : ℕ) (b : k < 20) (apart : t ≢ h) where
  rest-Chain :
      (l x : ℕ) (ys : List ℕ)
      → last x ys ≡ l
      → t ≢ x
      → Fresh t ys
      → Fresh h ys
      → Distinct (x ∷ ys)
      → Chain w h x ys
      → Chain (pushed w k h l t) t x ys
  unfolding last Fresh Distinct Chain
  rest-Chain l x [] e ne f g d c = (ground arith, ground arith)
  rest-Chain l x (y ∷ ys) e ne (f, f') (g, g') ((d, d'), d'') (c, c', c'') =
      let far : x ≢ last y ys = last-ne x y ys d d' in
      (ground arith, ground arith, rest-Chain l y ys e f f' g' d'' c'')

  pushed-Ring :
      (bs : List ℕ)
      → Fresh t bs
      → Ring w k (h ∷ bs)
      → Ring (pushed w k h (last h bs) t) k (t ∷ h ∷ bs)
  unfolding Ring Fresh Distinct Chain
  pushed-Ring bs fs (e, c, (d, ds)) =
      let far : t ≢ last h bs = last-ne t h bs apart fs in
      (
        ground arith,
        (ground arith, ground arith, rest-Chain (last h bs) h bs refl apart fs d (d, ds) c),
        ((apart, fs), (d, ds)),
      )

-- The setter of a ring's head in the managed area, on a ring that stands for a list of distinct
-- blocks below 2 ^ 24, leaves the ring that stands for the list with the new block, which is not
-- in it, in front.
pub set_head-Ring :
    {m : Bytes} {w : Words} (r : Rep m w) (k t : ℕ) (bs : List ℕ)
    → k < 20
    → InFile t
    → AllInFile bs
    → Fresh t bs
    → Ring w k bs
    → (w' : Words) × Returns tt w' (set_head (5 * k) (some (ptr (block t))) m) × Ring w' k (t ∷ bs)
unfolding Ring Fresh Distinct Chain AllInFile
set_head-Ring {w = w} r k t [] b it all f z = (
  alone w k t,
  set_head-alone r (5 * k) k refl b t it z,
  (ground arith, (ground arith, ground arith), (tt, tt)),
)
set_head-Ring {w = w} r k t (h ∷ bs) b it (ih, all) (f, fs) (e, c, d) = (
  pushed w k h (last h bs) t,
  set_head-pushed r (5 * k) k refl b h (last h bs) t ih (last-InFile h bs ih all) it f e
      (last-prev w h h bs c),
  pushed-Ring w k h t b f bs fs (e, c, d),
)
