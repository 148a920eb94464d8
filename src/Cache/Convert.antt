-- ===== src/Cache/Convert.antt =====
-- CacheTable::convert finds the frame and the offset of a pointer, whatever the table holds.
use miya_core.Base.{
  ℕ, zero, suc, ◌+◌, ◌*◌, ◌/◌, ◌%◌, ◌^◌, ◌<◌, ◌≡◌, refl, subst, inl, inr, Bool-cases, true, some,
  arith, ◌==◌, ltb, Option-cases, ==_self,
}
use miya_core.Optr.{Optr}
use miya_core.Optr.Laws.{IsOptr, address, frame-offset}
use miya_core.Cache.{
  Os, CacheTable, map_frame, cache_find, init, page_out, page_in, page_fault, locate, convert,
  reference, increment_reference_ptr,
}
use miya_core.Cache.Clock.{IsLru, turn-IsLru, target_out_page-IsVictim}

module _ (os : Os) (Maps : os.Ptr → ℕ → Type 0) where
  -- The system maps what it is asked to: the file has a size and can grow, the page size divides
  -- the offsets of frames, and a mapping at an offset shows that frame.
  pub record Works : Type 0 where
    pub size : ℕ
    pub sized : os.file_size ≡ some size
    pub grows : (n : ℕ) → os.ftruncate n ≡ true
    pub aligned : (f : ℕ) → f * 2 ^ 16 % os.page_size ≡ 0
    pub maps : (f : ℕ) → Maps (os.mmap (f * 2 ^ 16)) f

  -- A place that names a frame shows that frame.
  pub record IsTable (c : CacheTable os.Ptr) : Type 0 where
    pub lru : IsLru c.lru
    pub shown : (i : ℕ) → c.cacheing_list i < 2 ^ 15 → Maps (c.mapping_list i) (c.cacheing_list i)

  pub init-IsTable : IsTable (init os.nullptr)
  unfolding init
  init-IsTable = record {
    lru = record { in_range = omega arith; passed = refl };
    shown = λ i h. absurd (omega arith);
  }

  pub map_frame-Maps : Works → (f : ℕ) → Maps (map_frame os f) f
  unfolding map_frame
  map_frame-Maps w f =
      rw (w.sized, w.aligned f, w.grows ((f + 1) * 2 ^ 16))
        (elim (Bool-cases (ltb w.size ((f + 1) * 2 ^ 16))) [
          | inl e ↦ rw e (w.maps f)
          | inr e ↦ rw e (w.maps f)
        ])

  cache_find-some :
      (c : CacheTable os.Ptr) (f i k j : ℕ)
      → cache_find c f i k ≡ some j
      → (c.cacheing_list j ≡ f) × (c.cacheing_list j < 2 ^ 15) × (j < i + k)
  unfolding cache_find
  cache_find-some c f i zero j h = absurd (ground arith)
  cache_find-some c f i (suc k) j h = ground (arith, cache_find-some c f (i + 1) k j)

  -- The new frame stands at its place, and the others are as they were.
  swap-IsTable :
      (c : CacheTable os.Ptr) (idx f : ℕ) (p : os.Ptr) (v : IsTable c)
      → Maps p f
      → f < 2 ^ 16
      → (j : ℕ) → (page_in p (page_out os.nullptr c idx) idx f).cacheing_list j < 2 ^ 15
      → Maps
          ((page_in p (page_out os.nullptr c idx) idx f).mapping_list j)
          ((page_in p (page_out os.nullptr c idx) idx f).cacheing_list j)
  unfolding page_in page_out
  swap-IsTable c idx f p v m b j h = elim (Bool-cases (j == idx)) [
    | inl e ↦ let low : f % 2 ^ 16 ≡ f = omega arith in rw (e, low) m
    | inr e ↦ rw e (v.shown j (rw e at h))
  ]

  -- What locate leaves: a place that shows the frame, in a table whose places show their frames.
  abbrev Located : ℕ → ℕ × CacheTable os.Ptr → Type 0
  Located f (idx, c) =
      Maps (c.mapping_list idx) f
      × (c.lru.reference_ptr < 3)
      × ((j : ℕ) → c.cacheing_list j < 2 ^ 15 → Maps (c.mapping_list j) (c.cacheing_list j))

  locate-Located :
      (c : CacheTable os.Ptr) (f : ℕ)
      → Works
      → IsTable c
      → f < 2 ^ 16
      → (r : ℕ × CacheTable os.Ptr) × (locate os c f ≡ some r) × Located f r
  unfolding locate
  locate-Located c f w v b = elim (Option-cases (cache_find c f 0 3)) [
    | inr (idx, e) ↦
        let (same, low, _) = cache_find-some c f 0 3 idx e in
        (
          (idx, c),
          rw (e, locate),
          (subst (Maps (c.mapping_list idx)) same (v.shown idx low), v.lru.in_range, v.shown),
        )
    | inl e ↦
        let (idx, out, _) = target_out_page-IsVictim c.lru v.lru in
        let p = map_frame os f in
        let m = map_frame-Maps w f in
        (
          (idx, page_in p (page_out os.nullptr c idx) idx f),
          rw (e, locate, page_fault, out),
          (rw (==_self idx) m, v.lru.in_range, swap-IsTable c idx f p v m b),
        )
  ]

  -- Where the system maps what it is asked to, converting a pointer below 2 ^ 32 yields its
  -- offset in a mapping that shows its frame, page fault or not, and the table left serves the
  -- next conversion.
  pub convert_lem :
      (c : CacheTable os.Ptr) (o : Optr)
      → Works
      → IsTable c
      → IsOptr o
      → address o < 2 ^ 32
      → (p : os.Ptr) × (c' : CacheTable os.Ptr) × (convert os c o
          ≡ some (p, address o % 2 ^ 16, c'))
        × Maps p (address o / 2 ^ 16)
        × IsTable c'
  unfolding convert
  convert_lem c o w v b h =
      let (fr, off) = frame-offset o b h in
      let ((idx, c1), e, (m, r, s)) = locate-Located c (address o / 2 ^ 16) w v (omega arith) in
      (
        c1.mapping_list idx,
        record c1 { lru = increment_reference_ptr (reference c1.lru idx) },
        rw (fr, e, off),
        m,
        record { lru = turn-IsLru c1.lru idx r; shown = s },
      )
