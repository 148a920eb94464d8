-- ===== src/Cache.antt =====
-- miya_db/strage_manager/MMyISAM/components/page_table/cache_manager/: the second-chance list of
-- cache_table_LRU.cpp, the frames mapped by mapper/mapper.cpp, and the table of cache_table.cpp
-- that turns an overlay pointer into a place in a mapped frame.
-- The system's answers are a parameter: `Os` holds those that one call may ask for.
pub mod Clock
pub mod Convert
mod Tests
use miya_core.Base.{
  ℕ, zero, suc, ◌+◌, ◌-◌, ◌*◌, ◌%◌, ◌^◌, Bool, true, false, ◌&&◌, Option, none, some, ltb, ◌==◌,
  if◌then◌else◌,
}
use miya_core.Base.Fallible.{◌>>=◌}
use miya_core.Optr.{Optr, frame, offset}

-- CACHE_BLOCK_COUNT
abbrev pub cache_block_count : ℕ
cache_block_count = 3

-- An array, and a write to one place of it.
abbrev pub put {ℓ} : {A : Type ℓ} → (ℕ → A) → ℕ → A → ℕ → A
put f i v j = if j == i then v else f j

pub record Lru : Type 0 where
  pub invalid_cache_list : ℕ → Bool
  pub reference_ptr : ℕ

-- void LRU::incrementReferencePtr()
unfoldable pub increment_reference_ptr : Lru → Lru
increment_reference_ptr l = record {
  invalid_cache_list = put l.invalid_cache_list l.reference_ptr false;
  reference_ptr = (l.reference_ptr + 1) % cache_block_count;
}

-- void LRU::reference( unsigned short idx )
unfoldable pub reference : Lru → ℕ → Lru
reference l idx = record l { invalid_cache_list = put l.invalid_cache_list idx true }

-- The loop of LRU::targetOutPage from i on: `none` is a loop that outlasts its fuel.
unfoldable pub out_page_loop : ℕ → Lru → ℕ → Option ℕ
out_page_loop zero l i = none
out_page_loop (suc fuel) l i =
    let rest = out_page_loop fuel l (i + 1) in
    if l.invalid_cache_list (i % cache_block_count)
    then (if i + 1 == (l.reference_ptr + cache_block_count - 1) % cache_block_count
        then some l.reference_ptr
        else rest)
    else some (i % cache_block_count)

-- unsigned short LRU::targetOutPage(), with fuel for one round of the list
unfoldable pub target_out_page : Lru → Option ℕ
unfolding out_page_loop
target_out_page l = out_page_loop cache_block_count l l.reference_ptr

pub record Os : Type 1 where
  pub Ptr : Type 0
  pub nullptr : Ptr
  pub page_size : ℕ
  pub file_size : Option ℕ
  pub ftruncate : ℕ → Bool
  pub mmap : ℕ → Ptr

-- void* Mapper::map( unsigned int frameIdx )
unfoldable pub map_frame : (os : Os) → ℕ → os.Ptr
map_frame os frame_idx = elim os.file_size [
  | none ↦ os.nullptr
  | some size ↦
      let mapped =
        if frame_idx * 2 ^ 16 % os.page_size == 0
        then os.mmap (frame_idx * 2 ^ 16)
        else os.nullptr in
      if ltb size ((frame_idx + 1) * 2 ^ 16)
      then (if os.ftruncate ((frame_idx + 1) * 2 ^ 16) then mapped else os.nullptr)
      else mapped
]

module _ (Ptr : Type 0) where
  -- A short of the list of cached frames is its bit pattern.
  pub record CacheTable : Type 0 where
    pub cacheing_list : ℕ → ℕ
    pub mapping_list : ℕ → Ptr
    pub lru : Lru

module _ {Ptr : Type 0} where
  -- The loop of CacheTable::cacheFind; a short that is negative equals no frame.
  unfoldable pub cache_find : CacheTable Ptr → ℕ → ℕ → ℕ → Option ℕ
  cache_find c frame i zero = none
  cache_find c frame i (suc k) =
      let rest = cache_find c frame (i + 1) k in
      if ltb (c.cacheing_list i) (2 ^ 15) && c.cacheing_list i == frame then some i else rest

  -- CacheTable::CacheTable( int fd )
  unfoldable pub init : Ptr → CacheTable Ptr
  init nullptr = record {
    cacheing_list = λ i. 2 ^ 16 - 1;
    mapping_list = λ i. nullptr;
    lru = record { invalid_cache_list = λ i. false; reference_ptr = 0 };
  }

  -- int CacheTable::pageOut( unsigned short outIdx ), where the frame is unmapped too
  unfoldable pub page_out : Ptr → CacheTable Ptr → ℕ → CacheTable Ptr
  page_out nullptr c out_idx = record {
    cacheing_list = put c.cacheing_list out_idx (2 ^ 16 - 1);
    mapping_list = put c.mapping_list out_idx nullptr;
    lru = record c.lru { invalid_cache_list = put c.lru.invalid_cache_list out_idx false };
  }

  -- int CacheTable::pageIn( unsigned short outIdx , unsigned int inFrame ), of a mapped frame
  unfoldable pub page_in : Ptr → CacheTable Ptr → ℕ → ℕ → CacheTable Ptr
  page_in mapped c out_idx in_frame = record {
    cacheing_list = put c.cacheing_list out_idx (in_frame % 2 ^ 16);
    mapping_list = put c.mapping_list out_idx mapped;
    lru = record c.lru { invalid_cache_list = put c.lru.invalid_cache_list out_idx true };
  }

-- unsigned short CacheTable::pageFault( unsigned int frame )
unfoldable pub page_fault : (os : Os) → CacheTable os.Ptr → ℕ → Option (ℕ × CacheTable os.Ptr)
unfolding target_out_page page_out page_in map_frame
page_fault os c frame = do
  idx ← target_out_page c.lru
  some (idx, page_in (map_frame os frame) (page_out os.nullptr c idx) idx frame)

-- The frame's place in the table, after a page fault if it had none.
unfoldable pub locate : (os : Os) → CacheTable os.Ptr → ℕ → Option (ℕ × CacheTable os.Ptr)
unfolding cache_find page_fault
locate os c frame = elim (cache_find c frame 0 cache_block_count) [
  | some idx ↦ some (idx, c)
  | none ↦ page_fault os c frame
]

-- void* CacheTable::convert( optr *src ): the mapped frame, the offset in it, and the table left
unfoldable pub convert :
    (os : Os) → CacheTable os.Ptr → Optr → Option (os.Ptr × ℕ × CacheTable os.Ptr)
unfolding locate reference increment_reference_ptr
convert os c src = do
  f ← frame src
  (idx, c') ← locate os c f
  some (
    c'.mapping_list idx,
    offset src,
    record c' { lru = increment_reference_ptr (reference c'.lru idx) },
  )
