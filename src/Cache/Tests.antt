-- ===== src/Cache/Tests.antt =====
-- The cache of frames on a system whose mappings are the offsets they show.
use miya_core.Base.{ℕ, ◌*◌, ◌/◌, ◌%◌, ◌^◌, ◌≡◌, refl, true, false, some, arith, if◌then◌else◌, ◌==◌}
use miya_core.Optr.{Optr}
use miya_core.Optr.Laws.{address, IsOptr}
use miya_core.Cache.{Os, Lru, CacheTable, init, convert, target_out_page}
use miya_core.Cache.Clock.{IsLru, IsVictim, target_out_page-IsVictim}
use miya_core.Cache.Convert.{Works, IsTable, init-IsTable, convert_lem}

abbrev linux : Os
linux = record {
  Ptr = ℕ;
  nullptr = 7;
  page_size = 2 ^ 12;
  file_size = some (3 * 2 ^ 16);
  ftruncate = λ n. true;
  mmap = λ a. a;
}

abbrev Shows : ℕ → ℕ → Type 0
Shows p f = p ≡ f * 2 ^ 16

linux-Works : Works linux Shows
linux-Works = record {
  size = 3 * 2 ^ 16;
  sized = refl;
  grows = λ n. refl;
  aligned = λ f. omega arith;
  maps = λ f. refl;
}

abbrev pointer : Optr
pointer = record { b0 = 0; b1 = 0; b2 = 5; b3 = 1; b4 = 7 }

pointer-IsOptr : IsOptr pointer
pointer-IsOptr = omega arith

abbrev empty : CacheTable ℕ
unfolding init
empty = init (7)

convert_example :
    (p : ℕ) × (c' : CacheTable ℕ) × (convert linux empty pointer
      ≡ some (p, address pointer % 2 ^ 16, c'))
    × Shows p (address pointer / 2 ^ 16)
    × IsTable linux Shows c'
unfolding empty init
convert_example =
    convert_lem linux Shows empty pointer linux-Works (init-IsTable linux Shows) pointer-IsOptr
      (omega arith)

abbrev used : Lru
used = record { invalid_cache_list = λ i. if i == 0 then false else true; reference_ptr = 1 }

used-IsLru : IsLru used
used-IsLru = record { in_range = omega arith; passed = refl }

target_out_page_example : (idx : ℕ) × (target_out_page used ≡ some idx) × IsVictim used idx
target_out_page_example = target_out_page-IsVictim used used-IsLru
