-- ===== src/Memory/Tests.antt =====
-- The copies of file bytes at concrete pointers.
use miya_core.Base.{◌+◌, ◌%◌, ◌≡◌, some, [], ◌∷◌, arith}
use miya_core.Optr.{Optr}
use miya_core.Optr.Laws.{address, IsNear}
use miya_core.Memory.{Bytes, copy_out, copy_in}
use miya_core.Memory.Laws.{read, write, copy_out-read, copy_in-write}

abbrev ramp : Bytes
ramp a = a % 256

-- Across the border of the first frame.
abbrev border : Optr
border = record { b0 = 0; b1 = 0; b2 = 0; b3 = 255; b4 = 254 }

border-IsNear : IsNear border
border-IsNear = record { optr = omega arith; near = omega arith }

copy_out_example : copy_out ramp border 0 6 ≡ some (read ramp (address border + 0) 6)
copy_out_example = copy_out-read ramp border 0 6 border-IsNear (omega arith)

copy_in_example :
    copy_in ramp border 0 (9 ∷ 8 ∷ 7 ∷ []) ≡ some (write ramp (address border + 0) (9 ∷ 8 ∷ 7 ∷ []))
copy_in_example = copy_in-write ramp border 0 (9 ∷ 8 ∷ 7 ∷ []) border-IsNear (omega arith)
