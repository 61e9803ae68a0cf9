-- ===== src/Params/Enum.antt =====
-- src/params.rs: `Capacity`, a power of two from 2^4 to 2^27.
use Prim.Native.Nat.{ℕ}
use ptab.Common.{Option, none, some, ◌==◌, if◌then◌else◌}
use ptab.Common.Word.{◌<<<◌}

pub data CapacityEnum : Type 0 where
  capacity1_shl4 capacity1_shl5 capacity1_shl6 capacity1_shl7 : CapacityEnum
  capacity1_shl8 capacity1_shl9 capacity1_shl10 capacity1_shl11 : CapacityEnum
  capacity1_shl12 capacity1_shl13 capacity1_shl14 capacity1_shl15 : CapacityEnum
  capacity1_shl16 capacity1_shl17 capacity1_shl18 capacity1_shl19 : CapacityEnum
  capacity1_shl20 capacity1_shl21 capacity1_shl22 capacity1_shl23 : CapacityEnum
  capacity1_shl24 capacity1_shl25 capacity1_shl26 capacity1_shl27 : CapacityEnum

-- The value of a variant, which `as usize` reads.
unfoldable pub discriminant : CapacityEnum → ℕ
discriminant capacity1_shl4 = 1 <<< 4
discriminant capacity1_shl5 = 1 <<< 5
discriminant capacity1_shl6 = 1 <<< 6
discriminant capacity1_shl7 = 1 <<< 7
discriminant capacity1_shl8 = 1 <<< 8
discriminant capacity1_shl9 = 1 <<< 9
discriminant capacity1_shl10 = 1 <<< 10
discriminant capacity1_shl11 = 1 <<< 11
discriminant capacity1_shl12 = 1 <<< 12
discriminant capacity1_shl13 = 1 <<< 13
discriminant capacity1_shl14 = 1 <<< 14
discriminant capacity1_shl15 = 1 <<< 15
discriminant capacity1_shl16 = 1 <<< 16
discriminant capacity1_shl17 = 1 <<< 17
discriminant capacity1_shl18 = 1 <<< 18
discriminant capacity1_shl19 = 1 <<< 19
discriminant capacity1_shl20 = 1 <<< 20
discriminant capacity1_shl21 = 1 <<< 21
discriminant capacity1_shl22 = 1 <<< 22
discriminant capacity1_shl23 = 1 <<< 23
discriminant capacity1_shl24 = 1 <<< 24
discriminant capacity1_shl25 = 1 <<< 25
discriminant capacity1_shl26 = 1 <<< 26
discriminant capacity1_shl27 = 1 <<< 27

-- `transmute::<usize, CapacityEnum>`: no variant is undefined behaviour.
unfoldable pub transmute : ℕ → Option CapacityEnum
transmute value =
    if value == 1 <<< 4
    then some capacity1_shl4
    else if value == 1 <<< 5
    then some capacity1_shl5
    else if value == 1 <<< 6
    then some capacity1_shl6
    else if value == 1 <<< 7
    then some capacity1_shl7
    else if value == 1 <<< 8
    then some capacity1_shl8
    else if value == 1 <<< 9
    then some capacity1_shl9
    else if value == 1 <<< 10
    then some capacity1_shl10
    else if value == 1 <<< 11
    then some capacity1_shl11
    else if value == 1 <<< 12
    then some capacity1_shl12
    else if value == 1 <<< 13
    then some capacity1_shl13
    else if value == 1 <<< 14
    then some capacity1_shl14
    else if value == 1 <<< 15
    then some capacity1_shl15
    else if value == 1 <<< 16
    then some capacity1_shl16
    else if value == 1 <<< 17
    then some capacity1_shl17
    else if value == 1 <<< 18
    then some capacity1_shl18
    else if value == 1 <<< 19
    then some capacity1_shl19
    else if value == 1 <<< 20
    then some capacity1_shl20
    else if value == 1 <<< 21
    then some capacity1_shl21
    else if value == 1 <<< 22
    then some capacity1_shl22
    else if value == 1 <<< 23
    then some capacity1_shl23
    else if value == 1 <<< 24
    then some capacity1_shl24
    else if value == 1 <<< 25
    then some capacity1_shl25
    else if value == 1 <<< 26
    then some capacity1_shl26
    else if value == 1 <<< 27
    then some capacity1_shl27
    else none
