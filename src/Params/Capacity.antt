-- ===== src/Params/Capacity.antt =====
-- src/params.rs: the type `Capacity`, its constructors and conversions, for a `usize` of `w` bits.
use ptab.Common.{ℕ, ◌%◌, ◌^◌, Option, none, some, ltb, if◌then◌else◌}
use ptab.Common.Word.{next_power_of_two, trailing_zeros}
use ptab.Params.Enum.{
  CapacityEnum, discriminant, transmute, capacity1_shl4, capacity1_shl20, capacity1_shl27,
}

pub record Capacity : Type 0 where
  pub variant : CapacityEnum

-- The bounds and the default of a release build.
abbrev pub min_capacity : Capacity
min_capacity = record { variant = capacity1_shl4 }

abbrev pub max_capacity : Capacity
max_capacity = record { variant = capacity1_shl27 }

abbrev pub default_capacity : Capacity
default_capacity = record { variant = capacity1_shl20 }

unfoldable pub as_usize : Capacity → ℕ
unfolding discriminant
as_usize c = discriminant c.variant

unfoldable pub as_u32 : Capacity → ℕ
unfolding discriminant
as_u32 c = discriminant c.variant % 2 ^ 32

-- The cast from `Capacity` to `NonZeroUsize` reads the discriminant.
unfoldable pub as_nonzero : Capacity → ℕ
unfolding discriminant
as_nonzero c = discriminant c.variant

unfoldable pub log2 : ℕ → Capacity → ℕ
unfolding as_nonzero
log2 w c = trailing_zeros w (as_nonzero c)

-- `none` is undefined behaviour: the value is that of no variant. A debug build asserts `is_valid`
-- (Params.Valid) first, which is left out here.
unfoldable pub new_unchecked : ℕ → Option Capacity
unfolding transmute
new_unchecked capacity = elim (transmute capacity) [
  | none ↦ none
  | some v ↦ some (record { variant = v })
]

unfoldable pub new : ℕ → ℕ → Option Capacity
new w value = elim (next_power_of_two w value) [
  | none ↦ some max_capacity
  | some capacity ↦
      if ltb capacity (as_usize min_capacity)
      then some min_capacity
      else if ltb (as_usize max_capacity) capacity
      then some max_capacity
      else new_unchecked capacity
]
