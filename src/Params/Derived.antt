-- ===== src/Params/Derived.antt =====
-- src/params.rs: the trait `Params` and the constants that `ParamsExt` derives from it. The `strict_`
-- operations and `panic_for_blocks` stop the build.
use ptab.Common.{ℕ, ◌-◌, ◌*◌, ◌/◌, ◌^◌, Option, none, some, ltb, ◌==◌, if◌then◌else◌}
use ptab.Common.Word.{checked, next_multiple_of, trailing_ones, ◌<<<◌}
use mathlib.Core.Option
use ptab.Params.Capacity.{Capacity, default_capacity, as_usize, log2, new}
use ptab.Params.Target.{Target, pointer_size, word_bits, cache_line, cache_line_slots}

pub record Params : Type 0 where
  pub target : Target
  pub length : Capacity

abbrev pub default_params : Target → Params
default_params t = record { target = t; length = default_capacity }

-- `ConstParams<N>`; `none` is undefined behaviour in `Capacity::new`.
abbrev pub const_params : Target → ℕ → Option Params
const_params t n = Option.map (λ c. record { target = t; length = c }) (new (word_bits t) n)

-- `P::LENGTH.as_usize()`
unfoldable pub length_usize : Params → ℕ
length_usize p = as_usize p.length

abbrev pub isize_max : ℕ → ℕ
isize_max w = 2 ^ (w - 1) - 1

infixl 5 ◌>>=◌
abbrev ◌>>=◌ : Option ℕ → (ℕ → Option ℕ) → Option ℕ
none >>= f = none
some x >>= f = f x

-- `none` is `panic_for_blocks`.
unfoldable pub derive_blocks : Params → Option ℕ
derive_blocks p = do
  mem_bytes ← checked (word_bits p.target) (length_usize p * pointer_size p.target)
  mem_align ← next_multiple_of (word_bits p.target) mem_bytes (cache_line p.target)
  if ltb (isize_max (word_bits p.target)) mem_align
      then none
      else let blocks = mem_align / cache_line p.target in if blocks == 0 then none else some blocks

-- A panic leaves no program, so any number serves there.
unfoldable pub blocks : Params → ℕ
blocks p = Option.get_or (derive_blocks p) 0

unfoldable pub memory : Params → ℕ
memory p = blocks p * cache_line p.target

-- The size and the alignment of `LAYOUT`.
pub record Layout : Type 0 where
  pub size : ℕ
  pub align : ℕ

-- `none` is the failed assertion.
unfoldable pub derive_layout : Params → Option Layout
derive_layout p =
    if memory p == 0 then none else some (record { size = memory p; align = cache_line p.target })

unfoldable pub id_mask_bits : Params → ℕ
id_mask_bits p = log2 (word_bits p.target) p.length

unfoldable pub id_mask_entry : Params → ℕ
id_mask_entry p = (1 <<< id_mask_bits p) - 1

unfoldable pub id_mask_block : Params → ℕ
id_mask_block p = blocks p - 1

unfoldable pub id_mask_index : Params → ℕ
id_mask_index p = cache_line_slots p.target - 1

unfoldable pub id_shift_block : Params → ℕ
id_shift_block p = trailing_ones (word_bits p.target) (id_mask_index p)

unfoldable pub id_shift_index : Params → ℕ
id_shift_index p = trailing_ones (word_bits p.target) (id_mask_block p)
