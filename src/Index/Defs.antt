-- ===== src/Index/Defs.antt =====
-- src/index.rs: `Detached`, `Abstract`, `Concrete` and the conversions. A `usize` has
-- `word_bits p.target` bits; a bit that a left shift moves out is lost.
use ptab.Common.{ℕ, ◌-◌, ◌%◌, ◌^◌, bit_and, bit_or, Bool, ◌==◌}
use ptab.Common.Word.{◌<<<◌, ◌>>>◌, word_max, wrapping_add}
use ptab.Params.Target.{word_bits}
use ptab.Params.Derived.{
  Params, id_mask_entry, id_mask_block, id_mask_index, id_shift_block, id_shift_index,
}

pub record Detached : Type 0 where
  pub bits : ℕ

abbrev pub from_bits : ℕ → Detached
from_bits b = record { bits = b }

abbrev pub into_bits : Detached → ℕ
into_bits d = d.bits

-- `internal_index!` declares the two types over one `usize`.
pub record Abstract : Type 0 where
  pub source : ℕ

pub record Concrete : Type 0 where
  pub source : ℕ

module _ (p : Params) where
  -- `usize` operations at the width of the target.
  abbrev shl : ℕ → ℕ → ℕ
  shl x k = (x <<< k) % 2 ^ word_bits p.target

  abbrev complement : ℕ → ℕ
  complement x = word_max (word_bits p.target) - x

  unfoldable pub detached_to_abstract : Detached → Abstract
  detached_to_abstract d =
      let value = bit_and (into_bits d) (complement (id_mask_entry p)) in
      let value' = bit_or value (bit_and (into_bits d >>> id_shift_block p) (id_mask_block p)) in
      let value'' =
        bit_or value' (shl (bit_and (into_bits d) (id_mask_index p)) (id_shift_index p)) in
      record { source = value'' }

  unfoldable pub detached_to_concrete : Detached → Concrete
  detached_to_concrete d = record { source = bit_and (into_bits d) (id_mask_entry p) }

  unfoldable pub abstract_to_concrete : Abstract → Concrete
  abstract_to_concrete a =
      let value = shl (bit_and a.source (id_mask_block p)) (id_shift_block p) in
      let value' =
        wrapping_add (word_bits p.target) value
          (bit_and (a.source >>> id_shift_index p) (id_mask_index p)) in
      record { source = value' }

  unfoldable pub abstract_to_detached : Abstract → Detached
  abstract_to_detached a =
      let index = bit_and a.source (complement (id_mask_entry p)) in
      let index' = bit_or index (abstract_to_concrete a).source in from_bits index'

  -- `debug_assert!` of `abstract_to_detached`.
  unfoldable pub round_trips : Abstract → Bool
  round_trips a = (detached_to_abstract (abstract_to_detached a)).source == a.source
