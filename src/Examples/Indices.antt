-- ===== src/Examples/Indices.antt =====
-- The theorems on capacities, indices, arrays and cells.
use ptab.Common.{◌^◌, ℕ, ◌*◌, ◌/◌, ◌%◌, ◌<◌, ◌≤◌, ◌≡◌, ◌≢◌, ◌↔◌, refl, arith, some, true}
use ptab.Common.Word.{◌<<<◌, next_multiple_of}
use ptab.Params.Capacity.{Capacity, new, new_unchecked, as_usize}
use ptab.Params.Target.{word_bits, cache_line, cache_line_slots, pointer_size}
use ptab.Params.Rounding.{IsRounded, new-IsRounded}
use ptab.Params.Derived.{
  isize_max, id_mask_bits, length_usize, blocks, derive_blocks, derive_layout,
}
use ptab.Params.Strict.{strict_constants}
use ptab.Params.Geometry.{derive_layout-eq}
use ptab.Index.Defs.{Abstract, detached_to_abstract, abstract_to_concrete, abstract_to_detached}
use ptab.Index.Fields.{IsWord}
use ptab.Index.RoundTrip.{abstract-of-detached, detached-of-abstract}
use ptab.Index.Places.{same_slot_iff, cache_line_distribution}
use ptab.Index.Order.{creation_order-lost}
use ptab.Index.Bounds.{in_bounds_iff}
use ptab.Array
use ptab.Array.{as_slice}
use ptab.Array.Laws.{as_slice-new, tabulated}
use ptab.Params.Valid.{is_valid, is_valid_iff}
use ptab.Examples.Fixtures.{medium, medium_fits}

four_blocks : blocks medium ≡ 4
unfolding blocks derive_blocks length_usize as_usize cache_line_slots next_multiple_of
four_blocks = refl

two_slots : 2 ≤ cache_line_slots medium.target
unfolding cache_line_slots
two_slots = omega arith

abbrev third : Abstract
third = record { source = 67 }

abbrev fourth : Abstract
fourth = record { source = 68 }

small-IsWord : (n : ℕ) → n < 1000 → IsWord medium n
small-IsWord n h = omega (arith, h)

new-IsRounded_example : (c : Capacity) × (new 64 1000 ≡ some c) × IsRounded 1000 c
new-IsRounded_example = new-IsRounded 64 1000 (omega arith)

derive_layout-eq_example :
    derive_layout medium
    ≡ some (record {
      size = length_usize medium * pointer_size medium.target;
      align = cache_line medium.target;
    })
derive_layout-eq_example = derive_layout-eq medium medium_fits

abstract-of-detached_example :
    detached_to_abstract medium (abstract_to_detached medium third) ≡ third
abstract-of-detached_example =
    abstract-of-detached medium medium_fits third (small-IsWord 67 (omega arith))

detached-of-abstract_example :
    abstract_to_detached medium (detached_to_abstract medium (record { bits = 112 }))
    ≡ record { bits = 112 }
detached-of-abstract_example =
    detached-of-abstract medium medium_fits (record { bits = 112 }) (small-IsWord 112 (omega arith))

same_slot_iff_example :
    (abstract_to_concrete medium third ≡ abstract_to_concrete medium (record { source = 3 }))
    ↔ (67 % length_usize medium ≡ 3 % length_usize medium)
same_slot_iff_example = same_slot_iff medium medium_fits third (record { source = 3 })

in_bounds_iff_example :
    (cache_line_slots medium.target ≤ length_usize medium)
    ↔ ((a : Abstract) → (abstract_to_concrete medium a).source < length_usize medium)
in_bounds_iff_example = in_bounds_iff medium

cache_line_distribution_example :
    (abstract_to_concrete medium third).source / cache_line_slots medium.target
    ≢ (abstract_to_concrete medium fourth).source / cache_line_slots medium.target
cache_line_distribution_example =
    cache_line_distribution medium third fourth medium_fits (omega arith)
      (omega (arith, four_blocks))

creation_order-lost_example :
    (abstract_to_detached medium (record { source = blocks medium })).bits
    < (abstract_to_detached medium (record { source = 1 })).bits
creation_order-lost_example =
    creation_order-lost medium medium_fits (omega (arith, four_blocks)) two_slots

strict_constants_example :
    (0 < blocks medium)
    × (blocks medium * cache_line medium.target ≤ isize_max (word_bits medium.target))
    × (1 <<< id_mask_bits medium < 2 ^ word_bits medium.target)
    × (0 < cache_line_slots medium.target)
strict_constants_example = strict_constants medium medium_fits

as_slice-new_example :
    as_slice medium (Array.new medium (λ i. i * i))
    ≡ some (tabulated (λ i. i * i) 0 (length_usize medium))
as_slice-new_example = as_slice-new (λ i. i * i) medium

is_valid_iff_example :
    (is_valid 64 128 ≡ true) ↔ ((c : Capacity) × (new_unchecked 128 ≡ some c) × (as_usize c ≡ 128))
is_valid_iff_example = is_valid_iff 64 128 (omega arith)
