-- ===== src/Index/Order.antt =====
-- The order of the indices of a client against the order in which they are issued.
use ptab.Common.{
  ℕ, ◌+◌, ◌*◌, ◌/◌, ◌%◌, ◌≤◌, ◌<◌, ◌≡◌, ap, ◌∙◌, arith, div_fields, mod_fields, pow-pos,
}
use native.Mathlib.Nat.{div-eq_of_lt, mod-eq_of_lt}
use ptab.Params.Target.{cache_line_slots, cache_line_slots-pow}
use ptab.Params.Derived.{Params, length_usize, blocks}
use ptab.Params.Geometry.{FitsLine, blocks-eq, block_bits}
use ptab.Index.Defs.{abstract_to_detached}
use ptab.Index.Fields.{lines, slots, concrete-eq, detached-eq, length-le-word}
use ptab.Index.RoundTrip.{length_split}

module _ (p : Params) (fits : FitsLine p) where
  -- In the first generation the detached form is the slot.
  first_generation :
      (i : ℕ)
      → i < length_usize p
      → (abstract_to_detached p (record { source = i })).bits
        ≡ i % lines p * slots p + i / lines p % slots p
  first_generation i h = omega (
    arith,
    detached-eq p fits (record { source = i }) (omega (arith, length-le-word p fits)),
    ap (λ (g : ℕ). g * length_usize p) (div-eq_of_lt h),
    concrete-eq p fits (record { source = i }),
  )

  module _ (two_lines : 2 ≤ lines p) (two_slots : 2 ≤ slots p) where
    inside : lines p < length_usize p
    inside = grind (arith, length_split p fits, two_slots, two_lines)

    inside_one : 1 < length_usize p
    inside_one = omega (arith, inside)

    -- The first index of the second round goes to slot 1 of line 0.
    second_round : (abstract_to_detached p (record { source = lines p })).bits ≡ 1
    second_round =
        first_generation (lines p) inside
        ∙ grind (
          arith,
          div_fields 1 0 (lines p) (pow-pos (block_bits p)),
          mod_fields 1 0 (lines p) (pow-pos (block_bits p)),
          mod-eq_of_lt (let h : 1 < slots p = omega arith in h),
        )

    -- The second index goes to slot 0 of line 1.
    second_line : (abstract_to_detached p (record { source = 1 })).bits ≡ slots p
    second_line =
        first_generation 1 inside_one
        ∙ grind (
          arith,
          mod-eq_of_lt (let h : 1 < lines p = omega arith in h),
          div-eq_of_lt (let h : 1 < lines p = omega arith in h),
          mod-eq_of_lt (let h : 0 < slots p = omega arith in h),
        )

  -- Where a cache line has at least two slots and fits a table of at least two blocks, the
  -- detached form of abstract index blocks is less than the detached form of abstract index 1.
  pub creation_order-lost :
      2 ≤ blocks p
      → 2 ≤ cache_line_slots p.target
      → (abstract_to_detached p (record { source = blocks p })).bits
        < (abstract_to_detached p (record { source = 1 })).bits
  creation_order-lost two_lines two_slots =
      let lines_e = blocks-eq p fits in
      let slots_e = (cache_line_slots-pow p.target).0 in
      let more : 2 ≤ lines p = omega (arith, lines_e) in
      let wide : 2 ≤ slots p = omega (arith, slots_e) in
      let low : (abstract_to_detached p (record { source = blocks p })).bits ≡ 1 =
        ap (λ (n : ℕ). (abstract_to_detached p (record { source = n })).bits) lines_e
        ∙ second_round more wide in
      omega (arith, low, second_line more wide)
