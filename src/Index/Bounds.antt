-- ===== src/Index/Bounds.antt =====
-- src/index.rs: whether the conversions stay within the arrays. A line of more slots than the table
-- has leaves one block, whose mask lets larger indices through.
use ptab.Common.{
  ℕ, ◌+◌, ◌-◌, ◌*◌, ◌/◌, ◌^◌, ◌≤◌, ◌<◌, ◌≡◌, ◌↔◌, refl, ap, ◌∙◌, arith, some, and-zero,
  and_low_mask,
}
use native.Mathlib.Decide.{dec_le}
use native.Mathlib.Nat.{
  mod-eq_of_lt, div_self, zero-mul, zero-mod, div-one, zero-add, pow-le-pow_right,
}
use ptab.Common.Word.{next_multiple_of, trailing_ones-pow, trailing_ones}
use ptab.Params.Target.{
  pointer_size, word_bits, cache_line, cache_line_slots, index_bits, cache_line_slots-pow,
}
use ptab.Params.Derived.{
  Params, length_usize, isize_max, derive_blocks, blocks, id_mask_block, id_shift_index,
}
use ptab.Params.Geometry.{
  FitsLine, width_facts, length_usize-bounds, line_pos, word_room, id_mask_index-eq,
  id_shift_block-eq,
}
use ptab.Index.Defs.{Abstract, abstract_to_concrete}
use ptab.Index.Fields.{concrete-lt}

module _ (p : Params) (short : length_usize p < cache_line_slots p.target) where
  bytes-lt : length_usize p * pointer_size p.target < cache_line p.target
  bytes-lt =
      let (slots, line, low, high) = cache_line_slots-pow p.target in
      rw line (grind (arith, (width_facts p.target.pointer_width).2))

  bytes_pos : 0 < length_usize p * pointer_size p.target
  bytes_pos = grind (arith, (length_usize-bounds p).0, (width_facts p.target.pointer_width).2)

  line-le : cache_line p.target ≤ isize_max (word_bits p.target)
  line-le =
      let (slots, line, low, high) = cache_line_slots-pow p.target in
      rw line (
        (width_facts p.target.pointer_width).4 (cache_line_slots p.target) (
          omega (
            arith,
            slots,
            pow-le-pow_right {n = 2} (omega arith) {i = index_bits p.target} {j = 27} (omega arith),
          )))

  one_block : derive_blocks p ≡ some 1
  unfolding derive_blocks next_multiple_of
  one_block = ground (
    arith,
    bytes-lt,
    bytes_pos,
    line-le,
    mod-eq_of_lt bytes-lt,
    div_self (line_pos p),
    (width_facts p.target.pointer_width).3,
    ap (λ (n : ℕ). n / cache_line p.target) padded,
  )
    where
      padded :
          length_usize p * pointer_size p.target
            + (cache_line p.target - length_usize p * pointer_size p.target)
          ≡ cache_line p.target
      padded = omega (arith, bytes-lt)

  blocks-one : blocks p ≡ 1
  unfolding blocks
  blocks-one = rw one_block refl

  no_block_bits : (id_mask_block p ≡ 0) × (id_shift_index p ≡ 0)
  unfolding id_shift_index id_mask_block
  no_block_bits = (
    omega (arith, blocks-one),
    ap (λ (n : ℕ). trailing_ones (word_bits p.target) (n - 1)) blocks-one
        ∙ trailing_ones-pow (word_bits p.target) 0 (omega arith),
  )

  -- The first index of the second generation.
  escapes : (abstract_to_concrete p (record { source = length_usize p })).source ≡ length_usize p
  unfolding abstract_to_concrete
  escapes = simp (
    no_block_bits.0,
    no_block_bits.1,
    id_mask_index-eq p,
    id_shift_block-eq p,
    and-zero,
    and_low_mask,
    zero-mul,
    zero-mod,
    div-one,
    zero-add,
    mod-eq_of_lt in_line,
    mod-eq_of_lt in_word,
  )
    where
      in_line : length_usize p < 2 ^ index_bits p.target
      in_line = omega (arith, (cache_line_slots-pow p.target).0, short)

      in_word : length_usize p < 2 ^ word_bits p.target
      in_word = omega (
        arith,
        in_line,
        pow-le-pow_right {n = 2} (omega arith) {i = index_bits p.target} {j = word_bits p.target}
            (word_room p).1,
      )

-- Every abstract index names a slot below the length exactly if a cache line has at most as many
-- slots as the table.
pub in_bounds_iff :
    (p : Params)
    → FitsLine p ↔ ((a : Abstract) → (abstract_to_concrete p a).source < length_usize p)
in_bounds_iff p = (
  concrete-lt p,
  λ inside. elim (dec_le (cache_line_slots p.target) (length_usize p)) [
    | yes fits ↦ fits
    | no short ↦
        let lt : length_usize p < cache_line_slots p.target = omega arith in
        absurd (omega (arith, escapes p lt, inside (record { source = length_usize p })))
  ],
)
