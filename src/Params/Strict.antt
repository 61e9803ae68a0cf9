-- ===== src/Params/Strict.antt =====
-- src/params.rs: the strict operations in the constants of `ParamsExt`, which stop the build where
-- they overflow.
use ptab.Common.{ℕ, ◌*◌, ◌^◌, ◌≤◌, ◌<◌, ◌≡◌, ap, arith, pow-pos}
use native.Mathlib.Decide.{dec_lt}
use ptab.Common.Word.{◌<<<◌}
use ptab.Params.Target.{index_bits, word_bits, cache_line, cache_line_slots, cache_line_slots-pow}
use ptab.Params.Rounding.{exponent, exponent_bounds, pow-lt-word}
use ptab.Params.Derived.{Params, isize_max, blocks, memory, id_mask_bits}
use ptab.Params.Geometry.{
  FitsLine, length_usize-bounds, word_bits-ge, memory-eq, bytes-le, id_mask_bits-eq,
  blocks-mul-slots,
}

module _ (p : Params) where
  line_slots-pos : 0 < cache_line_slots p.target
  line_slots-pos = omega (arith, (cache_line_slots-pow p.target).0, pow-pos (index_bits p.target))

  blocks-pos : FitsLine p → 0 < blocks p
  blocks-pos fits = elim (dec_lt 0 (blocks p)) [
    | yes some_blocks ↦ some_blocks
    | no none_left ↦
        let empty : blocks p ≡ 0 = omega arith in
        absurd (
          omega (
            arith,
            blocks-mul-slots p fits,
            length_usize-bounds p,
            ap (λ (n : ℕ). n * cache_line_slots p.target) empty,
          ))
  ]

  memory-le : FitsLine p → blocks p * cache_line p.target ≤ isize_max (word_bits p.target)
  unfolding memory
  memory-le fits = omega (arith, memory-eq p fits, bytes-le p)

  shift-lt : FitsLine p → 1 <<< id_mask_bits p < 2 ^ word_bits p.target
  shift-lt fits =
      let (low, high) = exponent_bounds p.length in
      omega (
        arith,
        ap (λ (k : ℕ). 2 ^ k) (id_mask_bits-eq p fits),
        pow-lt-word (word_bits p.target) (exponent p.length) (omega (arith, word_bits-ge p.target)),
      )

  -- Where a cache line fits the table, none of the strict operations in the derived constants
  -- overflows: there is a block, the blocks times a cache line are at most the largest isize, 1
  -- shifted by the bits of the mask is a word, and a cache line has a slot.
  pub strict_constants :
      FitsLine p
      → (0 < blocks p)
        × (blocks p * cache_line p.target ≤ isize_max (word_bits p.target))
        × (1 <<< id_mask_bits p < 2 ^ word_bits p.target)
        × (0 < cache_line_slots p.target)
  strict_constants fits = (blocks-pos fits, memory-le fits, shift-lt fits, line_slots-pos)
