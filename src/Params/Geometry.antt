-- ===== src/Params/Geometry.antt =====
-- The derived constants as powers of two, where a cache line fits the table.
use ptab.Common.{ℕ, ◌+◌, ◌-◌, ◌*◌, ◌^◌, ◌≤◌, ◌<◌, ◌≡◌, refl, ap, ◌∙◌, some, arith, pow-pos, pow-add}
use native.Mathlib.Nat.{mul-mod_left, mul-div_left, mul_assoc}
use ptab.Common.Word.{next_multiple_of, trailing_ones, trailing_ones-pow}
use native.Mathlib.Decide.{dec_lt}
use ptab.Params.Rounding.{
  exponent, pow-lt-word, as_usize-pow, exponent_bounds, as_usize-bounds, log2-eq-exponent,
}
use ptab.Params.Target.{
  Target, PointerWidth, bits32, bits64, bits, bytes, pointer_size, word_bits, cache_line,
  cache_line_slots, index_bits, cache_line_slots-pow,
}
use ptab.Params.Derived.{
  Params, length_usize, isize_max, derive_blocks, blocks, memory, derive_layout, id_mask_bits,
  id_mask_entry, id_mask_block, id_mask_index, id_shift_block, id_shift_index,
}

-- The table has at least the slots of one cache line.
abbrev pub FitsLine : Params → Type 0
FitsLine p = cache_line_slots p.target ≤ length_usize p

-- The base-2 logarithm of the number of blocks.
pub block_bits : Params → ℕ
block_bits p = exponent p.length - index_bits p.target

-- A table of the largest capacity fits the address space of either width.
pub width_facts :
    (t : PointerWidth)
    → (32 ≤ bits t)
      × (bits t ≤ 64)
      × (0 < bytes t)
      × (isize_max (bits t) < 2 ^ bits t)
      × ((n : ℕ) → n ≤ 2 ^ 27 → n * bytes t ≤ isize_max (bits t))
width_facts bits32 = (omega arith, omega arith, omega arith, omega arith, λ n h. omega arith)
width_facts bits64 = (omega arith, omega arith, omega arith, omega arith, λ n h. omega arith)

pub word_bits-ge : (t : Target) → 32 ≤ word_bits t
word_bits-ge t = (width_facts t.pointer_width).0

pub length_usize-pow : (p : Params) → length_usize p ≡ 2 ^ exponent p.length
unfolding length_usize
length_usize-pow p = as_usize-pow p.length

pub length_usize-bounds : (p : Params) → (16 ≤ length_usize p) × (length_usize p ≤ 2 ^ 27)
unfolding length_usize
length_usize-bounds p = as_usize-bounds p.length

module _ (p : Params) where
  pub bytes-le : length_usize p * pointer_size p.target ≤ isize_max (word_bits p.target)
  bytes-le = (width_facts p.target.pointer_width).4 (length_usize p) (length_usize-bounds p).1

  pub line_pos : 0 < cache_line p.target
  line_pos =
      let (slots, line, low, high) = cache_line_slots-pow p.target in
      grind
        (arith, line, slots, pow-pos (index_bits p.target), (width_facts p.target.pointer_width).2)

  pub id_mask_index-eq : id_mask_index p ≡ 2 ^ index_bits p.target - 1
  unfolding id_mask_index
  id_mask_index-eq = omega (arith, (cache_line_slots-pow p.target).0)

  pub word_room :
      (exponent p.length < word_bits p.target) × (index_bits p.target ≤ word_bits p.target)
  word_room =
      let (low, high) = exponent_bounds p.length in
      omega (arith, word_bits-ge p.target, (cache_line_slots-pow p.target).3)

  pub id_shift_block-eq : id_shift_block p ≡ index_bits p.target
  unfolding id_shift_block
  id_shift_block-eq =
      ap (trailing_ones (word_bits p.target)) id_mask_index-eq
      ∙ trailing_ones-pow (word_bits p.target) (index_bits p.target) word_room.1

module _ (p : Params) (fits : FitsLine p) where
  line_within : index_bits p.target ≤ exponent p.length
  line_within = elim (dec_lt (exponent p.length) (index_bits p.target)) [
    | yes more ↦
        let lt = pow-lt-word (index_bits p.target) (exponent p.length) more in
        absurd (omega (arith, length_usize-pow p, (cache_line_slots-pow p.target).0))
    | no fine ↦ omega arith
  ]

  -- The exponent of the capacity is that of the blocks and that of a line together.
  pub exponent_split : exponent p.length ≡ block_bits p + index_bits p.target
  unfolding block_bits
  exponent_split = omega (arith, line_within)

  pub length_usize-eq : length_usize p ≡ 2 ^ block_bits p * 2 ^ index_bits p.target
  length_usize-eq =
      length_usize-pow p
      ∙ ap (λ (k : ℕ). 2 ^ k) exponent_split
      ∙ pow-add (block_bits p) (index_bits p.target)

  bytes_eq : length_usize p * pointer_size p.target ≡ 2 ^ block_bits p * cache_line p.target
  bytes_eq =
      let (slots, line, low, high) = cache_line_slots-pow p.target in
      simp (length_usize-eq, line, slots, mul_assoc)

  pub derive_blocks-eq : derive_blocks p ≡ some (2 ^ block_bits p)
  unfolding derive_blocks next_multiple_of
  derive_blocks-eq = ground (
    arith,
    bytes_eq,
    bytes-le p,
    line_pos p,
    mul-mod_left (2 ^ block_bits p) (cache_line p.target),
    mul-div_left (2 ^ block_bits p) (line_pos p),
    pow-pos (block_bits p),
    pow-pos (word_bits p.target),
    (width_facts p.target.pointer_width).3,
  )

  pub blocks-eq : blocks p ≡ 2 ^ block_bits p
  unfolding blocks
  blocks-eq = rw (derive_blocks-eq) refl

  -- Where a cache line fits the table, the blocks hold as many slots as the table has.
  pub blocks-mul-slots : blocks p * cache_line_slots p.target ≡ length_usize p
  blocks-mul-slots = simp (blocks-eq, length_usize-eq, (cache_line_slots-pow p.target).0)

  pub memory-eq : memory p ≡ length_usize p * pointer_size p.target
  unfolding memory
  memory-eq = simp (blocks-eq, bytes_eq)

  -- Where a cache line fits the table, the derivation of the layout does not stop the build: its
  -- size is the length times the size of a pointer and its alignment is a cache line.
  pub derive_layout-eq :
      derive_layout p
      ≡ some (record { size = length_usize p * pointer_size p.target; align = cache_line p.target })
  unfolding derive_layout
  derive_layout-eq = ground (arith, memory-eq, room)
    where
      room : 0 < length_usize p * pointer_size p.target
      room = grind (arith, (length_usize-bounds p).0, (width_facts p.target.pointer_width).2)

  pub id_mask_bits-eq : id_mask_bits p ≡ exponent p.length
  unfolding id_mask_bits
  id_mask_bits-eq = log2-eq-exponent (word_bits p.target) p.length (word_bits-ge p.target)

  pub id_mask_entry-eq : id_mask_entry p ≡ 2 ^ exponent p.length - 1
  unfolding id_mask_entry
  id_mask_entry-eq = omega (arith, ap (λ (k : ℕ). 2 ^ k) id_mask_bits-eq)

  pub id_mask_block-eq : id_mask_block p ≡ 2 ^ block_bits p - 1
  unfolding id_mask_block
  id_mask_block-eq = omega (arith, blocks-eq)

  pub id_shift_index-eq : id_shift_index p ≡ block_bits p
  unfolding id_shift_index
  id_shift_index-eq =
      ap (trailing_ones (word_bits p.target)) id_mask_block-eq
      ∙ trailing_ones-pow (word_bits p.target) (block_bits p)
          (omega (arith, (word_room p).0, exponent_split))
