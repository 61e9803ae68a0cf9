-- ===== src/Index/Fields.antt =====
-- The conversions as arithmetic. With `l` slots in a line, `b` lines and `n = b * l` slots, an
-- abstract index `(g * l + i) * b + k` of generation `g` is slot `i` of line `k`; its concrete
-- index is `k * l + i` and its detached form is `g * n + k * l + i`.
use ptab.Common.{
  ℕ, ◌+◌, ◌-◌, ◌*◌, ◌/◌, ◌%◌, ◌^◌, ◌≤◌, ◌<◌, ◌≡◌, ap, ◌∙◌, sym, subst, arith, bit_and, bit_or,
  pow-pos, fields-lt, and_low_mask, and_high_mask, or_fields, or-zero, zero-or,
}
use native.Mathlib.Nat.{mod-lt, mul_comm, mod-eq_of_lt, pow-le-pow_right}
use ptab.Common.Word.{word_max}
use ptab.Params.Rounding.{exponent, exponent_bounds}
use ptab.Params.Target.{word_bits, index_bits}
use ptab.Params.Derived.{Params, length_usize, id_mask_entry}
use ptab.Params.Geometry.{
  FitsLine, block_bits, word_bits-ge, length_usize-pow, length_usize-eq, id_mask_entry-eq,
  id_mask_block-eq, id_mask_index-eq, id_shift_block-eq, id_shift_index-eq,
}
use ptab.Index.Defs.{
  Detached, Abstract, detached_to_abstract, detached_to_concrete, abstract_to_concrete,
  abstract_to_detached,
}

-- A `usize`.
abbrev pub IsWord : Params → ℕ → Type 0
IsWord p x = x < 2 ^ word_bits p.target

-- The numbers of lines and of slots in a line.
abbrev pub lines : Params → ℕ
lines p = 2 ^ block_bits p

abbrev pub slots : Params → ℕ
slots p = 2 ^ index_bits p.target

-- `|` of a number of multiples of `2 ^ k` and one below.
or_disjoint : (k g r : ℕ) → r < 2 ^ k → bit_or (g * 2 ^ k) r ≡ g * 2 ^ k + r
or_disjoint k g r h = ground (arith, or_fields k g 0 0 r, or-zero g, zero-or r, pow-pos k)

-- Three fields, the middle one put in last.
or_between :
    (b c g i k : ℕ)
    → k < 2 ^ b
    → i < 2 ^ c
    → bit_or (g * (2 ^ b * 2 ^ c) + k) (i * 2 ^ b) ≡ g * (2 ^ b * 2 ^ c) + (i * 2 ^ b + k)
or_between b c g i k hk hi = ground (
  arith,
  pow-pos b,
  or_fields b (g * 2 ^ c) i k 0,
  or_disjoint c g i,
  or-zero k,
  ap (λ (t : ℕ). t * 2 ^ b) (or_disjoint c g i hi),
  (let e : g * (2 ^ b * 2 ^ c) ≡ g * 2 ^ c * 2 ^ b = omega arith in e),
)

module _ (p : Params) (fits : FitsLine p) where
  length_split : length_usize p ≡ lines p * slots p
  length_split = length_usize-eq p fits

  pub length-le-word : length_usize p ≤ 2 ^ word_bits p.target
  length-le-word =
      let (low, high) = exponent_bounds p.length in
      omega (
        arith,
        length_usize-pow p,
        pow-le-pow_right {n = 2} (omega arith) {i = exponent p.length} {j = word_bits p.target}
            (omega (arith, word_bits-ge p.target)),
      )

  -- Slot `i` of line `k` lies in the table.
  pub place-lt : (k i : ℕ) → k < lines p → i < slots p → k * slots p + i < length_usize p
  place-lt k i hk hi = omega (arith, fields-lt k i (lines p) (slots p) hk hi, length_split)

  -- Slot `i` of line `k` is number `i * lines + k` in the order of allocation.
  pub order-lt : (i k : ℕ) → i < slots p → k < lines p → i * lines p + k < length_usize p
  order-lt i k hi hk =
      omega
        (arith, fields-lt i k (slots p) (lines p) hi hk, length_split, mul_comm (lines p) (slots p))

  pub concrete-eq :
      (a : Abstract)
      → (abstract_to_concrete p a).source
        ≡ a.source % lines p * slots p + a.source / lines p % slots p
  unfolding abstract_to_concrete
  concrete-eq a =
      simp
        (
          id_mask_block-eq p fits,
          id_mask_index-eq p,
          id_shift_block-eq p,
          id_shift_index-eq p fits,
          and_low_mask,
        )
        (fold (a.source % lines p) (a.source / lines p % slots p)
          (mod-lt a.source (pow-pos (block_bits p)))
          (mod-lt (a.source / lines p) (pow-pos (index_bits p.target))))
    where
      fold :
          (k i : ℕ)
          → k < lines p
          → i < slots p
          → (k * slots p % 2 ^ word_bits p.target + i) % 2 ^ word_bits p.target ≡ k * slots p + i
      fold k i hk hi =
          let room : k * slots p + i < 2 ^ word_bits p.target =
            omega (arith, place-lt k i hk hi, length-le-word) in
          rw (mod-eq_of_lt {n = k * slots p} {m = 2 ^ word_bits p.target} (omega arith))
            (mod-eq_of_lt room)

  pub detached_concrete-eq :
      (d : Detached) → (detached_to_concrete p d).source ≡ d.bits % length_usize p
  unfolding detached_to_concrete
  detached_concrete-eq d =
      ap (bit_and d.bits) (id_mask_entry-eq p fits)
      ∙ and_low_mask (exponent p.length) d.bits
      ∙ ap (λ (t : ℕ). d.bits % t) (sym (length_usize-pow p))

  pub concrete-lt : (a : Abstract) → (abstract_to_concrete p a).source < length_usize p
  concrete-lt a = rw (concrete-eq a) (
      place-lt (a.source % lines p) (a.source / lines p % slots p)
        (mod-lt a.source (pow-pos (block_bits p)))
        (mod-lt (a.source / lines p) (pow-pos (index_bits p.target))))

  high_mask :
      (x : ℕ)
      → IsWord p x
      → bit_and x (word_max (word_bits p.target) - id_mask_entry p)
        ≡ x / length_usize p * length_usize p
  high_mask x h =
      rw (id_mask_entry-eq p fits, length_usize-pow p)
        (subst (λ (w : ℕ). x < 2 ^ w → bit_and x (2 ^ w - 1 - (2 ^ n - 1)) ≡ x / 2 ^ n * 2 ^ n)
          (sym split) (and_high_mask n (word_bits p.target - n) x) h)
    where
      n : ℕ
      n = exponent p.length

      split : word_bits p.target ≡ n + (word_bits p.target - n)
      split = let (low, high) = exponent_bounds p.length in omega (arith, word_bits-ge p.target)

  -- A generation and a place below it, put together by `|`.
  join : (g r : ℕ) → r < length_usize p → bit_or (g * length_usize p) r ≡ g * length_usize p + r
  join g r h =
      rw (length_usize-pow p) (or_disjoint (exponent p.length) g r (rw (length_usize-pow p) at h))

  pub detached-eq :
      (a : Abstract)
      → IsWord p a.source
      → (abstract_to_detached p a).bits
        ≡ a.source / length_usize p * length_usize p + (abstract_to_concrete p a).source
  unfolding abstract_to_detached
  detached-eq a h =
      rw (high_mask a.source h)
        (join (a.source / length_usize p) (abstract_to_concrete p a).source (concrete-lt a))

  pub abstract-eq :
      (d : Detached)
      → IsWord p d.bits
      → (detached_to_abstract p d).source
        ≡ d.bits / length_usize p * length_usize p
          + (d.bits % slots p * lines p + d.bits / slots p % lines p)
  unfolding detached_to_abstract
  abstract-eq d h =
      simp
        (
          high_mask d.bits h,
          id_mask_block-eq p fits,
          id_mask_index-eq p,
          id_shift_block-eq p,
          id_shift_index-eq p fits,
          and_low_mask,
          mod-eq_of_lt {n = d.bits % slots p * lines p} {m = 2 ^ word_bits p.target} room,
          join (d.bits / length_usize p) (d.bits / slots p % lines p) below,
        )
        (gather (d.bits / length_usize p) (d.bits % slots p) (d.bits / slots p % lines p) k-lt i-lt)
    where
      k-lt : d.bits / slots p % lines p < lines p
      k-lt = mod-lt (d.bits / slots p) (pow-pos (block_bits p))

      i-lt : d.bits % slots p < slots p
      i-lt = mod-lt d.bits (pow-pos (index_bits p.target))

      spread : d.bits % slots p * lines p + d.bits / slots p % lines p < length_usize p
      spread = order-lt (d.bits % slots p) (d.bits / slots p % lines p) i-lt k-lt

      below : d.bits / slots p % lines p < length_usize p
      below = omega (arith, spread)

      room : d.bits % slots p * lines p < 2 ^ word_bits p.target
      room = omega (arith, spread, length-le-word)

      gather :
          (g i k : ℕ)
          → k < lines p
          → i < slots p
          → bit_or (g * length_usize p + k) (i * lines p) ≡ g * length_usize p + (i * lines p + k)
      gather g i k hk hi =
          rw length_split (or_between (block_bits p) (index_bits p.target) g i k hk hi)
