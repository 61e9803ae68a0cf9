-- ===== src/Params/Rounding.antt =====
-- src/params.rs: capacities as powers of two, and the rounding of `Capacity::new`.
use ptab.Common.{
  ℕ, zero, suc, ◌^◌, ◌≤◌, ◌<◌, ◌≡◌, refl, ◌∙◌, ◌⊎◌, inl, inr, Bool, true, false, ◌&&◌, ◌||◌, none,
  some, arith, ltb, ◌==◌, ==_iff, ap, pow-pos, Option-cases, ◌%◌,
}
use native.Mathlib.Decide.{dec_lt}
use native.Mathlib.Nat.{pow-suc, pow-le-pow_right}
use ptab.Common.Word.{
  next_power_of_two, power_from, power_from-cases, Below, trailing_zeros, trailing_zeros-pow,
}
use ptab.Params.Enum.{CapacityEnum, discriminant, transmute, capacity1_shl4}
use ptab.Params.Capacity.{
  Capacity, min_capacity, max_capacity, as_usize, as_u32, log2, new_unchecked, new,
}

exponent_of : CapacityEnum → ℕ
unfolding discriminant trailing_zeros
exponent_of v = trailing_zeros 32 (discriminant v)

discriminant-pow :
    (v : CapacityEnum)
    → (discriminant v ≡ 2 ^ exponent_of v) × (4 ≤ exponent_of v) × (exponent_of v ≤ 27)
unfolding discriminant exponent_of
discriminant-pow capacity1_shl4 = (refl, omega arith, omega arith)
discriminant-pow _ = (refl, omega arith, omega arith)

-- The base-2 logarithm of a capacity.
pub exponent : Capacity → ℕ
exponent c = exponent_of c.variant

pub as_usize-pow : (c : Capacity) → as_usize c ≡ 2 ^ exponent c
unfolding exponent as_usize
as_usize-pow c = (discriminant-pow c.variant).0

pub exponent_bounds : (c : Capacity) → (4 ≤ exponent c) × (exponent c ≤ 27)
unfolding exponent
exponent_bounds c = let (e, low, high) = discriminant-pow c.variant in (low, high)

pub pow-lt-word : (w k : ℕ) → k < w → 2 ^ k < 2 ^ w
pow-lt-word w k h =
    omega
      (arith, pow-suc 2 k, pow-pos k, pow-le-pow_right {n = 2} (omega arith) {i = suc k} {j = w} h)

pub as_usize-bounds : (c : Capacity) → (16 ≤ as_usize c) × (as_usize c ≤ 2 ^ 27)
as_usize-bounds c =
    let (low, high) = exponent_bounds c in
    omega (
      arith,
      as_usize-pow c,
      pow-le-pow_right {n = 2} (omega arith) low,
      pow-le-pow_right {n = 2} (omega arith) high,
    )

-- The cast to 32 bits loses nothing.
pub as_u32-eq-as_usize : (c : Capacity) → as_u32 c ≡ as_usize c
as_u32-eq-as_usize c =
    let bounds = as_usize-bounds c in unfold as_u32 as_usize in omega (arith, cut c bounds.1)
  where
    cut : (c : Capacity) → as_usize c ≤ 2 ^ 27 → as_usize c % 2 ^ 32 ≡ as_usize c
    cut c h = omega arith

-- `log2` is exact.
pub log2-eq-exponent : (w : ℕ) (c : Capacity) → 32 ≤ w → log2 w c ≡ exponent c
log2-eq-exponent w c h =
    let (low, high) = exponent_bounds c in
    opened
    ∙ ap (trailing_zeros w) (as_usize-pow c)
    ∙ trailing_zeros-pow w (exponent c) (omega arith)
  where
    opened : log2 w c ≡ trailing_zeros w (as_usize c)
    opened = unfold log2 as_usize in refl

-- Every power of two within the bounds is the value of a variant.
is_variant : ℕ → Bool
is_variant value = elim (transmute value) [ none ↦ false | some v ↦ discriminant v == value ]

all_variants : ℕ → Bool
all_variants zero = true
all_variants (suc k) = (ltb k 4 || is_variant (2 ^ k)) && all_variants k

all_variants_sound : (n k : ℕ) → all_variants n ≡ true → k < n → 4 ≤ k → is_variant (2 ^ k) ≡ true
unfolding all_variants
all_variants_sound zero k h lt low = absurd (omega arith)
all_variants_sound (suc n) k h lt low = elim (dec_lt k n) [
  | yes below ↦ all_variants_sound n k (ground arith) below low
  | no last ↦ let e : k ≡ n = omega arith in ground (arith, ap (λ (t : ℕ). is_variant (2 ^ t)) e)
]

is_variant_found :
    (value : ℕ)
    → is_variant value ≡ true
    → (c : Capacity) × (new_unchecked value ≡ some c) × (as_usize c ≡ value)
unfolding is_variant new_unchecked as_usize
is_variant_found value h = elim (Option-cases (transmute value)) [
  | inl e ↦ absurd (cc (rw (e, is_variant) at h))
  | inr (v, e) ↦ (record { variant = v }, rw (e, new_unchecked), same v (rw (e, is_variant) at h))
]
  where
    same : (v : CapacityEnum) → (discriminant v == value) ≡ true → discriminant v ≡ value
    same v h = (==_iff (discriminant v) value).0 h

pub new_unchecked-pow :
    (k : ℕ)
    → 4 ≤ k
    → k ≤ 27
    → (c : Capacity) × (new_unchecked (2 ^ k) ≡ some c) × (as_usize c ≡ 2 ^ k)
new_unchecked-pow k low high =
    is_variant_found (2 ^ k) (all_variants_sound 28 k table (omega arith) low)
  where
    table : all_variants 28 ≡ true
    table = unfold all_variants is_variant transmute discriminant in refl

-- `c` is the capacity that a request for `value` slots should get: within the bounds every
-- capacity that is large enough is at least `c`, and `c` itself is large enough, unless the request
-- is beyond all of them.
pub record IsRounded (value : ℕ) (c : Capacity) : Type 0 where
  pub large_enough : (value ≤ as_usize c) ⊎ ((c ≡ max_capacity) × (as_usize max_capacity < value))
  pub least : (d : Capacity) → value ≤ as_usize d → as_usize c ≤ as_usize d

pow-le_of : (j : ℕ) (d : Capacity) (v : ℕ) → Below 0 j v → v ≤ as_usize d → 2 ^ j ≤ as_usize d
pow-le_of j d v below h = elim (dec_lt (exponent d) j) [
  | yes larger ↦ absurd (omega (arith, below (exponent d) (omega arith) larger, as_usize-pow d))
  | no fine ↦ omega (
    arith,
    as_usize-pow d,
    pow-le-pow_right {n = 2} (omega arith) {i = j} {j = exponent d} (omega arith),
  )
]

pub min-eq : as_usize min_capacity ≡ 16
unfolding as_usize
min-eq = refl

pub max-eq : as_usize max_capacity ≡ 2 ^ 27
unfolding as_usize
max-eq = refl

min-IsRounded : (value : ℕ) → value ≤ 16 → IsRounded value min_capacity
min-IsRounded value h = record {
  large_enough = inl (omega (arith, min-eq));
  least = λ d _. omega (arith, min-eq, as_usize-bounds d);
}

max-IsRounded : (value : ℕ) → 2 ^ 27 < value → IsRounded value max_capacity
max-IsRounded value h = record {
  large_enough = inr (refl, omega (arith, max-eq));
  least = λ d enough. absurd (omega (arith, as_usize-bounds d));
}

-- `Capacity::new` on each outcome of the rounding to a power of two.
module _ (w value : ℕ) where
  new_overflow : next_power_of_two w value ≡ none → new w value ≡ some max_capacity
  unfolding new
  new_overflow e = ground arith

  new_small :
      {p : ℕ} → next_power_of_two w value ≡ some p → p < 16 → new w value ≡ some min_capacity
  unfolding new
  new_small {p} e h = ground (arith, min-eq)

  new_large :
      {p : ℕ} → next_power_of_two w value ≡ some p → 2 ^ 27 < p → new w value ≡ some max_capacity
  unfolding new
  new_large {p} e h = ground (arith, min-eq, max-eq)

  new_within :
      {p : ℕ}
      → next_power_of_two w value ≡ some p
      → 16 ≤ p
      → p ≤ 2 ^ 27
      → new w value ≡ new_unchecked p
  unfolding new
  new_within {p} e low high = ground (arith, min-eq, max-eq)

-- With a usize of at least 32 bits, Capacity::new returns for every value; the capacity is at
-- least the value, unless the value is above all capacities and the capacity is the largest, and
-- it is at most every capacity that is at least the value.
pub new-IsRounded :
    (w value : ℕ) → 32 ≤ w → (c : Capacity) × (new w value ≡ some c) × IsRounded value c
new-IsRounded w value wide = elim (power_from-cases w 0 value) [
  | inl (e, below) ↦ (
    max_capacity,
    new_overflow w value (opened ∙ e),
    max-IsRounded value (below 27 (omega arith) (omega arith)),
  )
  | inr (j, e, fits, below) ↦ power j e fits below
]
  where
    opened : next_power_of_two w value ≡ power_from w 0 value
    opened = unfold next_power_of_two in refl

    power :
        (j : ℕ)
        → power_from w 0 value ≡ some (2 ^ j)
        → value ≤ 2 ^ j
        → Below 0 j value
        → (c : Capacity) × (new w value ≡ some c) × IsRounded value c
    power j e fits below = elim (dec_lt j 4) [
      | yes small ↦
          let lt : 2 ^ j < 2 ^ 4 = pow-lt-word 4 j small in
          (min_capacity, new_small w value (opened ∙ e) lt, min-IsRounded value (omega arith))
      | no low ↦ elim (dec_lt 27 j) [
        | yes large ↦
            let lt : 2 ^ 27 < 2 ^ j = pow-lt-word j 27 large in
            (
              max_capacity,
              new_large w value (opened ∙ e) lt,
              max-IsRounded value (below 27 (omega arith) large),
            )
        | no high ↦
            let (c, found, value_eq) = new_unchecked-pow j (omega arith) (omega arith) in
            let bounds = as_usize-bounds c in
            (
              c,
              new_within w value (opened ∙ e) (omega arith) (omega arith) ∙ found,
              record {
                large_enough = inl (omega arith);
                least = λ d enough. omega (arith, pow-le_of j d value below enough);
              },
            )
      ]
    ]
