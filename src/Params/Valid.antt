-- ===== src/Params/Valid.antt =====
-- src/params.rs: the check of `Capacity::new_unchecked`.
use ptab.Common.{
  ℕ, zero, suc, ◌^◌, ◌≤◌, ◌<◌, ◌≡◌, ◌∙◌, sym, inl, inr, Option-cases, Bool, true, false, ◌&&◌, ◌||◌,
  some, arith, ◌↔◌, leb, ◌==◌, ap,
}
use native.Mathlib.Decide.{ℕ_discrete, dec_lt}
use ptab.Params.Enum.{CapacityEnum, discriminant, transmute}
use ptab.Params.Capacity.{Capacity, min_capacity, max_capacity, as_usize, new_unchecked}
use ptab.Params.Rounding.{
  as_usize-pow, as_usize-bounds, exponent, exponent_bounds, new_unchecked-pow, pow-lt-word, min-eq,
  max-eq,
}

-- `is_power_of_two`, for a number of `w` bits.
unfoldable pub is_power_of_two : ℕ → ℕ → Bool
is_power_of_two zero value = false
is_power_of_two (suc w) value = let rest = is_power_of_two w value in value == 2 ^ w || rest

unfoldable pub is_valid : ℕ → ℕ → Bool
is_valid w value =
    is_power_of_two w value
    && leb (as_usize min_capacity) value
    && leb value (as_usize max_capacity)

transmute_value : (value : ℕ) (v : CapacityEnum) → transmute value ≡ some v → discriminant v ≡ value
unfolding transmute discriminant
transmute_value value v e = ground (arith, e)

pow_is_power : (w k : ℕ) → k < w → is_power_of_two w (2 ^ k) ≡ true
unfolding is_power_of_two
pow_is_power zero k h = absurd (omega arith)
pow_is_power (suc w) k h = elim (ℕ_discrete k w) [
  | yes last ↦ (let e : 2 ^ k ≡ 2 ^ w = ap (λ (i : ℕ). 2 ^ i) last in ground (arith, e))
  | no below ↦ (let rest = pow_is_power w k (omega arith) in ground (arith, rest))
]

power_is_pow : (w value : ℕ) → is_power_of_two w value ≡ true → (k : ℕ) × (k < w) × (value ≡ 2 ^ k)
unfolding is_power_of_two
power_is_pow zero value e = absurd cc
power_is_pow (suc w) value e = elim (ℕ_discrete value (2 ^ w)) [
  | yes last ↦ (w, omega arith, last)
  | no other ↦
      let (k, h, same) = power_is_pow w value (ground (arith, other, e)) in
      (k, omega (arith, h), same)
]

pow-le_reflects : (a b : ℕ) → 2 ^ a ≤ 2 ^ b → a ≤ b
pow-le_reflects a b h = elim (dec_lt b a) [
  | yes larger ↦ absurd (omega (arith, h, pow-lt-word a b larger))
  | no fine ↦ omega (arith, fine)
]

module _ (w value : ℕ) where
  valid_found :
      is_valid w value ≡ true
      → (c : Capacity) × (new_unchecked value ≡ some c) × (as_usize c ≡ value)
  unfolding is_valid
  valid_found e =
      let power : is_power_of_two w value ≡ true = ground (arith, e) in
      let low : 2 ^ 4 ≤ value = ground (arith, e, min-eq) in
      let high : value ≤ 2 ^ 27 = ground (arith, e, max-eq) in
      let (k, h, same) = power_is_pow w value power in
      let (c, found, value_eq) =
        new_unchecked-pow k (pow-le_reflects 4 k (omega (arith, low, same)))
          (pow-le_reflects k 27 (omega (arith, high, same))) in
      (c, ap new_unchecked same ∙ found, value_eq ∙ sym same)

  value_of : (c : Capacity) → new_unchecked value ≡ some c → as_usize c ≡ value
  unfolding new_unchecked as_usize
  value_of c found = elim (Option-cases (transmute value)) [
    | inl bad ↦ absurd (ground (arith, bad, found))
    | inr (v, e) ↦
        let same : v ≡ c.variant = ground (arith, e, found) in
        ap discriminant (sym same) ∙ transmute_value value v e
  ]

  found_valid : 32 ≤ w → (c : Capacity) → new_unchecked value ≡ some c → is_valid w value ≡ true
  unfolding is_valid
  found_valid wide c found =
      let same = value_of c found in
      let (low, high) = as_usize-bounds c in
      let (four, top) = exponent_bounds c in
      let power : is_power_of_two w value ≡ true =
        ap (is_power_of_two w) (sym same ∙ as_usize-pow c)
        ∙ pow_is_power w (exponent c) (omega arith) in
      ground (arith, power, same, low, high, min-eq, max-eq)

-- With a usize of at least 32 bits, is_valid holds of a value exactly if Capacity::new_unchecked
-- with it is no undefined behaviour and gives a capacity of this value.
pub is_valid_iff :
    (w value : ℕ)
    → 32 ≤ w
    → (is_valid w value ≡ true)
      ↔ ((c : Capacity) × (new_unchecked value ≡ some c) × (as_usize c ≡ value))
is_valid_iff w value wide = (valid_found w value, λ found. found_valid w value wide found.0 found.1)
