-- ===== src/Table/Probe.antt =====
-- src/table.rs: how the counters `next_id` and `free_id` go round the ring, across the wrap of `u32`.
use ptab.Common.{
  ℕ, suc, ◌+◌, ◌-◌, ◌*◌, ◌/◌, ◌%◌, ◌^◌, ◌≤◌, ◌<◌, ◌≡◌, ap, ◌∙◌, sym, arith, pow-add, div_mod_fields,
}
use native.Mathlib.Nat.{
  mod-mod_of_dvd, mod-eq_of_lt, add-mod-mod, mod-lt, mul-mod_left, dvd_of_mod-eq-zero,
  add-mul-mod_self_right,
}
use Prim.Native.Nat.{◌∣◌}
use ptab.Params.Rounding.{exponent, exponent_bounds}
use ptab.Params.Derived.{Params, length_usize}
use ptab.Params.Geometry.{FitsLine, length_usize-pow, length_usize-bounds}
use ptab.Index.Defs.{Concrete}
use ptab.Index.Fields.{concrete-lt}
use ptab.Index.Places.{order, concrete-order, same_slot_iff}
use ptab.Table.View.{place}

-- The counter after `k` more increments.
abbrev pub advance : ℕ → ℕ → ℕ
advance n k = (n + k) % 2 ^ 32

-- The slot that the counter reaches then.
abbrev pub probe : Params → ℕ → ℕ → ℕ
probe p n k = place p (advance n k)

pub advance-suc : (n k : ℕ) → advance (advance n 1) k ≡ advance n (suc k)
advance-suc n k = omega arith

pub advance_zero : (n : ℕ) → n < 2 ^ 32 → advance n 0 ≡ n
advance_zero n h = omega arith

pub advance-advance : (n j k : ℕ) → advance (advance n j) k ≡ advance n (j + k)
advance-advance n j k = omega arith

module _ (p : Params) where
  pub length_dvd : (w : ℕ) → 32 ≤ w → length_usize p ∣ 2 ^ w
  length_dvd w wide = dvd_of_mod-eq-zero (length_usize p) (
      ap (λ (t : ℕ). t % length_usize p) whole
      ∙ mul-mod_left (2 ^ (w - exponent p.length)) (length_usize p))
    where
      whole : 2 ^ w ≡ 2 ^ (w - exponent p.length) * length_usize p
      whole =
          let (low, high) = exponent_bounds p.length in
          let e : w ≡ w - exponent p.length + exponent p.length = omega arith in
          ap (λ (k : ℕ). 2 ^ k) e
          ∙ pow-add (w - exponent p.length) (exponent p.length)
          ∙ ap (λ (t : ℕ). 2 ^ (w - exponent p.length) * t) (sym (length_usize-pow p))

  -- How far the ring has to be gone round from `n` to the remainder `r`.
  distance : ℕ → ℕ → ℕ
  distance n r = (r + length_usize p - n % length_usize p) % length_usize p

  distance-lt : (n r : ℕ) → distance n r < length_usize p
  unfolding distance
  distance-lt n r = let (low, high) = length_usize-bounds p in mod-lt _ (omega arith)

  advance-distance : (n r : ℕ) → r < length_usize p → advance n (distance n r) % length_usize p ≡ r
  unfolding distance
  advance-distance n r h =
      mod-mod_of_dvd (length_usize p)
        (n + (r + length_usize p - n % length_usize p) % length_usize p)
        (length_dvd 32 (omega arith))
      ∙ add-mod-mod n (r + length_usize p - n % length_usize p) (length_usize p)
      ∙ ap (λ (t : ℕ). t % length_usize p) whole
      ∙ add-mul-mod_self_right r (n / length_usize p + 1) (length_usize p)
      ∙ mod-eq_of_lt h
    where
      whole :
          n + (r + length_usize p - n % length_usize p)
          ≡ r + (n / length_usize p + 1) * length_usize p
      whole =
          let (low, high) = length_usize-bounds p in
          omega
            (arith, div_mod_fields n (length_usize p), mod-lt n {m = length_usize p} (omega arith))

  pub place-lt : FitsLine p → (s : ℕ) → place p s < length_usize p
  place-lt fits s = concrete-lt p fits (record { source = s })

  -- Every slot is probed within one round.
  pub probe_reaches :
      (n c : ℕ)
      → FitsLine p
      → c < length_usize p
      → (k : ℕ) × (k < length_usize p) × (probe p n k ≡ c)
  probe_reaches n c fits h = (distance n r, distance-lt n r, same)
    where
      r : ℕ
      r = order p c % length_usize p

      meets : advance n (distance n r) % length_usize p ≡ order p c % length_usize p
      meets =
          advance-distance n r
            (mod-lt (order p c) (let (low, high) = length_usize-bounds p in omega arith))

      same : probe p n (distance n r) ≡ c
      same =
          ap (λ (x : Concrete). x.source)
            ((same_slot_iff p fits (record { source = advance n (distance n r) })
                (record { source = order p c })).1
              meets)
          ∙ concrete-order p fits c h
