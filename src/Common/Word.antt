-- ===== src/Common/Word.antt =====
-- The operations of `usize` and `u32` that the program uses, over numbers with the width given.
use Prim.Native.Nat.{ℕ, zero, suc, ◌+◌, ◌-◌, ◌*◌, ◌/◌, ◌%◌, ◌^◌, ◌≤◌, ◌<◌}
use mathlib.Core.Path.{◌≡◌, refl, ap}
use mathlib.Core.Logic.{◌⊎◌, inl, inr}
use mathlib.Core.Option.{Option, none, some}
use native.Mathlib.Nat.{pow-suc}
use native.Mathlib.Decide.{dec_lt}
use native.Mathlib.Omega.{arith}
use ptab.Common.Tests.{ltb, leb, ◌==◌, if◌then◌else◌, Bool-cases}
use ptab.Common.Arith.{pow-pos}

infixl 66 ◌<<<◌ ◌>>>◌
abbrev pub ◌<<<◌ : ℕ → ℕ → ℕ
x <<< k = x * 2 ^ k

abbrev pub ◌>>>◌ : ℕ → ℕ → ℕ
x >>> k = x / 2 ^ k

-- The largest number of `w` bits.
abbrev pub word_max : ℕ → ℕ
word_max w = 2 ^ w - 1

abbrev pub wrapping_add : ℕ → ℕ → ℕ → ℕ
wrapping_add w a b = (a + b) % 2 ^ w

-- `-` stops at 0, so the modulus is added first; `b` is a number of `w` bits.
abbrev pub wrapping_sub : ℕ → ℕ → ℕ → ℕ
wrapping_sub w a b = (a + 2 ^ w - b) % 2 ^ w

abbrev pub checked : ℕ → ℕ → Option ℕ
checked w a = if ltb a (2 ^ w) then some a else none

-- `checked_next_multiple_of`
unfoldable pub next_multiple_of : ℕ → ℕ → ℕ → Option ℕ
next_multiple_of w a m = if a % m == 0 then some a else checked w (a + (m - a % m))

-- The least `2 ^ i` from `v` on with `k ≤ i < k + fuel`.
unfoldable pub power_from : ℕ → ℕ → ℕ → Option ℕ
power_from zero k v = none
power_from (suc fuel) k v =
    let rest = power_from fuel (suc k) v in if leb v (2 ^ k) then some (2 ^ k) else rest

-- `checked_next_power_of_two`
unfoldable pub next_power_of_two : ℕ → ℕ → Option ℕ
unfolding power_from
next_power_of_two w v = power_from w 0 v

-- The width bounds the loop, so `trailing_zeros` of 0 is the width.
unfoldable pub trailing_zeros : ℕ → ℕ → ℕ
trailing_zeros zero x = 0
trailing_zeros (suc w) x = let rest = trailing_zeros w (x / 2) in if x % 2 == 0 then suc rest else 0

unfoldable pub trailing_ones : ℕ → ℕ → ℕ
trailing_ones zero x = 0
trailing_ones (suc w) x = let rest = trailing_ones w (x / 2) in if x % 2 == 1 then suc rest else 0

pub trailing_zeros-pow : (w k : ℕ) → k < w → trailing_zeros w (2 ^ k) ≡ k
unfolding trailing_zeros
trailing_zeros-pow zero k h = absurd (omega arith)
trailing_zeros-pow (suc w) zero h = refl
trailing_zeros-pow (suc w) (suc k) h = ground (
  arith,
  pow-suc 2 k,
  trailing_zeros-pow w k,
  ap (trailing_zeros w) (let e : 2 ^ suc k / 2 ≡ 2 ^ k = omega (arith, pow-suc 2 k) in e),
)

pub trailing_ones-pow : (w k : ℕ) → k ≤ w → trailing_ones w (2 ^ k - 1) ≡ k
unfolding trailing_ones
trailing_ones-pow zero zero h = refl
trailing_ones-pow zero (suc k) h = absurd (omega arith)
trailing_ones-pow (suc w) zero h = refl
trailing_ones-pow (suc w) (suc k) h = ground (
  arith,
  pow-suc 2 k,
  pow-pos k,
  trailing_ones-pow w k,
  ap (trailing_ones w)
      (let e : (2 ^ suc k - 1) / 2 ≡ 2 ^ k - 1 = omega (arith, pow-suc 2 k, pow-pos k) in e),
)

-- What `power_from` finds: the first power that is large enough, or that there is none.
abbrev pub Below : ℕ → ℕ → ℕ → Type 0
Below k j v = (i : ℕ) → k ≤ i → i < j → 2 ^ i < v

pub power_from-cases :
    (fuel k v : ℕ)
    → ((power_from fuel k v ≡ none) × Below k (k + fuel) v)
      ⊎ ((j : ℕ) × (power_from fuel k v ≡ some (2 ^ j)) × (v ≤ 2 ^ j) × Below k j v)
unfolding power_from
power_from-cases zero k v = inl (refl, λ i p q. absurd (omega arith))
power_from-cases (suc fuel) k v = elim (Bool-cases (leb v (2 ^ k))) [
  | inl fits ↦ inr (k, ground arith, ground arith, λ i p q. absurd (omega arith))
  | inr small ↦ elim (power_from-cases fuel (suc k) v) [
    | inl (e, below) ↦
        inl (ground arith, extend (k + suc fuel) (ground arith) (λ i p q. below i p (omega arith)))
    | inr (j, e, fits, below) ↦ inr (j, ground arith, fits, extend j (ground arith) below)
  ]
]
  where
    extend : (j : ℕ) → 2 ^ k < v → Below (suc k) j v → Below k j v
    extend j first below i p q = elim (dec_lt k i) [
      | yes later ↦ below i later q
      | no now ↦ rw (let e : i ≡ k = omega arith in e) first
    ]
