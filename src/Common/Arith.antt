-- ===== src/Common/Arith.antt =====
-- Quotients, remainders and powers of two at variables.
use Prim.Native.Nat.{ℕ, zero, suc, ◌+◌, ◌-◌, ◌*◌, ◌/◌, ◌%◌, ◌^◌, ◌≤◌, ◌<◌}
use mathlib.Core.Path.{◌≡◌, ap}
use mathlib.Core.Logic.{◌⊎◌, inl, inr}
use native.Mathlib.Decide.{dec_lt}
use native.Mathlib.Nat.{
  pow-suc, one-le-pow, mul-add-div_right, mul-add-mod_self_right, div-eq_of_lt, mod-eq_of_lt,
  div-add-mod', mod-eq-sub-mod,
}
use native.Mathlib.Omega.{arith}

pub pow-pos : (k : ℕ) → 0 < 2 ^ k
pow-pos k = one-le-pow k 2 (omega arith)

pub pow-add : (m n : ℕ) → 2 ^ (m + n) ≡ 2 ^ m * 2 ^ n
pow-add m zero = omega (arith, ap (λ (t : ℕ). 2 ^ t) (let e : m + 0 ≡ m = omega arith in e))
pow-add m (suc n) = omega (
  arith,
  ap (λ (t : ℕ). 2 ^ t) (let e : m + suc n ≡ suc (m + n) = omega arith in e),
  pow-suc 2 (m + n),
  pow-suc 2 n,
  ap (λ (t : ℕ). t * 2) (pow-add m n),
  ap (λ (t : ℕ). 2 ^ m * t) (pow-suc 2 n),
)

-- The digits of `q * m + r` in base `m`.
pub div_fields : (q r m : ℕ) → r < m → (q * m + r) / m ≡ q
div_fields q r m h = omega (arith, mul-add-div_right {m = m} (omega arith) q r, div-eq_of_lt h)

pub mod_fields : (q r m : ℕ) → r < m → (q * m + r) % m ≡ r
mod_fields q r m h = omega (arith, mul-add-mod_self_right q m r, mod-eq_of_lt h)

pub div_mod_fields : (a m : ℕ) → a / m * m + a % m ≡ a
div_mod_fields a m = div-add-mod' a m

-- A number of two digits fits the product of their bases.
pub fields-lt : (q r b m : ℕ) → q < b → r < m → q * m + r < b * m
fields-lt q r b m hq hr = grind arith

-- A sum of two numbers below `m` wraps at most once.
pub add-mod-cases :
    (x y m : ℕ) → x < m → y < m → ((x + y) % m ≡ x + y) ⊎ ((m ≤ x + y) × ((x + y) % m + m ≡ x + y))
add-mod-cases x y m hx hy = elim (dec_lt (x + y) m) [
  | yes small ↦ inl (mod-eq_of_lt small)
  | no large ↦ inr (
    omega arith,
    omega (
      arith,
      mod-eq-sub-mod {n = x + y} {m = m} (omega arith),
      mod-eq_of_lt {n = x + y - m} {m = m} (omega arith),
    ),
  )
]
