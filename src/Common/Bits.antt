-- ===== src/Common/Bits.antt =====
-- `&` and `|` on words as arithmetic on fields, for every width.
use Prim.Native.Nat.{
  ℕ, zero, suc, ◌+◌, ◌-◌, ◌*◌, ◌/◌, ◌%◌, ◌^◌, ◌≤◌, ◌<◌, min, max, bit_and, bit_or, digits,
  bit_and-bitwise, bit_or-bitwise,
}
use mathlib.Core.Path.{◌≡◌, refl, ap}
use native.Mathlib.Nat.{pow-suc, suc-mul, mul_comm, mul-one, add-zero, mod-lt, div-lt_iff_lt-mul}
use native.Mathlib.Omega.{arith}
use ptab.Common.Arith.{pow-pos, pow-add, div_mod_fields}

-- Both operations are one recursion on binary digits; any two amounts of fuel that cover the
-- first number give the same digits.
module _ (z : ℕ → ℕ) (f : ℕ → ℕ → ℕ) where
  enough : (u v a b : ℕ) → a ≤ u → a ≤ v → digits z f u a b ≡ digits z f v a b
  enough zero zero zero b p q = refl
  enough zero (suc v) zero b p q = refl
  enough (suc u) zero zero b p q = refl
  enough (suc u) (suc v) zero b p q = refl
  enough (suc u) (suc v) (suc a) b p q =
      ap (λ (t : ℕ). t * 2 + f (suc a % 2) (b % 2))
        (enough u v (suc a / 2) (b / 2) (omega arith) (omega arith))
  enough zero v (suc a) b p q = absurd (omega arith)
  enough (suc u) zero (suc a) b p q = absurd (omega arith)

pub or_digit : (a b : ℕ) → bit_or a b ≡ bit_or (a / 2) (b / 2) * 2 + max (a % 2) (b % 2)
or_digit zero b = omega (arith, bit_or-bitwise 0 b, bit_or-bitwise 0 (b / 2))
or_digit (suc a) b = omega (
  arith,
  bit_or-bitwise (suc a) b,
  bit_or-bitwise (suc a / 2) (b / 2),
  enough (λ t. t) max a (suc a / 2) (suc a / 2) (b / 2) (omega arith) (omega arith),
)

pub and_digit : (a b : ℕ) → bit_and a b ≡ bit_and (a / 2) (b / 2) * 2 + min (a % 2) (b % 2)
and_digit zero b = omega (arith, bit_and-bitwise 0 b, bit_and-bitwise 0 (b / 2))
and_digit (suc a) b = omega (
  arith,
  bit_and-bitwise (suc a) b,
  bit_and-bitwise (suc a / 2) (b / 2),
  enough (λ t. zero) min a (suc a / 2) (suc a / 2) (b / 2) (omega arith) (omega arith),
)

double : (x k : ℕ) → x * 2 ^ suc k ≡ x * 2 ^ k * 2
double x k = omega (arith, ap (λ (t : ℕ). x * t) (pow-suc 2 k))

or-zero_upto : (u a : ℕ) → a ≤ u → bit_or a 0 ≡ a
or-zero_upto u zero h = refl
or-zero_upto zero (suc a) h = absurd (omega arith)
or-zero_upto (suc u) (suc a) h =
    omega (arith, or_digit (suc a) 0, or-zero_upto u (suc a / 2) (omega arith))

pub or-zero : (a : ℕ) → bit_or a 0 ≡ a
or-zero a = or-zero_upto a a (omega arith)

pub zero-or : (a : ℕ) → bit_or 0 a ≡ a
zero-or a = bit_or-bitwise 0 a

and-zero_upto : (u a : ℕ) → a ≤ u → bit_and a 0 ≡ 0
and-zero_upto u zero h = refl
and-zero_upto zero (suc a) h = absurd (omega arith)
and-zero_upto (suc u) (suc a) h =
    omega (arith, and_digit (suc a) 0, and-zero_upto u (suc a / 2) (omega arith))

pub and-zero : (a : ℕ) → bit_and a 0 ≡ 0
and-zero a = and-zero_upto a a (omega arith)

-- `|` acts on the digits above and below position `k` apart.
pub or_fields :
    (k x y r s : ℕ)
    → r < 2 ^ k
    → s < 2 ^ k
    → bit_or (x * 2 ^ k + r) (y * 2 ^ k + s) ≡ bit_or x y * 2 ^ k + bit_or r s
or_fields zero x y r s p q =
    let r_zero : r ≡ 0 = omega arith in
    let s_zero : s ≡ 0 = omega arith in simp (r_zero, s_zero, mul-one, add-zero)
or_fields (suc k) x y r s p q = ground (
  arith,
  or_digit (x * 2 ^ suc k + r) (y * 2 ^ suc k + s),
  or_digit r s,
  double x k,
  double y k,
  double (bit_or x y) k,
  pow-suc 2 k,
  or_fields k x y (r / 2) (s / 2) (omega (arith, pow-suc 2 k)) (omega (arith, pow-suc 2 k)),
)

-- So does `&`.
pub and_fields :
    (k x y r s : ℕ)
    → r < 2 ^ k
    → s < 2 ^ k
    → bit_and (x * 2 ^ k + r) (y * 2 ^ k + s) ≡ bit_and x y * 2 ^ k + bit_and r s
and_fields zero x y r s p q =
    let r_zero : r ≡ 0 = omega arith in
    let s_zero : s ≡ 0 = omega arith in simp (r_zero, s_zero, mul-one, add-zero)
and_fields (suc k) x y r s p q = ground (
  arith,
  and_digit (x * 2 ^ suc k + r) (y * 2 ^ suc k + s),
  and_digit r s,
  double x k,
  double y k,
  double (bit_and x y) k,
  pow-suc 2 k,
  and_fields k x y (r / 2) (s / 2) (omega (arith, pow-suc 2 k)) (omega (arith, pow-suc 2 k)),
)

and_ones : (k r : ℕ) → r < 2 ^ k → bit_and r (2 ^ k - 1) ≡ r
and_ones zero r h = rw (let e : r ≡ 0 = omega arith in e) refl
and_ones (suc k) r h = ground (
  arith,
  and_digit r (2 ^ suc k - 1),
  pow-suc 2 k,
  pow-pos k,
  and_ones k (r / 2) (omega (arith, pow-suc 2 k)),
)

-- A mask of `k` ones keeps the remainder by `2 ^ k`.
pub and_low_mask : (k a : ℕ) → bit_and a (2 ^ k - 1) ≡ a % 2 ^ k
and_low_mask k a = ground (
  arith,
  pow-pos k,
  div_mod_fields a (2 ^ k),
  and_fields k (a / 2 ^ k) 0 (a % 2 ^ k) (2 ^ k - 1),
  and-zero (a / 2 ^ k),
  and_ones k (a % 2 ^ k),
  mod-lt a {m = 2 ^ k} (pow-pos k),
)

complement_mask : (p q : ℕ) → 0 < p → 0 < q → p * q - 1 - (p - 1) ≡ (q - 1) * p + 0
complement_mask p zero hp hq = absurd (omega arith)
complement_mask zero (suc q) hp hq = absurd (omega arith)
complement_mask (suc p) (suc q) hp hq =
    omega (arith, ap (λ (t : ℕ). t * suc p) (let e : suc q - 1 ≡ q = omega arith in e), grown)
  where
    grown : suc p * suc q ≡ q * suc p + suc p
    grown = simp (mul_comm (suc p) (suc q), suc-mul)

-- The complement of such a mask, in a word of `k + m` bits, keeps the rest.
pub and_high_mask :
    (k m a : ℕ) → a < 2 ^ (k + m) → bit_and a (2 ^ (k + m) - 1 - (2 ^ k - 1)) ≡ a / 2 ^ k * 2 ^ k
and_high_mask k m a h = ground (
  arith,
  pow-pos k,
  pow-pos m,
  div_mod_fields a (2 ^ k),
  pow-add k m,
  and_fields k (a / 2 ^ k) (2 ^ m - 1) (a % 2 ^ k) 0,
  and-zero (a % 2 ^ k),
  and_ones m (a / 2 ^ k),
  mod-lt a {m = 2 ^ k} (pow-pos k),
  (div-lt_iff_lt-mul {k = 2 ^ k} {x = a} {y = 2 ^ m} (pow-pos k)).1,
  complement_mask (2 ^ k) (2 ^ m) (pow-pos k) (pow-pos m),
)
