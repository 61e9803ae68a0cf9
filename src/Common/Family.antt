-- ===== src/Common/Family.antt =====
-- Families indexed by numbers: memory cells and counts over the first `n` of them.
use Prim.Native.Nat.{ℕ, zero, suc, ◌+◌, ◌≤◌, ◌<◌}
use mathlib.Core.Path.{◌≡◌, refl, ap}
use mathlib.Core.Logic.{◌≢◌}
use mathlib.Core.Bool.{Bool, true, false, not}
use native.Mathlib.Decide.{dec_lt}
use native.Mathlib.Omega.{arith}
use ptab.Common.Tests.{◌==◌, if◌then◌else◌, Bool-cases}
use mathlib.Core.Logic.{inl, inr}

abbrev pub update {ℓ} : {A : Type ℓ} → (ℕ → A) → ℕ → A → ℕ → A
update f i a j = if i == j then a else f j

pub update_self {ℓ} : {A : Type ℓ} (f : ℕ → A) (i : ℕ) (a : A) → update f i a i ≡ a
update_self f i a = ground arith

pub update_other {ℓ} :
    {A : Type ℓ} (f : ℕ → A) (i : ℕ) (a : A) (j : ℕ) → i ≢ j → update f i a j ≡ f j
update_other f i a j ne = ground arith

abbrev pub bit : Bool → ℕ
bit true = 1
bit false = 0

-- How many of the first `n` indices pass the test.
pub count : (ℕ → Bool) → ℕ → ℕ
count p zero = 0
count p (suc n) = bit (p n) + count p n

pub count-le : (p : ℕ → Bool) (n : ℕ) → count p n ≤ n
unfolding count
count-le p zero = omega arith
count-le p (suc n) = ground (arith, count-le p n)

pub count-ext : (p q : ℕ → Bool) (n : ℕ) → ((i : ℕ) → i < n → p i ≡ q i) → count p n ≡ count q n
unfolding count
count-ext p q zero h = refl
count-ext p q (suc n) h =
    ground (arith, h n (omega arith), count-ext p q n (λ i lt. h i (omega arith)))

-- Two tests that agree but for one index below `n`.
pub count-change :
    (p q : ℕ → Bool) (n i : ℕ)
    → i < n
    → ((j : ℕ) → j < n → j ≢ i → p j ≡ q j)
    → count p n + bit (q i) ≡ count q n + bit (p i)
unfolding count
count-change p q zero i lt h = absurd (omega arith)
count-change p q (suc n) i lt h = elim (dec_lt i n) [
  | yes below ↦ ground (
    arith,
    h n (omega arith) (omega arith),
    count-change p q n i below (λ j l ne. h j (omega arith) ne),
  )
  | no last ↦ ground (
    arith,
    count-ext p q n (λ j l. h j (omega arith) (omega arith)),
    (let e : i ≡ n = omega arith in e),
  )
]

-- Fewer than all: some index fails the test.
pub count-lt : (p : ℕ → Bool) (n : ℕ) → count p n < n → (i : ℕ) × (i < n) × (p i ≡ false)
unfolding count
count-lt p zero h = absurd (omega arith)
count-lt p (suc n) h = elim (Bool-cases (p n)) [
  | inl t ↦ let (i, lt, e) = count-lt p n (ground arith) in (i, omega arith, e)
  | inr f ↦ (n, omega arith, f)
]

-- More than none: some index passes it.
pub count-pos : (p : ℕ → Bool) (n : ℕ) → 0 < count p n → (i : ℕ) × (i < n) × (p i ≡ true)
unfolding count
count-pos p zero h = absurd (omega arith)
count-pos p (suc n) h = elim (Bool-cases (p n)) [
  | inl t ↦ (n, omega arith, t)
  | inr f ↦ let (i, lt, e) = count-pos p n (ground arith) in (i, omega arith, e)
]

pub count-all : (p : ℕ → Bool) (n : ℕ) → ((i : ℕ) → i < n → p i ≡ true) → count p n ≡ n
unfolding count
count-all p zero h = refl
count-all p (suc n) h = ground (arith, h n (omega arith), count-all p n (λ i lt. h i (omega arith)))

pub count-none : (p : ℕ → Bool) (n : ℕ) → ((i : ℕ) → i < n → p i ≡ false) → count p n ≡ 0
unfolding count
count-none p zero h = refl
count-none p (suc n) h =
    ground (arith, h n (omega arith), count-none p n (λ i lt. h i (omega arith)))

pub count-true : (p : ℕ → Bool) (n i : ℕ) → i < n → p i ≡ true → 0 < count p n
unfolding count
count-true p zero i lt e = absurd (omega arith)
count-true p (suc n) i lt e = elim (dec_lt i n) [
  | yes below ↦ omega (arith, count-true p n i below e)
  | no last ↦ let same : i ≡ n = omega arith in ground (arith, ap p same)
]

-- The first index apart from the others.
pub count_front : (p : ℕ → Bool) (n : ℕ) → count p (suc n) ≡ bit (p 0) + count (λ k. p (suc k)) n
unfolding count
count_front p zero = refl
count_front p (suc n) = omega (arith, count_front p n)

pub count_mono :
    (p q : ℕ → Bool) (n : ℕ) → ((i : ℕ) → i < n → bit (p i) ≤ bit (q i)) → count p n ≤ count q n
unfolding count
count_mono p q zero h = omega arith
count_mono p q (suc n) h =
    omega (arith, h n (omega arith), count_mono p q n (λ i lt. h i (omega arith)))

pub count-not : (p : ℕ → Bool) (n : ℕ) → count (λ i. not (p i)) n + count p n ≡ n
unfolding count
count-not p zero = refl
count-not p (suc n) = ground (arith, count-not p n)
