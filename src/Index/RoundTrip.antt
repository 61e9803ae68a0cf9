-- ===== src/Index/RoundTrip.antt =====
-- src/index.rs: the conversions between the abstract and the detached form, there and back.
use ptab.Common.{
  ℕ, ◌+◌, ◌-◌, ◌*◌, ◌/◌, ◌%◌, ◌^◌, ◌<◌, ◌≡◌, ap, ◌∙◌, sym, subst, arith, pow-pos, pow-add,
  div_fields, mod_fields, div_mod_fields, fields-lt,
}
use native.Mathlib.Nat.{mod-lt, mul_comm, div-div-eq-div-mul, div-lt_iff_lt-mul}
use ptab.Params.Rounding.{exponent, exponent_bounds}
use ptab.Params.Target.{word_bits, index_bits}
use ptab.Params.Derived.{Params, length_usize}
use ptab.Params.Geometry.{
  FitsLine, block_bits, word_bits-ge, length_usize-pow, length_usize-eq, length_usize-bounds,
}
use ptab.Index.Defs.{
  Detached, Abstract, Concrete, from_bits, detached_to_abstract, detached_to_concrete,
  abstract_to_concrete, abstract_to_detached,
}
use ptab.Index.Fields.{
  IsWord, lines, slots, concrete-eq, detached_concrete-eq, concrete-lt, detached-eq, abstract-eq,
  order-lt,
}

-- A number of three digits: `x` in base `m`, `y` in base `n`, and `g` on top.
module _ (m n g x y : ℕ) (hx : x < m) (hy : y < n) where
  low : (g * (m * n) + (y * m + x)) % m ≡ x
  low = ap (λ (t : ℕ). t % m) regroup ∙ mod_fields (g * n + y) x m hx
    where
      regroup : g * (m * n) + (y * m + x) ≡ (g * n + y) * m + x
      regroup = omega arith

  mid_up : (g * (m * n) + (y * m + x)) / m ≡ g * n + y
  mid_up = ap (λ (t : ℕ). t / m) regroup ∙ div_fields (g * n + y) x m hx
    where
      regroup : g * (m * n) + (y * m + x) ≡ (g * n + y) * m + x
      regroup = omega arith

  mid : (g * (m * n) + (y * m + x)) / m % n ≡ y
  mid = ap (λ (t : ℕ). t % n) mid_up ∙ mod_fields g y n hy

  top : (g * (m * n) + (y * m + x)) / (m * n) ≡ g
  top = div_fields g (y * m + x) (m * n) (omega (arith, fields-lt y x n m hy hx, mul_comm m n))

-- Exchanging the lower two digits.
exchange :
    (m n l g x y z : ℕ)
    → l ≡ m * n
    → x < m
    → y < n
    → z ≡ g * l + (y * m + x)
    → z / l * l + (z % m * n + z / m % n) ≡ g * l + (x * n + y)
exchange m n l g x y z split hx hy e =
    rw (e, split) (simp (low m n g x y hx hy, mid m n g x y hx hy, top m n g x y hx hy))

-- Every number has such digits.
pub three_digits : (m n l a : ℕ) → l ≡ m * n → a / l * l + (a / m % n * m + a % m) ≡ a
three_digits m n l a split = rw split (
    omega (
      arith,
      div_mod_fields a m,
      ap (λ (t : ℕ). t * m) (div_mod_fields (a / m) n),
      ap (λ (t : ℕ). t * (m * n)) (div-div-eq-div-mul a m n),
    ))

module _ (p : Params) (fits : FitsLine p) where
  pub length_split : length_usize p ≡ lines p * slots p
  length_split = length_usize-eq p fits

  length_split' : length_usize p ≡ slots p * lines p
  length_split' = length_split ∙ mul_comm (lines p) (slots p)

  pub line-lt : (x : ℕ) → x % lines p < lines p
  line-lt x = mod-lt x (pow-pos (block_bits p))

  pub slot-lt : (x : ℕ) → x % slots p < slots p
  slot-lt x = mod-lt x (pow-pos (index_bits p.target))

  generations : ℕ
  generations = 2 ^ (word_bits p.target - exponent p.length)

  word_split : 2 ^ word_bits p.target ≡ generations * length_usize p
  unfolding generations
  word_split =
      let (low, high) = exponent_bounds p.length in
      ap (λ (k : ℕ). 2 ^ k) (omega (arith, word_bits-ge p.target))
      ∙ pow-add (word_bits p.target - exponent p.length) (exponent p.length)
      ∙ ap (λ (t : ℕ). 2 ^ (word_bits p.target - exponent p.length) * t) (sym (length_usize-pow p))

  length_pos : 0 < length_usize p
  length_pos = let (low, high) = length_usize-bounds p in omega arith

  -- Any place below a generation of a word makes a word.
  pub same_generation :
      (x r : ℕ)
      → IsWord p x
      → r < length_usize p
      → IsWord p (x / length_usize p * length_usize p + r)
  same_generation x r h hr =
      let g-lt =
        (div-lt_iff_lt-mul {k = length_usize p} {x = x} {y = generations} length_pos).1
          (omega (arith, word_split)) in
      omega
        (arith, word_split, fields-lt (x / length_usize p) r generations (length_usize p) g-lt hr)

  pub detached-IsWord :
      (a : Abstract) → IsWord p a.source → IsWord p (abstract_to_detached p a).bits
  detached-IsWord a h =
      subst (IsWord p) (sym (detached-eq p fits a h))
        (same_generation a.source _ h (concrete-lt p fits a))

  pub abstract-IsWord :
      (d : Detached) → IsWord p d.bits → IsWord p (detached_to_abstract p d).source
  abstract-IsWord d h = subst (IsWord p) (sym (abstract-eq p fits d h)) (
      same_generation d.bits _ h (
        order-lt p fits (d.bits % slots p) (d.bits / slots p % lines p) (slot-lt d.bits)
          (line-lt (d.bits / slots p))))

  -- Where a cache line fits the table, the detached form of an abstract index that is a word
  -- names the same slot as the abstract index.
  pub concrete-of-detached :
      (a : Abstract)
      → IsWord p a.source
      → detached_to_concrete p (abstract_to_detached p a) ≡ abstract_to_concrete p a
  concrete-of-detached a h = ap (λ (t : ℕ). let c : Concrete = record { source = t } in c) places
    where
      places :
          (detached_to_concrete p (abstract_to_detached p a)).source
          ≡ (abstract_to_concrete p a).source
      places =
          detached_concrete-eq p fits (abstract_to_detached p a)
          ∙ ap (λ (t : ℕ). t % length_usize p) (detached-eq p fits a h)
          ∙ mod_fields (a.source / length_usize p) (abstract_to_concrete p a).source
              (length_usize p) (concrete-lt p fits a)

  -- Where a cache line fits the table, the detached form of an abstract index that is a word
  -- leads back to that index.
  pub abstract-of-detached :
      (a : Abstract) → IsWord p a.source → detached_to_abstract p (abstract_to_detached p a) ≡ a
  abstract-of-detached a h = ap (λ (t : ℕ). let c : Abstract = record { source = t } in c) sources
    where
      sources : (detached_to_abstract p (abstract_to_detached p a)).source ≡ a.source
      sources =
          abstract-eq p fits (abstract_to_detached p a) (detached-IsWord a h)
          ∙ exchange (slots p) (lines p) (length_usize p) (a.source / length_usize p)
              (a.source / lines p % slots p) (a.source % lines p) (abstract_to_detached p a).bits
              length_split' (slot-lt (a.source / lines p)) (line-lt a.source)
              (detached-eq p fits a h
                ∙ ap (λ (t : ℕ). a.source / length_usize p * length_usize p + t)
                    (concrete-eq p fits a))
          ∙ three_digits (lines p) (slots p) (length_usize p) a.source length_split

  -- Where a cache line fits the table, the abstract form of a detached index that is a word leads
  -- back to that index.
  pub detached-of-abstract :
      (d : Detached) → IsWord p d.bits → abstract_to_detached p (detached_to_abstract p d) ≡ d
  detached-of-abstract d h = ap from_bits bits_eq
    where
      bits_eq : (abstract_to_detached p (detached_to_abstract p d)).bits ≡ d.bits
      bits_eq =
          detached-eq p fits (detached_to_abstract p d) (abstract-IsWord d h)
          ∙ ap (λ (t : ℕ). (detached_to_abstract p d).source / length_usize p * length_usize p + t)
              (concrete-eq p fits (detached_to_abstract p d))
          ∙ exchange (lines p) (slots p) (length_usize p) (d.bits / length_usize p)
              (d.bits / slots p % lines p) (d.bits % slots p) (detached_to_abstract p d).source
              length_split (line-lt (d.bits / slots p)) (slot-lt d.bits) (abstract-eq p fits d h)
          ∙ three_digits (slots p) (lines p) (length_usize p) d.bits length_split'
