-- ===== src/Index/Places.antt =====
-- src/index.rs: which slot an index names.
use ptab.Common.{
  ℕ, ◌+◌, ◌*◌, ◌/◌, ◌%◌, ◌<◌, ◌≡◌, ◌≢◌, ◌↔◌, ap, ap₂, ◌∙◌, sym, arith, pow-pos, div_fields,
  mod_fields, div_mod_fields,
}
use native.Mathlib.Nat.{div-lt_iff_lt-mul, mod-eq_of_lt}
use native.Mathlib.Decide.{dec_lt}
use ptab.Params.Target.{index_bits, cache_line_slots, cache_line_slots-pow}
use ptab.Params.Derived.{Params, length_usize, blocks}
use ptab.Params.Geometry.{FitsLine, blocks-eq}
use ptab.Index.Defs.{Abstract, Concrete, abstract_to_concrete}
use ptab.Index.Fields.{lines, slots, concrete-eq, order-lt}
use ptab.Index.RoundTrip.{length_split, line-lt, slot-lt, three_digits}

abbrev pub to_concrete : ℕ → Concrete
to_concrete c = record { source = c }

-- The place of slot `c` in the order of allocation.
abbrev pub order : Params → ℕ → ℕ
order p c = c % slots p * lines p + c / slots p

module _ (p : Params) (fits : FitsLine p) where
  rem-eq : (x : ℕ) → x % length_usize p ≡ x / lines p % slots p * lines p + x % lines p
  rem-eq x =
      ap (λ (t : ℕ). t % length_usize p)
        (sym (three_digits (lines p) (slots p) (length_usize p) x (length_split p fits)))
      ∙ mod_fields (x / length_usize p) (x / lines p % slots p * lines p + x % lines p)
          (length_usize p)
          (order-lt p fits (x / lines p % slots p) (x % lines p) (slot-lt p fits (x / lines p))
            (line-lt p fits x))

  -- A slot gives the index back, up to its generation.
  pub order-concrete :
      (a : Abstract) → order p (abstract_to_concrete p a).source ≡ a.source % length_usize p
  order-concrete a =
      rw (concrete-eq p fits a, rem-eq a.source)
        (ap₂ (λ (x y : ℕ). x * lines p + y)
          (mod_fields (a.source % lines p) (a.source / lines p % slots p) (slots p)
            (slot-lt p fits (a.source / lines p)))
          (div_fields (a.source % lines p) (a.source / lines p % slots p) (slots p)
            (slot-lt p fits (a.source / lines p))))

  concrete-rem :
      (a : Abstract)
      → (abstract_to_concrete p a).source
        ≡ a.source % length_usize p % lines p * slots p + a.source % length_usize p / lines p
  concrete-rem a =
      rw (concrete-eq p fits a, rem-eq a.source)
        (ap₂ (λ (x y : ℕ). x * slots p + y)
          (sym (
            mod_fields (a.source / lines p % slots p) (a.source % lines p) (lines p)
              (line-lt p fits a.source)))
          (sym (
            div_fields (a.source / lines p % slots p) (a.source % lines p) (lines p)
              (line-lt p fits a.source))))

  -- Where a cache line fits the table, two abstract indices name the same slot exactly if they
  -- are equal modulo the length.
  pub same_slot_iff :
      (a b : Abstract)
      → (abstract_to_concrete p a ≡ abstract_to_concrete p b)
        ↔ (a.source % length_usize p ≡ b.source % length_usize p)
  same_slot_iff a b = (there, back)
    where
      there :
          abstract_to_concrete p a ≡ abstract_to_concrete p b
          → a.source % length_usize p ≡ b.source % length_usize p
      there e =
          sym (order-concrete a) ∙ ap (λ (c : Concrete). order p c.source) e ∙ order-concrete b

      back :
          a.source % length_usize p ≡ b.source % length_usize p
          → abstract_to_concrete p a ≡ abstract_to_concrete p b
      back e = ap to_concrete (
          concrete-rem a
          ∙ ap (λ (r : ℕ). r % lines p * slots p + r / lines p) e
          ∙ sym (concrete-rem b))

  -- Every slot is named by its place in the order of allocation.
  pub concrete-order :
      (c : ℕ)
      → c < length_usize p
      → (abstract_to_concrete p (record { source = order p c })).source ≡ c
  concrete-order c h =
      concrete-eq p fits (record { source = order p c })
      ∙ ap₂ (λ (x y : ℕ). x * slots p + y % slots p)
          (mod_fields (c % slots p) (c / slots p) (lines p) line)
          (div_fields (c % slots p) (c / slots p) (lines p) line)
      ∙ ap (λ (t : ℕ). c / slots p * slots p + t) (mod-eq_of_lt (slot-lt p fits c))
      ∙ div_mod_fields c (slots p)
    where
      line : c / slots p < lines p
      line =
          (div-lt_iff_lt-mul {k = slots p} {x = c} {y = lines p} (pow-pos (index_bits p.target))).1
            (omega (arith, length_split p fits))

  -- The cache line of a slot is the index modulo the number of lines.
  pub line-concrete :
      (a : Abstract)
      → (abstract_to_concrete p a).source / cache_line_slots p.target ≡ a.source % blocks p
  line-concrete a =
      rw ((cache_line_slots-pow p.target).0, concrete-eq p fits a, blocks-eq p fits)
        (div_fields (a.source % lines p) (a.source / lines p % slots p) (slots p)
          (slot-lt p fits (a.source / lines p)))

-- Fewer than `m` steps lead to another remainder.
rem-ne : (m x y : ℕ) → x < y → y < x + m → x % m ≢ y % m
rem-ne m x y lt near e = elim (dec_lt (x / m) (y / m)) [
  | yes up ↦ absurd (grind (arith, div_mod_fields x m, div_mod_fields y m))
  | no down ↦ absurd (grind (arith, div_mod_fields x m, div_mod_fields y m))
]

-- Where a cache line fits the table, two abstract indices that differ by less than the number of
-- blocks name slots in different cache lines.
pub cache_line_distribution :
    (p : Params) (a b : Abstract)
    → FitsLine p
    → a.source < b.source
    → b.source < a.source + blocks p
    → (abstract_to_concrete p a).source / cache_line_slots p.target
      ≢ (abstract_to_concrete p b).source / cache_line_slots p.target
cache_line_distribution p a b fits lt near e =
    rem-ne (blocks p) a.source b.source lt near
      (sym (line-concrete p fits a) ∙ e ∙ line-concrete p fits b)
