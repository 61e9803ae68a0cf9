-- ===== src/Table/Period.antt =====
-- src/table.rs: how many times a slot is issued before an index comes back.
use ptab.Common.{
  ℕ, zero, suc, ◌+◌, ◌-◌, ◌*◌, ◌/◌, ◌%◌, ◌^◌, ◌≤◌, ◌<◌, ◌≡◌, ◌≢◌, ◌↔◌, ap, ◌∙◌, sym, subst, arith,
  ◌⊎◌, inl, inr, ◌==◌, if◌then◌else◌, pow-add, div_fields, mod_fields, div_mod_fields, fields-lt,
  add-mod-cases,
}
use native.Mathlib.Decide.{dec_lt, ℕ_discrete}
use native.Mathlib.Nat.{
  mod-lt, mod-eq_of_lt, mod-add-mod, mod_self, add-mod-mod, mul-le-mul_right, pow-le-pow_right,
}
use ptab.Common.Word.{wrapping_add}
use ptab.Params.Target.{word_bits}
use ptab.Params.Derived.{Params, length_usize}
use ptab.Params.Rounding.{exponent, exponent_bounds}
use ptab.Params.Geometry.{length_usize-bounds, length_usize-pow, word_bits-ge}
use ptab.Index.Fields.{IsWord}
use ptab.Table.State.{reserved}
use ptab.Table.Slots.{generate_next_slot}
use ptab.Table.Generations.{wrapped, generate_next_slot-cases}

suc_mul : (a n : ℕ) → suc a * n ≡ a * n + n
suc_mul a n = grind arith

-- A step by `n` on the numbers of `g` generations.
module _ (g n x r : ℕ) (low : r < n) where
  step_up : suc x < g → (x * n + r + n) % (g * n) ≡ suc x * n + r
  step_up h =
      let same : x * n + r + n ≡ suc x * n + r = grind arith in
      ap (λ (t : ℕ). t % (g * n)) same ∙ mod-eq_of_lt (fields-lt (suc x) r g n h low)

  step_over : suc x ≡ g → (x * n + r + n) % (g * n) ≡ r
  step_over h =
      let same : x * n + r + n ≡ 1 * (g * n) + r =
        omega (arith, suc_mul x n, ap (λ (t : ℕ). t * n) h) in
      ap (λ (t : ℕ). t % (g * n)) same
      ∙ mod_fields 1 r (g * n) (omega (arith, fields-lt 0 r g n (omega arith) low))

  -- The last number is the last place of the last generation.
  last_fields : 0 < g → x * n + r ≡ g * n - 1 → (suc x ≡ g) × (suc r ≡ n)
  last_fields some_g e =
      let split : g * n ≡ (g - 1) * n + n = omega (
        arith,
        suc_mul (g - 1) n,
        ap (λ (t : ℕ). t * n) (let e : g ≡ suc (g - 1) = omega arith in e),
      ) in
      let last : g * n - 1 ≡ (g - 1) * n + (n - 1) = omega arith in
      (
        omega (
          arith,
          sym (div_fields x r n low)
              ∙ ap (λ (t : ℕ). t / n) (e ∙ last)
              ∙ div_fields (g - 1) (n - 1) n (omega arith),
        ),
        omega (
          arith,
          sym (mod_fields x r n low)
              ∙ ap (λ (t : ℕ). t % n) (e ∙ last)
              ∙ mod_fields (g - 1) (n - 1) n (omega arith),
        ),
      )

module _ (p : Params) where
  -- The number of generations that a word can count.
  abbrev pub generations : ℕ
  generations = 2 ^ (word_bits p.target - exponent p.length)

  words_split : 2 ^ word_bits p.target ≡ generations * length_usize p
  words_split =
      let (low, high) = exponent_bounds p.length in
      omega (
        arith,
        pow-add (word_bits p.target - exponent p.length) (exponent p.length),
        ap (λ (t : ℕ). 2 ^ t)
            (let e : word_bits p.target - exponent p.length + exponent p.length
                  ≡ word_bits p.target =
                omega (arith, word_bits-ge p.target) in
              e),
        ap (λ (t : ℕ). generations * t) (length_usize-pow p),
      )

  some_generations : 2 ≤ generations
  some_generations =
      let (low, high) = exponent_bounds p.length in
      pow-le-pow_right {n = 2} (omega arith) {i = 1} (omega (arith, word_bits-ge p.target))

  -- The last place of a generation does without one: there its index would be the reserved value.
  unfoldable pub period : ℕ → ℕ
  period r = if suc r == length_usize p then generations - 1 else generations

  -- The index of a slot after `k` removals of its entry.
  unfoldable pub reissued : ℕ → ℕ → ℕ
  reissued zero s = s
  reissued (suc k) s = generate_next_slot p (record { source = reissued k s })

  last_word : reserved p ≡ generations * length_usize p - 1
  last_word = omega (arith, words_split)

  module _ (x r : ℕ) (low : r < length_usize p) where
    sum : ℕ
    sum = wrapping_add (word_bits p.target) (x * length_usize p + r) (length_usize p)

    sum-eq : sum ≡ (x * length_usize p + r + length_usize p) % (generations * length_usize p)
    unfolding sum
    sum-eq = ap (λ (w : ℕ). (x * length_usize p + r + length_usize p) % w) words_split

    next : ℕ
    next = generate_next_slot p (record { source = x * length_usize p + r })

    kept : {v : ℕ} → sum ≡ v → v ≢ reserved p → next ≡ v
    unfolding sum next
    kept e fine = elim (generate_next_slot-cases p (record { source = x * length_usize p + r })) [
      | inl (value, _) ↦ value ∙ e
      | inr (_, skipped) ↦ absurd (fine (sym e ∙ skipped))
    ]

    skipped_one : sum ≡ reserved p → next ≡ length_usize p - 1
    unfolding sum next
    skipped_one e = elim (generate_next_slot-cases p (record { source = x * length_usize p + r })) [
      | inl (_, fine) ↦ absurd (fine e)
      | inr (value, skipped) ↦
          value
          ∙ ap (λ (t : ℕ). wrapping_add (word_bits p.target) t (length_usize p)) skipped
          ∙ wrapped p
    ]

    last_place :
        suc r ≡ length_usize p
        → x < generations - 1
        → next ≡ suc x % (generations - 1) * length_usize p + r
    last_place last h =
        let up : sum ≡ suc x * length_usize p + r =
          sum-eq ∙ step_up generations (length_usize p) x r low (omega arith) in
        elim (ℕ_discrete (suc x) (generations - 1)) [
          | yes end ↦
              let top : suc x * length_usize p + r ≡ reserved p = omega (
                arith,
                last,
                last_word,
                suc_mul (suc x) (length_usize p),
                some_generations,
                ap (λ (t : ℕ). suc t * length_usize p) end,
                ap (λ (t : ℕ). t * length_usize p)
                    (let e : suc (generations - 1) ≡ generations =
                        omega (arith, some_generations) in
                      e),
              ) in
              let around : suc x % (generations - 1) ≡ 0 =
                ap (λ (t : ℕ). t % (generations - 1)) end ∙ mod_self (generations - 1) in
              omega (arith, last, skipped_one (up ∙ top), ap (λ (t : ℕ). t * length_usize p) around)
          | no more ↦
              kept up (λ e. more (
                omega (
                  arith,
                  (last_fields generations (length_usize p) (suc x) r low
                      (omega (arith, some_generations)) (e ∙ last_word)).0,
                )))
              ∙ ap (λ (t : ℕ). t * length_usize p + r) (sym (mod-eq_of_lt (omega arith)))
        ]

    other_place :
        suc r ≢ length_usize p → x < generations → next ≡ suc x % generations * length_usize p + r
    other_place other h = elim (dec_lt (suc x) generations) [
      | yes more ↦
          kept (sum-eq ∙ step_up generations (length_usize p) x r low more) (λ e.
            other
              (last_fields generations (length_usize p) (suc x) r low (omega arith)
                (e ∙ last_word)).1)
          ∙ ap (λ (t : ℕ). t * length_usize p + r) (sym (mod-eq_of_lt more))
      | no end ↦
          let full : suc x ≡ generations = omega arith in
          let around : suc x % generations ≡ 0 =
            ap (λ (t : ℕ). t % generations) full ∙ mod_self generations in
          let back : next ≡ r =
            kept (sum-eq ∙ step_over generations (length_usize p) x r low full) (λ e.
              other
                (last_fields generations (length_usize p) 0 r low (omega arith)
                  (omega (arith, e, last_word))).1) in
          omega (arith, back, ap (λ (t : ℕ). t * length_usize p) around)
    ]

    step : x < period r → next ≡ suc x % period r * length_usize p + r
    unfolding period
    step h = elim (ℕ_discrete (suc r) (length_usize p)) [
      | yes last ↦ ground (arith, last_place last)
      | no other ↦ ground (arith, other_place other)
    ]

  module _ (s : ℕ) (word : IsWord p s) (free : s ≢ reserved p) where
    place_low : s % length_usize p < length_usize p
    place_low = mod-lt s (omega (arith, length_usize-bounds p))

    generation-lt : s / length_usize p < period (s % length_usize p)
    unfolding period
    generation-lt = elim (dec_lt (s / length_usize p) generations) [
      | no beyond ↦ absurd (
          grind (
            arith,
            div_mod_fields s (length_usize p),
            words_split,
            mul-le-mul_right (length_usize p)
                (let h : generations ≤ s / length_usize p = omega arith in h),
          ))
      | yes inside ↦ elim (ℕ_discrete (suc (s % length_usize p)) (length_usize p)) [
        | no other ↦ ground arith
        | yes last ↦ elim (ℕ_discrete (suc (s / length_usize p)) generations) [
          | no fewer ↦ ground arith
          | yes top ↦ absurd (
              free (
                omega (
                  arith,
                  last,
                  last_word,
                  div_mod_fields s (length_usize p),
                  suc_mul (s / length_usize p) (length_usize p),
                  ap (λ (t : ℕ). t * length_usize p) top,
                )))
        ]
      ]
    ]

    reissued-eq :
        (k : ℕ)
        → reissued k s
          ≡ (s / length_usize p + k) % period (s % length_usize p) * length_usize p
            + s % length_usize p
    unfolding reissued
    reissued-eq zero = omega (
      arith,
      div_mod_fields s (length_usize p),
      ap (λ (t : ℕ). t * length_usize p)
          (mod-eq_of_lt (
            let h : s / length_usize p + 0 < period (s % length_usize p) =
              omega (arith, generation-lt) in
            h)),
    )
    reissued-eq (suc k) =
        let m : ℕ = period (s % length_usize p) in
        let x : ℕ = (s / length_usize p + k) % m in
        let rem : suc x % m ≡ (s / length_usize p + suc k) % m =
          ap (λ (t : ℕ). t % m) (let e : suc x ≡ x + 1 = omega arith in e)
          ∙ mod-add-mod (s / length_usize p + k) m 1
          ∙ ap (λ (t : ℕ). t % m)
              (let e : s / length_usize p + k + 1 ≡ s / length_usize p + suc k = omega arith in
                e) in
        let advanced : generate_next_slot p
              (record { source = x * length_usize p + s % length_usize p })
            ≡ suc x % m * length_usize p + s % length_usize p =
          unfold next in
          step x (s % length_usize p) place_low
            (mod-lt (s / length_usize p + k) (omega (arith, generation-lt))) in
        ap (λ (t : ℕ). generate_next_slot p (record { source = t })) (reissued-eq k)
        ∙ advanced
        ∙ ap (λ (t : ℕ). t * length_usize p + s % length_usize p) rem

    abbrev cycle : ℕ
    cycle = period (s % length_usize p)

    abbrev turn : ℕ → ℕ
    turn k = (s / length_usize p + k) % cycle

    -- After `k` removals the generation is `k` further, round the cycle.
    turn-cases :
        (k : ℕ)
        → (turn k ≡ s / length_usize p + k % cycle)
          ⊎ ((cycle ≤ s / length_usize p + k % cycle)
              × (turn k + cycle ≡ s / length_usize p + k % cycle))
    turn-cases k =
        subst
          (λ (t : ℕ).
            (t ≡ s / length_usize p + k % cycle)
            ⊎ ((cycle ≤ s / length_usize p + k % cycle)
                × (t + cycle ≡ s / length_usize p + k % cycle)))
          (add-mod-mod (s / length_usize p) k cycle)
          (add-mod-cases (s / length_usize p) (k % cycle) cycle generation-lt
            (mod-lt k (omega (arith, generation-lt))))

    -- For a free index s that is a word and not the reserved value, the index of its slot after k
    -- removals is s again exactly if k is a multiple of the period: the number of generations
    -- that a word counts, and one less for the last place of a generation, whose index would be
    -- the reserved value in one of them.
    pub returns_iff : (k : ℕ) → reissued k s ≡ s ↔ k % period (s % length_usize p) ≡ 0
    returns_iff k = (there, back)
      where
        there : reissued k s ≡ s → k % cycle ≡ 0
        there e =
            let same : turn k ≡ s / length_usize p =
              sym (div_fields (turn k) (s % length_usize p) (length_usize p) place_low)
              ∙ ap (λ (t : ℕ). t / length_usize p) (sym (reissued-eq k) ∙ e) in
            let less : k % cycle < cycle = mod-lt k (omega (arith, generation-lt)) in
            elim (turn-cases k) [
              | inl stays ↦ omega (arith, stays, same)
              | inr (_, wraps) ↦ absurd (omega (arith, wraps, same, less))
            ]

        back : k % cycle ≡ 0 → reissued k s ≡ s
        back e = elim (turn-cases k) [
          | inl stays ↦ omega (
            arith,
            reissued-eq k,
            div_mod_fields s (length_usize p),
            ap (λ (t : ℕ). t * length_usize p)
                (let same : turn k ≡ s / length_usize p = omega (arith, stays, e) in same),
          )
          | inr (high, _) ↦ absurd (omega (arith, high, e, generation-lt))
        ]
