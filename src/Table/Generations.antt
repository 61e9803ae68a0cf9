-- ===== src/Table/Generations.antt =====
-- src/table.rs: the index that a slot gets when its entry is removed.
use ptab.Common.{
  ℕ, ◌+◌, ◌-◌, ◌%◌, ◌^◌, ◌≤◌, ◌≡◌, ◌≢◌, ap, ◌∙◌, sym, subst, arith, inl, inr, ◌⊎◌, pow-pos,
  add-mod-cases,
}
use native.Mathlib.Nat.{mod-mod_of_dvd, add-mod_right, mod-lt, pow-le-pow_right, mod-eq_of_lt}
use ptab.Common.Word.{wrapping_add}
use ptab.Params.Target.{word_bits}
use ptab.Params.Derived.{Params, length_usize}
use ptab.Params.Geometry.{FitsLine, length_usize-bounds, word_bits-ge}
use ptab.Index.Defs.{Abstract, Concrete}
use ptab.Index.Fields.{IsWord}
use ptab.Index.Places.{same_slot_iff}
use ptab.Table.State.{reserved}
use ptab.Table.Slots.{generate_next_slot}
use ptab.Table.View.{place}
use ptab.Table.Probe.{length_dvd}

module _ (p : Params) where
  pub word_room : 2 ^ 32 ≤ 2 ^ word_bits p.target
  word_room = pow-le-pow_right {n = 2} (omega arith) {i = 32} (word_bits-ge p.target)

  pub step_rem :
      (x : ℕ)
      → wrapping_add (word_bits p.target) x (length_usize p) % length_usize p ≡ x % length_usize p
  step_rem x =
      mod-mod_of_dvd (length_usize p) (x + length_usize p)
        (length_dvd p (word_bits p.target) (word_bits-ge p.target))
      ∙ add-mod_right x (length_usize p)

  -- The two values that the code may give.
  pub generate_next_slot-cases :
      (a : Abstract)
      → let next = wrapping_add (word_bits p.target) a.source (length_usize p) in
        ((generate_next_slot p a ≡ next) × (next ≢ reserved p))
        ⊎ ((generate_next_slot p a ≡ wrapping_add (word_bits p.target) next (length_usize p))
            × (next ≡ reserved p))
  unfolding generate_next_slot
  generate_next_slot-cases a = ground arith

  pub next_rem :
      (a : Abstract) → generate_next_slot p a % length_usize p ≡ a.source % length_usize p
  next_rem a = elim (generate_next_slot-cases a) [
    | inl (e, fine) ↦ ap (λ (t : ℕ). t % length_usize p) e ∙ step_rem a.source
    | inr (e, skipped) ↦ ap (λ (t : ℕ). t % length_usize p) e ∙ step_rem _ ∙ step_rem a.source
  ]

  pub next_IsWord : (a : Abstract) → IsWord p (generate_next_slot p a)
  next_IsWord a = elim (generate_next_slot-cases a) [
    | inl (e, fine) ↦ subst (IsWord p) (sym e) (mod-lt _ (pow-pos (word_bits p.target)))
    | inr (e, skipped) ↦ subst (IsWord p) (sym e) (mod-lt _ (pow-pos (word_bits p.target)))
  ]

  -- One step from the reserved value leads to the last place of the first generation.
  pub wrapped : wrapping_add (word_bits p.target) (reserved p) (length_usize p) ≡ length_usize p - 1
  wrapped =
      let (low, high) = length_usize-bounds p in
      ap (λ (t : ℕ). t % 2 ^ word_bits p.target)
        (let e : 2 ^ word_bits p.target - 1 + length_usize p
              ≡ length_usize p - 1 + 2 ^ word_bits p.target =
            omega (arith, word_room) in
          e)
      ∙ add-mod_right (length_usize p - 1) (2 ^ word_bits p.target)
      ∙ mod-eq_of_lt (omega (arith, word_room))

  -- The next index of a slot is never the reserved value.
  pub next-ne-reserved : (a : Abstract) → generate_next_slot p a ≢ reserved p
  next-ne-reserved a e = elim (generate_next_slot-cases a) [
    | inl (value, fine) ↦ fine (sym value ∙ e)
    | inr (value, skipped) ↦
        let (low, high) = length_usize-bounds p in
        let last : generate_next_slot p a ≡ length_usize p - 1 =
          value
          ∙ ap (λ (t : ℕ). wrapping_add (word_bits p.target) t (length_usize p)) skipped
          ∙ wrapped in
        absurd (omega (arith, last, e, word_room))
  ]

  -- Where a cache line fits the table, the next index of a slot names the same slot, also where
  -- the count of generations wraps and where the reserved value is skipped.
  pub next_place : FitsLine p → (a : Abstract) → place p (generate_next_slot p a) ≡ place p a.source
  next_place fits a =
      ap (λ (c : Concrete). c.source)
        ((same_slot_iff p fits (record { source = generate_next_slot p a }) a).1 (next_rem a))

  pub next-ne_self : (a : Abstract) → IsWord p a.source → generate_next_slot p a ≢ a.source
  next-ne_self a word same = elim (generate_next_slot-cases a) [
    | inl (e, fine) ↦ absurd (omega (arith, step, e, same, bounds, word_room))
    | inr (e, skipped) ↦
        let last : generate_next_slot p a ≡ length_usize p - 1 =
          e
          ∙ ap (λ (t : ℕ). wrapping_add (word_bits p.target) t (length_usize p)) skipped
          ∙ wrapped in
        absurd (omega (arith, step, skipped, bounds, word_room))
  ]
    where
      bounds : (16 ≤ length_usize p) × (length_usize p ≤ 2 ^ 27)
      bounds = length_usize-bounds p

      step :
          (wrapping_add (word_bits p.target) a.source (length_usize p) ≡ a.source + length_usize p)
          ⊎ ((2 ^ word_bits p.target ≤ a.source + length_usize p)
              × (wrapping_add (word_bits p.target) a.source (length_usize p)
                    + 2 ^ word_bits p.target
                  ≡ a.source + length_usize p))
      step =
          add-mod-cases a.source (length_usize p) (2 ^ word_bits p.target) word
            (omega (arith, bounds, word_room))
