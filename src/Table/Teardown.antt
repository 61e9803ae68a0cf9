-- ===== src/Table/Teardown.antt =====
-- src/table.rs: `Drop` against the values of the table.
use mathlib.Core.Option
use mathlib.Core.List.{List, [], ◌∷◌}
use ptab.Common.{
  ℕ, zero, suc, ◌+◌, ◌^◌, ◌<◌, ◌≡◌, refl, ap, ap₂, ◌∙◌, sym, arith, none, some, bit, count,
  count_front, count-le, count-ext, Option-cases, inl, inr,
}
use native.Mathlib.Decide.{dec_lt}
use ptab.Common.Word.{wrapping_sub}
use ptab.Params.Derived.{Params, length_usize}
use ptab.Params.Geometry.{length_usize-bounds}
use ptab.Reclaim.Owned.{AtomicOwned}
use ptab.Reclaim.Sdd
use ptab.Table.State.{Table}
use ptab.Table.Keys.{drop_loop, drop}
use ptab.Table.View.{value_at, occupied, population, IsValid}
use ptab.Table.Lookup.{len-eq-population}

module _ {T Cell : Type 0} (o : AtomicOwned T Cell) where
  -- The values at `n` slots from slot `c` on.
  pub values_from : Table Cell → ℕ → ℕ → List T
  values_from t c zero = []
  values_from t c (suc n) =
      let rest = values_from t (c + 1) n in
      elim (value_at o t c) [ none ↦ rest | some v ↦ v ∷ rest ]

  -- How many of them there are.
  abbrev entries_from : Table Cell → ℕ → ℕ → ℕ
  entries_from t c n = count (λ k. occupied o t (c + k)) n

  entries_from-suc :
      (t : Table Cell) (c n : ℕ)
      → entries_from t c (suc n) ≡ bit (occupied o t c) + entries_from t (c + 1) n
  entries_from-suc t c n =
      count_front (λ k. occupied o t (c + k)) n
      ∙ ap₂ ◌+◌ (ap (λ (k : ℕ). bit (occupied o t k)) (omega arith)) (
          count-ext (λ k. occupied o t (c + suc k)) (λ k. occupied o t (c + 1 + k)) n
            (λ i h. ap (occupied o t) (omega arith)))

  values_from-none : (t : Table Cell) (c n : ℕ) → entries_from t c n ≡ 0 → values_from t c n ≡ []
  unfolding values_from
  values_from-none t c zero h = refl
  values_from-none t c (suc n) h =
      ground (arith, entries_from-suc t c n, values_from-none t (c + 1) n)

  module _ (p : Params) (t : Table Cell) where
    drop_none :
        (rounds c n : ℕ) (x : Cell)
        → t.readonly.cells c ≡ some x
        → o.load x ≡ none
        → drop_loop o p (suc rounds) c n t ≡ drop_loop o p rounds (c + 1) n t
    unfolding drop_loop Sdd.drop_in_place
    drop_none rounds c n x e empty = ground (arith, o.into_owned-eq-load x)

    drop_last :
        (rounds c n : ℕ) (x : Cell) (v : T)
        → t.readonly.cells c ≡ some x
        → o.load x ≡ some v
        → n ≡ 1
        → drop_loop o p (suc rounds) c n t ≡ some (v ∷ [])
    unfolding drop_loop Sdd.drop_in_place
    drop_last rounds c n x v e full one = ground (arith, o.into_owned-eq-load x)

    drop_more :
        (rounds c n : ℕ) (x : Cell) (v : T)
        → t.readonly.cells c ≡ some x
        → o.load x ≡ some v
        → suc n < 2 ^ 32
        → 0 < n
        → drop_loop o p (suc rounds) c (suc n) t
          ≡ Option.map (λ rest. v ∷ rest) (drop_loop o p rounds (c + 1) n t)
    unfolding drop_loop Sdd.drop_in_place
    drop_more rounds c n x v e full small pos =
        ground
          (arith, o.into_owned-eq-load x, ap (λ (m : ℕ). drop_loop o p rounds (c + 1) m t) less)
      where
        less : wrapping_sub 32 (suc n) 1 ≡ n
        less = omega arith

    -- With `n` entries left the loop drops all of them, and stops at the last.
    drop_loop-eq :
        (rounds c n : ℕ)
        → ((i : ℕ) → i < c + rounds → (x : Cell) × (t.readonly.cells i ≡ some x))
        → n ≡ entries_from t c rounds
        → 0 < n
        → n < 2 ^ 32
        → drop_loop o p rounds c n t ≡ some (values_from t c rounds)
    unfolding values_from
    drop_loop-eq zero c n init e pos small =
        absurd (omega (arith, count-le (λ k. occupied o t (c + k)) 0))
    drop_loop-eq (suc rounds) c n init e pos small =
        let (x, x_e) = init c (omega arith) in
        elim (Option-cases (o.load x)) [
          | inl empty ↦
              drop_none rounds c n x x_e empty
              ∙ drop_loop-eq rounds (c + 1) n (λ i h. init i (omega arith))
                  (ground (arith, entries_from-suc t c rounds)) pos small
              ∙ ground arith
          | inr (v, full) ↦
              let rest : ℕ = entries_from t (c + 1) rounds in
              let one_more : n ≡ suc rest = ground (arith, entries_from-suc t c rounds) in
              elim (dec_lt 0 rest) [
                | no last ↦
                    let none_left : values_from t (c + 1) rounds ≡ [] =
                      values_from-none t (c + 1) rounds (omega arith) in
                    drop_last rounds c n x v x_e full (omega arith) ∙ ground arith
                | yes more ↦
                    ap (λ (m : ℕ). drop_loop o p (suc rounds) c m t) one_more
                    ∙ drop_more rounds c rest x v x_e full (omega arith) more
                    ∙ ap (Option.map (λ rest. v ∷ rest)) (
                        drop_loop-eq rounds (c + 1) rest (λ i h. init i (omega arith)) refl more
                          (omega arith))
                    ∙ ground arith
              ]
        ]

    all_entries : entries_from t 0 (length_usize p) ≡ population o p t
    unfolding population
    all_entries =
        count-ext (λ k. occupied o t (0 + k)) (occupied o t) (length_usize p)
          (λ i h. ap (occupied o t) (omega arith))

    -- Dropping a valid table drops the values of all its slots, each once, in the order of the
    -- slots, though the loop stops at the last of the entries it has counted.
    pub drop_lem : IsValid o p t → drop o p t ≡ some (values_from t 0 (length_usize p))
    unfolding drop
    drop_lem valid =
        let (low, high) = length_usize-bounds p in
        let counted = len-eq-population p o valid in
        elim (dec_lt 0 (population o p t)) [
          | yes some_left ↦ ground (
            arith,
            counted,
            ap (λ (m : ℕ). drop_loop o p (length_usize p) 0 m t) counted,
            drop_loop-eq (length_usize p) 0 (population o p t)
                (λ i h. valid.cell_init i (omega arith)) (sym all_entries) some_left
                (omega (arith, valid.counted, valid.room)),
          )
          | no empty ↦
              ground
                (arith, counted, values_from-none t 0 (length_usize p) (omega (arith, all_entries)))
        ]
