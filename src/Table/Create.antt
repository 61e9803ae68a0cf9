-- ===== src/Table/Create.antt =====
-- src/table.rs: `Table::new` and the invariant.
use ptab.Common.{
  ℕ, ◌/◌, ◌%◌, ◌<◌, ◌≡◌, ◌≢◌, refl, ap, ◌∙◌, sym, arith, false, none, some, ltb, if◌then◌else◌,
  count-none, pow-pos,
}
use native.Mathlib.Nat.{div-lt_iff_lt-mul, pow-le-pow_right}
use ptab.Params.Target.{index_bits, cache_line_slots-pow}
use ptab.Params.Derived.{Params, length_usize}
use ptab.Params.Geometry.{FitsLine, blocks-eq, length_usize-bounds, word_bits-ge}
use ptab.Index.Fields.{IsWord, slots, lines, order-lt}
use ptab.Index.RoundTrip.{length_split, slot-lt}
use ptab.Index.Places.{order, concrete-order}
use ptab.Array.Laws.{new_lem}
use ptab.Reclaim.Owned.{AtomicOwned}
use ptab.Table.State.{
  reserved, new_volatile, slot_value, new_slot_array, new_data_array, new_readonly, new,
}
use ptab.Table.View.{place, value_at, occupied, taken, held_back, population, IsValid}

module _ (p : Params) where
  pub slot_value-eq : FitsLine p → (c : ℕ) → slot_value p c ≡ order p c
  unfolding slot_value
  slot_value-eq fits c = rw (blocks-eq p fits, (cache_line_slots-pow p.target).0) refl

  pub slot_value-lt : FitsLine p → (c : ℕ) → c < length_usize p → slot_value p c < length_usize p
  slot_value-lt fits c h =
      rw (slot_value-eq fits c)
        (order-lt p fits (c % slots p) (c / slots p) (slot-lt p fits c) line)
    where
      line : c / slots p < lines p
      line =
          (div-lt_iff_lt-mul {k = slots p} {x = c} {y = lines p} (pow-pos (index_bits p.target))).1
            (omega (arith, length_split p fits))

  -- Where a cache line fits the table, the index that slot c of a new ring shows names slot c of
  -- the table.
  pub place-slot_value : FitsLine p → (c : ℕ) → c < length_usize p → place p (slot_value p c) ≡ c
  place-slot_value fits c h = ap (place p) (slot_value-eq fits c) ∙ concrete-order p fits c h

  pub small-ne-reserved : (x : ℕ) → x < length_usize p → (x ≢ reserved p) × IsWord p x
  small-ne-reserved x h =
      let (low, high) = length_usize-bounds p in
      let wide = pow-le-pow_right {n = 2} (omega arith) {i = 32} (word_bits-ge p.target) in
      (omega arith, omega arith)

module _ {T Cell : Type 0} (o : AtomicOwned T Cell) (p : Params) where
  pub new_slot :
      (i : ℕ)
      → (new o p).readonly.slot i ≡ (if ltb i (length_usize p) then some (slot_value p i) else none)
  unfolding new new_readonly new_slot_array
  new_slot i = new_lem (slot_value p) p (record { source = i })

  new_cell :
      (c : ℕ) → (new o p).readonly.cells c ≡ (if ltb c (length_usize p) then some o.null else none)
  unfolding new new_readonly new_data_array
  new_cell c = new_lem (λ _. o.null) p (record { source = c })

  pub new_counters :
      ((new o p).volatile.entries ≡ held_back p)
      × ((new o p).volatile.next_id ≡ 0)
      × ((new o p).volatile.free_id ≡ 0)
  unfolding new new_volatile
  new_counters = (refl, refl, refl)

  -- No slot of a new table has a value.
  pub new_value : (c : ℕ) → value_at o (new o p) c ≡ none
  new_value c = ground (arith, new_cell c, o.load-null)

  pub population-new : population o p (new o p) ≡ 0
  unfolding population
  population-new =
      count-none (occupied o (new o p)) (length_usize p) (λ i h. ground (arith, new_value i))

  module _ (fits : FitsLine p) where
    shown : (i : ℕ) → i < length_usize p → (new o p).readonly.slot i ≡ some (slot_value p i)
    shown i h = ground (arith, new_slot i)

    shown_place :
        (i s : ℕ) → i < length_usize p → (new o p).readonly.slot i ≡ some s → place p s ≡ i
    shown_place i s h e = ap (place p) (cc (shown i h)) ∙ place-slot_value p fits i h

    none_taken : (i : ℕ) → i < length_usize p → taken p (new o p) i ≡ false
    none_taken i h =
        ground
          (arith, shown i h, (small-ne-reserved p (slot_value p i) (slot_value-lt p fits i h)).0)

    -- Where a cache line fits the table, a new table meets the invariant: both arrays are
    -- initialised, the free indices are words that name distinct empty slots, and as many slots
    -- of the ring are reserved as there are values.
    pub new-IsValid : IsValid o p (new o p)
    new-IsValid = record {
      cell_init = λ c h. (o.null, ground (arith, new_cell c));
      slot_init = λ i h. (
        slot_value p i,
        shown i h,
        (small-ne-reserved p (slot_value p i) (slot_value-lt p fits i h)).1,
      );
      vacant = λ i s h e ne. new_value (place p s);
      distinct =
          λ i j s r hi hj ei ej ni nj e. sym (shown_place i s hi ei) ∙ e ∙ shown_place j r hj ej;
      balance = count-none (taken p (new o p)) (length_usize p) none_taken ∙ sym population-new;
      counted = omega (arith, new_counters, population-new);
      room = ground (arith, new_counters, (length_usize-bounds p).0);
      next_small = omega (arith, new_counters);
      free_small = omega (arith, new_counters);
    }
