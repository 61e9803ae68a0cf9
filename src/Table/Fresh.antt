-- ===== src/Table/Fresh.antt =====
-- src/table.rs: the ring of a new table.
use ptab.Common.{ℕ, ◌%◌, ◌<◌, ◌≡◌, ap, ◌∙◌, sym, arith, some}
use native.Mathlib.Nat.{mod-eq_of_lt}
use ptab.Params.Derived.{Params, length_usize}
use ptab.Params.Geometry.{FitsLine, length_usize-bounds}
use ptab.Reclaim.Owned.{AtomicOwned}
use ptab.Table.View.{is_reserved}
use ptab.Table.Probe.{advance, probe, place-lt}
use ptab.Table.Queue.{nth_free, IsQueue}
use ptab.Table.State.{new, slot_value}
use ptab.Table.Create.{new-IsValid, new_counters, new_slot, slot_value-eq, small-ne-reserved}
use ptab.Index.Places.{order-concrete}

module _ {T Cell : Type 0} (o : AtomicOwned T Cell) (p : Params) (fits : FitsLine p) where
  -- A place of a new ring, in the order of the counters.
  new_place : (j : ℕ) → j < length_usize p → (new o p).readonly.slot (probe p 0 j) ≡ some j
  new_place j h = new_slot o p (probe p 0 j) ∙ ground (arith, place-lt p fits (advance 0 j), issued)
    where
      issued : slot_value p (probe p 0 j) ≡ j
      issued =
          let (low, high) = length_usize-bounds p in
          slot_value-eq p fits (probe p 0 j)
          ∙ order-concrete p fits (record { source = advance 0 j })
          ∙ ap (λ (x : ℕ). x % length_usize p)
              (let e : advance 0 j ≡ j = omega (arith, h, high) in e)
          ∙ mod-eq_of_lt h

  -- Where a cache line fits, the ring of a new table is a queue with no place reserved, and the
  -- free indices in it are 0, 1, 2 and so on up to the length, in this order.
  pub new-IsQueue :
      IsQueue p (new o p) 0 × ((j : ℕ) → j < length_usize p → nth_free p (new o p) j ≡ some j)
  new-IsQueue =
      let (entries_e, next_e, free_e) = new_counters o p in
      let valid = new-IsValid o p fits in
      (
        record {
          slot_init = valid.slot_init;
          next_small = valid.next_small;
          free_small = valid.free_small;
          bound = omega arith;
          window = λ j h.
              let (ne, word) = small-ne-reserved p j h in
              ap (λ (n : ℕ). is_reserved p ((new o p).readonly.slot (probe p n j))) free_e
              ∙ ap (is_reserved p) (new_place j h)
              ∙ ground (arith, ne);
          follows = λ j.
              ap (λ (n : ℕ). probe p n j) (next_e ∙ sym free_e)
              ∙ ap (probe p (new o p).volatile.free_id) (omega arith);
        },
        λ j h. ap (λ (n : ℕ). (new o p).readonly.slot (probe p n j)) next_e ∙ new_place j h,
      )
