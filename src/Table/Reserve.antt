-- ===== src/Table/Reserve.antt =====
-- src/table.rs: `reserve_slot` with room and without.
use ptab.Common.{
  ℕ, zero, suc, ◌+◌, ◌%◌, ◌^◌, ◌<◌, ◌≡◌, ap, ◌∙◌, subst, arith, true, false, Option, none, some,
  Bool-cases, inl, inr,
}
use ptab.Common.Word.{wrapping_add, wrapping_sub}
use ptab.Params.Capacity.{as_u32}
use ptab.Params.Rounding.{as_u32-eq-as_usize}
use ptab.Params.Derived.{Params, length_usize}
use ptab.Params.Geometry.{length_usize-bounds}
use ptab.Table.State.{Table, WeakCas, incr_entries, swap_entries}
use ptab.Table.Slots.{Permit, permit, undo_loop, reserve_slot}
use ptab.Table.Release.{IsReliable}

pub as_u32-length : (p : Params) → as_u32 p.length ≡ length_usize p
unfolding length_usize
as_u32-length p = as_u32-eq-as_usize p.length

module _ {Cell : Type 0} where
  abbrev pub with_entries : Table Cell → ℕ → Table Cell
  with_entries t n = record t { volatile = record (t.volatile) { entries = n } }

  module _ (weak : WeakCas) where
    undo_hit :
        (fuel i : ℕ) (t : Table Cell)
        → weak.fails i ≡ false
        → undo_loop weak (suc fuel) i t.volatile.entries t
          ≡ some (none, with_entries t (wrapping_sub 32 t.volatile.entries 1))
    unfolding undo_loop swap_entries
    undo_hit fuel i t e = ground arith

    undo_miss :
        (fuel i : ℕ) (t : Table Cell)
        → weak.fails i ≡ true
        → undo_loop weak (suc fuel) i t.volatile.entries t
          ≡ undo_loop weak fuel (i + 1) t.volatile.entries t
    unfolding undo_loop swap_entries
    undo_miss fuel i t e = ground arith

    undo_loop_lem :
        (fuel k i : ℕ) (t : Table Cell)
        → k < fuel
        → weak.fails (i + k) ≡ false
        → undo_loop weak fuel i t.volatile.entries t
          ≡ some (none, with_entries t (wrapping_sub 32 t.volatile.entries 1))
    undo_loop_lem zero k i t h sound = absurd (omega arith)
    undo_loop_lem (suc fuel) zero i t h sound =
        undo_hit fuel i t (subst (λ (j : ℕ). weak.fails j ≡ false) (omega arith) sound)
    undo_loop_lem (suc fuel) (suc k) i t h sound = elim (Bool-cases (weak.fails i)) [
      | inl failed ↦
          undo_miss fuel i t failed
          ∙ undo_loop_lem fuel k (i + 1) t (omega arith)
              (subst (λ (j : ℕ). weak.fails j ≡ false) (omega arith) sound)
      | inr done ↦ undo_hit fuel i t done
    ]

  module _ (p : Params) (weak : WeakCas) (t : Table Cell) where
    pub reserve_open :
        t.volatile.entries < length_usize p
        → reserve_slot p weak t ≡ some (some permit, with_entries t (t.volatile.entries + 1))
    unfolding reserve_slot incr_entries
    reserve_open h = ground (arith, as_u32-length p, small)
      where
        small : (t.volatile.entries + 1) % 2 ^ 32 ≡ t.volatile.entries + 1
        small = let (low, high) = length_usize-bounds p in omega arith

    counted_up : Table Cell
    counted_up = with_entries t (wrapping_add 32 t.volatile.entries 1)

    reserve_refuses :
        t.volatile.entries ≡ length_usize p
        → reserve_slot p weak t
          ≡ undo_loop weak (weak.bound + 1) 0 counted_up.volatile.entries counted_up
    unfolding reserve_slot incr_entries counted_up
    reserve_refuses e = ground (arith, as_u32-length p)

    restored :
        t.volatile.entries ≡ length_usize p
        → with_entries counted_up (wrapping_sub 32 counted_up.volatile.entries 1) ≡ t
    unfolding counted_up
    restored e = ap (with_entries t) (let (low, high) = length_usize-bounds p in omega arith)

    -- When as many entries are counted as there are slots and the weak exchange fails only
    -- finitely often, reserve_slot takes its count back, returns none and leaves the whole table
    -- as it was.
    pub reserve_full :
        IsReliable weak
        → t.volatile.entries ≡ length_usize p
        → reserve_slot p weak t ≡ some (none, t)
    reserve_full reliable e =
        reserve_refuses e
        ∙ undo_loop_lem weak (weak.bound + 1) weak.bound 0 counted_up (omega arith)
            (reliable (0 + weak.bound) (omega arith))
        ∙ ap (λ (u : Table Cell). let r : Option (Option Permit × Table Cell) = some (none, u) in r)
            (restored e)
