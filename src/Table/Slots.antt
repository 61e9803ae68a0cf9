-- ===== src/Table/Slots.antt =====
-- src/table.rs: the ring of free indices. A permit counts an entry, `acquire_slot` takes the next index
-- out of the ring, and `release_slot` puts an index of the next generation back.
use ptab.Common.{
  ℕ, zero, suc, ◌+◌, true, false, Option, none, some, ltb, ◌==◌, if◌then◌else◌, State, pure, fault,
  ◌>>=◌, ◌>>◌,
}
use ptab.Common.Word.{wrapping_add, wrapping_sub}
use ptab.Params.Capacity.{as_u32}
use ptab.Params.Target.{word_bits}
use ptab.Params.Derived.{Params, length_usize}
use ptab.Index.Defs.{Abstract, abstract_to_concrete}
use ptab.Table.State.{
  Table, reserved, WeakCas, ok, err, incr_entries, decr_entries, swap_entries, fetch_next_id,
  fetch_free_id, swap_slot, exchange_slot,
}

-- A permit holds no data.
pub data Permit : Type 0 where
  permit : Permit

unfoldable pub generate_next_slot : Params → Abstract → ℕ
generate_next_slot p index =
    let next = wrapping_add (word_bits p.target) index.source (length_usize p) in
    if next == reserved p then wrapping_add (word_bits p.target) next (length_usize p) else next

module _ {Cell : Type 0} where
  -- The loop that undoes the increment, from attempt number `i` on.
  unfoldable pub undo_loop : WeakCas → ℕ → ℕ → ℕ → State (Table Cell) (Option Permit)
  undo_loop weak zero i current = fault
  undo_loop weak (suc fuel) i current = do
    result ← swap_entries (weak.fails i) current (wrapping_sub 32 current 1)
    elim result [ ok _ ↦ pure none | err next ↦ undo_loop weak fuel (i + 1) next ]

  unfoldable pub reserve_slot : Params → WeakCas → State (Table Cell) (Option Permit)
  reserve_slot p weak = do
    prev ← incr_entries
    if ltb prev (as_u32 p.length)
        then pure (some permit)
        else undo_loop weak (weak.bound + 1) 0 (wrapping_add 32 prev 1)

  unfoldable pub acquire_loop : Params → ℕ → State (Table Cell) Abstract
  acquire_loop p zero = fault
  acquire_loop p (suc fuel) = do
    abstract_idx ← fetch_next_id
    result ← swap_slot (abstract_to_concrete p abstract_idx) (reserved p)
    elim (result == reserved p) [
      | true ↦ acquire_loop p fuel
      | false ↦ pure (record { source = result })
    ]

  -- One round of the ring finds an index, if there is one.
  unfoldable pub acquire_slot : Params → Permit → State (Table Cell) Abstract
  acquire_slot p _ = acquire_loop p (length_usize p)

  unfoldable pub release_loop : Params → WeakCas → ℕ → ℕ → ℕ → State (Table Cell) (Unit {0})
  release_loop p weak zero i next = fault
  release_loop p weak (suc fuel) i next = do
    free ← fetch_free_id
    stored ← exchange_slot (weak.fails i) (abstract_to_concrete p free) (reserved p) next
    elim stored [ true ↦ pure tt | false ↦ release_loop p weak fuel (i + 1) next ]

  unfoldable pub release_slot : Params → WeakCas → Abstract → State (Table Cell) (Unit {0})
  release_slot p weak index = do
    release_loop p weak (weak.bound + length_usize p) 0 (generate_next_slot p index)
    decr_entries
    pure tt
