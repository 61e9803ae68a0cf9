-- ===== src/Table/Ops.antt =====
-- src/table.rs: the operations of `Table`. A call runs alone; `none` is undefined behaviour or a loop
-- that has used up its fuel.
use mathlib.Core.Option
use ptab.Common.{
  ℕ, Bool, true, false, not, Option, none, some, ltb, ◌==◌, if◌then◌else◌, State, pure, ◌>>=◌, ◌>>◌,
}
use ptab.Common.Word.{wrapping_sub}
use ptab.Params.Capacity.{max_capacity, as_usize, as_u32}
use ptab.Params.Target.{word_bits}
use ptab.Params.Derived.{Params, length_usize}
use ptab.Index.Defs.{
  Detached, Concrete, detached_to_abstract, detached_to_concrete, abstract_to_concrete,
  abstract_to_detached,
}
use ptab.Array
use ptab.Reclaim.Owned.{AtomicOwned}
use ptab.Reclaim.Sdd
use ptab.Reclaim.Sdd.{Shared}
use ptab.Table.State.{Table, WeakCas, load_entries, write_cell, evict_cell}
use ptab.Table.Slots.{reserve_slot, acquire_slot, release_slot}

unfoldable pub cap : Params → ℕ
cap p =
    if length_usize p == as_usize max_capacity
    then wrapping_sub (word_bits p.target) (length_usize p) 1
    else length_usize p

module _ {Cell : Type 0} (p : Params) where
  unfoldable pub len : Table Cell → ℕ
  len t =
      let at_max = as_u32 p.length == as_u32 max_capacity in
      let len' = if at_max then wrapping_sub 32 (load_entries t) 1 else load_entries t in
      let max = if at_max then wrapping_sub 32 (as_u32 p.length) 1 else as_u32 p.length in
      if ltb max len' then max else len'

  unfoldable pub is_empty : Table Cell → Bool
  is_empty t = len t == 0

module _ {T Cell : Type 0} (o : AtomicOwned T Cell) (p : Params) where
  -- `init` is the value that the closure leaves in the cell, or `none` if it leaves it
  -- uninitialised.
  unfoldable pub write : WeakCas → (Detached → Option T) → State (Table Cell) (Option Detached)
  write weak init = do
    claim_permit ← reserve_slot p weak
    elim claim_permit [
      | none ↦ pure none
      | some claimed ↦ do
        abstract_idx ← acquire_slot p claimed
        let concrete_idx = abstract_to_concrete p abstract_idx
        let detached_idx = abstract_to_detached p abstract_idx
        write_cell o concrete_idx (init detached_idx)
        pure (some detached_idx)
    ]

  unfoldable pub insert : WeakCas → T → State (Table Cell) (Option Detached)
  insert weak value = write weak (λ _. some value)

  unfoldable pub remove : WeakCas → Detached → State (Table Cell) Bool
  remove weak key = do
    present ← evict_cell o (detached_to_concrete p key)
    elim present [
      | true ↦ do release_slot p weak (detached_to_abstract p key); pure true
      | false ↦ pure false
    ]

  -- A read out of bounds is undefined behaviour.
  unfoldable pub load : Concrete → Table Cell → Option (Shared T)
  load index t = Option.map (λ cell. Sdd.load o cell) (Array.get t.readonly.cells index)

  unfoldable pub find : Detached → Table Cell → Option (Shared T)
  find key = load (detached_to_concrete p key)

  unfoldable pub with : {R : Type 0} → Detached → (T → R) → Table Cell → Option (Option R)
  with key f t = Option.map (λ ptr. Option.map f (Sdd.as_ref ptr)) (find key t)

  unfoldable pub exists : Detached → Table Cell → Option Bool
  exists key t = Option.map (λ ptr. not (Sdd.is_null ptr)) (find key t)

  unfoldable pub read : Detached → Table Cell → Option (Option T)
  read key = with key (λ value. value)
