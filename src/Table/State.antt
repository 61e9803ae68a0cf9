-- ===== src/Table/State.antt =====
-- src/table.rs: the state of a table and the atomic steps on it, one function for each. Orderings of
-- memory are left out: the steps of all threads happen one after another.
use ptab.Common.{
  ℕ, ◌+◌, ◌*◌, ◌/◌, ◌%◌, Bool, true, false, ◌&&◌, not, Option, none, some, ◌==◌, if◌then◌else◌,
  update, State, total, bit,
}
use ptab.Common.Word.{word_max, wrapping_add, wrapping_sub}
use ptab.Params.Capacity.{max_capacity, as_usize}
use ptab.Params.Target.{word_bits, cache_line_slots}
use ptab.Params.Derived.{Params, length_usize, blocks}
use ptab.Index.Defs.{Abstract, Concrete}
use ptab.Array
use ptab.Array.{Array}
use ptab.Reclaim.Owned.{AtomicOwned}
use ptab.Reclaim.Sdd

pub record Volatile : Type 0 where
  pub entries : ℕ
  pub next_id : ℕ
  pub free_id : ℕ

pub record ReadOnly (Cell : Type 0) : Type 0 where
  pub cells : Array Cell
  pub slot : Array ℕ

pub record Table (Cell : Type 0) : Type 0 where
  pub volatile : Volatile
  pub readonly : ReadOnly Cell

-- `RESERVED`, the largest `usize`.
abbrev pub reserved : Params → ℕ
reserved p = word_max (word_bits p.target)

-- `P::LENGTH == Capacity::MAX`; the discriminants tell capacities apart.
unfoldable pub is_max : Params → Bool
is_max p = length_usize p == as_usize max_capacity

-- A `compare_exchange_weak` may fail for no reason. `fails i` says whether the attempt number `i`
-- of an operation's loop does; from attempt number `bound` on none may, for the loop to end.
pub record WeakCas : Type 0 where
  pub fails : ℕ → Bool
  pub bound : ℕ

pub data CasResult : Type 0 where
  ok : ℕ → CasResult
  err : ℕ → CasResult

unfoldable pub new_volatile : Params → Volatile
new_volatile p = record { entries = bit (is_max p); next_id = 0; free_id = 0 }

-- The initial content of the slot at `offset`.
unfoldable pub slot_value : Params → ℕ → ℕ
slot_value p offset =
    let block = offset / cache_line_slots p.target in
    let index = offset % cache_line_slots p.target in index * blocks p + block

unfoldable pub new_slot_array : Params → Array ℕ
new_slot_array p = Array.new p (slot_value p)

module _ {T Cell : Type 0} (o : AtomicOwned T Cell) (p : Params) where
  unfoldable pub new_data_array : Array Cell
  new_data_array = Array.new p (λ offset. Sdd.null o)

  unfoldable pub new_readonly : ReadOnly Cell
  new_readonly = record { cells = new_data_array; slot = new_slot_array p }

  unfoldable pub new : Table Cell
  new = record { volatile = new_volatile p; readonly = new_readonly }

module _ {Cell : Type 0} where
  abbrev set_volatile : Table Cell → Volatile → Table Cell
  set_volatile t v = record t { volatile = v }

  abbrev set_slot : Table Cell → ℕ → ℕ → Table Cell
  set_slot t i v = record t {
    readonly = record (t.readonly) { slot = update t.readonly.slot i (some v) };
  }

  abbrev pub load_entries : Table Cell → ℕ
  load_entries t = t.volatile.entries

  unfoldable pub incr_entries : State (Table Cell) ℕ
  incr_entries = total λ t. (
    t.volatile.entries,
    set_volatile t (record (t.volatile) { entries = wrapping_add 32 t.volatile.entries 1 }),
  )

  unfoldable pub decr_entries : State (Table Cell) ℕ
  decr_entries = total λ t. (
    t.volatile.entries,
    set_volatile t (record (t.volatile) { entries = wrapping_sub 32 t.volatile.entries 1 }),
  )

  -- The Boolean says that the exchange fails for no reason.
  unfoldable pub swap_entries : Bool → ℕ → ℕ → State (Table Cell) CasResult
  swap_entries fails current updated = total λ t.
      if t.volatile.entries == current && not fails
      then (ok current, set_volatile t (record (t.volatile) { entries = updated }))
      else (err t.volatile.entries, t)

  unfoldable pub fetch_next_id : State (Table Cell) Abstract
  fetch_next_id = total λ t. (
    record { source = t.volatile.next_id },
    set_volatile t (record (t.volatile) { next_id = wrapping_add 32 t.volatile.next_id 1 }),
  )

  unfoldable pub fetch_free_id : State (Table Cell) Abstract
  fetch_free_id = total λ t. (
    record { source = t.volatile.free_id },
    set_volatile t (record (t.volatile) { free_id = wrapping_add 32 t.volatile.free_id 1 }),
  )

  -- `slot.get(c).swap(v)`; a slot out of bounds is undefined behaviour.
  unfoldable pub swap_slot : Concrete → ℕ → State (Table Cell) ℕ
  swap_slot c v t = elim (Array.get t.readonly.slot c) [
    | none ↦ none
    | some old ↦ some (old, set_slot t c.source v)
  ]

  -- `slot.get(c).compare_exchange_weak(current, updated).is_ok()`
  unfoldable pub exchange_slot : Bool → Concrete → ℕ → ℕ → State (Table Cell) Bool
  exchange_slot fails c current updated t = elim (Array.get t.readonly.slot c) [
    | none ↦ none
    | some old ↦
        if old == current && not fails
        then some (true, set_slot t c.source updated)
        else some (false, t)
  ]

module _ {T Cell : Type 0} (o : AtomicOwned T Cell) where
  abbrev set_cell : Table Cell → ℕ → Cell → Table Cell
  set_cell t i c = record t {
    readonly = record (t.readonly) { cells = update t.readonly.cells i (some c) };
  }

  -- `data.get(c).write(init)`
  unfoldable pub write_cell : Concrete → Option T → State (Table Cell) (Unit {0})
  write_cell c init t = elim (Array.get t.readonly.cells c) [
    | none ↦ none
    | some cell ↦ elim (Sdd.write o cell init) [
      | none ↦ none
      | some cell' ↦ some (tt, set_cell t c.source cell')
    ]
  ]

  -- `data.get(c).evict()`
  unfoldable pub evict_cell : Concrete → State (Table Cell) Bool
  evict_cell c t = elim (Array.get t.readonly.cells c) [
    | none ↦ none
    | some cell ↦
        let (present, cell') = Sdd.evict o cell in some (present, set_cell t c.source cell')
  ]
