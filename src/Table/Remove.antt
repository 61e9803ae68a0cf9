-- ===== src/Table/Remove.antt =====
-- src/table.rs: `Table::remove`, on both branches.
use ptab.Common.{
  ℕ, ◌+◌, ◌<◌, ◌≡◌, ap, ◌∙◌, sym, arith, Bool, true, false, Option, none, some, ◌==◌, if◌then◌else◌,
  update, bit, count, count-pos, count-true, count-ext, Option-cases, inl, inr,
}
use native.Mathlib.Decide.{ℕ_discrete}
use ptab.Params.Derived.{Params, length_usize}
use ptab.Params.Geometry.{FitsLine, length_usize-bounds}
use ptab.Index.Defs.{Detached, Concrete, detached_to_abstract, detached_to_concrete}
use ptab.Index.Fields.{IsWord}
use ptab.Index.RoundTrip.{concrete-of-detached, abstract-IsWord, detached-of-abstract}
use ptab.Reclaim.Owned.{AtomicOwned}
use ptab.Reclaim.Sdd
use ptab.Reclaim.Sdd.{is_some}
use ptab.Table.State.{Table, reserved, WeakCas, evict_cell}
use ptab.Table.Slots.{release_slot, generate_next_slot}
use ptab.Table.Ops.{remove}
use ptab.Table.View.{place, value_at, occupied, taken, held_back, population, IsValid}
use ptab.Table.Release.{from_attempt, IsReliable, Stored, uncount, release_slot_lem}
use ptab.Table.Generations.{next-ne-reserved, next_IsWord, next_place}
use ptab.Table.Removal.{Removal, Removal-IsValid, removed_value, population_removed}
use ptab.Table.Insert.{slot_of}
use ptab.Table.Lookup.{slot_of-lt}

module _ {T Cell : Type 0} (o : AtomicOwned T Cell) (p : Params) where
  -- `u` is `t` without the value at the slot of `d`, if there was one.
  pub record Removed (t u : Table Cell) (d : Detached) : Type 0 where
    pub valid : IsValid o p u
    pub values : (c : ℕ) → value_at o u c ≡ (if slot_of p d == c then none else value_at o t c)
    pub counted_off : population o p u + bit (occupied o t (slot_of p d)) ≡ population o p t

  pub abstract_place :
      (d : Detached)
      → FitsLine p
      → IsWord p d.bits
      → place p (detached_to_abstract p d).source ≡ slot_of p d
  abstract_place d fits word =
      ap (λ (c : Concrete). c.source)
        (sym
            (concrete-of-detached p fits (detached_to_abstract p d) (abstract-IsWord p fits d word))
          ∙ ap (detached_to_concrete p) (detached-of-abstract p fits d word))

  module _ (weak : WeakCas) (d : Detached) (t : Table Cell) where
    -- The table with the cell of the slot emptied.
    emptied : Cell → Table Cell
    emptied x = record t {
      readonly = record (t.readonly) {
        cells = update t.readonly.cells (slot_of p d) (some (Sdd.evict o x).1);
      };
    }

    remove_absent_run :
        (x : Cell)
        → t.readonly.cells (slot_of p d) ≡ some x
        → o.load x ≡ none
        → remove o p weak d t ≡ some (false, emptied x)
    unfolding remove evict_cell emptied
    remove_absent_run x e absent = ground (arith, Sdd.evict_lem o x)

    remove_present_run :
        (x : Cell) (v : T) (u : Table Cell)
        → t.readonly.cells (slot_of p d) ≡ some x
        → o.load x ≡ some v
        → release_slot p weak (detached_to_abstract p d) (emptied x) ≡ some (tt, u)
        → remove o p weak d t ≡ some (true, u)
    unfolding remove evict_cell emptied
    remove_present_run x v u e present run = ground (arith, Sdd.evict_lem o x)

    emptied_value :
        (x : Cell) (c : ℕ)
        → value_at o (emptied x) c ≡ (if slot_of p d == c then none else value_at o t c)
    unfolding emptied
    emptied_value x c = ground (arith, Sdd.evict_lem o x)

    emptied_init :
        (x : Cell)
        → IsValid o p t
        → (c : ℕ) → c < length_usize p
        → (y : Cell) × ((emptied x).readonly.cells c ≡ some y)
    unfolding emptied
    emptied_init x valid c h = elim (ℕ_discrete (slot_of p d) c) [
      | yes here ↦ ((Sdd.evict o x).1, ground arith)
      | no other ↦ let (y, e) = valid.cell_init c h in (y, ground arith)
    ]

    module _ (x : Cell) (x_e : t.readonly.cells (slot_of p d) ≡ some x) (fits : FitsLine p)
        (valid : IsValid o p t) where
      -- Emptying an empty cell changes nothing that shows.
      emptied_unchanged : o.load x ≡ none → (c : ℕ) → value_at o (emptied x) c ≡ value_at o t c
      emptied_unchanged absent c = elim (ℕ_discrete (slot_of p d) c) [
        | yes here ↦ ground (arith, emptied_value x c, ap (λ (k : ℕ). value_at o t k) here)
        | no other ↦ ground (arith, emptied_value x c)
      ]

      absent_population : o.load x ≡ none → population o p (emptied x) ≡ population o p t
      unfolding population
      absent_population absent =
          count-ext (occupied o (emptied x)) (occupied o t) (length_usize p)
            (λ i h. ap is_some (emptied_unchanged absent i))

      absent-IsValid : o.load x ≡ none → IsValid o p (emptied x)
      unfolding emptied
      absent-IsValid absent = record {
        cell_init = emptied_init x valid;
        slot_init = valid.slot_init;
        vacant = λ i s h e ne. emptied_unchanged absent (place p s) ∙ valid.vacant i s h e ne;
        distinct = valid.distinct;
        balance = valid.balance ∙ sym (absent_population absent);
        counted = valid.counted ∙ ap (λ (n : ℕ). held_back p + n) (sym (absent_population absent));
        room = valid.room;
        next_small = valid.next_small;
        free_small = valid.free_small;
      }

      -- Where there is an entry, a slot of the ring is reserved.
      reserved_index :
          (v : T)
          → o.load x ≡ some v
          → slot_of p d < length_usize p
          → (j : ℕ) × (j < length_usize p) × (t.readonly.slot j ≡ some (reserved p))
      reserved_index v present h =
          let some_entry : 0 < population o p t =
            unfold population in
            count-true (occupied o t) (length_usize p) (slot_of p d) h (ground arith) in
          let (j, lt, hit) =
            count-pos (taken p t) (length_usize p) (omega (arith, valid.balance)) in
          let (s, s_e, word) = valid.slot_init j lt in (j, lt, ground arith)

      -- What `release_slot` does after the eviction amounts to a removal.
      Stored-Removal :
          {u : Table Cell} (v : T)
          → IsWord p d.bits
          → slot_of p d < length_usize p
          → o.load x ≡ some v
          → Stored p
              (from_attempt weak 0)
              (emptied x)
              u
              (generate_next_slot p (detached_to_abstract p d))
          → Removal o p t
              (uncount u)
              (slot_of p d)
              (generate_next_slot p (detached_to_abstract p d))
      unfolding emptied population
      Stored-Removal {u} v word in_table present stored =
          let (low, high) = length_usize-bounds p in
          let entry : 0 < count (occupied o t) (length_usize p) =
            count-true (occupied o t) (length_usize p) (slot_of p d) in_table (ground arith) in
          record {
            value = v;
            held = ground arith;
            slot_lt = in_table;
            target = stored.target;
            target_lt = stored.target_lt;
            was = stored.was;
            slots = stored.slots;
            emptied = (Sdd.evict o x).1;
            emptied_value = (Sdd.evict_lem o x).1;
            cells = λ c. ap (λ (f : ℕ → Option Cell). f c) stored.cells;
            index = next-ne-reserved p (detached_to_abstract p d);
            index_word = next_IsWord p (detached_to_abstract p d);
            index_place = next_place p fits (detached_to_abstract p d) ∙ abstract_place d fits word;
            entries = omega (arith, stored.entries, valid.counted, valid.room);
            next_id = stored.next_id;
            free_small = stored.free_small;
          }

  Removal-Removed :
      {t u : Table Cell} {d : Detached} {next : ℕ}
      → IsValid o p t
      → Removal o p t u (slot_of p d) next
      → Removed t u d
  Removal-Removed {t} {u} {d} valid change = record {
    valid = Removal-IsValid o p valid change;
    values = removed_value o p valid change;
    counted_off = ground (arith, population_removed o p valid change, change.held);
  }

  absent-Removed :
      (weak : WeakCas) (d : Detached) (t : Table Cell) (x : Cell)
      → t.readonly.cells (slot_of p d) ≡ some x
      → FitsLine p
      → IsValid o p t
      → o.load x ≡ none
      → Removed t (emptied weak d t x) d
  absent-Removed weak d t x x_e fits valid absent = record {
    valid = absent-IsValid weak d t x x_e fits valid absent;
    values = emptied_value weak d t x;
    counted_off = ground (arith, absent_population weak d t x x_e fits valid absent);
  }

  answered :
      (t : Table Cell) (d : Detached) {u : Table Cell} {b : Bool} {r : Option (Bool × Table Cell)}
      → occupied o t (slot_of p d) ≡ b
      → r ≡ some (b, u)
      → r ≡ some (occupied o t (slot_of p d), u)
  answered t d e run = rw e run

  -- Where the slot has a value, the index of the next generation goes back to the ring.
  pub remove_present :
      (weak : WeakCas) (d : Detached) (v : T) {t : Table Cell}
      → FitsLine p
      → IsReliable weak
      → IsValid o p t
      → IsWord p d.bits
      → value_at o t (slot_of p d) ≡ some v
      → (u : Table Cell) × (remove o p weak d t ≡ some (true, u))
        × Removal o p t u (slot_of p d) (generate_next_slot p (detached_to_abstract p d))
  remove_present weak d v {t} fits reliable valid word held =
      let in_table = slot_of-lt p fits d in
      let (x, x_e) = valid.cell_init (slot_of p d) in_table in
      let present : o.load x ≡ some v = ground (arith, x_e, held) in
      let (j, j_lt, j_e) = reserved_index weak d t x x_e fits valid v present in_table in
      let (u, run, stored) =
        release_slot_lem p weak (detached_to_abstract p d) j (emptied weak d t x) fits reliable
          (unfold emptied in valid.slot_init) (unfold emptied in valid.free_small) j_lt
          (unfold emptied in j_e) in
      (
        uncount u,
        remove_present_run weak d t x v (uncount u) x_e present run,
        Stored-Removal weak d t x x_e fits valid v word in_table present stored,
      )

  -- On a valid table where a cache line fits and the weak exchange fails only finitely often,
  -- remove with an index that is a word returns, says whether the slot that the index names had a
  -- value, empties this slot and no other, takes one off the population exactly if there was a
  -- value, and keeps the table valid.
  pub remove_lem :
      (weak : WeakCas) (d : Detached) {t : Table Cell}
      → FitsLine p
      → IsReliable weak
      → IsValid o p t
      → IsWord p d.bits
      → (u : Table Cell) × (remove o p weak d t ≡ some (occupied o t (slot_of p d), u))
        × Removed t u d
  remove_lem weak d {t} fits reliable valid word =
      let (x, x_e) = valid.cell_init (slot_of p d) (slot_of-lt p fits d) in
      elim (Option-cases (o.load x)) [
        | inl absent ↦ (
          emptied weak d t x,
          answered t d (ground arith) (remove_absent_run weak d t x x_e absent),
          absent-Removed weak d t x x_e fits valid absent,
        )
        | inr (v, present) ↦
            let (u, run, change) =
              remove_present weak d v fits reliable valid word (ground (arith, x_e, present)) in
            (u, answered t d (ground arith) run, Removal-Removed valid change)
      ]
