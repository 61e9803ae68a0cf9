-- ===== src/Table/Insert.antt =====
-- src/table.rs: `Table::write` and `Table::insert`, on both branches.
use ptab.Common.{
  ℕ, ◌+◌, ◌<◌, ◌≡◌, refl, ap, arith, Option, none, some, ◌==◌, if◌then◌else◌, update, count-lt,
}
use ptab.Params.Derived.{Params, length_usize}
use ptab.Params.Geometry.{FitsLine}
use ptab.Index.Defs.{
  Detached, Concrete, abstract_to_concrete, abstract_to_detached, detached_to_concrete,
}
use ptab.Index.Fields.{IsWord}
use ptab.Index.RoundTrip.{concrete-of-detached, detached-IsWord}
use ptab.Reclaim.Owned.{AtomicOwned}
use ptab.Reclaim.Sdd
use ptab.Table.State.{Table, WeakCas, write_cell}
use ptab.Table.Slots.{permit, acquire_slot}
use ptab.Table.Ops.{write}
use ptab.Table.View.{place, value_at, taken, population, IsValid}
use ptab.Table.Probe.{place-lt}
use ptab.Table.Acquire.{Shows, Acquired, acquire_slot_lem}
use ptab.Table.Release.{IsReliable}
use ptab.Table.Reserve.{with_entries, reserve_open, reserve_full}
use ptab.Table.Insertion.{
  Insertion, Insertion-IsValid, inserted_value, inserted_vacant, population_inserted,
}

-- The slot that a detached index names.
abbrev pub slot_of : Params → Detached → ℕ
slot_of p d = (detached_to_concrete p d).source

module _ {T Cell : Type 0} (o : AtomicOwned T Cell) (p : Params) where
  -- `u` is `t` with `v` stored under the index `d`, at a slot that was empty.
  pub record Inserted (t u : Table Cell) (d : Detached) (v : T) : Type 0 where
    pub index_word : IsWord p d.bits
    pub valid : IsValid o p u
    pub was_free : value_at o t (slot_of p d) ≡ none
    pub in_table : slot_of p d < length_usize p
    pub values : (c : ℕ) → value_at o u c ≡ (if slot_of p d == c then some v else value_at o t c)
    pub one_more : population o p u ≡ population o p t + 1

  module _ {t : Table Cell} (fits : FitsLine p) (valid : IsValid o p t) where
    -- A table with room shows a free index.
    free_index : t.volatile.entries < length_usize p → (i : ℕ) × (i < length_usize p) × Shows p t i
    free_index h =
        let (i, lt, open_i) =
          count-lt (taken p t) (length_usize p) (omega (arith, valid.balance, valid.counted)) in
        let (s, e, word) = valid.slot_init i lt in (i, lt, (s, e, ground arith))

    module _ {s : ℕ} {t2 : Table Cell}
        (got : Acquired p (with_entries t (t.volatile.entries + 1)) t2 s) where
      -- The slot of the index is filled without undefined behaviour.
      filled :
          (v : T)
          → t.volatile.entries < length_usize p
          → (u : Table Cell) × (write_cell o
                (abstract_to_concrete p (record { source = s }))
                (some v)
                t2
              ≡ some (tt, u))
            × Insertion o p t u s v
      unfolding write_cell
      filled v spare =
          let (x, x_e) = valid.cell_init (place p s) (place-lt p fits s) in
          let vacant = valid.vacant got.from s got.from_lt got.was got.free in
          let (stored, run, stored_e) = Sdd.write_empty o x v (ground arith) in
          (
            record t2 {
              readonly = record (t2.readonly) {
                cells = update t2.readonly.cells (place p s) (some stored);
              };
            },
            ground (arith, ap (λ (f : ℕ → Option Cell). f (place p s)) got.cells),
            record {
              from = got.from;
              from_lt = got.from_lt;
              was = got.was;
              free = got.free;
              slots = got.slots;
              stored = stored;
              stored_value = stored_e;
              cells = λ c. ground (arith, ap (λ (f : ℕ → Option Cell). f c) got.cells);
              place_lt = place-lt p fits s;
              entries = got.entries;
              spare = spare;
              next_small = got.next_small;
              free_id = got.free_id;
            },
          )

      Insertion-Inserted :
          {u : Table Cell} {v : T}
          → Insertion o p t u s v
          → Inserted t u (abstract_to_detached p (record { source = s })) v
      Insertion-Inserted {u} change = record {
        index_word = detached-IsWord p fits (record { source = s }) word;
        valid = Insertion-IsValid o p valid change;
        was_free = rw same (inserted_vacant o p valid change);
        in_table = rw same (place-lt p fits s);
        values = λ c. rw same (inserted_value o p valid change c);
        one_more = population_inserted o p valid change;
      }
        where
          word : IsWord p s
          word = let (r, e, w) = valid.slot_init got.from got.from_lt in ground (arith, got.was)

          same : slot_of p (abstract_to_detached p (record { source = s })) ≡ place p s
          same =
              ap (λ (c : Concrete). c.source)
                (concrete-of-detached p fits (record { source = s }) word)

    -- The calls of `write` in a row.
    write_run :
        (weak : WeakCas) (init : Detached → Option T) (v : T) {s : ℕ} {t2 u : Table Cell}
        → t.volatile.entries < length_usize p
        → acquire_slot p permit (with_entries t (t.volatile.entries + 1))
          ≡ some (record { source = s }, t2)
        → init (abstract_to_detached p (record { source = s })) ≡ some v
        → write_cell o (abstract_to_concrete p (record { source = s })) (some v) t2 ≡ some (tt, u)
        → write o p weak init t ≡ some (some (abstract_to_detached p (record { source = s })), u)
    unfolding write
    write_run weak init v h acquired made stored = ground (arith, reserve_open p weak t h)

  -- On a valid table with fewer entries counted than slots, where a cache line fits the table,
  -- write returns an index d whatever weak exchanges fail: d is a word and names a slot of the
  -- table that was empty, the slot gets the value that init makes of d, all other slots keep
  -- theirs, the population grows by one and the table stays valid.
  pub write_open :
      (weak : WeakCas) (init : Detached → T) {t : Table Cell}
      → FitsLine p
      → IsValid o p t
      → t.volatile.entries < length_usize p
      → (d : Detached) × (u : Table Cell) × (write o p weak (λ e. some (init e)) t
          ≡ some (some d, u))
        × Inserted t u d (init d)
  write_open weak init {t} fits valid h =
      let (i, lt, shows) = free_index fits valid h in
      let (s, t2, run, got) =
        acquire_slot_lem p i (with_entries t (t.volatile.entries + 1)) fits valid.slot_init
          valid.next_small lt shows in
      let d : Detached = abstract_to_detached p (record { source = s }) in
      let (u, stored, change) = filled fits valid got (init d) h in
      (
        d,
        u,
        write_run fits valid weak (λ e. some (init e)) (init d) h run refl stored,
        Insertion-Inserted fits valid got change,
      )

  -- When as many entries are counted as there are slots and the weak exchange fails only finitely
  -- often, write returns none and leaves the whole table as it was.
  pub write_full :
      (weak : WeakCas) (init : Detached → Option T) (t : Table Cell)
      → IsReliable weak
      → t.volatile.entries ≡ length_usize p
      → write o p weak init t ≡ some (none, t)
  unfolding write
  write_full weak init t reliable e = ground (arith, reserve_full p weak t reliable e)
