-- ===== src/Concurrent/Evict.antt =====
-- src/table.rs: the eviction of `remove` by one of several threads.
use ptab.Common.{
  ℕ, ◌<◌, ◌≡◌, inl, inr, refl, ap, ◌∙◌, sym, arith, Bool, true, false, Option, none, some, bit,
  Option-cases,
}
use native.Mathlib.Decide.{ℕ_discrete}
use ptab.Params.Derived.{Params, length_usize}
use ptab.Params.Geometry.{FitsLine}
use ptab.Index.Defs.{Detached, detached_to_abstract}
use ptab.Index.Fields.{IsWord}
use ptab.Reclaim.Owned.{AtomicOwned}
use ptab.Reclaim.Sdd
use ptab.Reclaim.Sdd.{is_some}
use ptab.Table.State.{Table, evict_cell}
use ptab.Table.Slots.{generate_next_slot}
use ptab.Table.View.{value_at, occupied}
use ptab.Table.Probe.{place-lt}
use ptab.Table.Generations.{next-ne-reserved, next_IsWord, next_place}
use ptab.Table.Insert.{slot_of}
use ptab.Table.Remove.{abstract_place}
use ptab.Spec.{Call, Reply}
use ptab.Concurrent.System.{Pc, idle, releasing, move}
use ptab.Concurrent.Ownership.{cell, thread, Handed-IsExclusive}
use ptab.Concurrent.Invariant.{Inv}
use ptab.Concurrent.Calm.{Calm, Calm-view, Calm-Moved}
use ptab.Concurrent.Effect.{finds_none, evicts}
use ptab.Concurrent.Counters.{Advances}
use ptab.Concurrent.Moved.{Moved}
use ptab.Concurrent.Cells.{
  with_cell, value_here, value_there, set_population, cell_set_init, others_kept, thread_at,
  cell_empty, cell_was, emptied-Erases, removal,
}

module _ {T Cell : Type 0} (o : AtomicOwned T Cell) (p : Params) where
  module _ (t : Table Cell) (key : Detached) (x : Cell) where
    -- The table with the cell emptied.
    abbrev emptied : Table Cell
    emptied = with_cell o p t (slot_of p key) (Sdd.evict o x).1

    module _ (e : t.readonly.cells (slot_of p key) ≡ some x) where
      was : value_at o t (slot_of p key) ≡ o.load x
      was = ground (arith, e)

      same_values : o.load x ≡ none → (d : ℕ) → value_at o emptied d ≡ value_at o t d
      same_values absent d = elim (ℕ_discrete (slot_of p key) d) [
        | yes same ↦
            ap (value_at o emptied) (sym same)
            ∙ value_here o p t (slot_of p key) (Sdd.evict o x).1
            ∙ (Sdd.evict_lem o x).1
            ∙ sym (was ∙ absent)
            ∙ ap (value_at o t) same
        | no other ↦ value_there o p t (slot_of p key) (Sdd.evict o x).1 d other
      ]

  absent_Calm :
      (t : Table Cell) (key : Detached) (x : Cell)
      → ((c : ℕ) → c < length_usize p → (y : Cell) × (t.readonly.cells c ≡ some y))
      → t.readonly.cells (slot_of p key) ≡ some x
      → o.load x ≡ none
      → Calm o p t (emptied t key x)
  absent_Calm t key x cell_init e absent = record {
    slots = λ j. refl;
    values = same_values t key x e absent;
    cell_init = cell_set_init o p t (slot_of p key) (Sdd.evict o x).1 cell_init;
  }

  module _ {n : ℕ} {t : Table Cell} {pc : ℕ → Pc T} {k : ℕ} (inv : Inv o p n t pc) (key : Detached)
      (x : Cell) (h : slot_of p key < length_usize p)
      (e : t.readonly.cells (slot_of p key) ≡ some x) where
    -- The removal finds no value.
    evict_absent :
        (fails : Bool) (last : Option (Reply T))
        → pc k ≡ idle last
        → o.load x ≡ none
        → Advances o p n (Call.remove key) fails t pc k (idle last)
    unfolding move evict_cell
    evict_absent fails last here absent = record {
      next = idle (some (Reply.removed false));
      after = emptied t key x;
      run = ground (arith, e, (Sdd.evict_lem o x).0, absent);
      moved =
          Calm-Moved o p {u = emptied t key x} (idle (some (Reply.removed false))) inv here
            (absent_Calm t key x inv.cell_init e absent) refl tt refl (inl (omega arith))
            inv.next_small inv.free_small;
      effect = finds_none refl (was t key x e ∙ absent) (
          Calm-view o p {u = emptied t key x} (idle (some (Reply.removed false))) inv here
            (absent_Calm t key x inv.cell_init e absent) refl);
    }

    -- The slot goes from its cell to the thread.
    slot_taken :
        (last : Option (Reply T))
        → FitsLine p
        → IsWord p key.bits
        → occupied o t (slot_of p key) ≡ true
        → Moved o p t
            (emptied t key x)
            pc
            k
            (idle last)
            (releasing (generate_next_slot p (detached_to_abstract p key)))
    slot_taken last fits word held =
        let c : ℕ = slot_of p key in
        let x' : Cell = (Sdd.evict o x).1 in
        let load = (Sdd.evict_lem o x).1 in
        let next : ℕ = generate_next_slot p (detached_to_abstract p key) in
        let shrunk = set_population o p t c x' h in
        record {
          cell_init = cell_set_init o p t c x' inv.cell_init;
          slot_init = inv.slot_init;
          exclusive =
              Handed-IsExclusive {x = cell c} {y = thread k}
                (record {
                  gone = cell_empty o p t c x' pc k (releasing next) load;
                  given =
                      thread_at o p t c x' pc k (releasing next)
                      ∙ ap some (
                          next_place p fits (detached_to_abstract p key)
                          ∙ abstract_place o p key fits word)
                      ∙ sym (cell_was o p t pc c held);
                  kept = others_kept o p t c x' pc k (releasing next);
                })
                inv.exclusive;
          sound = (
            next_IsWord p (detached_to_abstract p key),
            next-ne-reserved p (detached_to_abstract p key),
          );
          balance = omega (arith, shrunk, ap bit held, ap bit (ap is_some load));
          counted = omega (arith, shrunk, ap bit held, ap bit (ap is_some load));
          room = inl (omega (arith, shrunk, ap bit held, ap bit (ap is_some load)));
          next_small = inv.next_small;
          free_small = inv.free_small;
        }

    -- The removal finds a value.
    evict_present :
        (fails : Bool) (last : Option (Reply T)) (v : T)
        → FitsLine p
        → IsWord p key.bits
        → pc k ≡ idle last
        → o.load x ≡ some v
        → Advances o p n (Call.remove key) fails t pc k (idle last)
    unfolding move evict_cell
    evict_present fails last v fits word here full =
        let held : occupied o t (slot_of p key) ≡ true = ap is_some (was t key x e ∙ full) in
        record {
          next = releasing (generate_next_slot p (detached_to_abstract p key));
          after = emptied t key x;
          run = ground (arith, e, (Sdd.evict_lem o x).0, full);
          moved = slot_taken last fits word held;
          effect = evicts refl (
              removal o p t (emptied t key x) key
                (emptied-Erases o p t key (Sdd.evict o x).1 h (Sdd.evict_lem o x).1) held);
        }

  pub evict :
      {n : ℕ} {t : Table Cell} {pc : ℕ → Pc T} {k : ℕ}
      → Inv o p n t pc
      → FitsLine p
      → (key : Detached) (fails : Bool) (last : Option (Reply T)) → IsWord p key.bits
      → pc k ≡ idle last
      → Advances o p n (Call.remove key) fails t pc k (idle last)
  evict inv fits key fails last word here =
      let h : slot_of p key < length_usize p =
        rw (← abstract_place o p key fits word)
          (place-lt p fits (detached_to_abstract p key).source) in
      let (x, e) = inv.cell_init (slot_of p key) h in
      elim (Option-cases (o.load x)) [
        | inl absent ↦ evict_absent inv key x h e fails last here absent
        | inr (v, full) ↦ evict_present inv key x h e fails last v fits word here full
      ]
