-- ===== src/Concurrent/Start.antt =====
-- src/table.rs: the first move of `insert` and `write` by one of several threads.
use ptab.Common.{
  ◌≤◌, ℕ, ◌+◌, ◌^◌, ◌<◌, ◌≡◌, inl, inr, refl, ap, ◌∙◌, arith, Bool, Option, some, update, bit,
  count-le, ltb, Bool-cases,
}
use ptab.Common.Word.{wrapping_add}
use ptab.Params.Capacity.{as_u32}
use ptab.Params.Derived.{Params, length_usize}
use ptab.Index.Defs.{Detached}
use ptab.Reclaim.Owned.{AtomicOwned}
use ptab.Table.State.{Table, Volatile, incr_entries}
use ptab.Table.Lookup.{cap-add-held_back}
use ptab.Table.Reserve.{as_u32-length}
use ptab.Spec.{Call, Reply}
use ptab.Concurrent.System.{Pc, idle, undoing, acquiring, leaving, move}
use ptab.Concurrent.Invariant.{tally-update, Inv}
use ptab.Concurrent.Effect.{charged, closure, rejected, admitted, works}
use ptab.Concurrent.Calm.{Calm-Moved}
use ptab.Concurrent.Counters.{Advances, with_volatile, still, still_view}

module _ {T Cell : Type 0} (o : AtomicOwned T Cell) (p : Params) where
  module _ {n : ℕ} {t : Table Cell} {pc : ℕ → Pc T} {k : ℕ} (inv : Inv o p n t pc) (lt : k < n)
      (few : length_usize p + n < 2 ^ 32) where
    -- There is room in the counter for a thread that starts.
    entries_room : (last : Option (Reply T)) → pc k ≡ idle last → t.volatile.entries + 1 < 2 ^ 32
    entries_room last here = omega (
      arith,
      inv.counted,
      inv.room,
      few,
      tally-update charged n pc k leaving lt,
      count-le (λ j. charged (update pc k leaving j)) n,
      ap (λ (q : Pc T). bit (charged q)) here,
    )

    -- A call that starts as `write` does.
    begin_write :
        (call : Call T) (init : Detached → T) (fails : Bool) (last : Option (Reply T))
        → pc k ≡ idle last
        → closure call ≡ some init
        → move o p call fails (idle last) t ≡ move o p (Call.write init) fails (idle last) t
        → Advances o p n call fails t pc k (idle last)
    unfolding move incr_entries
    begin_write call init fails last here writes as_write =
        let v : Volatile = record (t.volatile) { entries = wrapping_add 32 t.volatile.entries 1 } in
        let grown : wrapping_add 32 t.volatile.entries 1 ≡ t.volatile.entries + 1 =
          omega (arith, entries_room last here) in
        elim (Bool-cases (ltb t.volatile.entries (as_u32 p.length))) [
          | inl space ↦ record {
            next = acquiring init;
            after = with_volatile o p t v;
            run = as_write ∙ ground arith;
            moved =
                Calm-Moved o p (acquiring init) inv here (still o p inv lt few v) refl tt
                  (omega (arith, grown)) (inr (ground (arith, as_u32-length p))) inv.next_small
                  inv.free_small;
            effect = works (still_view o p inv lt few v) (
                admitted writes (
                  omega (
                    arith,
                    (let below : t.volatile.entries < length_usize p =
                          ground (arith, as_u32-length p) in
                        below),
                    inv.counted,
                    cap-add-held_back p,
                  )));
          }
          | inr full ↦ record {
            next = undoing (wrapping_add 32 t.volatile.entries 1);
            after = with_volatile o p t v;
            run = as_write ∙ ground arith;
            moved =
                Calm-Moved o p (undoing (wrapping_add 32 t.volatile.entries 1)) inv here
                  (still o p inv lt few v) refl tt (omega (arith, grown)) (inl (omega arith))
                  inv.next_small inv.free_small;
            effect = works (still_view o p inv lt few v) (
                rejected writes (
                  omega (
                    arith,
                    (let above : length_usize p ≤ t.volatile.entries =
                          ground (arith, as_u32-length p) in
                        above),
                    inv.counted,
                    cap-add-held_back p,
                  )));
          }
        ]

    pub start_write :
        (init : Detached → T) (fails : Bool) (last : Option (Reply T))
        → pc k ≡ idle last
        → Advances o p n (Call.write init) fails t pc k (idle last)
    start_write init fails last here = begin_write (Call.write init) init fails last here refl refl

    pub start_insert :
        (value : T) (fails : Bool) (last : Option (Reply T))
        → pc k ≡ idle last
        → Advances o p n (Call.insert value) fails t pc k (idle last)
    unfolding move
    start_insert value fails last here =
        begin_write (Call.insert value) (λ _. value) fails last here refl refl
