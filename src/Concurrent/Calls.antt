-- ===== src/Concurrent/Calls.antt =====
-- src/table.rs: the operations of `Table`, with no weak exchange that fails for no reason, are the
-- moves of one thread.
use mathlib.Core.Option.{some-injective}
use ptab.Common.{
  ℕ, ◌≡◌, inl, inr, ap, ◌∙◌, sym, arith, true, false, Option, none, some, Bool-cases, Option-cases,
  pure, ◌>>◌, ltb,
}
use ptab.Common.Word.{wrapping_add, wrapping_sub}
use ptab.Params.Capacity.{as_u32}
use ptab.Params.Derived.{Params, length_usize}
use ptab.Index.Defs.{Detached, Abstract, abstract_to_concrete, abstract_to_detached}
use ptab.Reclaim.Owned.{AtomicOwned}
use ptab.Table.State.{Table, incr_entries, swap_entries, write_cell}
use ptab.Table.Slots.{reserve_slot, undo_loop, acquire_slot, acquire_loop}
use ptab.Table.Ops.{write}
use ptab.Spec.{Call, Reply}
use ptab.Concurrent.System.{Pc, idle, acquiring, holding, move}
use ptab.Concurrent.Counters.{with_volatile}
use ptab.Concurrent.Alone.{alone, call_alone}
use ptab.Concurrent.Sequential.{steady, acquire_Leads}

module _ {T Cell : Type 0} (o : AtomicOwned T Cell) (p : Params) where
  -- The table with one entry more counted.
  abbrev counting : Table Cell → Table Cell
  counting t =
      with_volatile o p t (record (t.volatile) { entries = wrapping_add 32 t.volatile.entries 1 })

  -- The first move of a call, and the rest.
  pub started :
      (call : Call T) (t : Table Cell) (q : Pc T) (u : Table Cell)
      {r : Option (Reply T) × Table Cell} (l : ℕ)
      → move o p call false (idle none) t ≡ some (q, u)
      → alone o p l q u ≡ some r
      → call_alone o p l call t ≡ some r
  unfolding call_alone
  started call t q u l first rest = ground (arith, first, rest)

  module _ (f : Detached → T) (t : Table Cell) where
    write-none :
        ltb t.volatile.entries (as_u32 p.length) ≡ true
        → acquire_loop p (length_usize p) (counting t) ≡ none
        → write o p steady (λ d. some (f d)) t ≡ none
    unfolding write reserve_slot incr_entries acquire_slot
    write-none space e = ground (arith, space, e)

    write_fills :
        (a : Abstract) (u : Table Cell)
        → ltb t.volatile.entries (as_u32 p.length) ≡ true
        → acquire_loop p (length_usize p) (counting t) ≡ some (a, u)
        → write o p steady (λ d. some (f d)) t
          ≡ (do
            write_cell o (abstract_to_concrete p a) (some (f (abstract_to_detached p a)))
            pure (some (abstract_to_detached p a)))
              u
    unfolding write reserve_slot incr_entries acquire_slot
    write_fills a u space e = ground (arith, space, e)

    abbrev refunded : Table Cell
    refunded =
        let v = (counting t).volatile in
        with_volatile o p (counting t)
          (record v { entries = wrapping_sub 32 (wrapping_add 32 t.volatile.entries 1) 1 })

    write_refused :
        ltb t.volatile.entries (as_u32 p.length) ≡ false
        → write o p steady (λ d. some (f d)) t ≡ some (none, refunded)
    unfolding write reserve_slot incr_entries undo_loop swap_entries
    write_refused full = ground (arith, full)

    refuses :
        ltb t.volatile.entries (as_u32 p.length) ≡ false
        → call_alone o p 1 (Call.write f) t ≡ some (some (Reply.index none), refunded)
    unfolding call_alone alone move incr_entries swap_entries
    refuses full = ground (arith, full)

    admits :
        ltb t.volatile.entries (as_u32 p.length) ≡ true
        → move o p (Call.write f) false (idle none) t ≡ some (acquiring f, counting t)
    unfolding move incr_entries
    admits space = ground (arith, space)

  fills :
      (f : Detached → T) (a : Abstract) (v w : Table Cell)
      → write_cell o (abstract_to_concrete p a) (some (f (abstract_to_detached p a))) v
        ≡ some (tt, w)
      → alone o p 1 (holding f a) v ≡ some (some (Reply.index (some (abstract_to_detached p a))), w)
  unfolding alone move
  fills f a v w e = ground (arith, e)

  -- `write` by itself.
  pub write_alone :
      (f : Detached → T) (t : Table Cell) (x : Option Detached) (u : Table Cell)
      → write o p steady (λ d. some (f d)) t ≡ some (x, u)
      → (l : ℕ) × (call_alone o p l (Call.write f) t ≡ some (some (Reply.index x), u))
  write_alone f t x u run = elim (Bool-cases (ltb t.volatile.entries (as_u32 p.length))) [
    | inr full ↦
        let same = some-injective _ _ (sym (write_refused f t full) ∙ run) in
        (
          1,
          refuses f t full
              ∙ ap (λ (w : Option Detached × Table Cell). some (some (Reply.index w.0), w.1)) same,
        )
    | inl space ↦ elim (Option-cases (acquire_loop p (length_usize p) (counting t))) [
      | inl stuck ↦ absurd (cc (run, write-none f t space stuck))
      | inr ((a, v), got) ↦
          elim (Option-cases
            (write_cell o (abstract_to_concrete p a) (some (f (abstract_to_detached p a))) v)) [
              | inl stuck ↦ absurd (cc (run, write_fills f t a v space got, stored_none a v stuck))
              | inr ((_, w), stored) ↦
                  let same =
                    some-injective _ _
                      (sym (write_fills f t a v space got ∙ stored_some a v w stored) ∙ run) in
                  let (l, rest) =
                    acquire_Leads o p (length_usize p) f (counting t) a v got _ 1
                      (fills f a v w stored) in
                  (
                    l,
                    started (Call.write f) t _ _ l (admits f t space) rest
                        ∙ ap
                            (λ (y : Option Detached × Table Cell).
                              some (some (Reply.index y.0), y.1))
                            same,
                  )
            ]
    ]
  ]
    where
      stored_none :
          (a : Abstract) (v : Table Cell)
          → write_cell o (abstract_to_concrete p a) (some (f (abstract_to_detached p a))) v ≡ none
          → (do
            write_cell o (abstract_to_concrete p a) (some (f (abstract_to_detached p a)))
            pure (some (abstract_to_detached p a)))
              v
            ≡ none
      stored_none a v e = ground (arith, e)

      stored_some :
          (a : Abstract) (v w : Table Cell)
          → write_cell o (abstract_to_concrete p a) (some (f (abstract_to_detached p a))) v
            ≡ some (tt, w)
          → (do
            write_cell o (abstract_to_concrete p a) (some (f (abstract_to_detached p a)))
            pure (some (abstract_to_detached p a)))
              v
            ≡ some (some (abstract_to_detached p a), w)
      stored_some a v w e = ground (arith, e)
