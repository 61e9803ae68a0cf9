-- ===== src/Concurrent/Removes.antt =====
-- src/table.rs: `remove`, with no weak exchange that fails for no reason, is the moves of one thread.
use mathlib.Core.Option.{some-injective}
use ptab.Common.{
  ℕ, ◌+◌, ◌≡◌, inl, inr, refl, ap, ◌∙◌, sym, arith, Bool, true, false, none, some, Bool-cases,
  Option-cases,
}
use ptab.Common.Word.{wrapping_sub}
use ptab.Params.Derived.{Params, length_usize}
use ptab.Index.Defs.{Detached, detached_to_abstract, detached_to_concrete}
use ptab.Reclaim.Owned.{AtomicOwned}
use ptab.Table.State.{Table, decr_entries, evict_cell}
use ptab.Table.Slots.{release_slot, release_loop, generate_next_slot}
use ptab.Table.Ops.{remove}
use ptab.Spec.{Call, Reply}
use ptab.Concurrent.System.{idle, releasing, leaving, move}
use ptab.Concurrent.Counters.{with_volatile}
use ptab.Concurrent.Alone.{alone, call_alone}
use ptab.Concurrent.Sequential.{steady, release_Leads}
use ptab.Concurrent.Calls.{started}

module _ {T Cell : Type 0} (o : AtomicOwned T Cell) (p : Params) where
  module _ (key : Detached) (t : Table Cell) where
    abbrev next_index : ℕ
    next_index = generate_next_slot p (detached_to_abstract p key)

    remove-none :
        evict_cell o (detached_to_concrete p key) t ≡ none → remove o p steady key t ≡ none
    unfolding remove
    remove-none e = ground (arith, e)

    remove_absent :
        (v : Table Cell)
        → evict_cell o (detached_to_concrete p key) t ≡ some (false, v)
        → remove o p steady key t ≡ some (false, v)
    unfolding remove
    remove_absent v e = ground (arith, e)

    remove_stuck :
        (v : Table Cell)
        → evict_cell o (detached_to_concrete p key) t ≡ some (true, v)
        → release_loop p steady (0 + length_usize p) 0 next_index v ≡ none
        → remove o p steady key t ≡ none
    unfolding remove release_slot
    remove_stuck v e loop = ground (arith, e, loop)

    abbrev uncounted : Table Cell → Table Cell
    uncounted w =
        with_volatile o p w (record (w.volatile) { entries = wrapping_sub 32 w.volatile.entries 1 })

    remove_present :
        (v w : Table Cell)
        → evict_cell o (detached_to_concrete p key) t ≡ some (true, v)
        → release_loop p steady (0 + length_usize p) 0 next_index v ≡ some (tt, w)
        → remove o p steady key t ≡ some (true, uncounted w)
    unfolding remove release_slot decr_entries
    remove_present v w e loop = ground (arith, e, loop)

    misses :
        (v : Table Cell)
        → evict_cell o (detached_to_concrete p key) t ≡ some (false, v)
        → call_alone o p 0 (Call.remove key) t ≡ some (some (Reply.removed false), v)
    unfolding call_alone alone move
    misses v e = ground (arith, e)

    evicts :
        (v : Table Cell)
        → evict_cell o (detached_to_concrete p key) t ≡ some (true, v)
        → move o p (Call.remove key) false (idle none) t ≡ some (releasing next_index, v)
    unfolding move
    evicts v e = ground (arith, e)

    leaves :
        (w : Table Cell) → alone o p 1 leaving w ≡ some (some (Reply.removed true), uncounted w)
    unfolding alone move decr_entries
    leaves w = refl

    -- `remove` by itself.
    pub remove_alone :
        (b : Bool) (u : Table Cell)
        → remove o p steady key t ≡ some (b, u)
        → (l : ℕ) × (call_alone o p l (Call.remove key) t ≡ some (some (Reply.removed b), u))
    remove_alone b u run = elim (Option-cases (evict_cell o (detached_to_concrete p key) t)) [
      | inl stuck ↦ absurd (cc (run, remove-none stuck))
      | inr ((present, v), e) ↦ elim (Bool-cases present) [
        | inr absent ↦
            let e' = e ∙ ap (λ (c : Bool). some (c, v)) absent in
            (
              0,
              misses v e'
                  ∙ ap (λ (w : Bool × Table Cell). some (some (Reply.removed w.0), w.1))
                      (some-injective _ _ (sym (remove_absent v e') ∙ run)),
            )
        | inl there ↦
            let e' = e ∙ ap (λ (c : Bool). some (c, v)) there in
            elim (Option-cases (release_loop p steady (0 + length_usize p) 0 next_index v)) [
              | inl stuck ↦ absurd (cc (run, remove_stuck v e' stuck))
              | inr ((_, w), loop) ↦
                  let (l, rest) =
                    release_Leads o p (0 + length_usize p) 0 next_index v w loop _ 1 (leaves w) in
                  (
                    l,
                    started o p (Call.remove key) t _ _ l (evicts v e') rest
                        ∙ ap (λ (y : Bool × Table Cell). some (some (Reply.removed y.0), y.1))
                            (some-injective _ _ (sym (remove_present v w e' loop) ∙ run)),
                  )
            ]
      ]
    ]
