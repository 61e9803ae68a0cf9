-- ===== src/Table/Stale.antt =====
-- Indices of earlier generations of a slot, against the operations of src/table.rs.
use ptab.Common.{ℕ, ◌<◌, ◌%◌, ◌≡◌, ◌≢◌, ap, ◌∙◌, sym, arith, true, none, some}
use ptab.Params.Derived.{Params, length_usize}
use ptab.Params.Geometry.{FitsLine}
use ptab.Index.Defs.{Detached, Abstract, abstract_to_detached, detached_to_abstract}
use ptab.Index.Fields.{IsWord, detached_concrete-eq}
use ptab.Index.RoundTrip.{abstract-of-detached, detached-of-abstract}
use ptab.Reclaim.Owned.{AtomicOwned}
use ptab.Table.State.{Table, WeakCas, reserved}
use ptab.Table.Slots.{generate_next_slot}
use ptab.Table.Ops.{remove, read}
use ptab.Table.View.{value_at, place, IsValid}
use ptab.Table.Release.{IsReliable}
use ptab.Table.Insert.{slot_of, Inserted}
use ptab.Table.Remove.{remove_lem, remove_present, abstract_place}
use ptab.Table.Lookup.{read_lem}
use ptab.Table.Generations.{next_IsWord, next-ne_self, next_place}

module _ (p : Params) where
  pub slot_of-eq :
      (d e : Detached)
      → FitsLine p
      → d.bits % length_usize p ≡ e.bits % length_usize p
      → slot_of p d ≡ slot_of p e
  slot_of-eq d e fits same =
      detached_concrete-eq p fits d ∙ same ∙ sym (detached_concrete-eq p fits e)

  -- Where a cache line fits the table, the index under which a slot is issued again differs from
  -- the one before, if that is a word.
  next_index_differs :
      (a : Abstract)
      → FitsLine p
      → IsWord p a.source
      → abstract_to_detached p (record { source = generate_next_slot p a })
        ≢ abstract_to_detached p a
  next_index_differs a fits word same = next-ne_self p a word (
      ap (λ (x : Abstract). x.source)
        (sym (
            abstract-of-detached p fits (record { source = generate_next_slot p a })
              (next_IsWord p a))
          ∙ ap (detached_to_abstract p) same
          ∙ abstract-of-detached p fits a word))

module _ {T Cell : Type 0} (o : AtomicOwned T Cell) (p : Params) where
  -- After v was inserted under d, every index e that is a word and differs from d by a multiple
  -- of the length reads v, and remove with e answers true and empties the slot of d. A cache line
  -- fits the table, and the weak exchange fails only finitely often.
  pub stale_index_acts :
      (weak : WeakCas) (d e : Detached) (v : T) {t u : Table Cell}
      → FitsLine p
      → IsReliable weak
      → Inserted o p t u d v
      → IsWord p e.bits
      → d.bits % length_usize p ≡ e.bits % length_usize p
      → (read o p e u ≡ some (some v))
        × ((w : Table Cell) × (remove o p weak e u ≡ some (true, w))
            × (value_at o w (slot_of p d) ≡ none))
  stale_index_acts weak d e v {u} fits reliable ins word same =
      let slot = slot_of-eq p d e fits same in
      let held : value_at o u (slot_of p e) ≡ some v = ground (arith, ins.values (slot_of p e)) in
      let (w, run, gone) = remove_lem o p weak e fits reliable ins.valid word in
      (
        read_lem p o e fits ins.valid ∙ ap some held,
        (w, ground (arith, run), ground (arith, gone.values (slot_of p d))),
      )

  module _ (fits : FitsLine p) where
    -- The index of the next generation is one of the same slot.
    next-slot_of :
        (old d : Detached)
        → IsWord p old.bits
        → IsWord p d.bits
        → generate_next_slot p (detached_to_abstract p old) ≡ (detached_to_abstract p d).source
        → slot_of p old ≡ slot_of p d
    next-slot_of old d old_word word next =
        sym (abstract_place o p old fits old_word)
        ∙ sym (next_place p fits (detached_to_abstract p old))
        ∙ ap (place p) next
        ∙ abstract_place o p d fits word

    -- On a valid table where a cache line fits and the weak exchange fails only finitely often,
    -- let a slot hold a value, let d be an index of it and old the one of the generation before,
    -- both words. Then remove with old answers true, and a place of the ring that was reserved
    -- shows afterwards the index whose detached form is d, so that d can be issued for the next
    -- value, also where the removed one was issued under d.
    pub stale_remove_reissues :
        (weak : WeakCas) (old d : Detached) (v : T) {t : Table Cell}
        → IsReliable weak
        → IsValid o p t
        → IsWord p old.bits
        → IsWord p d.bits
        → generate_next_slot p (detached_to_abstract p old) ≡ (detached_to_abstract p d).source
        → value_at o t (slot_of p d) ≡ some v
        → (w : Table Cell) × (remove o p weak old t ≡ some (true, w))
          × ((j : ℕ) × (j < length_usize p)
              × (t.readonly.slot j ≡ some (reserved p))
              × ((a : Abstract) × (w.readonly.slot j ≡ some a.source)
                  × (abstract_to_detached p a ≡ d)))
    stale_remove_reissues weak old d v {t} reliable valid old_word word next held =
        let (w, run, change) =
          remove_present o p weak old v fits reliable valid old_word
            (ap (value_at o t) (next-slot_of old d old_word word next) ∙ held) in
        (
          w,
          run,
          (
            change.target,
            change.target_lt,
            change.was,
            (
              detached_to_abstract p d,
              ground (arith, change.slots change.target, next),
              detached-of-abstract p fits d word,
            ),
          ),
        )
