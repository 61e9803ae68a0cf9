-- ===== src/Examples/Tables.antt =====
-- The theorems on a table, from a new one and after a first insertion.
use ptab.Common.{
  ◌↔◌, suc, ℕ, ◌+◌, ◌%◌, ◌<◌, ◌≡◌, refl, ap, ◌∙◌, arith, Option, none, some, true, update,
}
use native.Mathlib.Decide.{ℕ_discrete}
use ptab.Common.Word.{next_multiple_of, trailing_ones, trailing_zeros}
use ptab.Params.Enum.{discriminant}
use ptab.Params.Capacity.{as_usize, log2}
use ptab.Params.Target.{align, cache_line, cache_line_slots}
use ptab.Params.Derived.{
  length_usize, blocks, derive_blocks, id_mask_block, id_shift_block, id_mask_index, id_shift_index,
  id_mask_bits, id_mask_entry,
}
use ptab.Index.Defs.{Detached, Abstract, detached_to_abstract, abstract_to_detached}
use ptab.Reclaim.Owned.{plain}
use ptab.Table.State.{Table, reserved}
use ptab.Table.Slots.{permit, generate_next_slot, acquire_slot, release_slot}
use ptab.Table.Ops.{write, remove, read}
use ptab.Table.Ops.{cap}
use ptab.Table.Walk.{keys_from, entries_from, walk_lem, debug_entries_lem}
use ptab.Table.Keys
use ptab.Table.Keys.{collect, debug_entries, next, drop}
use ptab.Table.View.{value_at, occupied, IsValid}
use ptab.Table.Acquire.{SlotsInit, Acquired, acquire_slot_lem}
use ptab.Table.Release.{from_attempt, Stored, uncount, release_slot_lem}
use ptab.Table.Period.{period, reissued, returns_iff}
use ptab.Table.Create.{new-IsValid}
use ptab.Table.Insert.{slot_of, Inserted, write_open, write_full}
use ptab.Table.Remove.{Removed, remove_lem}
use ptab.Table.Teardown.{values_from, drop_lem}
use ptab.Table.Iteration.{Yields, next_lem, next_key_bits}
use ptab.Table.Stale.{slot_of-eq, stale_index_acts, stale_remove_reissues}
use ptab.Examples.Fixtures.{
  medium, medium_fits, medium_length, flaky, flaky-IsReliable, fresh, fresh-IsValid, fresh_open,
  one_entry, first_key, first_key-eq, one_entry-Inserted, keys, fresh_slot, first_next,
}

one_entry-IsValid : IsValid (plain ℕ) medium one_entry
one_entry-IsValid = one_entry-Inserted.valid

-- An index of the next generation, for the slot of the first entry.
abbrev stale : Detached
stale = record { bits = 64 }

-- The counter of a full table.
abbrev counted_full : Table (Option ℕ)
counted_full = record fresh { volatile = record (fresh.volatile) { entries = length_usize medium } }

-- Slot 0 of the ring is reserved.
abbrev one_reserved : Table (Option ℕ)
one_reserved = record fresh {
  readonly = record (fresh.readonly) {
    slot = update fresh.readonly.slot 0 (some (reserved medium));
  };
}

one_reserved-SlotsInit : SlotsInit medium one_reserved
one_reserved-SlotsInit i h = elim (ℕ_discrete 0 i) [
  | yes here ↦ (reserved medium, ground arith, omega arith)
  | no other ↦ let (s, e, word) = fresh-IsValid.slot_init i h in (s, ground arith, word)
]

same_rem : 0 % length_usize medium ≡ 64 % length_usize medium
unfolding length_usize as_usize
same_rem = refl

new-IsValid_example : IsValid (plain ℕ) medium fresh
new-IsValid_example = new-IsValid (plain ℕ) medium medium_fits

write_open_example :
    (d : Detached) × (u : Table (Option ℕ)) × (write
        (plain ℕ)
        medium
        flaky
        (λ e. some (e.bits + 5))
        fresh
      ≡ some (some d, u))
    × Inserted (plain ℕ) medium fresh u d (d.bits + 5)
write_open_example =
    write_open (plain ℕ) medium flaky (λ e. e.bits + 5) medium_fits fresh-IsValid fresh_open

write_full_example :
    write (plain ℕ) medium flaky (λ e. some 5) counted_full ≡ some (none, counted_full)
write_full_example =
    write_full (plain ℕ) medium flaky (λ e. some 5) counted_full flaky-IsReliable refl

remove_lem_example :
    (u : Table (Option ℕ)) × (remove (plain ℕ) medium flaky (record { bits = 0 }) one_entry
      ≡ some (occupied (plain ℕ) one_entry (slot_of medium (record { bits = 0 })), u))
    × Removed (plain ℕ) medium one_entry u (record { bits = 0 })
remove_lem_example =
    remove_lem (plain ℕ) medium flaky (record { bits = 0 }) medium_fits flaky-IsReliable
      one_entry-IsValid (omega arith)

stale_index_acts_example :
    (read (plain ℕ) medium stale one_entry ≡ some (some 7))
    × ((w : Table (Option ℕ)) × (remove (plain ℕ) medium flaky stale one_entry ≡ some (true, w))
        × (value_at (plain ℕ) w (slot_of medium first_key) ≡ none))
stale_index_acts_example =
    stale_index_acts (plain ℕ) medium flaky first_key stale 7 medium_fits flaky-IsReliable
      one_entry-Inserted (omega arith)
      (ap (λ (d : Detached). d.bits % length_usize medium) first_key-eq ∙ same_rem)

next_of_first :
    generate_next_slot medium (detached_to_abstract medium (record { bits = 0 }))
    ≡ (detached_to_abstract medium stale).source
unfolding generate_next_slot detached_to_abstract id_mask_entry id_mask_bits log2 trailing_zeros
    id_shift_block trailing_ones id_mask_index cache_line_slots cache_line align id_mask_block
    blocks derive_blocks next_multiple_of id_shift_index length_usize as_usize discriminant
next_of_first = refl

held_by_stale : value_at (plain ℕ) one_entry (slot_of medium stale) ≡ some 7
held_by_stale =
    let slot =
      slot_of-eq medium first_key stale medium_fits
        (ap (λ (d : Detached). d.bits % length_usize medium) first_key-eq ∙ same_rem) in
    ground (arith, one_entry-Inserted.values (slot_of medium stale), slot)

stale_remove_reissues_example :
    (w : Table (Option ℕ)) × (remove (plain ℕ) medium flaky (record { bits = 0 }) one_entry
      ≡ some (true, w))
    × ((j : ℕ) × (j < length_usize medium)
        × (one_entry.readonly.slot j ≡ some (reserved medium))
        × ((a : Abstract) × (w.readonly.slot j ≡ some a.source)
            × (abstract_to_detached medium a ≡ stale)))
stale_remove_reissues_example =
    stale_remove_reissues (plain ℕ) medium medium_fits flaky (record { bits = 0 }) stale 7
      flaky-IsReliable one_entry-IsValid (omega arith) (omega arith) next_of_first held_by_stale

acquire_slot_lem_example :
    (s : ℕ) × (u : Table (Option ℕ)) × (acquire_slot medium permit fresh
      ≡ some (record { source = s }, u))
    × Acquired medium fresh u s
acquire_slot_lem_example =
    acquire_slot_lem medium 5 fresh medium_fits fresh-IsValid.slot_init fresh-IsValid.next_small
      (omega (arith, medium_length)) (20, fresh_slot, λ e. absurd (omega (arith, e)))

release_slot_lem_example :
    (u : Table (Option ℕ)) × (release_slot medium flaky (record { source = 0 }) one_reserved
      ≡ some (tt, uncount u))
    × Stored medium
        (from_attempt flaky 0)
        one_reserved
        u
        (generate_next_slot medium (record { source = 0 }))
release_slot_lem_example =
    release_slot_lem medium flaky (record { source = 0 }) 0 one_reserved medium_fits
      flaky-IsReliable one_reserved-SlotsInit fresh-IsValid.free_small
      (omega (arith, medium_length)) refl

drop_lem_example :
    drop (plain ℕ) medium one_entry ≡ some (values_from (plain ℕ) one_entry 0 (length_usize medium))
drop_lem_example = drop_lem (plain ℕ) medium one_entry one_entry-IsValid

next_lem_example :
    (found : Option Detached) × (index : ℕ) × (next (plain ℕ) medium keys one_entry
      ≡ some (found, record keys { index = index }))
    × Yields (plain ℕ) medium one_entry 0 64 found index
next_lem_example = next_lem (plain ℕ) medium medium_fits one_entry-IsValid keys (omega arith)

next_key_bits_example : 0 < length_usize medium
next_key_bits_example =
    next_key_bits (plain ℕ) medium medium_fits one_entry-IsValid keys (record keys { index = 1 })
      (record { bits = 0 }) (omega arith) (omega (arith, medium_length)) first_next

walk_lem_example :
    collect (plain ℕ) medium (suc (cap medium)) (Keys.new medium) one_entry
    ≡ some (keys_from (plain ℕ) medium one_entry 0 (cap medium))
walk_lem_example = walk_lem (plain ℕ) medium medium_fits one_entry-IsValid

debug_entries_lem_example :
    debug_entries (plain ℕ) medium one_entry
    ≡ some (entries_from (plain ℕ) medium one_entry 0 (length_usize medium))
debug_entries_lem_example = debug_entries_lem (plain ℕ) medium medium_fits one_entry-IsValid

returns_iff_example : reissued medium 5 63 ≡ 63 ↔ 5 % period medium (63 % length_usize medium) ≡ 0
returns_iff_example = returns_iff medium 63 (omega arith) (λ e. absurd (omega (arith, e))) 5
