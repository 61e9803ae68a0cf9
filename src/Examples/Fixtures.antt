-- ===== src/Examples/Fixtures.antt =====
-- A table of 64 slots on x86_64, which is 4 cache lines, and the weak exchanges of a call.
use ptab.Common.{ℕ, ◌<◌, ◌≡◌, refl, ap, sym, subst, arith, Option, none, some, ltb}
use ptab.Common.Word.{next_multiple_of, trailing_ones, trailing_zeros}
use ptab.Params.Enum.{capacity1_shl6, discriminant}
use ptab.Params.Capacity.{as_usize, log2}
use ptab.Params.Target.{align, cache_line, x86_64, bits64, cache_line_slots}
use ptab.Params.Derived.{
  Params, length_usize, blocks, derive_blocks, id_mask_block, id_shift_block, id_mask_index,
  id_shift_index, id_mask_bits, id_mask_entry,
}
use ptab.Array
use ptab.Array.{init_loop}
use ptab.Reclaim.Sdd
use ptab.Params.Geometry.{FitsLine}
use ptab.Index.Defs.{Detached, abstract_to_concrete, abstract_to_detached}
use ptab.Reclaim.Owned.{plain}
use ptab.Params.Capacity.{as_u32}
use ptab.Table.State.{
  Table, WeakCas, new, new_readonly, new_volatile, new_slot_array, new_data_array, slot_value,
  is_max, incr_entries, fetch_next_id, swap_slot, write_cell,
}
use ptab.Table.Slots.{reserve_slot, acquire_slot, acquire_loop}
use ptab.Table.Ops.{write, load}
use ptab.Table.Keys.{WeakKeys, next, next_loop}
use ptab.Table.View.{IsValid}
use ptab.Table.Create.{new-IsValid}
use ptab.Table.Insert.{Inserted, write_open}
use ptab.Table.Release.{IsReliable}

abbrev pub medium : Params
medium = record {
  target = record { arch = x86_64; pointer_width = bits64 };
  length = record { variant = capacity1_shl6 };
}

pub medium_length : length_usize medium ≡ 64
unfolding length_usize as_usize
medium_length = refl

pub medium_fits : FitsLine medium
unfolding cache_line_slots length_usize as_usize
medium_fits = omega arith

-- The first two attempts fail.
abbrev pub flaky : WeakCas
flaky = record { fails = λ i. ltb i 2; bound = 2 }

pub flaky-IsReliable : IsReliable flaky
flaky-IsReliable i h = ground arith

abbrev pub fresh : Table (Option ℕ)
fresh = new (plain ℕ) medium

pub fresh-IsValid : IsValid (plain ℕ) medium fresh
fresh-IsValid = new-IsValid (plain ℕ) medium medium_fits

pub fresh_open : fresh.volatile.entries < length_usize medium
unfolding new new_volatile is_max length_usize as_usize as_u32
fresh_open = omega arith

-- The table after a first insertion, as the code computes it.
abbrev table_of : Option (Option Detached × Table (Option ℕ)) → Table (Option ℕ)
table_of none = fresh
table_of (some (found, t)) = t

abbrev key_of : Option (Option Detached × Table (Option ℕ)) → Detached
key_of none = record { bits = 0 }
key_of (some (none, t)) = record { bits = 0 }
key_of (some (some d, t)) = d

abbrev pub one_entry : Table (Option ℕ)
one_entry = table_of (write (plain ℕ) medium flaky (λ d. some 7) fresh)

abbrev pub first_key : Detached
first_key = key_of (write (plain ℕ) medium flaky (λ d. some 7) fresh)

pub first_key-eq : first_key ≡ record { bits = 0 }
unfolding write reserve_slot incr_entries acquire_slot acquire_loop fetch_next_id swap_slot
    write_cell new new_readonly new_volatile new_slot_array new_data_array slot_value is_max
    length_usize as_usize as_u32 Array.new init_loop abstract_to_concrete id_mask_block blocks
    derive_blocks next_multiple_of cache_line id_shift_block trailing_ones id_mask_index
    cache_line_slots id_shift_index trailing_zeros abstract_to_detached log2 id_mask_bits
    id_mask_entry discriminant align Sdd.write
first_key-eq = refl

pub one_entry-Inserted : Inserted (plain ℕ) medium fresh one_entry first_key 7
one_entry-Inserted =
    let (d, u, run, ins) =
      write_open (plain ℕ) medium flaky (λ _. 7) medium_fits fresh-IsValid fresh_open in
    subst (λ (t : Table (Option ℕ)). Inserted (plain ℕ) medium fresh t first_key 7)
      (sym (ap table_of run))
      (subst (λ (k : Detached). Inserted (plain ℕ) medium fresh u k 7) (sym (ap key_of run)) ins)

pub fresh_slot : fresh.readonly.slot 5 ≡ some 20
unfolding new new_readonly new_slot_array slot_value length_usize as_usize Array.new init_loop
    blocks derive_blocks next_multiple_of cache_line_slots
fresh_slot = refl

-- A walk over the keys finds the entry at once.
abbrev pub keys : WeakKeys
keys = record { total = 64; index = 0 }

pub first_next :
    next (plain ℕ) medium keys one_entry
    ≡ some (some (record { bits = 0 }), record { total = 64; index = 1 })
unfolding write reserve_slot incr_entries acquire_slot acquire_loop fetch_next_id swap_slot
    write_cell new new_readonly new_volatile new_slot_array new_data_array slot_value is_max
    length_usize as_usize as_u32 Array.new init_loop abstract_to_concrete id_mask_block blocks
    derive_blocks next_multiple_of cache_line id_shift_block trailing_ones id_mask_index
    cache_line_slots id_shift_index trailing_zeros abstract_to_detached log2 id_mask_bits
    id_mask_entry discriminant align Sdd.write next next_loop load
first_next = refl
