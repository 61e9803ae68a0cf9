-- ===== src/Examples/Insertion.antt =====
-- One insertion of a thread from its start to its end, step by step.
use ptab.Common.{ℕ, zero, suc, false, ◌+◌, ◌<◌, ◌^◌, refl, arith, Option, none, some, update}
use ptab.Params.Capacity.{as_u32, as_usize}
use ptab.Params.Derived.{length_usize}
use ptab.Reclaim.Owned.{plain}
use ptab.Index.Defs.{Detached, Abstract}
use ptab.Table.State.{new, new_volatile, is_max, Table, incr_entries, fetch_next_id}
use ptab.Common.Word.{next_multiple_of, trailing_ones, trailing_zeros}
use ptab.Params.Enum.{discriminant}
use ptab.Params.Capacity.{log2}
use ptab.Params.Target.{align, cache_line, cache_line_slots}
use ptab.Params.Derived.{
  blocks, derive_blocks, id_mask_block, id_shift_block, id_mask_index, id_shift_index, id_mask_bits,
  id_mask_entry,
}
use ptab.Array
use ptab.Array.{init_loop}
use ptab.Reclaim.Sdd
use ptab.Index.Defs.{abstract_to_concrete, abstract_to_detached}
use ptab.Table.State.{
  new_readonly, new_slot_array, new_data_array, slot_value, swap_slot, write_cell, reserved,
}
use ptab.Table.Slots.{acquire_slot, acquire_loop}
use ptab.Spec.{Call, Reply}
use ptab.Concurrent.System.{
  Pc, idle, acquiring, swapping, holding, IsQuiescent, move, fresh_threads, System, initial, Reach,
  start, later, pick, Step,
}
use ptab.Examples.Fixtures.{medium, medium_length, fresh}

abbrev pub value : Detached → ℕ
value _ = 7

abbrev pub counted : ℕ → ℕ → Table (Option ℕ)
counted entries next_id = record fresh {
  volatile = record { entries = entries; next_id = next_id; free_id = 0 };
}

abbrev pub first_place : Abstract
first_place = record { source = 0 }

pub few_threads : length_usize medium + 2 < 2 ^ 32
few_threads = omega (arith, medium_length)

abbrev pub swapped : Table (Option ℕ)
swapped = record (counted 1 1) {
  readonly = record (fresh.readonly) {
    slot = update fresh.readonly.slot 0 (some (reserved medium));
  };
}

abbrev pub filled : Table (Option ℕ)
filled = record swapped {
  readonly = record (swapped.readonly) { cells = update fresh.readonly.cells 0 (some (some 7)) };
}

abbrev pub inserted : Pc ℕ
inserted = idle (some (Reply.index (some (record { bits = 0 }))))

abbrev pub after_permit : System ℕ (Option ℕ)
after_permit = record { table = counted 1 0; pc = update fresh_threads 0 (acquiring value) }

abbrev pub after_draw : System ℕ (Option ℕ)
after_draw = record {
  table = counted 1 1;
  pc = update after_permit.pc 0 (swapping value first_place);
}

abbrev pub after_swap : System ℕ (Option ℕ)
after_swap = record { table = swapped; pc = update after_draw.pc 0 (holding value first_place) }

abbrev pub at_end : System ℕ (Option ℕ)
at_end = record { table = filled; pc = update after_swap.pc 0 inserted }

unfoldable pub permit_step : Step (plain ℕ) medium 2 (initial fresh) after_permit
unfolding move incr_entries acquire_slot acquire_loop fetch_next_id swap_slot write_cell new
    new_readonly new_volatile new_slot_array new_data_array slot_value is_max length_usize as_usize
    as_u32 Array.new init_loop abstract_to_concrete id_mask_block blocks derive_blocks
    next_multiple_of cache_line id_shift_block trailing_ones id_mask_index cache_line_slots
    id_shift_index trailing_zeros abstract_to_detached log2 id_mask_bits id_mask_entry discriminant
    align Sdd.write
permit_step =
    pick 0 (Call.insert 7) false {q = acquiring value} {u = counted 1 0} (omega arith) tt refl

unfoldable pub draw_step : Step (plain ℕ) medium 2 after_permit after_draw
unfolding move incr_entries acquire_slot acquire_loop fetch_next_id swap_slot write_cell new
    new_readonly new_volatile new_slot_array new_data_array slot_value is_max length_usize as_usize
    as_u32 Array.new init_loop abstract_to_concrete id_mask_block blocks derive_blocks
    next_multiple_of cache_line id_shift_block trailing_ones id_mask_index cache_line_slots
    id_shift_index trailing_zeros abstract_to_detached log2 id_mask_bits id_mask_entry discriminant
    align Sdd.write
draw_step =
    pick 0 Call.len false {q = swapping value first_place} {u = counted 1 1} (omega arith) tt refl

unfoldable pub swap_step : Step (plain ℕ) medium 2 after_draw after_swap
unfolding move incr_entries acquire_slot acquire_loop fetch_next_id swap_slot write_cell new
    new_readonly new_volatile new_slot_array new_data_array slot_value is_max length_usize as_usize
    as_u32 Array.new init_loop abstract_to_concrete id_mask_block blocks derive_blocks
    next_multiple_of cache_line id_shift_block trailing_ones id_mask_index cache_line_slots
    id_shift_index trailing_zeros abstract_to_detached log2 id_mask_bits id_mask_entry discriminant
    align Sdd.write
swap_step =
    pick 0 Call.len false {q = holding value first_place} {u = swapped} (omega arith) tt refl

unfoldable pub fill_step : Step (plain ℕ) medium 2 after_swap at_end
unfolding move incr_entries acquire_slot acquire_loop fetch_next_id swap_slot write_cell new
    new_readonly new_volatile new_slot_array new_data_array slot_value is_max length_usize as_usize
    as_u32 Array.new init_loop abstract_to_concrete id_mask_block blocks derive_blocks
    next_multiple_of cache_line id_shift_block trailing_ones id_mask_index cache_line_slots
    id_shift_index trailing_zeros abstract_to_detached log2 id_mask_bits id_mask_entry discriminant
    align Sdd.write
fill_step = pick 0 Call.len false {q = inserted} {u = filled} (omega arith) tt refl

unfoldable pub insertion : Reach (plain ℕ) medium 2 (initial fresh) at_end
insertion = later (later (later (later start permit_step) draw_step) swap_step) fill_step

pub at_end-IsQuiescent : IsQuiescent at_end.pc
at_end-IsQuiescent zero = (some (Reply.index (some (record { bits = 0 }))), refl)
at_end-IsQuiescent (suc k) = (none, ground arith)
