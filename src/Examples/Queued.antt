-- ===== src/Examples/Queued.antt =====
-- The theorems on the order of the ring, on a new table and on one with an index taken.
use mathlib.Core.Option.{some-injective}
use ptab.Common.{ℕ, suc, ◌+◌, ◌<◌, ◌≡◌, refl, ◌∙◌, sym, subst, arith, Option, some, update, false}
use ptab.Common.Word.{next_multiple_of, trailing_ones, trailing_zeros}
use ptab.Params.Capacity.{as_usize, as_u32}
use ptab.Params.Target.{cache_line, cache_line_slots}
use ptab.Params.Derived.{
  length_usize, blocks, derive_blocks, id_mask_block, id_shift_block, id_mask_index, id_shift_index,
}
use ptab.Array
use ptab.Array.{init_loop}
use ptab.Reclaim.Owned.{plain}
use ptab.Index.Defs.{Abstract, abstract_to_concrete}
use ptab.Table.State.{
  Table, WeakCas, new, new_readonly, new_volatile, new_slot_array, slot_value, is_max,
  fetch_next_id, swap_slot, reserved,
}
use ptab.Table.Slots.{permit, acquire_slot, acquire_loop, release_slot, generate_next_slot}
use ptab.Table.Queue.{IsQueue, nth_free}
use ptab.Table.Dequeue.{acquire_dequeues}
use ptab.Table.Enqueue.{release_enqueues}
use ptab.Table.Fresh.{new-IsQueue}
use ptab.Examples.Fixtures.{medium, medium_length, fresh, medium_fits}

fresh-IsQueue : IsQueue medium fresh 0
fresh-IsQueue = (new-IsQueue (plain ℕ) medium medium_fits).0

new-IsQueue_example :
    IsQueue medium (new (plain ℕ) medium) 0
    × ((j : ℕ) → j < length_usize medium → nth_free medium (new (plain ℕ) medium) j ≡ some j)
new-IsQueue_example = new-IsQueue (plain ℕ) medium medium_fits

acquire_dequeues_example :
    (s : ℕ) × (u : Table (Option ℕ)) × (acquire_slot medium permit fresh
      ≡ some (record { source = s }, u))
    × (nth_free medium fresh 0 ≡ some s)
    × IsQueue medium u 1
    × ((j : ℕ) → j + 1 < length_usize medium → nth_free medium u j ≡ nth_free medium fresh (suc j))
acquire_dequeues_example =
    acquire_dequeues medium medium_fits fresh 0 fresh-IsQueue (omega (arith, medium_length))

-- Without the first index.
abbrev one_taken : Table (Option ℕ)
one_taken = record fresh {
  volatile = record (fresh.volatile) { next_id = 1 };
  readonly = record (fresh.readonly) {
    slot = update fresh.readonly.slot 0 (some (reserved medium));
  };
}

taking : acquire_slot medium permit fresh ≡ some (record { source = 0 }, one_taken)
unfolding acquire_slot acquire_loop fetch_next_id swap_slot new new_readonly new_volatile
    new_slot_array slot_value is_max length_usize as_usize as_u32 Array.new init_loop
    abstract_to_concrete id_mask_block blocks derive_blocks next_multiple_of cache_line
    id_shift_block trailing_ones id_mask_index cache_line_slots id_shift_index trailing_zeros
taking = refl

one_taken-IsQueue : IsQueue medium one_taken 1
one_taken-IsQueue =
    let (s, u, run, front, queue, rest) =
      acquire_dequeues medium medium_fits fresh 0 fresh-IsQueue (omega (arith, medium_length)) in
    subst (λ (w : Abstract × Table (Option ℕ)). IsQueue medium w.1 1)
      (some-injective _ _ (sym run ∙ taking)) queue

abbrev sure : WeakCas
sure = record { fails = λ _. false; bound = 0 }

abbrev index_zero : Abstract
index_zero = record { source = 0 }

release_enqueues_example :
    (u : Table (Option ℕ)) × (release_slot medium sure index_zero one_taken ≡ some (tt, u))
    × IsQueue medium u 0
    × ((j : ℕ) → j + 1 < length_usize medium → nth_free medium u j ≡ nth_free medium one_taken j)
    × ((j : ℕ)
        → j + 1 ≡ length_usize medium
        → nth_free medium u j ≡ some (generate_next_slot medium index_zero))
release_enqueues_example =
    release_enqueues medium medium_fits sure (λ _. refl) index_zero one_taken 0 one_taken-IsQueue
