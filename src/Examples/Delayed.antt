-- ===== src/Examples/Delayed.antt =====
-- The theorems on operations that only read, where a read sees a slot as it was before an insertion.
use mathlib.Core.List.{[], ◌∷◌}
use mathlib.Core.List.Memᴰ.{head, tail}
use ptab.Common.{ℕ, zero, suc, ◌≡◌, refl, arith, Option, none, some, update, false}
use ptab.Reclaim.Owned.{plain}
use ptab.Array
use ptab.Array.{init_loop, get_unchecked}
use ptab.Params.Capacity.{as_usize, log2}
use ptab.Params.Derived.{length_usize, id_mask_entry, id_mask_bits}
use ptab.Common.Word.{trailing_zeros}
use ptab.Index.Defs.{Detached, detached_to_concrete, into_bits}
use ptab.Table.Ops
use ptab.Table.Ops.{read, with, find}
use ptab.Table.State.{Table, new, new_readonly, new_data_array}
use ptab.Table.View.{IsValid}
use ptab.Spec.{Call, Reply}
use ptab.Concurrent.System.{Pc, idle, move, System, initial, IsQuiescent}
use ptab.Concurrent.Delayed.{
  History, DelayedReach, DelayedStep, DelayedTurns, start, later, first, seen, delayed_log,
}
use ptab.Concurrent.Effect.{shared}
use ptab.Concurrent.Delayed.Runs.{delayed_moves_return, delayed-IsValid, delayed-Turns}
use ptab.Examples.Insertion.{
  few_threads, filled, after_permit, after_draw, after_swap, at_end, permit_step, draw_step,
  swap_step, fill_step,
}
use ptab.Examples.Fixtures.{medium, fresh, medium_fits, fresh-IsValid}

abbrev first_key : Detached
first_key = record { bits = 0 }

-- Thread 1 reads, after the insertion by thread 0, what was there before it.
abbrev after_read : System ℕ (Option ℕ)
after_read = record { table = filled; pc = update at_end.pc 1 (idle (some (Reply.value none))) }

abbrev inserted_history : History (System ℕ (Option ℕ))
inserted_history = record {
  now = at_end;
  past = after_swap ∷ after_draw ∷ after_permit ∷ initial fresh ∷ [];
}

abbrev read_history : History (System ℕ (Option ℕ))
read_history = record { now = after_read; past = at_end ∷ inserted_history.past }

insertion_history : DelayedReach (plain ℕ) medium 2 (first fresh) inserted_history
insertion_history =
    later
      (later (later (later start (DelayedStep.latest permit_step)) (DelayedStep.latest draw_step))
        (DelayedStep.latest swap_step))
      (DelayedStep.latest fill_step)

read_step : DelayedStep (plain ℕ) medium 2 inserted_history read_history
unfolding move read with find Ops.load Array.get get_unchecked detached_to_concrete into_bits
    id_mask_entry new new_readonly new_data_array Array.new init_loop length_usize as_usize
    id_mask_bits log2 trailing_zeros
read_step =
    DelayedStep.delayed 1 (Call.read first_key) (initial fresh) {q = idle (some (Reply.value none))}
      {t = fresh} (omega arith) tt refl (tail (tail (tail (tail (head refl))))) refl

late_read : DelayedReach (plain ℕ) medium 2 (first fresh) read_history
late_read = later insertion_history read_step

after_read-IsQuiescent : IsQuiescent after_read.pc
after_read-IsQuiescent zero = (some (Reply.index (some first_key)), refl)
after_read-IsQuiescent (suc zero) = (some (Reply.value none), refl)
after_read-IsQuiescent (suc (suc k)) = (none, ground arith)

delayed_moves_return_example :
    (q : Pc ℕ) × (u : Table (Option ℕ)) × (move
        (plain ℕ)
        medium
        (Call.remove first_key)
        false
        (after_read.pc 0)
        filled
      ≡ some (q, u))
delayed_moves_return_example =
    delayed_moves_return (plain ℕ) medium medium_fits few_threads fresh-IsValid late_read {k = 0}
      (Call.remove first_key) false (omega arith) (omega arith)

delayed-IsValid_example : IsValid (plain ℕ) medium filled
delayed-IsValid_example =
    delayed-IsValid (plain ℕ) medium medium_fits few_threads fresh-IsValid late_read
      after_read-IsQuiescent

-- The last turn is a read of the key, from the first state.
late_read_log :
    delayed_log (plain ℕ) medium 2 late_read
    ≡ record {
      thread = 1;
      call = Call.read first_key;
      source = some (shared (plain ℕ) medium (initial fresh));
    }
      ∷ delayed_log (plain ℕ) medium 2 insertion_history
unfolding delayed_log late_read read_step
late_read_log = refl

delayed-Turns_example :
    DelayedTurns medium 2
      (seen (plain ℕ) medium (first fresh))
      (delayed_log (plain ℕ) medium 2 late_read)
      (seen (plain ℕ) medium read_history)
delayed-Turns_example =
    delayed-Turns (plain ℕ) medium medium_fits few_threads fresh-IsValid late_read
