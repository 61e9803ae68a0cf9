-- ===== src/Examples/Interleaved.antt =====
-- The theorems on several threads, after steps of two of them.
use ptab.Common.{
  ℕ, zero, suc, false, ◌+◌, ◌%◌, ◌≤◌, ◌≡◌, refl, arith, Option, some, update, not, count,
}
use ptab.Params.Capacity.{as_u32, as_usize}
use ptab.Params.Derived.{length_usize}
use ptab.Reclaim.Owned.{plain}
use ptab.Table.State.{new, new_volatile, is_max, incr_entries, fetch_next_id}
use ptab.Table.View.{taken, population}
use ptab.Spec.{Call, Reply}
use ptab.Concurrent.System.{
  acquiring, swapping, move, fresh_threads, System, initial, Reach, start, pick, Step,
}
use ptab.Concurrent.Effect.{shared, Turns, log_of, tally}
use ptab.Concurrent.Ownership.{owned, IsExclusive}
use ptab.Concurrent.Invariant.{has_slot, permitted}
use ptab.Concurrent.Safety.{reached-Turns}
use ptab.Concurrent.Delayed.{DelayedStep, DelayedReach, first}
use ptab.Concurrent.Delayed.Runs.{delayed_indices_conserved}
use mathlib.Core.List.{[], ◌∷◌}
use ptab.Table.Ops.{cap}
use ptab.Table.Keys
use ptab.Table.Weak.{weak_collect, keys_seen}
use ptab.Concurrent.Iteration.{weak_walk}
use ptab.Concurrent.Alone.{Returns, call_alone}
use ptab.Concurrent.Sequential.{steady}
use ptab.Concurrent.Equivalence.{alone-eq-perform}
use ptab.Public.{PTab}
use ptab.Refine.{perform}
use ptab.Concurrent.Progress.{alone-Returns}
use ptab.Concurrent.LockFree.Bound.{most_moves}
use ptab.Concurrent.LockFree.Returns.{until_return, some_call-Returns}
use native.Mathlib.Nat.{mod-lt}
use ptab.Examples.Insertion.{
  value, counted, first_place, few_threads, at_end, insertion, after_permit, permit_step,
  after_draw, after_swap, draw_step, swap_step, fill_step,
}
use ptab.Examples.Fixtures.{medium, fresh, medium_fits, fresh-IsValid}

-- Two insertions: both threads have a permit, and the second has drawn its place of the ring.
abbrev busy : System ℕ (Option ℕ)
busy = record {
  table = counted 2 1;
  pc =
      update (update (update fresh_threads 0 (acquiring value)) 1 (acquiring value)) 1
        (swapping value first_place);
}

abbrev two_permits : System ℕ (Option ℕ)
two_permits = record { table = counted 2 0; pc = update after_permit.pc 1 (acquiring value) }

permit_step_of_1 : Step (plain ℕ) medium 2 after_permit two_permits
unfolding move incr_entries fetch_next_id new new_volatile is_max length_usize as_usize as_u32
permit_step_of_1 =
    pick 1 (Call.insert 7) false {q = acquiring value} {u = counted 2 0} (omega arith) tt refl

draw_step_of_1 : Step (plain ℕ) medium 2 two_permits busy
unfolding move incr_entries fetch_next_id new new_volatile is_max length_usize as_usize as_u32
draw_step_of_1 =
    pick 1 (Call.insert 7) false {q = swapping value first_place} {u = counted 2 1} (omega arith) tt
      refl

busy_history :
    DelayedReach
      (plain ℕ)
      medium
      2
      (first fresh)
      (record { now = busy; past = two_permits ∷ after_permit ∷ initial fresh ∷ [] })
busy_history =
    DelayedReach.later
      (DelayedReach.later (DelayedReach.later DelayedReach.start (DelayedStep.latest permit_step))
        (DelayedStep.latest permit_step_of_1))
      (DelayedStep.latest draw_step_of_1)

-- The turns of one insertion: the call is the first one's, and the value comes with the last.
insertion_log :
    log_of (plain ℕ) medium 2 insertion
    ≡ record { thread = 0; call = Call.len; after = shared (plain ℕ) medium at_end }
      ∷ record { thread = 0; call = Call.len; after = shared (plain ℕ) medium after_swap }
      ∷ record { thread = 0; call = Call.len; after = shared (plain ℕ) medium after_draw }
      ∷ record { thread = 0; call = Call.insert 7; after = shared (plain ℕ) medium after_permit }
      ∷ []
unfolding log_of insertion permit_step draw_step swap_step fill_step
insertion_log = refl

reached-Turns_example :
    Turns medium 2
      (shared (plain ℕ) medium (initial fresh))
      (log_of (plain ℕ) medium 2 insertion)
      (shared (plain ℕ) medium at_end)
reached-Turns_example =
    reached-Turns (plain ℕ) medium medium_fits few_threads fresh-IsValid insertion

delayed_indices_conserved_example :
    IsExclusive (owned (plain ℕ) medium busy.table busy.pc)
    × (count (λ i. not (taken medium busy.table i)) (length_usize medium)
          + population (plain ℕ) medium busy.table
          + tally has_slot 2 busy.pc
        ≡ length_usize medium)
    × (population (plain ℕ) medium busy.table + tally permitted 2 busy.pc ≤ cap medium)
delayed_indices_conserved_example =
    delayed_indices_conserved (plain ℕ) medium medium_fits few_threads fresh-IsValid busy_history

alone-Returns_example :
    Returns
      (plain ℕ)
      medium
      (length_usize medium + length_usize medium + 2)
      (acquiring value)
      (counted 2 1)
alone-Returns_example =
    alone-Returns (plain ℕ) medium medium_fits few_threads fresh-IsValid busy_history 0
      (omega arith)

-- The two threads move in turn.
abbrev in_turn : ℕ → ℕ × Call ℕ
in_turn i = (i % 2, Call.len)

some_call-Returns_example :
    (k : ℕ) × (u : System ℕ (Option ℕ)) × (until_return
        (plain ℕ)
        medium
        (suc (most_moves medium 2))
        in_turn
        busy
      ≡ some (some k, u))
some_call-Returns_example =
    some_call-Returns (plain ℕ) medium medium_fits few_threads fresh-IsValid busy_history in_turn
      (λ i. (mod-lt i (omega arith), tt))

alone-eq-perform_example :
    (reply : Reply ℕ) × (u : PTab (Option ℕ)) × (l : ℕ) × (perform
        (plain ℕ)
        medium
        steady
        (Call.insert 7)
        (record { inner = fresh })
      ≡ some (reply, u))
    × (call_alone (plain ℕ) medium l (Call.insert 7) fresh ≡ some (some reply, u.inner))
alone-eq-perform_example =
    alone-eq-perform (plain ℕ) medium (Call.insert 7) medium_fits fresh-IsValid tt

-- A walk over the keys that starts before the insertion and goes on after it.
abbrev over_time : ℕ → System ℕ (Option ℕ)
over_time zero = initial fresh
over_time (suc i) = at_end

over_time_run : (i : ℕ) → Reach (plain ℕ) medium 2 (initial fresh) (over_time i)
over_time_run zero = start
over_time_run (suc i) = insertion

weak_walk_example :
    weak_collect (plain ℕ) medium (suc (cap medium)) (Keys.new medium) (λ i. (over_time i).table)
    ≡ some (keys_seen (plain ℕ) medium (λ i. (over_time i).table) 0 (cap medium))
weak_walk_example =
    weak_walk (plain ℕ) medium medium_fits few_threads over_time fresh-IsValid over_time_run
