-- ===== src/Examples/Boxes.antt =====
-- The theorems on the cells of src/reclaim/leak.rs, where one is filled, emptied and filled again.
use mathlib.Core.List.{List, [], ◌∷◌}
use ptab.Common.{ℕ, true, ◌≡◌, refl, Option, none, some, update}
use ptab.Reclaim.Owned.{plain}
use ptab.Reclaim.Sdd
use ptab.Reclaim.Leak
use ptab.Reclaim.Leak.{Heap, Shared, as_ref, null}
use ptab.Reclaim.Leak.Memory.{
  Act, loads, writes, evicts, Answer, shown, written, evicted, Memory, perform, performs, drops,
  IsAllocated, perform_sdd, performs_sdd, drops_sdd,
}
use ptab.Reclaim.Leak.Kept.{loaded_stays}
use ptab.Reclaim.Leak.Agree.{same_answers, null_cells}

abbrev no_boxes : Heap ℕ
no_boxes a = none

abbrev refill : List (Act ℕ)
refill = writes 0 5 (some 7) ∷ loads 0 ∷ evicts 0 ∷ writes 0 6 (some 8) ∷ loads 0 ∷ []

abbrev refilled : List (Answer ℕ)
refilled = written ∷ shown (some 7) ∷ evicted true ∷ written ∷ shown (some 8) ∷ []

abbrev refilled_cells : ℕ → Option ℕ
refilled_cells = update (update (update (λ _. none) 0 (some 7)) 0 none) 0 (some 8)

refill-IsAllocated : IsAllocated (null_cells (plain ℕ) no_boxes) refill
unfolding perform Leak.write Leak.evict
refill-IsAllocated = (refl, (tt, (tt, (refl, (tt, tt)))))

refill_run : performs_sdd (plain ℕ) refill (λ _. none) ≡ some (refilled, refilled_cells)
unfolding performs_sdd perform_sdd Sdd.write Sdd.evict
refill_run = refl

same_answers_example :
    (m : Memory ℕ) × (performs refill (null_cells (plain ℕ) no_boxes) ≡ some (refilled, m))
    × ((u : Memory ℕ) × (drops 2 0 m ≡ some (drops_sdd (plain ℕ) 2 0 refilled_cells, u)))
same_answers_example = same_answers (plain ℕ) no_boxes refill 2 refill-IsAllocated refill_run

-- A pointer to the first value, when it is loaded and after the cell is filled again.
abbrev first_filled : Memory ℕ
first_filled = record {
  heap = update no_boxes 5 (some 7);
  cell = update (λ _. null) 0 (record { inner = some 5 });
}

abbrev first_value : Shared
first_value = record { pointer = some 5 }

abbrev again : List (Act ℕ)
again = evicts 0 ∷ writes 0 6 (some 8) ∷ []

abbrev filled_again : Memory ℕ
filled_again = record {
  heap = update first_filled.heap 6 (some 8);
  cell = update (update first_filled.cell 0 null) 0 (record { inner = some 6 });
}

again-IsAllocated : IsAllocated first_filled again
unfolding perform Leak.write Leak.evict
again-IsAllocated = (tt, (refl, tt))

again_run : performs again first_filled ≡ some (evicted true ∷ written ∷ [], filled_again)
unfolding performs perform Leak.write Leak.evict
again_run = refl

loaded_stays_example : as_ref first_value filled_again.heap ≡ some (some 7)
loaded_stays_example =
    loaded_stays first_value again first_filled filled_again refl again-IsAllocated again_run
