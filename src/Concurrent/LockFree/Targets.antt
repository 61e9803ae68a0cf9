-- ===== src/Concurrent/LockFree/Targets.antt =====
-- src/table.rs: there is a place to wait for: the counter of each loop has one within a round.
use ptab.Common.{ℕ, ◌+◌, ◌^◌, ◌<◌, ◌≡◌, arith, Bool, true, false, count, count-lt, count-pos, refl}
use native.Mathlib.Decide.{dec_lt}
use ptab.Params.Derived.{Params, length_usize}
use ptab.Params.Geometry.{FitsLine, length_usize-bounds}
use ptab.Reclaim.Owned.{AtomicOwned}
use ptab.Table.State.{Table}
use ptab.Table.View.{taken}
use ptab.Table.Probe.{probe_reaches}
use ptab.Concurrent.System.{Pc, acquiring, swapping, releasing, exchanging}
use ptab.Concurrent.Invariant.{has_slot, permitted, Inv}
use ptab.Concurrent.Progress.{room_to_take, room_to_return}
use ptab.Concurrent.LockFree.Flags.{seeking, returning}
use ptab.Concurrent.LockFree.Watch.{Target}

seeking-permitted : {T : Type 0} (q : Pc T) → seeking q ≡ true → permitted q ≡ true
seeking-permitted (acquiring _) e = refl
seeking-permitted (swapping _ _) e = refl
seeking-permitted q e = absurd cc

seeking-has_slot : {T : Type 0} (q : Pc T) → seeking q ≡ true → has_slot q ≡ false
seeking-has_slot (acquiring _) e = refl
seeking-has_slot (swapping _ _) e = refl
seeking-has_slot q e = absurd cc

returning-has_slot : {T : Type 0} (q : Pc T) → returning q ≡ true → has_slot q ≡ true
returning-has_slot (releasing _) e = refl
returning-has_slot (exchanging _ _) e = refl
returning-has_slot q e = absurd cc

module _ {T Cell : Type 0} (p : Params) (fits : FitsLine p) {n : ℕ} {t : Table Cell}
    (pc : ℕ → Pc T) where
  -- Some place of the ring that shows `b` is met within a round, and any place serves where no thread
  -- looks.
  target_at :
      (b : Bool) (looking : Pc T → Bool) (counter i : ℕ)
      → i < length_usize p
      → ((k : ℕ) → k < n → looking (pc k) ≡ true → taken p t i ≡ b)
      → (i : ℕ) × (d : ℕ) × Target p n b looking counter t pc i d
  target_at b looking counter i h there =
      let (d, near, meets) = probe_reaches p counter i fits h in
      (i, d, record { near = near; meets = meets; there = there })

  module _ (o : AtomicOwned T Cell) (few : length_usize p + n < 2 ^ 32) (inv : Inv o p n t pc) where
    pub next_target : (counter : ℕ) → (i : ℕ) × (d : ℕ) × Target p n false seeking counter t pc i d
    next_target counter = elim (dec_lt (count (taken p t) (length_usize p)) (length_usize p)) [
      | yes open_ ↦
          let (i, h, shows) = count-lt (taken p t) (length_usize p) open_ in
          target_at false seeking counter i h (λ _ _ _. shows)
      | no full ↦
          let (low, high) = length_usize-bounds p in
          target_at false seeking counter 0 (omega arith) (λ k lt set. absurd (
            full (
              room_to_take o p fits few inv k lt (seeking-permitted (pc k) set)
                (seeking-has_slot (pc k) set))))
    ]

    pub free_target : (counter : ℕ) → (i : ℕ) × (d : ℕ) × Target p n true returning counter t pc i d
    free_target counter = elim (dec_lt 0 (count (taken p t) (length_usize p))) [
      | yes some_reserved ↦
          let (i, h, shows) = count-pos (taken p t) (length_usize p) some_reserved in
          target_at true returning counter i h (λ _ _ _. shows)
      | no none_reserved ↦
          let (low, high) = length_usize-bounds p in
          target_at true returning counter 0 (omega arith) (λ k lt set.
            absurd (
              none_reserved (room_to_return o p fits few inv k lt (returning-has_slot (pc k) set))))
    ]
