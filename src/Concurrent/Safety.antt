-- ===== src/Concurrent/Safety.antt =====
-- src/table.rs: what holds in every state that threads reach from a valid table.
use ptab.Common.{
  ℕ, ◌+◌, ◌^◌, ◌<◌, ◌≡◌, refl, ◌∙◌, sym, subst, arith, Bool, some, update, not, count, count-not,
}
use mathlib.Core.Option.{some-injective}
use ptab.Params.Derived.{Params, length_usize}
use ptab.Params.Geometry.{FitsLine}
use ptab.Reclaim.Owned.{AtomicOwned}
use ptab.Table.State.{Table}
use ptab.Table.View.{taken, population, IsValid}
use ptab.Spec.{Call, IsWordCall}
use ptab.Concurrent.System.{
  Pc, idle, undoing, acquiring, swapping, holding, releasing, exchanging, leaving, move, System,
  initial, IsQuiescent, Step, Reach, pick, start, later,
}
use ptab.Concurrent.Effect.{
  tally, charged, view, Effect, shared, Turn, turn, Turns, none_yet, and_then, mover, log_of,
}
use ptab.Concurrent.Ownership.{owned, IsExclusive}
use ptab.Concurrent.Invariant.{has_slot, Inv, Inv-IsValid, IsValid-Inv}
use ptab.Concurrent.Moved.{Moved-Inv}
use ptab.Concurrent.Counters.{Advances, undo, acquire_next, release_next, leave}
use ptab.Concurrent.Start.{start_write, start_insert}
use ptab.Concurrent.Lookups.{read_now, exists_now, len_now}
use ptab.Concurrent.Swap.{acquire_swap}
use ptab.Concurrent.Exchange.{release_exchange}
use ptab.Concurrent.Fill.{fill}
use ptab.Concurrent.Evict.{evict}

module _ {T Cell : Type 0} (o : AtomicOwned T Cell) (p : Params) (fits : FitsLine p) {n : ℕ}
    (few : length_usize p + n < 2 ^ 32) where
  -- Every move of every thread returns, and keeps the invariant.
  move_lem :
      {t : Table Cell} {pc : ℕ → Pc T} (k : ℕ) (call : Call T) (fails : Bool) (q : Pc T)
      → Inv o p n t pc
      → k < n
      → IsWordCall p call
      → pc k ≡ q
      → Advances o p n call fails t pc k q
  move_lem k (Call.write init) fails (idle last) inv lt word here =
      start_write o p inv lt few init fails last here
  move_lem k (Call.insert value) fails (idle last) inv lt word here =
      start_insert o p inv lt few value fails last here
  move_lem k (Call.read key) fails (idle last) inv lt word here =
      read_now o p inv fits key fails last here
  move_lem k (Call.exists key) fails (idle last) inv lt word here =
      exists_now o p inv fits key fails last here
  move_lem k Call.len fails (idle last) inv lt word here = len_now o p inv few fails last here
  move_lem k (Call.remove key) fails (idle last) inv lt word here =
      evict o p inv fits key fails last word here
  move_lem k call fails (undoing current) inv lt word here =
      undo o p inv lt few call fails current here
  move_lem k call fails (acquiring init) inv lt word here =
      acquire_next o p inv lt few call fails init here
  move_lem k call fails (swapping init a) inv lt word here =
      acquire_swap o p inv call fails init a fits here
  move_lem k call fails (holding init a) inv lt word here =
      fill o p inv fits lt call fails init a here
  move_lem k call fails (releasing next) inv lt word here =
      release_next o p inv lt few call fails next here
  move_lem k call fails (exchanging next free) inv lt word here =
      release_exchange o p inv call fails next free fits here
  move_lem k call fails leaving inv lt word here = leave o p inv lt few call fails here

  module _ {t : Table Cell} {pc : ℕ → Pc T} (inv : Inv o p n t pc) {k : ℕ} (lt : k < n)
      (call : Call T) (fails : Bool) (word : IsWordCall p call) where
    pub move_returns : (q : Pc T) × (u : Table Cell) × (move o p call fails (pc k) t ≡ some (q, u))
    move_returns =
        let step = move_lem k call fails (pc k) inv lt word refl in
        (step.next, step.after, step.run)

    module _ {q : Pc T} {u : Table Cell} (run : move o p call fails (pc k) t ≡ some (q, u)) where
      pub move-Inv : Inv o p n u (update pc k q)
      move-Inv =
          let step = move_lem k call fails (pc k) inv lt word refl in
          subst (λ (w : Pc T × Table Cell). Inv o p n w.1 (update pc k w.0))
            (some-injective _ _ (sym step.run ∙ run)) (Moved-Inv o p inv lt step.moved)

      pub move-Effect : Effect p (tally charged n pc) (view o p t) call (pc k) q (view o p u)
      move-Effect =
          let step = move_lem k call fails (pc k) inv lt word refl in
          subst
            (λ (w : Pc T × Table Cell).
              Effect p (tally charged n pc) (view o p t) call (pc k) w.0 (view o p w.1))
            (some-injective _ _ (sym step.run ∙ run)) step.effect

  pub Step-Inv :
      {s u : System T Cell} → Inv o p n s.table s.pc → Step o p n s u → Inv o p n u.table u.pc
  Step-Inv inv (pick k call fails lt word run) = move-Inv inv lt call fails word run

  Reach-Inv :
      {s u : System T Cell} → Inv o p n s.table s.pc → Reach o p n s u → Inv o p n u.table u.pc
  Reach-Inv inv start = inv
  Reach-Inv inv (later before step) = Step-Inv (Reach-Inv inv before) step

  pub Step-Turn :
      {s u : System T Cell}
      → Inv o p n s.table s.pc
      → (step : Step o p n s u)
      → Turn p n (shared o p s) (mover o p n step).0 (mover o p n step).1 (shared o p u)
  Step-Turn inv (pick k call fails lt word run) =
      turn lt word (move-Effect inv lt call fails word run)

  Reach-Turns :
      {s u : System T Cell}
      → Inv o p n s.table s.pc
      → (run : Reach o p n s u) → Turns p n (shared o p s) (log_of o p n run) (shared o p u)
  unfolding log_of
  Reach-Turns inv start = none_yet
  Reach-Turns inv (later before step) =
      and_then (Reach-Turns inv before) (Step-Turn (Reach-Inv inv before) step)

  module _ {t : Table Cell} (valid : IsValid o p t) {s : System T Cell}
      (run : Reach o p n (initial t) s) where
    pub reached-Inv : Inv o p n s.table s.pc
    reached-Inv = Reach-Inv (IsValid-Inv o p n t valid) run

    -- In every state that a number of threads which, added to the length, is below 2 to the 32
    -- reach from a valid table where a cache line fits, by moves in any order, each move of each
    -- thread, with an index that is a word, returns: no thread reads or writes a cell out of
    -- bounds or not initialised, and none writes to a cell that has a value.
    every_move_returns :
        {k : ℕ} (call : Call T) (fails : Bool)
        → k < n
        → IsWordCall p call
        → (q : Pc T) × (u : Table Cell) × (move o p call fails (s.pc k) s.table ≡ some (q, u))
    every_move_returns call fails lt word = move_returns reached-Inv lt call fails word

    -- When a number of threads which, added to the length, is below 2 to the 32 have moved in any
    -- order from a valid table where a cache line fits, and none of them is in a call any more,
    -- the table is valid again; so its ring shows as many indices as there are empty slots, and
    -- entries counts the values, and one more at the largest capacity.
    quiescent-IsValid : IsQuiescent s.pc → IsValid o p s.table
    quiescent-IsValid quiet = Inv-IsValid o p n s.table s.pc quiet reached-Inv

    -- A number of threads that, added to the length, is below 2 to the 32 share a valid table
    -- where a cache line fits and have made no call. They move in any order, with weak exchanges
    -- that fail for no reason at will and with indices to remove that are words. Then the log of
    -- the moves, which has for each its thread, its call, and the map and the threads after it,
    -- is one of turns of the specification from the first map to the last: turn by turn the same
    -- thread with the same call, the same map and every thread at the same point of its call. In
    -- a turn the map changes in two cases only: a thread that holds an index puts the value of
    -- its closure for the detached form of this index at the slot of it, which was empty, with
    -- fewer entries than the capacity, and answers this form; or a removal, which answers true
    -- when it returns, erases the value at the slot of its key. A thread without a call begins to
    -- insert the value of its call exactly where the entries and the threads in a call are
    -- together fewer than the capacity, and is refused otherwise. A removal whose slot is empty
    -- answers false. A lookup answers from the slot of its key in the map of that moment, and len
    -- answers the entries and the threads in a call, or the capacity where these are more.
    pub reached-Turns : Turns p n (shared o p (initial t)) (log_of o p n run) (shared o p s)
    reached-Turns = Reach-Turns (IsValid-Inv o p n t valid) run

    -- In every state that a number of threads which, added to the length, is below 2 to the 32
    -- reach from a valid table where a cache line fits, by moves in any order, no slot of the
    -- table belongs to two of: a place of the ring that shows an index of it, its own cell with a
    -- value, and a thread that holds an index of it; and the places that show an index, the
    -- values and the threads that hold an index are together as many as the slots, so that no
    -- index is lost.
    indices_conserved :
        IsExclusive (owned o p s.table s.pc)
        × (count (λ i. not (taken p s.table i)) (length_usize p)
              + population o p s.table
              + tally has_slot n s.pc
            ≡ length_usize p)
    indices_conserved =
        let inv = reached-Inv in
        (inv.exclusive, omega (arith, inv.balance, count-not (taken p s.table) (length_usize p)))
