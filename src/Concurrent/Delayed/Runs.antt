-- ===== src/Concurrent/Delayed/Runs.antt =====
-- src/table.rs: the threads where operations that only read see earlier contents.
use mathlib.Core.List.Memᴰ
use mathlib.Core.List.Memᴰ.{head, tail}
use mathlib.Core.Option.{some-injective}
use ptab.Common.{
  ℕ, ◌+◌, ◌^◌, ◌<◌, ◌≡◌, inl, refl, ap, ◌∙◌, sym, subst, arith, Bool, true, some, update, bit, not,
  count, count-not, ◌≤◌,
}
use ptab.Params.Derived.{Params, length_usize}
use ptab.Params.Geometry.{FitsLine}
use ptab.Reclaim.Owned.{AtomicOwned}
use ptab.Table.State.{Table}
use ptab.Table.View.{taken, population, IsValid}
use ptab.Spec.{Call, IsWordCall}
use ptab.Concurrent.System.{Pc, move, System, IsQuiescent}
use ptab.Concurrent.Effect.{tally, charged, view, Load, shared}
use ptab.Table.Ops.{cap}
use ptab.Table.Lookup.{cap-add-held_back}
use ptab.Concurrent.Ownership.{owned, IsExclusive}
use ptab.Concurrent.Invariant.{has_slot, permitted, Inv, Inv-IsValid, IsValid-Inv}
use ptab.Concurrent.Calm.{Calm-Moved}
use ptab.Concurrent.Moved.{Moved-Inv}
use ptab.Concurrent.Safety.{Step-Inv, Step-Turn, move_returns}
use ptab.Concurrent.Delayed.{
  is_load, History, Passed, goes_on, DelayedStep, latest, delayed, DelayedReach, start, later,
  first, DelayedTurn, DelayedTurns, none_yet, and_then, seen, delayed_taken, delayed_log,
}
use ptab.Concurrent.Delayed.Loads.{Loaded, loaded}

module _ {T Cell : Type 0} (o : AtomicOwned T Cell) (p : Params) (n : ℕ) where
  -- The invariant, now and before.
  abbrev AllInv : History (System T Cell) → Type 0
  AllInv s = (h : System T Cell) → Passed s h → Inv o p n h.table h.pc

  goes_on-AllInv :
      (s : History (System T Cell)) (u : System T Cell)
      → AllInv s
      → Inv o p n u.table u.pc
      → AllInv (goes_on s u)
  goes_on-AllInv s u all inv h (head e) =
      subst (λ (v : System T Cell). Inv o p n v.table v.pc) (sym e) inv
  goes_on-AllInv s u all inv h (tail m) = all h m

module _ {T Cell : Type 0} (o : AtomicOwned T Cell) (p : Params) where
  Passed-seen :
      {s : History (System T Cell)} {h : System T Cell}
      → Passed s h
      → Passed (seen o p s) (shared o p h)
  Passed-seen m = Memᴰ.map (shared o p) m

module _ {T Cell : Type 0} (o : AtomicOwned T Cell) (p : Params) (fits : FitsLine p) {n : ℕ}
    (few : length_usize p + n < 2 ^ 32) where
  -- A thread that has only read.
  Loaded-Inv :
      {busy : ℕ} {t h : Table Cell} {pc : ℕ → Pc T} {k : ℕ} {call : Call T}
      → Inv o p n t pc
      → k < n
      → (l : Loaded o p busy h call (pc k)) → Inv o p n t (update pc k l.next)
  Loaded-Inv {t = t} {pc = pc} {k = k} inv lt l = Moved-Inv o p inv lt (
      Calm-Moved o p {u = t} l.next inv refl
        (record { slots = λ i. refl; values = λ c. refl; cell_init = inv.cell_init }) l.slot
        (l.sound (inv.sound k)) (ap (λ (b : Bool). t.volatile.entries + bit b) (sym l.call_goes_on))
        (inl (omega (arith, ap bit l.permit))) inv.next_small inv.free_small)

  DelayedStep-AllInv :
      {s u : History (System T Cell)} → AllInv o p n s → DelayedStep o p n s u → AllInv o p n u
  DelayedStep-AllInv {s} all (latest {u} step) =
      goes_on-AllInv o p n s u all (Step-Inv o p fits few (all s.now (head refl)) step)
  DelayedStep-AllInv {s} all (delayed k call h {q} {t} lt word load passed run) =
      let l = loaded o p fits few (all h passed) call (s.now.pc k) load in
      let same : l.next ≡ q =
        ap (λ (w : Pc T × Table Cell). w.0) (some-injective _ _ (sym l.run ∙ run)) in
      goes_on-AllInv o p n s _ all (
        subst (λ (x : Pc T). Inv o p n s.now.table (update s.now.pc k x)) same
          (Loaded-Inv (all s.now (head refl)) lt l))

  DelayedReach-AllInv :
      {s u : History (System T Cell)} → AllInv o p n s → DelayedReach o p n s u → AllInv o p n u
  DelayedReach-AllInv all start = all
  DelayedReach-AllInv all (later before step) =
      DelayedStep-AllInv (DelayedReach-AllInv all before) step

  module _ {t : Table Cell} (valid : IsValid o p t) {s : History (System T Cell)}
      (run : DelayedReach o p n (first t) s) where
    first-AllInv : AllInv o p n (first t)
    first-AllInv h (head e) =
        subst (λ (v : System T Cell). Inv o p n v.table v.pc) (sym e) (IsValid-Inv o p n t valid)
    first-AllInv h (tail m) = elim m [ ]

    delayed-AllInv : AllInv o p n s
    delayed-AllInv = DelayedReach-AllInv first-AllInv run

    pub delayed-Inv : Inv o p n s.now.table s.now.pc
    delayed-Inv = delayed-AllInv s.now (head refl)

    -- In every state that a number of threads which, added to the length, is below 2 to the 32
    -- reach from a valid table where a cache line fits, by moves in any order, in which
    -- operations that only read may see any earlier state, no slot of the table belongs to two
    -- of: a place of the ring that shows an index of it, its own cell with a value, and a thread
    -- that holds an index of it; and the places that show an index, the values and the threads
    -- that hold an index are together as many as the slots, so that no index is lost; and the
    -- values, the insertions that were admitted and have not yet stored their value, and the
    -- removals that have emptied a cell and not yet counted it off are together no more than the
    -- capacity.
    pub delayed_indices_conserved :
        IsExclusive (owned o p s.now.table s.now.pc)
        × (count (λ i. not (taken p s.now.table i)) (length_usize p)
              + population o p s.now.table
              + tally has_slot n s.now.pc
            ≡ length_usize p)
        × (population o p s.now.table + tally permitted n s.now.pc ≤ cap p)
    delayed_indices_conserved =
        let inv = delayed-Inv in
        (
          inv.exclusive,
          omega (arith, inv.balance, count-not (taken p s.now.table) (length_usize p)),
          omega (arith, inv.room, cap-add-held_back p),
        )

    -- In every state that a number of threads which, added to the length, is below 2 to the 32
    -- reach from a valid table where a cache line fits, by moves in any order, in which
    -- operations that only read may see any earlier state, each move of each thread on the last
    -- contents, with an index that is a word, returns: no thread reads or writes a cell out of
    -- bounds or not initialised, and none writes to a cell that has a value.
    pub delayed_moves_return :
        {k : ℕ} (call : Call T) (fails : Bool)
        → k < n
        → IsWordCall p call
        → (q : Pc T) × (u : Table Cell) × (move o p call fails (s.now.pc k) s.now.table
            ≡ some (q, u))
    delayed_moves_return call fails lt word =
        move_returns o p fits few delayed-Inv lt call fails word

    -- In every state that a number of threads which, added to the length, is below 2 to the 32
    -- reach from a valid table where a cache line fits, by moves in any order, in which
    -- operations that only read may see any earlier state, each operation that only reads
    -- returns, also where it sees any earlier state, and leaves the table of that state as it is.
    delayed_loads_return :
        (k : ℕ) (call : Call T) (h : System T Cell)
        → is_load call (s.now.pc k) ≡ true
        → Passed s h
        → (q : Pc T) × (move o p call true (s.now.pc k) h.table ≡ some (q, h.table))
    delayed_loads_return k call h load passed =
        let l = loaded o p fits few (delayed-AllInv h passed) call (s.now.pc k) load in
        (l.next, l.run)

    -- When a number of threads which, added to the length, is below 2 to the 32 have moved in any
    -- order from a valid table where a cache line fits, in which operations that only read may
    -- have seen any earlier state, and none of them is in a call any more, the table is valid
    -- again; so its ring shows as many indices as there are empty slots, and entries counts the
    -- values, and one more at the largest capacity.
    pub delayed-IsValid : IsQuiescent s.now.pc → IsValid o p s.now.table
    delayed-IsValid quiet = Inv-IsValid o p n s.now.table s.now.pc quiet delayed-Inv

  DelayedStep-Turn :
      {s u : History (System T Cell)}
      → AllInv o p n s
      → (step : DelayedStep o p n s u)
      → DelayedTurn p n
          (seen o p s)
          (delayed_taken o p n step).thread
          (delayed_taken o p n step).call
          (delayed_taken o p n step).source
          (seen o p u)
  DelayedStep-Turn {s} all (latest step) =
      DelayedTurn.latest (Step-Turn o p fits few (all s.now (head refl)) step)
  DelayedStep-Turn {s} all (delayed k call h {q} {t} lt word load passed run) =
      let l = loaded o p fits few (all h passed) call (s.now.pc k) load in
      let same : l.next ≡ q =
        ap (λ (w : Pc T × Table Cell). w.0) (some-injective _ _ (sym l.run ∙ run)) in
      DelayedTurn.delayed (shared o p h) lt (Passed-seen o p passed) (
        subst (λ (x : Pc T). Load p (tally charged n h.pc) (view o p h.table) call (s.now.pc k) x)
          same l.effect)

  DelayedReach-Turns :
      {s u : History (System T Cell)}
      → AllInv o p n s
      → (run : DelayedReach o p n s u)
      → DelayedTurns p n (seen o p s) (delayed_log o p n run) (seen o p u)
  unfolding delayed_log
  DelayedReach-Turns all start = none_yet
  DelayedReach-Turns all (later before step) =
      and_then (DelayedReach-Turns all before)
        (DelayedStep-Turn (DelayedReach-AllInv all before) step)

  -- A number of threads which, added to the length, is below 2 to the 32 share a valid table
  -- where a cache line fits and have made no call. Then they move in any order, with indices to
  -- remove that are words, and an operation that only reads, or an exchange that fails, may see
  -- what was there in any earlier state. The log of these moves, which has for each its thread,
  -- its call, and the earlier state that it saw, if it did, is one of turns of the specification,
  -- with the same maps and every thread at the same point of its call in each state that the
  -- moves went through. A move that sees the last state is such a turn as without delay, so that
  -- the map changes only where a thread that holds an index puts the value of its closure for it
  -- at its slot, which was empty, and where a removal erases the value at the slot of its key. A
  -- move that sees an earlier state leaves the map as it is and takes no other thread further: a
  -- lookup answers from the slot of its key in the map of the state that it saw, len answers the
  -- entries and the threads in a call there, or the capacity, and an exchange that fails goes
  -- back to its loop.
  pub delayed-Turns :
      {t : Table Cell}
      → IsValid o p t
      → {s : History (System T Cell)} (run : DelayedReach o p n (first t) s)
      → DelayedTurns p n (seen o p (first t)) (delayed_log o p n run) (seen o p s)
  delayed-Turns valid run = DelayedReach-Turns (first-AllInv valid start) run
