-- ===== src/Concurrent/Iteration.antt =====
-- src/table.rs: a walk over the keys while several threads are at work.
use ptab.Common.{ℕ, suc, ◌+◌, ◌^◌, ◌<◌, ◌≡◌, some}
use ptab.Params.Derived.{Params, length_usize}
use ptab.Params.Geometry.{FitsLine}
use ptab.Reclaim.Owned.{AtomicOwned}
use ptab.Table.State.{Table}
use ptab.Table.Ops.{cap}
use ptab.Table.Keys
use ptab.Table.View.{IsValid}
use ptab.Table.Weak.{weak_collect, keys_seen, weak_walk_lem}
use ptab.Concurrent.System.{System, initial, Reach}
use ptab.Concurrent.Safety.{reached-Inv}

module _ {T Cell : Type 0} (o : AtomicOwned T Cell) (p : Params) (fits : FitsLine p) {n : ℕ}
    (few : length_usize p + n < 2 ^ 32) where
  -- While a number of threads that, added to the length, is below 2 to the 32 move from a valid
  -- table where a cache line fits, a walk over the keys of WeakKeys, each load of which is made
  -- in some state that their moves lead to, ends within one call more than the capacity, and
  -- yields, in order, the detached forms of exactly those indices below the capacity whose slots
  -- have a value in the state of their load; so it passes over no index whose slot has a value
  -- all the time.
  pub weak_walk :
      {t : Table Cell} (states : ℕ → System T Cell)
      → IsValid o p t
      → ((i : ℕ) → Reach o p n (initial t) (states i))
      → weak_collect o p (suc (cap p)) (Keys.new p) (λ i. (states i).table)
        ≡ some (keys_seen o p (λ i. (states i).table) 0 (cap p))
  weak_walk states valid runs =
      weak_walk_lem o p (λ i. (states i).table) fits
        (λ i. (reached-Inv o p fits few valid (runs i)).cell_init)
