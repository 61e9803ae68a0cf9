-- ===== src/Reclaim/Leak/Memory.antt =====
-- src/reclaim/: cells that share the memory of their boxes, and the same cells over sdd, as the
-- operations of the table use them.
use mathlib.Core.List.{List, [], ◌∷◌}
use ptab.Common.{ℕ, zero, suc, ◌≡◌, Bool, Option, none, some, update, State, pure, ◌>>=◌, subst}
use ptab.Reclaim.Owned.{AtomicOwned}
use ptab.Reclaim.Sdd
use ptab.Reclaim.Leak
use ptab.Reclaim.Leak.{Heap, Atomic, Shared, load, as_ref}

-- An operation on a cell, by its offset; a write with the address that the allocator returns, and
-- with what the closure leaves in the box.
pub data Act (T : Type 0) : Type 0 where
  loads : (cell : ℕ) → Act T
  writes : (cell box : ℕ) (init : Option T) → Act T
  evicts : (cell : ℕ) → Act T

pub data Answer (T : Type 0) : Type 0 where
  shown : (value : Option T) → Answer T
  written : Answer T
  evicted : (present : Bool) → Answer T

pub record Memory (T : Type 0) : Type 0 where
  pub heap : Heap T
  pub cell : ℕ → Atomic

module _ {T : Type 0} where
  -- The pointer that a cell shows is read at once.
  unfoldable pub perform : Act T → State (Memory T) (Answer T)
  perform (loads i) m = elim (as_ref (load (m.cell i)) m.heap) [
    | none ↦ none
    | some value ↦ some (shown value, m)
  ]
  perform (writes i box init) m = elim (Leak.write box init (m.heap, m.cell i)) [
    | none ↦ none
    | some (_, (heap, c)) ↦ some (written, record { heap = heap; cell = update m.cell i c })
  ]
  perform (evicts i) m =
      let (present, c) = Leak.evict (m.cell i) in
      some (evicted present, record { heap = m.heap; cell = update m.cell i c })

  unfoldable pub performs : List (Act T) → State (Memory T) (List (Answer T))
  performs [] = pure []
  performs (act ∷ acts) = do answer ← perform act; answers ← performs acts; pure (answer ∷ answers)

  unfoldable pub drop_at : ℕ → State (Memory T) (Option T)
  drop_at i m = elim (Leak.drop_in_place (m.heap, m.cell i)) [
    | none ↦ none
    | some (value, (heap, c)) ↦ some (value, record { heap = heap; cell = update m.cell i c })
  ]

  -- The `n` cells from offset `i` on, one after another.
  unfoldable pub drops : ℕ → ℕ → State (Memory T) (List (Option T))
  drops zero i = pure []
  drops (suc n) i = do value ← drop_at i; values ← drops n (suc i); pure (value ∷ values)

  -- The allocator returns the address of a new box.
  abbrev pub IsNew : Memory T → Act T → Type 0
  IsNew m (writes i box init) = m.heap box ≡ none
  IsNew m _ = Unit

  abbrev pub IsAllocated : Memory T → List (Act T) → Type 0
  IsAllocated m [] = Unit
  IsAllocated m (act ∷ acts) =
      IsNew m act × elim (perform act m) [ none ↦ Unit | some (_, u) ↦ IsAllocated u acts ]

  pub IsAllocated-later :
      (act : Act T) (acts : List (Act T)) (m : Memory T) {answer : Answer T} {u : Memory T}
      → IsAllocated m (act ∷ acts)
      → perform act m ≡ some (answer, u)
      → IsAllocated u acts
  IsAllocated-later act acts m (_, later) run =
      subst
        (λ (r : Option (Answer T × Memory T)). elim r [
          | none ↦ Unit
          | some (_, u) ↦ IsAllocated u acts
        ])
        run later

module _ {T Cell : Type 0} (o : AtomicOwned T Cell) where
  unfoldable pub perform_sdd : Act T → State (ℕ → Cell) (Answer T)
  perform_sdd (loads i) cells = some (shown (Sdd.as_ref (Sdd.load o (cells i))), cells)
  perform_sdd (writes i box init) cells = elim (Sdd.write o (cells i) init) [
    | none ↦ none
    | some c ↦ some (written, update cells i c)
  ]
  perform_sdd (evicts i) cells =
      let (present, c) = Sdd.evict o (cells i) in some (evicted present, update cells i c)

  unfoldable pub performs_sdd : List (Act T) → State (ℕ → Cell) (List (Answer T))
  performs_sdd [] = pure []
  performs_sdd (act ∷ acts) = do
    answer ← perform_sdd act
    answers ← performs_sdd acts
    pure (answer ∷ answers)

  abbrev pub drops_sdd : ℕ → ℕ → (ℕ → Cell) → List (Option T)
  drops_sdd zero i cells = []
  drops_sdd (suc n) i cells = (Sdd.drop_in_place o (cells i)).0 ∷ drops_sdd n (suc i) cells
