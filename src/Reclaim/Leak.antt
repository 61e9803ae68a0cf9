-- ===== src/Reclaim/Leak.antt =====
-- src/reclaim/leak.rs: the same cell without reclamation, as a pointer to a box. The memory orders
-- are left out: an operation on a cell is one indivisible step.
use ptab.Common.{ℕ, Bool, not, Option, none, some, update, State}
use ptab.Reclaim.Sdd.{is_some}
pub mod Memory
pub mod Kept
pub mod Sound
pub mod Drops
pub mod Agree

-- What the boxes hold, by their addresses. There is no box at the other addresses.
abbrev pub Heap : Type 0 → Type 0
Heap T = ℕ → Option T

-- The null pointer is none.
pub record Atomic : Type 0 where
  pub inner : Option ℕ

pub record Shared : Type 0 where
  pub pointer : Option ℕ

abbrev pub null : Atomic
null = record { inner = none }

abbrev pub load : Atomic → Shared
load self = record { pointer = self.inner }

abbrev pub is_null : Shared → Bool
is_null s = not (is_some s.pointer)

-- The box is leaked.
unfoldable pub evict : Atomic → Bool × Atomic
evict self = (is_some self.inner, null)

module _ {T : Type 0} where
  -- The outer `none` is undefined behaviour: the pointer does not point to a box.
  abbrev pub as_ref : Shared → Heap T → Option (Option T)
  as_ref s heap = elim s.pointer [
    | none ↦ some none
    | some box ↦ elim (heap box) [ none ↦ none | some value ↦ some (some value) ]
  ]

  -- `box` is the address that the allocator returns. `init` gives `none` where it leaves the value
  -- uninitialised, and `assume_init` is undefined behaviour. A box that the cell held is lost.
  unfoldable pub write : ℕ → Option T → State (Heap T × Atomic) Unit
  write box init (heap, self) = elim init [
    | none ↦ none
    | some value ↦ some (tt, (update heap box (some value), record { inner = some box }))
  ]

  -- The value that is dropped with its box, if there is one; the pointer is left as it is. To free
  -- what is not a box is undefined behaviour.
  unfoldable pub drop_in_place : State (Heap T × Atomic) (Option T)
  drop_in_place (heap, self) = elim self.inner [
    | none ↦ some (none, (heap, self))
    | some box ↦ elim (heap box) [
      | none ↦ none
      | some value ↦ some (some value, (update heap box none, self))
    ]
  ]
