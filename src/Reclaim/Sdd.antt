-- ===== src/Reclaim/Sdd.antt =====
-- src/reclaim/sdd.rs: `Atomic`, `Shared` and `Guard` over `sdd`. The memory orders are left out: an
-- operation on a cell is one indivisible step.
use ptab.Common.{◌≡◌, ap, arith, Bool, true, false, not, Option, none, some}
use ptab.Reclaim.Owned.{AtomicOwned}

abbrev pub is_some {ℓ} : {A : Type ℓ} → Option A → Bool
is_some none = false
is_some (some a) = true

-- A pointer that is null or shows a value.
pub record Shared (T : Type 0) : Type 0 where
  pub pointer : Option T

module _ {T : Type 0} where
  abbrev pub is_null : Shared T → Bool
  is_null s = not (is_some s.pointer)

  abbrev pub as_ref : Shared T → Option T
  as_ref s = s.pointer

-- The unchecked assertion of `write` about the value that was in the cell.
abbrev assert_empty : {T Cell : Type 0} → Option T → Cell → Option Cell
assert_empty none cell = some cell
assert_empty (some _) cell = none

module _ {T Cell : Type 0} (o : AtomicOwned T Cell) where
  abbrev pub null : Cell
  null = o.null

  abbrev pub load : Cell → Shared T
  load c = record { pointer = o.load c }

  -- `init` gives `none` where it leaves the value uninitialised, and `assume_init` is undefined
  -- behaviour; so is the unchecked assertion that the cell was empty, where it was not.
  unfoldable pub write : Cell → Option T → Option Cell
  write c init = elim init [
    | none ↦ none
    | some value ↦ let (old, c') = o.swap c (some value) in assert_empty old c'
  ]

  unfoldable pub evict : Cell → Bool × Cell
  evict c = let (old, c') = o.swap c none in (is_some old, c')

  -- The value that is dropped, if there is one; the cell is left null.
  unfoldable pub drop_in_place : Cell → Option T × Cell
  drop_in_place c = (o.into_owned c, o.null)

  -- A value written to an empty cell is there afterwards.
  pub write_empty :
      (c : Cell) (v : T)
      → o.load c ≡ none
      → (c' : Cell) × (write c (some v) ≡ some c') × (o.load c' ≡ some v)
  unfolding write
  write_empty c v e =
      ((o.swap c (some v)).1, ground (arith, o.swap_old c (some v)), o.load-swap c (some v))

  -- An eviction says whether there was a value, and leaves none.
  pub evict_lem : (c : Cell) → ((evict c).0 ≡ is_some (o.load c)) × (o.load (evict c).1 ≡ none)
  unfolding evict
  evict_lem c = (ap is_some (o.swap_old c none), o.load-swap c none)
