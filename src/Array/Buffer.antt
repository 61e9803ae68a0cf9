-- ===== src/Array/Buffer.antt =====
-- src/array.rs: the allocation of an array, from `new_uninit` to `drop`.
use ptab.Common.{
  ℕ, ◌≡◌, Option, none, some, Bool, true, ◌==◌, ◌&&◌, if◌then◌else◌, update, update_self, State,
  arith,
}
use native.Mathlib.Decide.{ℕ_discrete}
use ptab.Params.Derived.{Params, Layout, derive_layout}

-- The blocks that are allocated: at the address of each, its layout.
abbrev pub Blocks : Type 0
Blocks = ℕ → Option Layout

pub record Buffer : Type 0 where
  pub nonnull : ℕ

module _ (p : Params) where
  -- `raw` is the address that `alloc` returns, or none, which ends the process. The outer `none`
  -- is a build that stops, for want of a layout.
  unfoldable pub new_uninit : Option ℕ → State Blocks (Option Buffer)
  new_uninit raw blocks = elim (derive_layout p) [
    | none ↦ none
    | some layout ↦ elim raw [
      | none ↦ some (none, blocks)
      | some address ↦
          some (some (record { nonnull = address }), update blocks address (some layout))
    ]
  ]

  -- `ManuallyDrop` keeps the block.
  abbrev pub assume_init : Buffer → Buffer
  assume_init self = record { nonnull = self.nonnull }

  abbrev same_layout : Layout → Layout → Bool
  same_layout a b = a.size == b.size && a.align == b.align

  -- To free what is not a block of this layout is undefined behaviour.
  unfoldable pub drop : Buffer → State Blocks Unit
  drop self blocks = elim (derive_layout p) [
    | none ↦ none
    | some layout ↦ elim (blocks self.nonnull) [
      | none ↦ none
      | some block ↦
          if same_layout block layout then some (tt, update blocks self.nonnull none) else none
    ]
  ]

  same_layout_self : (layout : Layout) → same_layout layout layout ≡ true
  same_layout_self layout = ground arith

  back :
      (blocks : Blocks) (address : ℕ) (layout : Layout)
      → blocks address ≡ none
      → (i : ℕ) → update (update blocks address (some layout)) address none i ≡ blocks i
  back blocks address layout new i = elim (ℕ_discrete address i) [
    | yes here ↦ ground (arith, here, new)
    | no other ↦ ground (arith, other)
  ]

  -- Allocated at an address where no block is, a buffer is freed as it was allocated, and the other blocks
  -- are as before.
  pub drop-new_uninit :
      {layout : Layout} (blocks : Blocks) (address : ℕ)
      → derive_layout p ≡ some layout
      → blocks address ≡ none
      → (buffer : Buffer) × (held : Blocks) × (after : Blocks) × (new_uninit (some address) blocks
          ≡ some (some buffer, held))
        × (drop (assume_init buffer) held ≡ some (tt, after))
        × ((i : ℕ) → after i ≡ blocks i)
  unfolding new_uninit drop
  drop-new_uninit {layout} blocks address e new = (
    record { nonnull = address },
    update blocks address (some layout),
    update (update blocks address (some layout)) address none,
    ground (arith, e),
    ground (arith, e, same_layout_self layout, update_self blocks address (some layout)),
    back blocks address layout new,
  )
