-- ===== src/Array.antt =====
-- src/array.rs: an array of `P::LENGTH` elements as memory by offset. `none` stands for an element
-- that is not initialised, or lies outside the allocation: reading it is undefined behaviour.
pub mod Laws
pub mod Buffer
use mathlib.Core.List.{List, [], ◌∷◌}
use mathlib.Core.Option
use ptab.Common.{ℕ, zero, suc, ◌+◌, Option, none, some, update}
use ptab.Params.Derived.{Params, length_usize}
use ptab.Index.Defs.{Concrete}

abbrev pub Array : Type 0 → Type 0
Array A = ℕ → Option A

module _ {A : Type 0} where
  -- `alloc` succeeds; its failure ends the process.
  abbrev pub new_uninit : Array A
  new_uninit index = none

  -- The loop of `new` from `index` on, with the rounds that are left.
  unfoldable pub init_loop : (ℕ → A) → ℕ → ℕ → Array A → Array A
  init_loop init zero index this = this
  init_loop init (suc rounds) index this =
      init_loop init rounds (index + 1) (update this index (some (init index)))

  unfoldable pub new : Params → (ℕ → A) → Array A
  new p init = init_loop init (length_usize p) 0 new_uninit

  abbrev pub get_unchecked : Array A → ℕ → Option A
  get_unchecked this index = this index

  abbrev pub get : Array A → Concrete → Option A
  get this index = get_unchecked this index.source

  -- The elements from `index` on, as many as there are rounds.
  unfoldable pub from_raw_parts : Array A → ℕ → ℕ → Option (List A)
  from_raw_parts this index zero = some []
  from_raw_parts this index (suc rounds) =
      let rest = from_raw_parts this (index + 1) rounds in
      elim (this index) [ none ↦ none | some a ↦ Option.map (λ others. a ∷ others) rest ]

  abbrev pub as_slice : Params → Array A → Option (List A)
  as_slice p this = from_raw_parts this 0 (length_usize p)
