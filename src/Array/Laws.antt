-- ===== src/Array/Laws.antt =====
-- What `Array::new` leaves in memory.
use mathlib.Core.List.{List, [], ◌∷◌}
use ptab.Common.{
  ℕ, zero, suc, ◌+◌, ◌≡◌, none, some, arith, update, ltb, leb, refl, ◌≤◌, ◌<◌, if◌then◌else◌, ◌&&◌,
}
use ptab.Params.Derived.{Params, length_usize}
use ptab.Index.Defs.{Concrete}
use ptab.Array.{Array, new_uninit, init_loop, new, get, from_raw_parts, as_slice}

module _ {A : Type 0} (init : ℕ → A) where
  -- The loop writes the elements from `index` on, as many as there are rounds.
  init_loop_lem :
      (rounds index : ℕ) (this : Array A) (i : ℕ)
      → init_loop init rounds index this i
        ≡ (if leb index i && ltb i (index + rounds) then some (init i) else this i)
  unfolding init_loop
  init_loop_lem zero index this i = ground arith
  init_loop_lem (suc rounds) index this i =
      ground (arith, init_loop_lem rounds (index + 1) (update this index (some (init index))) i)

  -- In a new array, reading below the length gives what the initialiser makes of the offset, and
  -- reading elsewhere is undefined behaviour.
  pub new_lem :
      (p : Params) (c : Concrete)
      → get (new p init) c ≡ (if ltb c.source (length_usize p) then some (init c.source) else none)
  unfolding new
  new_lem p c = ground (arith, init_loop_lem (length_usize p) 0 new_uninit c.source)

  -- What the initialiser makes of the offsets from `index` on.
  abbrev pub tabulated : ℕ → ℕ → List A
  tabulated index zero = []
  tabulated index (suc rounds) = init index ∷ tabulated (index + 1) rounds

  slice_lem :
      (this : Array A) (index rounds : ℕ)
      → ((i : ℕ) → index ≤ i → i < index + rounds → this i ≡ some (init i))
      → from_raw_parts this index rounds ≡ some (tabulated index rounds)
  unfolding from_raw_parts
  slice_lem this index zero shown = refl
  slice_lem this index (suc rounds) shown =
      let rest =
        slice_lem this (index + 1) rounds
          (λ i low high. shown i (omega (arith, low)) (omega (arith, high))) in
      ground (arith, shown index (omega arith) (omega arith), rest)

  -- In a new array all elements of the slice are initialised, and they are what the initialiser
  -- makes of the offsets from 0 to below the length, in order.
  pub as_slice-new : (p : Params) → as_slice p (new p init) ≡ some (tabulated 0 (length_usize p))
  as_slice-new p =
      slice_lem (new p init) 0 (length_usize p)
        (λ i low high. (let e = new_lem p (record { source = i }) in ground (arith, e, high)))
