-- ===== src/Table/Walk.antt =====
-- src/table.rs: a whole walk over the keys of a table, and the entries of `Debug`.
use mathlib.Core.List.{List, [], ◌∷◌}
use ptab.Common.{
  sym, Option-cases, ℕ, zero, suc, ◌+◌, ◌-◌, ◌≡◌, refl, ◌∙◌, arith, inl, inr, none, some,
}
use ptab.Params.Derived.{Params, length_usize}
use ptab.Params.Geometry.{FitsLine}
use ptab.Index.Defs.{Detached}
use ptab.Reclaim.Owned.{AtomicOwned}
use ptab.Table.State.{Table}
use ptab.Table.Ops.{cap, load}
use ptab.Table.Keys
use ptab.Table.Keys.{WeakKeys, next_loop, next, collect, debug_loop, debug_entries}
use ptab.Table.View.{place, value_at, IsValid}
use ptab.Table.Probe.{place-lt}
use ptab.Index.Defs.{abstract_to_concrete}
use ptab.Table.Weak.{weak_loop, weak_next, weak_collect, key_at, keys_seen, weak_walk_lem}

module _ {T Cell : Type 0} (o : AtomicOwned T Cell) (p : Params) where
  -- The keys at the `n` positions from `i` on whose slots have a value.
  abbrev pub keys_from : Table Cell → ℕ → ℕ → List Detached
  keys_from t i n = keys_seen o p (λ _. t) i n

  -- These keys with their values.
  unfoldable pub entries_from : Table Cell → ℕ → ℕ → List (Detached × T)
  entries_from t i zero = []
  entries_from t i (suc n) =
      let rest = entries_from t (i + 1) n in
      elim (value_at o t (place p i)) [ some v ↦ (key_at o p i, v) ∷ rest | none ↦ rest ]

  -- A walk over a table that does not change.
  same_loop :
      (rounds i : ℕ) (t : Table Cell) → weak_loop o p rounds i (λ _. t) ≡ next_loop o p rounds i t
  unfolding weak_loop next_loop
  same_loop zero i t = refl
  same_loop (suc rounds) i t =
      elim (Option-cases (load o p (abstract_to_concrete p (record { source = i })) t)) [
        | inl e ↦ ground (arith, e)
        | inr (ptr, e) ↦ ground (arith, e, same_loop rounds (i + 1) t)
      ]

  same_collect :
      (fuel : ℕ) (keys : WeakKeys) (t : Table Cell)
      → weak_collect o p fuel keys (λ _. t) ≡ collect o p fuel keys t
  unfolding weak_collect weak_next collect next
  same_collect zero keys t = refl
  same_collect (suc fuel) keys t =
      let loops = same_loop (keys.total - keys.index) keys.index t in
      elim (Option-cases (next_loop o p (keys.total - keys.index) keys.index t)) [
        | inl e ↦ ground (arith, loops, e)
        | inr ((found, index), e) ↦ elim (Option-cases found) [
          | inl nothing ↦ ground (arith, loops, e, nothing)
          | inr (key, yielded) ↦
              ground (arith, loops, e, yielded, same_collect fuel (record keys { index = index }) t)
        ]
      ]

  module _ {t : Table Cell} (fits : FitsLine p) (valid : IsValid o p t) where
    -- On a valid table where a cache line fits, a walk over the keys of WeakKeys ends within one
    -- call more than the capacity, and yields, in order, the detached forms of exactly those
    -- indices below the capacity whose slots have a value.
    pub walk_lem : collect o p (suc (cap p)) (Keys.new p) t ≡ some (keys_from t 0 (cap p))
    walk_lem =
        sym (same_collect (suc (cap p)) (Keys.new p) t)
        ∙ weak_walk_lem o p (λ _. t) fits (λ i. valid.cell_init)

    debug_loop_lem : (n i : ℕ) → debug_loop o p n i t ≡ some (entries_from t i n)
    unfolding debug_loop entries_from load
    debug_loop_lem zero i = refl
    debug_loop_lem (suc n) i =
        let (x, e) = valid.cell_init (place p i) (place-lt p fits i) in
        ground (arith, e, debug_loop_lem n (i + 1))

    -- On a valid table where a cache line fits, the entries that Debug shows are, in order, the
    -- detached forms of exactly those indices below the length whose slots have a value, each
    -- with this value.
    pub debug_entries_lem : debug_entries o p t ≡ some (entries_from t 0 (length_usize p))
    unfolding debug_entries
    debug_entries_lem = debug_loop_lem (length_usize p) 0
