-- ===== src/Table/Keys.antt =====
-- src/table.rs: the iterator `WeakKeys`, and `Drop` and the entries of `Debug`, which walk the cells.
-- Each call of `next` gets the table as it is then.
use mathlib.Core.Option
use mathlib.Core.List.{List, [], ◌∷◌}
use ptab.Common.{ℕ, zero, suc, ◌+◌, ◌-◌, true, false, Option, none, some, ◌==◌, if◌then◌else◌}
use ptab.Common.Word.{wrapping_sub}
use ptab.Params.Derived.{Params, length_usize}
use ptab.Index.Defs.{Detached, abstract_to_concrete, abstract_to_detached}
use ptab.Reclaim.Owned.{AtomicOwned}
use ptab.Reclaim.Sdd
use ptab.Table.State.{Table}
use ptab.Table.Ops.{cap, len, load}

pub record WeakKeys : Type 0 where
  pub total : ℕ
  pub index : ℕ

unfoldable pub new : Params → WeakKeys
new p = record { total = cap p; index = 0 }

module _ {T Cell : Type 0} (o : AtomicOwned T Cell) (p : Params) where
  -- The `while` loop of `next`: `rounds` is `total - index`. The result is the key that is found,
  -- and the index afterwards; the outer `none` is undefined behaviour.
  unfoldable pub next_loop : ℕ → ℕ → Table Cell → Option (Option Detached × ℕ)
  next_loop zero index t = some (none, index)
  next_loop (suc rounds) index t =
      elim (load o p (abstract_to_concrete p (record { source = index })) t) [
        | none ↦ none
        | some ptr ↦ elim (Sdd.is_null ptr) [
          | true ↦ next_loop rounds (index + 1) t
          | false ↦ some (some (abstract_to_detached p (record { source = index })), index + 1)
        ]
      ]

  unfoldable pub next : WeakKeys → Table Cell → Option (Option Detached × WeakKeys)
  next keys t =
      Option.map (λ (found, index). (found, record keys { index = index }))
        (next_loop (keys.total - keys.index) keys.index t)

  -- A `for` loop over the keys of a table that nobody else changes; it ends at the first `none`.
  unfoldable pub collect : ℕ → WeakKeys → Table Cell → Option (List Detached)
  collect zero keys t = none
  collect (suc fuel) keys t = elim (next keys t) [
    | none ↦ none
    | some (none, keys') ↦ some []
    | some (some key, keys') ↦ Option.map (λ rest. key ∷ rest) (collect fuel keys' t)
  ]

  -- The loop of `drop` from the cell at `index` on: the values that it drops, in order.
  unfoldable pub drop_loop : ℕ → ℕ → ℕ → Table Cell → Option (List T)
  drop_loop zero index count t = some []
  drop_loop (suc rounds) index count t = elim (t.readonly.cells index) [
    | none ↦ none
    | some cell ↦ elim (Sdd.drop_in_place o cell).0 [
      | none ↦ drop_loop rounds (index + 1) count t
      | some value ↦ elim (wrapping_sub 32 count 1 == 0) [
        | true ↦ some (value ∷ [])
        | false ↦
            Option.map (λ rest. value ∷ rest)
              (drop_loop rounds (index + 1) (wrapping_sub 32 count 1) t)
      ]
    ]
  ]

  unfoldable pub drop : Table Cell → Option (List T)
  drop t = if len p t == 0 then some [] else drop_loop (length_usize p) 0 (len p t) t

  -- The entries that `Debug` shows, from abstract index `index` on.
  unfoldable pub debug_loop : ℕ → ℕ → Table Cell → Option (List (Detached × T))
  debug_loop zero index t = some []
  debug_loop (suc rounds) index t =
      elim (load o p (abstract_to_concrete p (record { source = index })) t) [
        | none ↦ none
        | some ptr ↦ elim (Sdd.as_ref ptr) [
          | none ↦ debug_loop rounds (index + 1) t
          | some value ↦
              Option.map
                (λ rest. (abstract_to_detached p (record { source = index }), value) ∷ rest)
                (debug_loop rounds (index + 1) t)
        ]
      ]

  unfoldable pub debug_entries : Table Cell → Option (List (Detached × T))
  debug_entries t = debug_loop (length_usize p) 0 t
