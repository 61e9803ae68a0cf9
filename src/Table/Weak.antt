-- ===== src/Table/Weak.antt =====
-- src/table.rs: a walk over the keys of `WeakKeys` while the table changes. The load at position `i`
-- finds the table as `tables i`.
use mathlib.Core.List.{List, [], ◌∷◌}
use ptab.Common.{
  ℕ, zero, suc, ◌+◌, ◌-◌, ◌≤◌, ◌<◌, ◌≡◌, refl, ◌∙◌, subst, arith, true, false, Bool-cases, inl, inr,
  ◌⊎◌, Option, none, some,
}
use ptab.Params.Derived.{Params, length_usize}
use ptab.Params.Geometry.{FitsLine}
use ptab.Index.Defs.{Detached, abstract_to_detached}
use ptab.Reclaim.Owned.{AtomicOwned}
use ptab.Table.State.{Table}
use ptab.Table.Ops.{cap, load}
use ptab.Table.Keys
use ptab.Table.Keys.{WeakKeys, next_loop, next, collect}
use ptab.Table.View.{place, occupied}
use ptab.Table.Probe.{place-lt}
use ptab.Table.Ops.{load}
use ptab.Reclaim.Sdd
use mathlib.Core.Option
use ptab.Index.Defs.{abstract_to_concrete}

module _ {T Cell : Type 0} (o : AtomicOwned T Cell) (p : Params) where
  -- The `while` loop of `next`, with `rounds` positions left.
  unfoldable pub weak_loop : ℕ → ℕ → (ℕ → Table Cell) → Option (Option Detached × ℕ)
  weak_loop zero index tables = some (none, index)
  weak_loop (suc rounds) index tables =
      elim (load o p (abstract_to_concrete p (record { source = index })) (tables index)) [
        | none ↦ none
        | some ptr ↦ elim (Sdd.is_null ptr) [
          | true ↦ weak_loop rounds (index + 1) tables
          | false ↦ some (some (abstract_to_detached p (record { source = index })), index + 1)
        ]
      ]

  unfoldable pub weak_next : WeakKeys → (ℕ → Table Cell) → Option (Option Detached × WeakKeys)
  weak_next keys tables =
      Option.map (λ (found, index). (found, record keys { index = index }))
        (weak_loop (keys.total - keys.index) keys.index tables)

  -- A `for` loop over the keys.
  unfoldable pub weak_collect : ℕ → WeakKeys → (ℕ → Table Cell) → Option (List Detached)
  weak_collect zero keys tables = none
  weak_collect (suc fuel) keys tables = elim (weak_next keys tables) [
    | none ↦ none
    | some (none, keys') ↦ some []
    | some (some key, keys') ↦ Option.map (λ rest. key ∷ rest) (weak_collect fuel keys' tables)
  ]

  -- The key that the walk makes at position `i`.
  abbrev pub key_at : ℕ → Detached
  key_at i = abstract_to_detached p (record { source = i })

  -- The keys at the `n` positions from `i` on whose slots have a value when they are looked at.
  unfoldable pub keys_seen : (ℕ → Table Cell) → ℕ → ℕ → List Detached
  keys_seen tables i zero = []
  keys_seen tables i (suc n) =
      let rest = keys_seen tables (i + 1) n in
      elim (occupied o (tables i) (place p i)) [ true ↦ key_at i ∷ rest | false ↦ rest ]

  -- All cells are initialised, at every load.
  abbrev pub CellsInit : (ℕ → Table Cell) → Type 0
  CellsInit tables =
      (i c : ℕ) → c < length_usize p → (x : Cell) × ((tables i).readonly.cells c ≡ some x)

  module _ (tables : ℕ → Table Cell) (fits : FitsLine p) (init : CellsInit tables) where
    step_empty :
        (rounds i : ℕ)
        → occupied o (tables i) (place p i) ≡ false
        → weak_loop (suc rounds) i tables ≡ weak_loop rounds (i + 1) tables
    unfolding weak_loop load
    step_empty rounds i empty = let (x, e) = init i (place p i) (place-lt p fits i) in ground arith

    step_found :
        (rounds i : ℕ)
        → occupied o (tables i) (place p i) ≡ true
        → weak_loop (suc rounds) i tables ≡ some (some (key_at i), i + 1)
    unfolding weak_loop load
    step_found rounds i full = let (x, e) = init i (place p i) (place-lt p fits i) in ground arith

    -- What one call does to the keys that are left.
    record Advances (start rounds : ℕ) (found : Option Detached) (index : ℕ) : Type 0 where
      left : ℕ
      reaches : index + left ≡ start + rounds
      fewer : left ≤ rounds
      outcome :
          ((found ≡ none) × (keys_seen tables start rounds ≡ []))
          ⊎ ((d : Detached) × (found ≡ some d)
              × (left < rounds)
              × (keys_seen tables start rounds ≡ d ∷ keys_seen tables index left))

    weak_loop-Advances :
        (rounds start : ℕ)
        → (found : Option Detached) × (index : ℕ) × (weak_loop rounds start tables
            ≡ some (found, index))
          × Advances start rounds found index
    unfolding keys_seen
    weak_loop-Advances zero start = (
      none,
      start,
      unfold weak_loop in refl,
      record { left = 0; reaches = refl; fewer = omega arith; outcome = inl (refl, refl) },
    )
    weak_loop-Advances (suc rounds) start =
        elim (Bool-cases (occupied o (tables start) (place p start))) [
          | inl full ↦ (
            some (key_at start),
            start + 1,
            step_found rounds start full,
            record {
              left = rounds;
              reaches = omega arith;
              fewer = omega arith;
              outcome = inr (key_at start, refl, omega arith, ground arith);
            },
          )
          | inr empty ↦
              let (found, index, run, a) = weak_loop-Advances rounds (start + 1) in
              (
                found,
                index,
                step_empty rounds start empty ∙ run,
                record {
                  left = a.left;
                  reaches = omega (arith, a.reaches);
                  fewer = omega (arith, a.fewer);
                  outcome = elim (a.outcome) [
                    | inl (nothing, done) ↦ inl (nothing, ground (arith, done))
                    | inr (d, e, less, rest) ↦ inr (d, e, omega arith, ground (arith, rest))
                  ];
                },
              )
        ]

    weak_collect_lem :
        (fuel n : ℕ) (keys : WeakKeys)
        → keys.index + n ≡ keys.total
        → n < fuel
        → weak_collect fuel keys tables ≡ some (keys_seen tables keys.index n)
    unfolding weak_collect weak_next
    weak_collect_lem zero n keys reach h = absurd (omega arith)
    weak_collect_lem (suc fuel) n keys reach h =
        let (found, index, run, a) = weak_loop-Advances n keys.index in
        let run' : weak_loop (keys.total - keys.index) keys.index tables ≡ some (found, index) =
          subst (λ (m : ℕ). weak_loop m keys.index tables ≡ some (found, index))
            (omega (arith, reach)) run in
        elim (a.outcome) [
          | inl (nothing, done) ↦ ground (arith, run', nothing, done)
          | inr (d, e, less, rest) ↦ ground (
            arith,
            run',
            e,
            rest,
            weak_collect_lem fuel a.left (record keys { index = index })
                (omega (arith, a.reaches, reach)) (omega arith),
          )
        ]

    -- The walk ends within one call more than the capacity.
    pub weak_walk_lem :
        weak_collect (suc (cap p)) (Keys.new p) tables ≡ some (keys_seen tables 0 (cap p))
    unfolding Keys.new
    weak_walk_lem = weak_collect_lem (suc (cap p)) (cap p) (Keys.new p) (omega arith) (omega arith)
