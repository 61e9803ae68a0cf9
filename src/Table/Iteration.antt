-- ===== src/Table/Iteration.antt =====
-- src/table.rs: one call of `next` of `WeakKeys`.
use native.Mathlib.Nat.{div-eq_of_lt, zero-mul, zero-add}
use ptab.Params.Target.{word_bits}
use ptab.Index.Fields.{detached-eq, length-le-word}
use ptab.Common.{
  ℕ, zero, suc, ◌+◌, ◌-◌, ◌^◌, ◌≤◌, ◌<◌, ◌≡◌, refl, ap, ◌∙◌, sym, subst, arith, true, false, Option,
  none, some, ◌⊎◌, inl, inr, Bool-cases,
}
use native.Mathlib.Decide.{ℕ_discrete}
use ptab.Params.Derived.{Params, length_usize}
use ptab.Params.Geometry.{FitsLine}
use ptab.Index.Defs.{Detached, abstract_to_detached}
use ptab.Reclaim.Owned.{AtomicOwned}
use ptab.Table.State.{Table}
use ptab.Table.Ops.{load}
use ptab.Table.Keys.{WeakKeys, next_loop, next}
use ptab.Table.View.{place, occupied, IsValid}
use ptab.Table.Probe.{place-lt}

abbrev bits_of : Option Detached → ℕ
bits_of none = 0
bits_of (some d) = d.bits

abbrev found_of : Option (Option Detached × WeakKeys) → Option Detached
found_of none = none
found_of (some (found, keys)) = found

module _ {T Cell : Type 0} (o : AtomicOwned T Cell) (p : Params) where
  -- What a call does that starts at `start` with the limit `total`: it passes over empty slots up to
  -- index `stop`, which is the limit, or the first whose slot has a value and is yielded.
  pub record Yields (t : Table Cell) (start total : ℕ) (found : Option Detached) (index : ℕ)
      : Type 0 where
    pub stop : ℕ
    pub from_start : start ≤ stop
    pub passed : (i : ℕ) → start ≤ i → i < stop → occupied o t (place p i) ≡ false
    pub outcome :
        ((found ≡ none) × (index ≡ total) × (stop ≡ total))
        ⊎ ((found ≡ some (abstract_to_detached p (record { source = stop })))
            × (index ≡ suc stop)
            × (stop < total)
            × (occupied o t (place p stop) ≡ true))

  module _ {t : Table Cell} (fits : FitsLine p) (valid : IsValid o p t) where
    pub step_empty :
        (rounds i : ℕ)
        → occupied o t (place p i) ≡ false
        → next_loop o p (suc rounds) i t ≡ next_loop o p rounds (i + 1) t
    unfolding next_loop load
    step_empty rounds i empty =
        let (x, e) = valid.cell_init (place p i) (place-lt p fits i) in ground arith

    pub step_found :
        (rounds i : ℕ)
        → occupied o t (place p i) ≡ true
        → next_loop o p (suc rounds) i t
          ≡ some (some (abstract_to_detached p (record { source = i })), i + 1)
    unfolding next_loop load
    step_found rounds i full =
        let (x, e) = valid.cell_init (place p i) (place-lt p fits i) in ground arith

    extend :
        {start total index : ℕ} {found : Option Detached}
        → occupied o t (place p start) ≡ false
        → Yields t (start + 1) total found index
        → Yields t start total found index
    extend {start} empty y = record {
      stop = y.stop;
      from_start = omega (arith, y.from_start);
      passed = λ i low high. elim (ℕ_discrete start i) [
        | yes here ↦ subst (λ (k : ℕ). occupied o t (place p k) ≡ false) here empty
        | no later ↦ y.passed i (omega arith) high
      ];
      outcome = y.outcome;
    }

    next_loop_lem :
        (rounds start : ℕ)
        → (found : Option Detached) × (index : ℕ) × (next_loop o p rounds start t
            ≡ some (found, index))
          × Yields t start (start + rounds) found index
    next_loop_lem zero start = (
      none,
      start,
      unfold next_loop in refl,
      record {
        stop = start;
        from_start = omega arith;
        passed = λ i low high. absurd (omega arith);
        outcome = inl (refl, omega arith, omega arith);
      },
    )
    next_loop_lem (suc rounds) start = elim (Bool-cases (occupied o t (place p start))) [
      | inl full ↦ (
        some (abstract_to_detached p (record { source = start })),
        start + 1,
        step_found rounds start full,
        record {
          stop = start;
          from_start = omega arith;
          passed = λ i low high. absurd (omega arith);
          outcome = inr (refl, omega arith, omega arith, full);
        },
      )
      | inr empty ↦
          let (found, index, run, y) = next_loop_lem rounds (start + 1) in
          (
            found,
            index,
            step_empty rounds start empty ∙ run,
            extend empty (subst (λ (n : ℕ). Yields t (start + 1) n found index) (omega arith) y),
          )
    ]

    -- On a valid table where a cache line fits, next with a position that is at most the limit
    -- returns: it passes over indices whose slots are empty, and then yields the detached form of
    -- the first index whose slot has a value and stands behind it, or yields none and stands at
    -- the limit.
    pub next_lem :
        (keys : WeakKeys)
        → keys.index ≤ keys.total
        → (found : Option Detached) × (index : ℕ) × (next o p keys t
            ≡ some (found, record keys { index = index }))
          × Yields t keys.index keys.total found index
    next_lem keys h =
        let (found, index, run, y) = next_loop_lem (keys.total - keys.index) keys.index in
        (
          found,
          index,
          unfold next in rw run refl,
          subst (λ (n : ℕ). Yields t keys.index n found index) (omega arith) y,
        )

    first_generation-lt :
        (i : ℕ)
        → i < length_usize p
        → (abstract_to_detached p (record { source = i })).bits < length_usize p
    first_generation-lt i h =
        rw (detached-eq p fits (record { source = i }) word, div-eq_of_lt h, zero-mul, zero-add)
          (place-lt p fits i)
      where
        word : i < 2 ^ word_bits p.target
        word = omega (arith, length-le-word p fits)

    yielded_bits :
        {start total index : ℕ} {d : Detached}
        → total ≤ length_usize p
        → Yields t start total (some d) index
        → d.bits < length_usize p
    yielded_bits {d = d} h y = elim (y.outcome) [
      | inl (clash, index_e, stop_e) ↦ absurd (cc)
      | inr (e, index_e, lt, full) ↦
          omega (arith, ap bits_of e, first_generation-lt y.stop (omega arith))
    ]

    -- On a valid table where a cache line fits, a key that next yields, from a position at most
    -- the limit and with a limit at most the length, is a number below the length: it is of the
    -- first generation, whichever index the entry was inserted under.
    pub next_key_bits :
        (keys after : WeakKeys) (d : Detached)
        → keys.index ≤ keys.total
        → keys.total ≤ length_usize p
        → next o p keys t ≡ some (some d, after)
        → d.bits < length_usize p
    next_key_bits keys after d h limit e =
        let (found, index, run, y) = next_lem keys h in
        let same : found ≡ some d = ap found_of (sym run ∙ e) in
        yielded_bits limit
          (subst (λ (f : Option Detached). Yields t keys.index keys.total f index) same y)
