-- ===== src/Table/Dequeue.antt =====
-- src/table.rs: `acquire_slot` takes the index that has been in the ring the longest.
use mathlib.Core.Option.{some-injective}
use ptab.Params.Target.{word_bits}
use ptab.Common.{pow-pos, ℕ, suc, ◌+◌, ◌<◌, ◌≡◌, ◌≢◌, ap, ◌∙◌, sym, arith, false, some, ltb}
use native.Mathlib.Decide.{ℕ_discrete, dec_lt}
use ptab.Params.Derived.{Params, length_usize}
use ptab.Params.Geometry.{FitsLine}
use ptab.Table.State.{Table, reserved}
use ptab.Table.Slots.{permit, acquire_slot}
use ptab.Table.View.{place, is_reserved}
use ptab.Table.Probe.{advance, advance-suc, probe, place-lt}
use ptab.Table.Acquire.{Shows, Acquired, acquire_slot_lem}
use ptab.Table.Queue.{suc-ne-zero, probe_injective, nth_free, IsQueue}

module _ {Cell : Type 0} (p : Params) where
  module _ (fits : FitsLine p) where
    -- The place of the next index shows one.
    front :
        {t : Table Cell} {m : ℕ}
        → IsQueue p t m
        → m < length_usize p
        → Shows p t (probe p t.volatile.next_id 0)
    front {t} {m} queue h =
        let i : ℕ = probe p t.volatile.next_id 0 in
        let (s, e, word) = queue.slot_init i (place-lt p fits _) in
        let not_reserved : is_reserved p (t.readonly.slot i) ≡ false =
          ap (λ (x : ℕ). is_reserved p (t.readonly.slot x)) (queue.follows 0)
          ∙ queue.window (m + 0) (omega (arith, h))
          ∙ ground arith in
        (s, e, ground (arith, e, not_reserved))

    module _ {t u : Table Cell} {m s : ℕ} (queue : IsQueue p t m) (h : m < length_usize p)
        (got : Acquired p t u s) where
      -- The first place that is looked at has an index.
      at_once : got.steps ≡ 0
      at_once = elim (dec_lt 0 got.steps) [
        | yes passed ↦
            let (s0, e0, free0) = front queue h in
            absurd (free0 (some-injective _ _ (sym e0 ∙ got.passed 0 passed)))
        | no none_passed ↦ omega arith
      ]

      from-eq : got.from ≡ probe p t.volatile.next_id 0
      from-eq = got.from_eq ∙ ap (probe p t.volatile.next_id) at_once

      from-free : got.from ≡ probe p t.volatile.free_id m
      from-free = from-eq ∙ queue.follows 0 ∙ ap (probe p t.volatile.free_id) (omega arith)

      next_probe : (j : ℕ) → probe p u.volatile.next_id j ≡ probe p t.volatile.next_id (suc j)
      next_probe j =
          ap (λ (n : ℕ). probe p n j)
            (got.moved ∙ ap (λ (k : ℕ). advance t.volatile.next_id (suc k)) at_once)
          ∙ ap (place p) (advance-suc t.volatile.next_id j)

      acquired_window :
          (j : ℕ)
          → j < length_usize p
          → is_reserved p (u.readonly.slot (probe p u.volatile.free_id j)) ≡ ltb j (suc m)
      acquired_window j hj =
          ap (λ (n : ℕ). is_reserved p (u.readonly.slot (probe p n j))) got.free_id
          ∙ ap (is_reserved p) (got.slots (probe p t.volatile.free_id j))
          ∙ elim (ℕ_discrete j m) [
            | yes here ↦
                let at : got.from ≡ probe p t.volatile.free_id j =
                  from-free ∙ ap (probe p t.volatile.free_id) (sym here) in
                ground (arith, at)
            | no other ↦
                let apart : got.from ≢ probe p t.volatile.free_id j = λ e.
                  other (probe_injective p fits t.volatile.free_id j m hj h (sym e ∙ from-free)) in
                ground (arith, apart, queue.window j hj)
          ]

      acquired-IsQueue : IsQueue p u (suc m)
      acquired-IsQueue = record {
        slot_init = λ i hi. elim (ℕ_discrete got.from i) [
          | yes here ↦
              (reserved p, ground (arith, got.slots i), omega (arith, pow-pos (word_bits p.target)))
          | no other ↦
              let (r, e, word) = queue.slot_init i hi in (r, ground (arith, got.slots i, e), word)
        ];
        next_small = got.next_small;
        free_small = omega (arith, got.free_id, queue.free_small);
        bound = omega (arith, h);
        window = acquired_window;
        follows = λ j.
            next_probe j
            ∙ queue.follows (suc j)
            ∙ ap (λ (n : ℕ). probe p n (m + suc j)) (sym got.free_id)
            ∙ ap (probe p u.volatile.free_id) (omega arith);
      }

      acquired_rest : (j : ℕ) → j + suc m < length_usize p → nth_free p u j ≡ nth_free p t (suc j)
      acquired_rest j hj =
          let apart : got.from ≢ probe p t.volatile.next_id (suc j) = λ e. suc-ne-zero j (
            probe_injective p fits t.volatile.next_id (suc j) 0 (omega (arith, hj))
              (omega (arith, hj)) (sym e ∙ from-eq)) in
          ap u.readonly.slot (next_probe j)
          ∙ got.slots (probe p t.volatile.next_id (suc j))
          ∙ ground (arith, apart)

    -- Where a cache line fits, and the ring is a queue (from free_id on it has m reserved places,
    -- and from next_id on the free indices) with m less than the length, acquire_slot returns the
    -- first of the free indices, and the ring is a queue with one place more reserved and with
    -- the other indices in their order, one place further ahead.
    pub acquire_dequeues :
        (t : Table Cell) (m : ℕ)
        → IsQueue p t m
        → m < length_usize p
        → (s : ℕ) × (u : Table Cell) × (acquire_slot p permit t ≡ some (record { source = s }, u))
          × (nth_free p t 0 ≡ some s)
          × IsQueue p u (suc m)
          × ((j : ℕ) → j + suc m < length_usize p → nth_free p u j ≡ nth_free p t (suc j))
    acquire_dequeues t m queue h =
        let (s, u, run, got) =
          acquire_slot_lem p (probe p t.volatile.next_id 0) t fits queue.slot_init queue.next_small
            (place-lt p fits _) (front queue h) in
        (
          s,
          u,
          run,
          ap t.readonly.slot (sym (from-eq queue h got)) ∙ got.was,
          acquired-IsQueue queue h got,
          acquired_rest queue h got,
        )
