-- ===== src/Table/Enqueue.antt =====
-- src/table.rs: `release_slot` puts an index behind all others in the ring.
use ptab.Common.{ℕ, suc, ◌+◌, ◌<◌, ◌≡◌, ◌≢◌, ap, ◌∙◌, sym, arith, true, false, some, ltb}
use native.Mathlib.Decide.{ℕ_discrete, dec_lt}
use ptab.Params.Derived.{Params, length_usize}
use ptab.Params.Geometry.{FitsLine}
use ptab.Index.Defs.{Abstract}
use ptab.Index.Fields.{IsWord}
use ptab.Table.State.{Table, WeakCas, reserved}
use ptab.Table.Slots.{release_slot, generate_next_slot}
use ptab.Table.View.{place, is_reserved}
use ptab.Table.Probe.{advance, advance-suc, probe, place-lt}
use ptab.Table.Generations.{next-ne-reserved, next_IsWord}
use ptab.Table.Release.{Stored, uncount, from_attempt, release_slot_lem}
use ptab.Table.Queue.{probe_injective, probe_period, nth_free, IsQueue}

module _ {Cell : Type 0} (p : Params) where
  module _ (fits : FitsLine p) where
    module _ (weak : WeakCas) (never : (i : ℕ) → weak.fails i ≡ false) where
      -- The first place that is tried is reserved.
      front_reserved :
          {t : Table Cell} {m : ℕ}
          → IsQueue p t (suc m)
          → t.readonly.slot (probe p t.volatile.free_id 0) ≡ some (reserved p)
      front_reserved {t} queue =
          let (s, e, w) = queue.slot_init (probe p t.volatile.free_id 0) (place-lt p fits _) in
          let taken : is_reserved p (t.readonly.slot (probe p t.volatile.free_id 0)) ≡ true =
            queue.window 0 (omega (arith, queue.bound)) ∙ ground arith in
          ground (arith, e, taken)

      module _ {t u : Table Cell} {m next : ℕ} (queue : IsQueue p t (suc m)) (word : IsWord p next)
          (ne : next ≢ reserved p) (stored : Stored p (from_attempt weak 0) t u next) where
        stored_at_once : stored.steps ≡ 0
        stored_at_once = elim (dec_lt 0 stored.steps) [
          | yes passed ↦ absurd (cc (stored.passed 0 passed (front_reserved queue), never 0))
          | no none_passed ↦ omega arith
        ]

        target-eq : stored.target ≡ probe p t.volatile.free_id 0
        target-eq = stored.target_eq ∙ ap (probe p t.volatile.free_id) stored_at_once

        free_probe : (j : ℕ) → probe p u.volatile.free_id j ≡ probe p t.volatile.free_id (suc j)
        free_probe j =
            ap (λ (n : ℕ). probe p n j)
              (stored.moved ∙ ap (λ (k : ℕ). advance t.volatile.free_id (suc k)) stored_at_once)
            ∙ ap (place p) (advance-suc t.volatile.free_id j)

        -- A place that is not the first keeps what it shows.
        stored_other :
            (j : ℕ)
            → 0 < j
            → j < length_usize p
            → u.readonly.slot (probe p t.volatile.free_id j)
              ≡ t.readonly.slot (probe p t.volatile.free_id j)
        stored_other j pos hj =
            let apart : stored.target ≢ probe p t.volatile.free_id j = λ e.
              let zero_eq : j ≡ 0 =
                probe_injective p fits t.volatile.free_id j 0 hj (omega (arith, hj))
                  (sym e ∙ target-eq) in
              absurd (omega (arith, zero_eq, pos)) in
            stored.slots (probe p t.volatile.free_id j) ∙ ground (arith, apart)

        stored_first :
            (j : ℕ)
            → j ≡ length_usize p
            → u.readonly.slot (probe p t.volatile.free_id j) ≡ some next
        stored_first j e =
            let at : stored.target ≡ probe p t.volatile.free_id j =
              target-eq
              ∙ sym (probe_period p fits t.volatile.free_id 0)
              ∙ ap (probe p t.volatile.free_id) (omega (arith, e)) in
            stored.slots (probe p t.volatile.free_id j) ∙ ground (arith, at)

        released_window :
            (j : ℕ)
            → j < length_usize p
            → is_reserved p (u.readonly.slot (probe p u.volatile.free_id j)) ≡ ltb j m
        released_window j hj =
            ap (λ (i : ℕ). is_reserved p (u.readonly.slot i)) (free_probe j)
            ∙ elim (dec_lt (suc j) (length_usize p)) [
              | yes inside ↦
                  ap (is_reserved p) (stored_other (suc j) (omega arith) inside)
                  ∙ queue.window (suc j) inside
                  ∙ ground arith
              | no last ↦
                  ap (is_reserved p) (stored_first (suc j) (omega arith))
                  ∙ ground (arith, ne, queue.bound)
            ]

        released_probe :
            (j : ℕ) → probe p u.volatile.next_id j ≡ probe p t.volatile.free_id (suc m + j)
        released_probe j = ap (λ (n : ℕ). probe p n j) stored.next_id ∙ queue.follows j

        released-IsQueue : IsQueue p (uncount u) m
        released-IsQueue = record {
          slot_init = λ i hi. elim (ℕ_discrete stored.target i) [
            | yes here ↦ (next, ground (arith, stored.slots i), word)
            | no other ↦
                let (r, e, w) = queue.slot_init i hi in (r, ground (arith, stored.slots i, e), w)
          ];
          next_small = omega (arith, stored.next_id, queue.next_small);
          free_small = stored.free_small;
          bound = omega (arith, queue.bound);
          window = released_window;
          follows = λ j.
              released_probe j
              ∙ ap (probe p t.volatile.free_id) (omega arith)
              ∙ sym (free_probe (m + j));
        }

        released_rest :
            (j : ℕ) → j + suc m < length_usize p → nth_free p (uncount u) j ≡ nth_free p t j
        released_rest j hj =
            ap u.readonly.slot (released_probe j)
            ∙ stored_other (suc m + j) (omega arith) (omega (arith, hj))
            ∙ ap t.readonly.slot (sym (queue.follows j))

        released_last : (j : ℕ) → j + suc m ≡ length_usize p → nth_free p (uncount u) j ≡ some next
        released_last j e =
            ap u.readonly.slot (released_probe j) ∙ stored_first (suc m + j) (omega (arith, e))

      -- Where a cache line fits, no weak exchange fails for no reason, and the ring is a queue
      -- (from free_id on it has reserved places, and from next_id on the free indices) with a
      -- reserved place, release_slot returns, and the ring is a queue with one place less
      -- reserved: the free indices keep their places, and the next index of the slot comes behind
      -- them.
      pub release_enqueues :
          (index : Abstract) (t : Table Cell) (m : ℕ)
          → IsQueue p t (suc m)
          → (u : Table Cell) × (release_slot p weak index t ≡ some (tt, u))
            × IsQueue p u m
            × ((j : ℕ) → j + suc m < length_usize p → nth_free p u j ≡ nth_free p t j)
            × ((j : ℕ)
                → j + suc m ≡ length_usize p
                → nth_free p u j ≡ some (generate_next_slot p index))
      release_enqueues index t m queue =
          let (u, run, stored) =
            release_slot_lem p weak index (probe p t.volatile.free_id 0) t fits (λ i _. never i)
              queue.slot_init queue.free_small (place-lt p fits _) (front_reserved queue) in
          let word = next_IsWord p index in
          let ne = next-ne-reserved p index in
          (
            uncount u,
            run,
            released-IsQueue queue word ne stored,
            released_rest queue word ne stored,
            released_last queue word ne stored,
          )
