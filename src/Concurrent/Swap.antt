-- ===== src/Concurrent/Swap.antt =====
-- src/table.rs: the `swap` of `acquire_slot` by one of several threads.
use ptab.Common.{
  ℕ, ◌<◌, ◌≡◌, inl, inr, refl, ap, ◌∙◌, sym, arith, Bool, false, some, ◌==◌, bit, Bool-cases,
  pow-pos,
}
use ptab.Params.Target.{word_bits}
use ptab.Params.Derived.{Params, length_usize}
use ptab.Params.Geometry.{FitsLine}
use ptab.Index.Defs.{Detached, Abstract}
use ptab.Index.Fields.{IsWord}
use ptab.Reclaim.Owned.{AtomicOwned}
use ptab.Table.State.{Table, reserved, swap_slot}
use ptab.Table.View.{place}
use ptab.Table.Probe.{place-lt}
use ptab.Spec.{Call}
use ptab.Concurrent.System.{Pc, acquiring, swapping, holding, move}
use ptab.Concurrent.Ownership.{ring, thread, Handed-IsExclusive}
use ptab.Concurrent.Invariant.{Inv}
use ptab.Concurrent.Effect.{works, missed, got}
use ptab.Concurrent.Calm.{Calm-Moved}
use ptab.Concurrent.Counters.{Advances}
use ptab.Concurrent.Moved.{Moved}
use ptab.Concurrent.Ring.{
  with_slot, others_kept, ring_at, thread_at, ring_was, shown-reserved, shown-free, set_taken,
  refl_test, set_population, set_view, set_same, slot_set_init,
}

module _ {T Cell : Type 0} (o : AtomicOwned T Cell) (p : Params) where
  module _ {n : ℕ} {t : Table Cell} {pc : ℕ → Pc T} {k : ℕ} (inv : Inv o p n t pc) where
    -- An index goes from a place of the ring to the thread.
    index_taken :
        (init : Detached → T) (a : Abstract) (i s : ℕ)
        → pc k ≡ swapping init a
        → i < length_usize p
        → t.readonly.slot i ≡ some s
        → IsWord p s
        → s == reserved p ≡ false
        → Moved o p t
            (with_slot o p t i (reserved p))
            pc
            k
            (swapping init a)
            (holding init (record { source = s }))
    index_taken init a i s here h e word free =
        let q' : Pc T = holding init (record { source = s }) in
        let same = set_population o p t i (reserved p) in
        record {
          cell_init = inv.cell_init;
          slot_init =
              slot_set_init o p inv i (reserved p) (omega (arith, pow-pos (word_bits p.target)));
          exclusive =
              Handed-IsExclusive {x = ring i} {y = thread k}
                (record {
                  gone =
                      ring_at o p t pc k i (reserved p) q' h
                      ∙ shown-reserved o p (reserved p) (ground arith);
                  given =
                      thread_at o p t pc k i (reserved p) q'
                      ∙ sym (ring_was o p t pc i s h e ∙ shown-free o p s free);
                  kept = others_kept o p t pc k i (reserved p) q';
                })
                inv.exclusive;
          sound = word;
          balance = omega (
            arith,
            set_taken o p t i (reserved p) s h e,
            same,
            ap bit free,
            ap bit (refl_test o p (reserved p)),
          );
          counted = omega (arith, same);
          room = inl (omega (arith, same));
          next_small = inv.next_small;
          free_small = inv.free_small;
        }

    pub acquire_swap :
        (call : Call T) (fails : Bool) (init : Detached → T) (a : Abstract)
        → FitsLine p
        → pc k ≡ swapping init a
        → Advances o p n call fails t pc k (swapping init a)
    unfolding move swap_slot
    acquire_swap call fails init a fits here =
        let i : ℕ = place p a.source in
        let h : i < length_usize p = place-lt p fits a.source in
        let (s, e, word) = inv.slot_init i h in
        let u : Table Cell = with_slot o p t i (reserved p) in
        elim (Bool-cases (s == reserved p)) [
          | inl empty ↦ record {
            next = acquiring init;
            after = u;
            run = ground (arith, e);
            moved =
                Calm-Moved o p {u = u} (acquiring init) inv here
                  (record {
                    slots = set_same o p t i (reserved p) (e ∙ ap some (ground arith));
                    values = λ c. refl;
                    cell_init = inv.cell_init;
                  })
                  refl tt refl (inl (omega arith)) inv.next_small inv.free_small;
            effect = works (set_view o p t i (reserved p)) missed;
          }
          | inr free ↦ record {
            next = holding init (record { source = s });
            after = u;
            run = ground (arith, e);
            moved = index_taken init a i s here h e word free;
            effect = works (set_view o p t i (reserved p)) got;
          }
        ]
