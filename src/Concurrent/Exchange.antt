-- ===== src/Concurrent/Exchange.antt =====
-- src/table.rs: the exchange of `release_slot` by one of several threads.
use ptab.Common.{
  ℕ, ◌<◌, ◌≡◌, ◌≢◌, inl, inr, refl, ap, ◌∙◌, sym, subst, arith, Bool, true, false, not, ◌&&◌, some,
  ◌==◌, bit, Bool-cases,
}
use ptab.Params.Derived.{Params, length_usize}
use ptab.Params.Geometry.{FitsLine}
use ptab.Index.Defs.{Abstract}
use ptab.Index.Fields.{IsWord}
use ptab.Reclaim.Owned.{AtomicOwned}
use ptab.Table.State.{Table, reserved, exchange_slot}
use ptab.Table.View.{place}
use ptab.Table.Probe.{place-lt}
use ptab.Spec.{Call}
use ptab.Concurrent.System.{Pc, releasing, exchanging, leaving, move}
use ptab.Concurrent.Ownership.{ring, thread, claim, Handed-IsExclusive}
use ptab.Concurrent.Invariant.{IsSound, Inv}
use ptab.Concurrent.Effect.{works, looks, failed, stored}
use ptab.Concurrent.Calm.{Calm-Moved}
use ptab.Concurrent.Counters.{Advances}
use ptab.Concurrent.Moved.{Moved}
use ptab.Concurrent.Ring.{
  with_slot, others_kept, ring_at, thread_at, shown-free, set_taken, set_population, set_view,
  slot_set_init,
}

module _ {T Cell : Type 0} (o : AtomicOwned T Cell) (p : Params) where
  module _ {n : ℕ} {t : Table Cell} {pc : ℕ → Pc T} {k : ℕ} (inv : Inv o p n t pc) where
    -- An index goes from the thread to a place of the ring.
    index_stored :
        (next : ℕ) (free : Abstract) (i s : ℕ)
        → pc k ≡ exchanging next free
        → i < length_usize p
        → t.readonly.slot i ≡ some s
        → s == reserved p ≡ true
        → Moved o p t (with_slot o p t i next) pc k (exchanging next free) leaving
    index_stored next free i s here h e empty =
        let (next_word, ne) : IsWord p next × (next ≢ reserved p) =
          subst (IsSound p) here (inv.sound k) in
        let shows : next == reserved p ≡ false = ground (arith, ne) in
        let same = set_population o p t i next in
        record {
          cell_init = inv.cell_init;
          slot_init = slot_set_init o p inv i next next_word;
          exclusive =
              Handed-IsExclusive {x = thread k} {y = ring i}
                (record {
                  gone = thread_at o p t pc k i next leaving;
                  given =
                      ring_at o p t pc k i next leaving h
                      ∙ shown-free o p next shows
                      ∙ sym (ap (claim p) here);
                  kept = λ z nx ny. others_kept o p t pc k i next leaving z ny nx;
                })
                inv.exclusive;
          sound = tt;
          balance = omega (arith, set_taken o p t i next s h e, same, ap bit empty, ap bit shows);
          counted = omega (arith, same);
          room = inl (omega (arith, same));
          next_small = inv.next_small;
          free_small = inv.free_small;
        }

    pub release_exchange :
        (call : Call T) (fails : Bool) (next : ℕ) (free : Abstract)
        → FitsLine p
        → pc k ≡ exchanging next free
        → Advances o p n call fails t pc k (exchanging next free)
    unfolding move exchange_slot
    release_exchange call fails next free fits here =
        let i : ℕ = place p free.source in
        let h : i < length_usize p = place-lt p fits free.source in
        let (s, e, word) = inv.slot_init i h in
        elim (Bool-cases (s == reserved p && not fails)) [
          | inl hit ↦ record {
            next = leaving;
            after = with_slot o p t i next;
            run = ground (arith, e, hit);
            moved = index_stored next free i s here h e (ground (arith, hit));
            effect = works (set_view o p t i next) stored;
          }
          | inr miss ↦ record {
            next = releasing next;
            after = t;
            run = ground (arith, e, miss);
            moved =
                Calm-Moved o p {u = t} (releasing next) inv here
                  (record { slots = λ j. refl; values = λ c. refl; cell_init = inv.cell_init }) refl
                  (subst (IsSound p) here (inv.sound k)) (omega arith) (inl (omega arith))
                  inv.next_small inv.free_small;
            effect = looks refl failed;
          }
        ]
