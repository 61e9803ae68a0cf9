-- ===== src/Concurrent/Fill.antt =====
-- src/table.rs: the store of `write` by one of several threads.
use ptab.Common.{
  ℕ, ◌<◌, ◌≡◌, inl, ap, ◌∙◌, sym, subst, arith, Bool, true, none, some, bit, count-true,
}
use ptab.Params.Derived.{Params, length_usize}
use ptab.Params.Geometry.{FitsLine}
use ptab.Index.Defs.{Detached, Abstract, abstract_to_detached}
use ptab.Reclaim.Owned.{AtomicOwned}
use ptab.Reclaim.Sdd
use ptab.Reclaim.Sdd.{is_some}
use ptab.Table.State.{Table, write_cell}
use ptab.Table.View.{place, value_at, population}
use ptab.Table.Probe.{place-lt}
use ptab.Table.Ops.{cap}
use ptab.Table.Lookup.{cap-add-held_back}
use ptab.Spec
use ptab.Spec.{Call, Reply, Adds, Erases}
use ptab.Concurrent.System.{Pc, idle, holding, move}
use ptab.Concurrent.Ownership.{cell, thread, claim, Handed-IsExclusive}
use ptab.Concurrent.Invariant.{permitted, IsSound, Inv}
use ptab.Concurrent.Effect.{fills}
use ptab.Concurrent.Counters.{Advances}
use ptab.Concurrent.Cells.{
  with_cell, set_population, cell_set_init, others_kept, thread_at, cell_full, claimed_empty,
  filled-Adds,
}

module _ {T Cell : Type 0} (o : AtomicOwned T Cell) (p : Params) where
  module _ {n : ℕ} {t : Table Cell} {pc : ℕ → Pc T} {k : ℕ} (inv : Inv o p n t pc)
      (fits : FitsLine p) where
    -- A thread that holds an index leaves room for its value.
    open_space : k < n → permitted (pc k) ≡ true → population o p t < cap p
    open_space lt e =
        omega (arith, inv.room, cap-add-held_back p, count-true (λ j. permitted (pc j)) n k lt e)

    pub fill :
        k < n
        → (call : Call T) (fails : Bool) (init : Detached → T) (a : Abstract)
        → pc k ≡ holding init a
        → Advances o p n call fails t pc k (holding init a)
    unfolding move write_cell
    fill lt call fails init a here =
        let q' : Pc T = idle (some (Reply.index (some (abstract_to_detached p a)))) in
        let c : ℕ = place p a.source in
        let h : c < length_usize p = place-lt p fits a.source in
        let (x, e) = inv.cell_init c h in
        let mine : claim p (pc k) ≡ some c = ap (claim p) here in
        let empty : value_at o t c ≡ none = claimed_empty o p inv k c mine in
        let (x', run, load) =
          Sdd.write_empty o x (init (abstract_to_detached p a)) (ground (arith, e)) in
        let u : Table Cell = with_cell o p t c x' in
        let grown = set_population o p t c x' h in
        record {
          next = q';
          after = u;
          run = ground (arith, e, run);
          moved = record {
            cell_init = cell_set_init o p t c x' inv.cell_init;
            slot_init = inv.slot_init;
            exclusive =
                Handed-IsExclusive {x = thread k} {y = cell c}
                  (record {
                    gone = thread_at o p t c x' pc k q';
                    given = cell_full o p t c x' pc k q' (ap is_some load) ∙ sym mine;
                    kept = λ z nx ny. others_kept o p t c x' pc k q' z ny nx;
                  })
                  inv.exclusive;
            sound = tt;
            balance = omega (arith, grown, ap bit (ap is_some empty), ap bit (ap is_some load));
            counted = omega (arith, grown, ap bit (ap is_some empty), ap bit (ap is_some load));
            room = inl (omega (arith, grown, ap bit (ap is_some empty), ap bit (ap is_some load)));
            next_small = inv.next_small;
            free_small = inv.free_small;
          };
          effect = fills (
              Spec.Step.write_new init (
                filled-Adds o p t a x' (init (abstract_to_detached p a)) fits
                  (subst (IsSound p) here (inv.sound k)) (open_space lt (ap permitted here)) empty
                  load));
        }
