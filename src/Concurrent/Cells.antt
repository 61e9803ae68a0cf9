-- ===== src/Concurrent/Cells.antt =====
-- src/table.rs: the moves on a cell of the table: the store of `write`, and the eviction of
-- `remove`.
use ptab.Common.{
  ℕ, ◌+◌, ◌<◌, ◌≡◌, ◌≢◌, inl, inr, refl, ap, sym, subst, arith, Bool, true, Option, none, some,
  ◌==◌, if◌then◌else◌, update, update_self, update_other, bit, count-change, Option-cases,
}
use native.Mathlib.Decide.{ℕ_discrete}
use ptab.Params.Derived.{Params, length_usize}
use ptab.Params.Geometry.{FitsLine}
use ptab.Index.Defs.{Detached, Abstract, Concrete, abstract_to_detached}
use ptab.Index.Fields.{IsWord}
use ptab.Reclaim.Owned.{AtomicOwned}
use ptab.Reclaim.Sdd.{is_some}
use ptab.Table.State.{Table}
use ptab.Table.View.{place, value_at, occupied, population}
use ptab.Table.Probe.{place-lt}
use ptab.Table.Insert.{slot_of}
use ptab.Table.Ops.{cap}
use ptab.Index.RoundTrip.{concrete-of-detached, detached-IsWord}
use ptab.Spec
use ptab.Spec.{Call, Reply, Adds, Erases}
use ptab.Concurrent.System.{Pc}
use ptab.Concurrent.Ownership.{Source, ring, cell, thread, claim, owned}
use ptab.Concurrent.Invariant.{Inv}
use ptab.Concurrent.Effect.{view}

module _ {T Cell : Type 0} (o : AtomicOwned T Cell) (p : Params) where
  -- The table with `x` as cell `c`.
  abbrev pub with_cell : Table Cell → ℕ → Cell → Table Cell
  with_cell t c x = record t {
    readonly = record (t.readonly) { cells = update t.readonly.cells c (some x) };
  }

  module _ (t : Table Cell) (c : ℕ) (x : Cell) where
    pub value_here : value_at o (with_cell t c x) c ≡ o.load x
    value_here = ground arith

    pub value_there : (d : ℕ) → c ≢ d → value_at o (with_cell t c x) d ≡ value_at o t d
    value_there d ne = ground arith

    pub set_population :
        c < length_usize p
        → population o p (with_cell t c x) + bit (occupied o t c)
          ≡ population o p t + bit (is_some (o.load x))
    unfolding population
    set_population h = ground (
      arith,
      count-change (occupied o (with_cell t c x)) (occupied o t) (length_usize p) c h
          (λ j _ ne. ground arith),
      value_here,
    )

    pub cell_set_init :
        ((d : ℕ) → d < length_usize p → (y : Cell) × (t.readonly.cells d ≡ some y))
        → (d : ℕ) → d < length_usize p
        → (y : Cell) × ((with_cell t c x).readonly.cells d ≡ some y)
    cell_set_init init d h = elim (ℕ_discrete c d) [
      | yes here ↦ (x, ground arith)
      | no other ↦ let (y, e) = init d h in (y, ground arith)
    ]

    module _ (pc : ℕ → Pc T) (k : ℕ) (q' : Pc T) where
      -- Sources other than cell `c` and thread `k` do not change.
      pub others_kept :
          (z : Source)
          → z ≢ cell c
          → z ≢ thread k
          → owned o p (with_cell t c x) (update pc k q') z ≡ owned o p t pc z
      others_kept (ring j) _ _ = refl
      others_kept (cell d) ne _ =
          ap (λ (v : Option T). if is_some v then some d else none)
            (value_there d (λ e. ne (ap cell (sym e))))
      others_kept (thread j) _ ne =
          ap (claim p) (update_other pc k q' j (λ e. ne (ap thread (sym e))))

      pub thread_at : owned o p (with_cell t c x) (update pc k q') (thread k) ≡ claim p q'
      thread_at = ap (claim p) (update_self pc k q')

      pub cell_full :
          is_some (o.load x) ≡ true → owned o p (with_cell t c x) (update pc k q') (cell c) ≡ some c
      cell_full e = ground (arith, value_here)

      pub cell_empty :
          o.load x ≡ none → owned o p (with_cell t c x) (update pc k q') (cell c) ≡ none
      cell_empty e = ground (arith, value_here)

  pub cell_was :
      (t : Table Cell) (pc : ℕ → Pc T) (c : ℕ)
      → occupied o t c ≡ true
      → owned o p t pc (cell c) ≡ some c
  cell_was t pc c e = ground arith

  pub thread-ne-cell : (k c : ℕ) → thread k ≢ cell c
  thread-ne-cell k c e = cc

  -- The cell of a slot that a thread has is empty.
  pub claimed_empty :
      {n : ℕ} {t : Table Cell} {pc : ℕ → Pc T}
      → Inv o p n t pc
      → (k c : ℕ) → claim p (pc k) ≡ some c
      → value_at o t c ≡ none
  claimed_empty {n} {t} {pc} inv k c mine = elim (Option-cases (value_at o t c)) [
    | inl empty ↦ empty
    | inr (v, full) ↦ absurd (
        thread-ne-cell k c
          (inv.exclusive (thread k) (cell c) c mine (cell_was t pc c (ap is_some full))))
  ]

  -- The values of the table with one cell set.
  pub set_values :
      (t : Table Cell) (c : ℕ) (x : Cell) (v : Option T)
      → o.load x ≡ v
      → (d : ℕ) → value_at o (with_cell t c x) d ≡ (if c == d then v else value_at o t d)
  set_values t c x v load d = elim (ℕ_discrete c d) [
    | yes here ↦ ground (arith, load)
    | no other ↦ ground arith
  ]

  -- Emptying the cell of a slot erases its value.
  pub emptied-Erases :
      (t : Table Cell) (key : Detached) (x : Cell)
      → slot_of p key < length_usize p
      → o.load x ≡ none
      → Erases p (view o p t) (view o p (with_cell t (slot_of p key) x)) key
  emptied-Erases t key x h load = record {
    values = set_values t (slot_of p key) x none load;
    size = omega (arith, set_population t (slot_of p key) x h, ap bit (ap is_some load));
  }

  -- The removal of a value that is there, or not.
  pub removal :
      (t u : Table Cell) (key : Detached) {b : Bool}
      → Erases p (view o p t) (view o p u) key
      → occupied o t (slot_of p key) ≡ b
      → Spec.Step p (view o p t) (Call.remove key) (Reply.removed b) (view o p u)
  removal t u key gone e =
      subst
        (λ (b : Bool). Spec.Step p (view o p t) (Call.remove key) (Reply.removed b) (view o p u)) e
        (Spec.Step.remove key gone)

  -- Filling the empty cell of an index adds its value.
  pub filled-Adds :
      (t : Table Cell) (a : Abstract) (x' : Cell) (v : T)
      → FitsLine p
      → IsWord p a.source
      → population o p t < cap p
      → value_at o t (place p a.source) ≡ none
      → o.load x' ≡ some v
      → Adds p
          (view o p t)
          (view o p (with_cell t (place p a.source) x'))
          (abstract_to_detached p a)
          v
  filled-Adds t a x' v fits word space empty load =
      let h : place p a.source < length_usize p = place-lt p fits a.source in
      let same : slot_of p (abstract_to_detached p a) ≡ place p a.source =
        ap (λ (c : Concrete). c.source) (concrete-of-detached p fits a word) in
      record {
        space = space;
        index_word = detached-IsWord p fits a word;
        in_table = rw same h;
        was_free = rw same empty;
        values = λ d. rw same (set_values t (place p a.source) x' (some v) load d);
        size = omega (
          arith,
          set_population t (place p a.source) x' h,
          ap bit (ap is_some empty),
          ap bit (ap is_some load),
        );
      }
