-- ===== src/Concurrent/LockFree/Steps.antt =====
-- src/table.rs: a move that keeps its call in a loop brings the next step out of one nearer.
use ptab.Common.{
  ℕ, ◌+◌, ◌≤◌, ◌<◌, ◌≡◌, ◌≢◌, refl, ap, ◌∙◌, sym, arith, Bool, true, false, some, update, bit, ◌==◌,
  not,
}
use native.Mathlib.Decide.{ℕ_discrete}
use ptab.Params.Derived.{Params, length_usize}
use ptab.Params.Geometry.{FitsLine}
use ptab.Index.Defs.{Detached, Abstract}
use ptab.Reclaim.Owned.{AtomicOwned}
use ptab.Table.State.{Table, reserved}
use ptab.Table.View.{place, taken, is_reserved}
use ptab.Concurrent.System.{Pc, undoing, acquiring, swapping, releasing, exchanging}
use ptab.Concurrent.Effect.{tally}
use ptab.Concurrent.Invariant.{Inv}
use ptab.Concurrent.Ring.{with_slot, set_same}
use ptab.Concurrent.LockFree.Flags.{
  stale, seeking, returning, has_drawn, has_aimed, off_swap, off_exchange, flag-update,
}
use ptab.Concurrent.LockFree.Watch.{Target, target_kept}
use ptab.Concurrent.LockFree.Potential.{side, side_same, side_less}

module _ {T Cell : Type 0} (p : Params) (n : ℕ) (t : Table Cell) (pc : ℕ → Pc T) where
  -- The places that the loops wait for.
  pub record Watched : Type 0 where
    pub next_spot : ℕ
    pub next_ahead : ℕ
    pub free_spot : ℕ
    pub free_ahead : ℕ
    pub next : Target p n false seeking t.volatile.next_id t pc next_spot next_ahead
    pub free : Target p n true returning t.volatile.free_id t pc free_spot free_ahead

  -- The moves that the loops can still make while no call gets further.
  abbrev pub potential : Watched → ℕ
  potential w =
      tally (stale t.volatile.entries) n pc
      + side (length_usize p) n (off_swap p w.next_spot) has_drawn pc w.next_ahead
      + side (length_usize p) n (off_exchange p w.free_spot) has_aimed pc w.free_ahead

not-ne : (b : Bool) → not b ≢ b
not-ne true e = cc
not-ne false e = cc

module _ {T Cell : Type 0} (o : AtomicOwned T Cell) (p : Params) (fits : FitsLine p) {n : ℕ}
    {t : Table Cell} {pc : ℕ → Pc T} (inv : Inv o p n t pc) {k : ℕ} (lt : k < n)
    (w : Watched p n t pc) where
  -- After thread `k` has come to `q'` and the table is `u`.
  abbrev pub Nearer : Table Cell → Pc T → Type 0
  Nearer u q' =
      (w' : Watched p n u (update pc k q')) × (potential p n u (update pc k q') w' + 1
        ≤ potential p n t pc w)

  pub late_Nearer :
      (current : ℕ)
      → pc k ≡ undoing current
      → current ≢ t.volatile.entries
      → Nearer t (undoing t.volatile.entries)
  late_Nearer current here miss =
      let q : Pc T = undoing current in
      let q' : Pc T = undoing t.volatile.entries in
      let old : bit (stale t.volatile.entries q) ≡ 1 = ground (arith, miss) in
      let new : bit (stale t.volatile.entries q') ≡ 0 = ground arith in
      let l : ℕ = length_usize p in
      (
        record {
          next_spot = w.next_spot;
          next_ahead = w.next_ahead;
          free_spot = w.free_spot;
          free_ahead = w.free_ahead;
          next = target_kept p n t q' lt here (λ e. e) refl w.next;
          free = target_kept p n t q' lt here (λ e. e) refl w.free;
        },
        omega (
          arith,
          old,
          new,
          flag-update pc k lt here (stale t.volatile.entries) q',
          side_same l pc q' lt here (off_swap p w.next_spot) has_drawn w.next_ahead (omega arith)
              (omega arith),
          side_same l pc q' lt here (off_exchange p w.free_spot) has_aimed w.free_ahead
              (omega arith) (omega arith),
        ),
      )

  -- A place that a thread of the other kind holds a try for is not the one waited for.
  elsewhere :
      (i j s : ℕ) (b : Bool)
      → taken p t i ≡ b
      → t.readonly.slot j ≡ some s
      → s == reserved p ≡ not b
      → j == i ≡ false
  elsewhere i j s b shows e other = elim (ℕ_discrete j i) [
    | yes same ↦
        absurd (not-ne b (sym other ∙ ap (is_reserved p) (sym e ∙ ap t.readonly.slot same) ∙ shows))
    | no differ ↦ ground (arith, differ)
  ]

  pub miss_Nearer :
      (init : Detached → T) (a : Abstract)
      → pc k ≡ swapping init a
      → t.readonly.slot (place p a.source) ≡ some (reserved p)
      → Nearer (with_slot o p t (place p a.source) (reserved p)) (acquiring init)
  miss_Nearer init a here e =
      let q : Pc T = swapping init a in
      let q' : Pc T = acquiring init in
      let u : Table Cell = with_slot o p t (place p a.source) (reserved p) in
      let same : (i : ℕ) → taken p u i ≡ taken p t i =
        λ i. ap (is_reserved p) (set_same o p t (place p a.source) (reserved p) e i) in
      let off : place p a.source == w.next_spot ≡ false =
        elsewhere w.next_spot (place p a.source) (reserved p) false
          (w.next.there k lt (ap seeking here)) e (ground arith) in
      let l : ℕ = length_usize p in
      (
        record {
          next_spot = w.next_spot;
          next_ahead = w.next_ahead;
          free_spot = w.free_spot;
          free_ahead = w.free_ahead;
          next = target_kept p n u q' lt here (λ _. refl) (same w.next_spot) w.next;
          free = target_kept p n u q' lt here (λ e. e) (same w.free_spot) w.free;
        },
        omega (
          arith,
          flag-update pc k lt here (stale t.volatile.entries) q',
          side_less l pc q' lt here (off_swap p w.next_spot) has_drawn w.next_ahead
              (ground (arith, off)) (omega arith),
          side_same l pc q' lt here (off_exchange p w.free_spot) has_aimed w.free_ahead
              (omega arith) (omega arith),
        ),
      )

  pub fail_Nearer :
      (next s : ℕ) (free : Abstract)
      → pc k ≡ exchanging next free
      → t.readonly.slot (place p free.source) ≡ some s
      → s ≢ reserved p
      → Nearer t (releasing next)
  fail_Nearer next s free here e full =
      let q : Pc T = exchanging next free in
      let q' : Pc T = releasing next in
      let off : place p free.source == w.free_spot ≡ false =
        elsewhere w.free_spot (place p free.source) s true (w.free.there k lt (ap returning here)) e
          (ground (arith, full)) in
      let l : ℕ = length_usize p in
      (
        record {
          next_spot = w.next_spot;
          next_ahead = w.next_ahead;
          free_spot = w.free_spot;
          free_ahead = w.free_ahead;
          next = target_kept p n t q' lt here (λ e. e) refl w.next;
          free = target_kept p n t q' lt here (λ _. refl) refl w.free;
        },
        omega (
          arith,
          flag-update pc k lt here (stale t.volatile.entries) q',
          side_same l pc q' lt here (off_swap p w.next_spot) has_drawn w.next_ahead (omega arith)
              (omega arith),
          side_less l pc q' lt here (off_exchange p w.free_spot) has_aimed w.free_ahead
              (ground (arith, off)) (omega arith),
        ),
      )
