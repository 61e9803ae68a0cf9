-- ===== src/Concurrent/LockFree/Draws.antt =====
-- src/table.rs: a step of a counter of the ring brings the place that a loop waits for nearer.
use ptab.Common.{
  ℕ, zero, suc, ◌+◌, ◌-◌, ◌≤◌, ◌<◌, ◌≡◌, refl, ap, ◌∙◌, sym, arith, true, false, update, ◌==◌,
}
use ptab.Params.Derived.{Params, length_usize}
use ptab.Params.Geometry.{FitsLine}
use ptab.Index.Defs.{Detached}
use ptab.Reclaim.Owned.{AtomicOwned}
use ptab.Table.State.{Table}
use ptab.Table.View.{place}
use ptab.Table.Probe.{advance, advance_zero}
use ptab.Concurrent.System.{Pc, acquiring, swapping, releasing, exchanging}
use ptab.Concurrent.Invariant.{Inv}
use ptab.Concurrent.Alone.{drawn, next_of, aimed, free_of}
use ptab.Concurrent.LockFree.Flags.{
  stale, seeking, returning, has_drawn, has_aimed, off_swap, off_exchange, flag-update,
}
use ptab.Concurrent.LockFree.Watch.{Target, target_kept, target_ahead, target_round}
use ptab.Concurrent.LockFree.Potential.{side, side_same, side_far, side_near}
use ptab.Concurrent.LockFree.Steps.{Watched, Nearer}

module _ {T Cell : Type 0} (o : AtomicOwned T Cell) (p : Params) (fits : FitsLine p) {n : ℕ}
    {t : Table Cell} {pc : ℕ → Pc T} (inv : Inv o p n t pc) {k : ℕ} (lt : k < n)
    (w : Watched p n t pc) where
  -- The counter goes on by one, or it was at the place, which the thread is then about to try.
  draw_next :
      (init : Detached → T) (i d : ℕ)
      → pc k ≡ acquiring init
      → Target p n false seeking t.volatile.next_id t pc i d
      → (d' : ℕ) × Target p n false seeking
          (advance t.volatile.next_id 1)
          (drawn o p t)
          (update pc k (swapping init (next_of o p t)))
          i
          d'
        × (side
                (length_usize p)
                n
                (off_swap p i)
                has_drawn
                (update pc k (swapping init (next_of o p t)))
                d'
              + 1
            ≤ side (length_usize p) n (off_swap p i) has_drawn pc d)
  unfolding drawn
  draw_next init i zero here target =
      let l : ℕ = length_usize p in
      let q' : Pc T = swapping init (next_of o p t) in
      let on : place p t.volatile.next_id == i ≡ true = ground (
        arith,
        ap (place p) (sym (advance_zero t.volatile.next_id inv.next_small)) ∙ target.meets,
      ) in
      (
        l - 1,
        target_round p n (drawn o p t) q' lt here (λ _. refl) refl fits target,
        side_near l pc q' lt here (off_swap p i) has_drawn (omega (arith, target.near))
            (ground (arith, on)) (omega arith),
      )
  draw_next init i (suc d) here target =
      let q' : Pc T = swapping init (next_of o p t) in
      (
        d,
        target_ahead p n (drawn o p t) q' lt here (λ _. refl) refl target,
        side_far (length_usize p) pc q' lt here (off_swap p i) has_drawn d (ground arith)
            (omega arith),
      )

  pub draw_Nearer :
      (init : Detached → T)
      → pc k ≡ acquiring init
      → Nearer o p fits inv lt w (drawn o p t) (swapping init (next_of o p t))
  unfolding drawn
  draw_Nearer init here =
      let q' : Pc T = swapping init (next_of o p t) in
      let (d, next, less) = draw_next init w.next_spot w.next_ahead here w.next in
      (
        record {
          next_spot = w.next_spot;
          next_ahead = d;
          free_spot = w.free_spot;
          free_ahead = w.free_ahead;
          next = next;
          free = target_kept p n (drawn o p t) q' lt here (λ e. e) refl w.free;
        },
        omega (
          arith,
          less,
          flag-update pc k lt here (stale t.volatile.entries) q',
          side_same (length_usize p) pc q' lt here (off_exchange p w.free_spot) has_aimed
              w.free_ahead (omega arith) (omega arith),
        ),
      )

  aim_free :
      (next : ℕ) (i d : ℕ)
      → pc k ≡ releasing next
      → Target p n true returning t.volatile.free_id t pc i d
      → (d' : ℕ) × Target p n true returning
          (advance t.volatile.free_id 1)
          (aimed o p t)
          (update pc k (exchanging next (free_of o p t)))
          i
          d'
        × (side
                (length_usize p)
                n
                (off_exchange p i)
                has_aimed
                (update pc k (exchanging next (free_of o p t)))
                d'
              + 1
            ≤ side (length_usize p) n (off_exchange p i) has_aimed pc d)
  unfolding aimed
  aim_free next i zero here target =
      let l : ℕ = length_usize p in
      let q' : Pc T = exchanging next (free_of o p t) in
      let on : place p t.volatile.free_id == i ≡ true = ground (
        arith,
        ap (place p) (sym (advance_zero t.volatile.free_id inv.free_small)) ∙ target.meets,
      ) in
      (
        l - 1,
        target_round p n (aimed o p t) q' lt here (λ _. refl) refl fits target,
        side_near l pc q' lt here (off_exchange p i) has_aimed (omega (arith, target.near))
            (ground (arith, on)) (omega arith),
      )
  aim_free next i (suc d) here target =
      let q' : Pc T = exchanging next (free_of o p t) in
      (
        d,
        target_ahead p n (aimed o p t) q' lt here (λ _. refl) refl target,
        side_far (length_usize p) pc q' lt here (off_exchange p i) has_aimed d (ground arith)
            (omega arith),
      )

  pub aim_Nearer :
      (next : ℕ)
      → pc k ≡ releasing next
      → Nearer o p fits inv lt w (aimed o p t) (exchanging next (free_of o p t))
  unfolding aimed
  aim_Nearer next here =
      let q' : Pc T = exchanging next (free_of o p t) in
      let (d, free, less) = aim_free next w.free_spot w.free_ahead here w.free in
      (
        record {
          next_spot = w.next_spot;
          next_ahead = w.next_ahead;
          free_spot = w.free_spot;
          free_ahead = d;
          next = target_kept p n (aimed o p t) q' lt here (λ e. e) refl w.next;
          free = free;
        },
        omega (
          arith,
          less,
          flag-update pc k lt here (stale t.volatile.entries) q',
          side_same (length_usize p) pc q' lt here (off_swap p w.next_spot) has_drawn w.next_ahead
              (omega arith) (omega arith),
        ),
      )
