-- ===== src/Concurrent/Alone.antt =====
-- src/table.rs: a thread that moves alone: the loops of `acquire_slot` and `release_slot` end.
use ptab.Common.{
  ℕ, zero, suc, ◌≤◌, ◌≡◌, ◌≢◌, refl, arith, Bool, true, false, Option, none, some, update, State,
  pure, fault, ◌>>=◌,
}
use native.Mathlib.Decide.{ℕ_discrete}
use ptab.Common.Word.{wrapping_add, wrapping_sub}
use ptab.Params.Derived.{Params}
use ptab.Index.Defs.{Detached, Abstract}
use ptab.Reclaim.Owned.{AtomicOwned}
use ptab.Table.State.{
  Table, reserved, fetch_next_id, swap_slot, fetch_free_id, exchange_slot, swap_entries,
  decr_entries,
}
use ptab.Table.View.{place}
use ptab.Table.Probe.{advance}
use ptab.Table.Acquire.{after}
use ptab.Spec.{Call, Reply}
use ptab.Concurrent.System.{
  Pc, idle, undoing, acquiring, swapping, holding, releasing, exchanging, leaving, move,
}
use ptab.Concurrent.Counters.{with_volatile}

abbrev is_idle : {T : Type 0} → Pc T → Bool
is_idle (idle _) = true
is_idle _ = false

module _ {T Cell : Type 0} (o : AtomicOwned T Cell) (p : Params) where
  -- The moves of a thread until its call returns, in which no weak exchange fails for no reason.
  unfoldable pub alone : ℕ → Pc T → State (Table Cell) (Option (Reply T))
  alone fuel (idle last) = pure last
  alone zero q = fault
  alone (suc fuel) q = do next ← move o p Call.len false q; alone fuel next

  -- A call from its start.
  unfoldable pub call_alone : ℕ → Call T → State (Table Cell) (Option (Reply T))
  call_alone fuel call = do next ← move o p call false (idle none); alone fuel next

  -- It returns within `bound` moves.
  abbrev pub Returns : ℕ → Pc T → Table Cell → Type 0
  Returns bound q t =
      (m : ℕ) × (m ≤ bound)
      × (last : Option (Reply T)) × (u : Table Cell) × (alone m q t ≡ some (last, u))

  -- The moves so far do not matter for what a call returns.
  abbrev pub Leads : Pc T → Table Cell → Pc T → Table Cell → Type 0
  Leads q t q' u =
      (r : Option (Reply T) × Table Cell) (m : ℕ)
      → alone m q' u ≡ some r
      → (l : ℕ) × (alone l q t ≡ some r)

  pub one_move :
      (q : Pc T) (t : Table Cell) (q' : Pc T) (u : Table Cell)
      → is_idle q ≡ false
      → move o p Call.len false q t ≡ some (q', u)
      → Leads q t q' u
  unfolding alone
  one_move (idle last) t q' u busy run r m e = absurd cc
  one_move q t q' u busy run r m e = (suc m, ground (arith, run, e))

  pub one_more :
      (q : Pc T) {bound : ℕ} (t : Table Cell) (q' : Pc T) (u : Table Cell)
      → move o p Call.len false q t ≡ some (q', u)
      → Returns bound q' u
      → Returns (suc bound) q t
  unfolding alone
  one_more (idle last) t q' u run (m, le, r, v, e) = (0, omega arith, last, t, refl)
  one_more q t q' u run (m, le, r, v, e) = (suc m, omega (arith, le), r, v, ground (arith, run, e))

  pub at_rest : (bound : ℕ) (last : Option (Reply T)) (t : Table Cell) → Returns bound (idle last) t
  unfolding alone
  at_rest bound last t = (0, omega arith, last, t, refl)

  pub within : {a b : ℕ} (q : Pc T) (t : Table Cell) → a ≤ b → Returns a q t → Returns b q t
  within q t h (m, le, r, v, e) = (m, omega (arith, le, h), r, v, e)

  pub leave_alone : (t : Table Cell) → Returns 1 leaving t
  unfolding move decr_entries
  leave_alone t =
      let u : Table Cell =
        with_volatile o p t
          (record (t.volatile) { entries = wrapping_sub 32 t.volatile.entries 1 }) in
      one_more leaving t (idle (some (Reply.removed true))) u refl (at_rest 0 _ _)

  undo_hit :
      (current : ℕ) (t : Table Cell) → t.volatile.entries ≡ current → Returns 1 (undoing current) t
  unfolding move swap_entries
  undo_hit current t hit =
      let u : Table Cell =
        with_volatile o p t (record (t.volatile) { entries = wrapping_sub 32 current 1 }) in
      one_more (undoing current) t (idle (some (Reply.index none))) u (ground (arith, hit))
        (at_rest 0 _ _)

  -- One failure tells what `entries` is.
  pub undo_alone : (current : ℕ) (t : Table Cell) → Returns 2 (undoing current) t
  unfolding move swap_entries
  undo_alone current t = elim (ℕ_discrete t.volatile.entries current) [
    | yes hit ↦ within (undoing current) t (omega arith) (undo_hit current t hit)
    | no miss ↦
        one_more (undoing current) t (undoing t.volatile.entries) t (ground (arith, miss))
          (undo_hit t.volatile.entries t refl)
  ]

  -- The two moves of one round of `acquire_slot`.
  unfoldable pub drawn : Table Cell → Table Cell
  drawn t =
      with_volatile o p t (record (t.volatile) { next_id = wrapping_add 32 t.volatile.next_id 1 })

  abbrev pub next_of : Table Cell → Abstract
  next_of t = record { source = t.volatile.next_id }

  pub draw :
      (init : Detached → T) (t : Table Cell)
      → move o p Call.len false (acquiring init) t ≡ some (swapping init (next_of t), drawn t)
  unfolding move fetch_next_id drawn
  draw init t = refl

  pub swap_hit :
      (init : Detached → T) (t : Table Cell) (s : ℕ)
      → t.readonly.slot (place p t.volatile.next_id) ≡ some s
      → s ≢ reserved p
      → move o p Call.len false (swapping init (next_of t)) (drawn t)
        ≡ some (holding init (record { source = s }), after p t)
  unfolding move swap_slot drawn after
  swap_hit init t s e ne = ground (arith, e, ne)

  pub swap_miss :
      (init : Detached → T) (t : Table Cell)
      → t.readonly.slot (place p t.volatile.next_id) ≡ some (reserved p)
      → move o p Call.len false (swapping init (next_of t)) (drawn t)
        ≡ some (acquiring init, after p t)
  unfolding move swap_slot drawn after
  swap_miss init t e = ground (arith, e)

  -- And of `release_slot`.
  unfoldable pub aimed : Table Cell → Table Cell
  aimed t =
      with_volatile o p t (record (t.volatile) { free_id = wrapping_add 32 t.volatile.free_id 1 })

  abbrev pub free_of : Table Cell → Abstract
  free_of t = record { source = t.volatile.free_id }

  pub aim :
      (next : ℕ) (t : Table Cell)
      → move o p Call.len false (releasing next) t ≡ some (exchanging next (free_of t), aimed t)
  unfolding move fetch_free_id aimed
  aim next t = refl

  unfoldable pub put_at : Table Cell → ℕ → Table Cell
  put_at t next = record (aimed t) {
    readonly = record (t.readonly) {
      slot = update t.readonly.slot (place p t.volatile.free_id) (some next);
    };
  }

  pub exchange_hit :
      (next : ℕ) (t : Table Cell)
      → t.readonly.slot (place p t.volatile.free_id) ≡ some (reserved p)
      → move o p Call.len false (exchanging next (free_of t)) (aimed t)
        ≡ some (leaving, put_at t next)
  unfolding move exchange_slot aimed put_at
  exchange_hit next t e = ground (arith, e)

  pub exchange_miss :
      (next s : ℕ) (t : Table Cell)
      → t.readonly.slot (place p t.volatile.free_id) ≡ some s
      → s ≢ reserved p
      → move o p Call.len false (exchanging next (free_of t)) (aimed t)
        ≡ some (releasing next, aimed t)
  unfolding move exchange_slot aimed
  exchange_miss next s t e ne = ground (arith, e, ne)

  pub aimed_slot : (t : Table Cell) → (aimed t).readonly ≡ t.readonly
  unfolding aimed
  aimed_slot t = refl

  pub aimed-free_id : (t : Table Cell) → (aimed t).volatile.free_id ≡ advance t.volatile.free_id 1
  unfolding aimed
  aimed-free_id t = refl

  -- A round of `release_slot` that meets a reserved place.
  pub released :
      (next : ℕ) (t : Table Cell)
      → t.readonly.slot (place p t.volatile.free_id) ≡ some (reserved p)
      → Returns 3 (releasing next) t
  released next t e = one_more (releasing next) t _ _ (aim next t) (
      one_more (exchanging next (free_of t)) (aimed t) leaving (put_at t next)
        (exchange_hit next t e) (leave_alone (put_at t next)))
