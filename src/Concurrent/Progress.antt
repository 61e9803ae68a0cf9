-- ===== src/Concurrent/Progress.antt =====
-- src/table.rs: a thread that is given the processor returns from its call.
use ptab.Common.{
  ℕ, ◌+◌, ◌^◌, ◌≤◌, ◌<◌, ◌≡◌, ◌⊎◌, inl, inr, refl, ap, ◌∙◌, sym, subst, arith, true, false, none,
  some, update, update_self, bit, count, count-lt, count-pos, count_mono, count-true,
}
use ptab.Params.Derived.{Params, length_usize}
use ptab.Params.Geometry.{FitsLine}
use ptab.Index.Defs.{Detached, Abstract}
use ptab.Reclaim.Owned.{AtomicOwned}
use ptab.Table.State.{Table, reserved}
use ptab.Table.View.{taken, IsValid}
use ptab.Table.Probe.{probe_reaches}
use ptab.Table.Acquire.{Shows}
use ptab.Spec.{Map, Call}
use ptab.Concurrent.System.{
  Pc, idle, undoing, acquiring, swapping, holding, releasing, exchanging, leaving, move, System,
}
use ptab.Concurrent.Invariant.{has_slot, permitted, tally-update, Inv}
use ptab.Concurrent.Effect.{tally, charged, view, Effect, works, looks, missed, got, failed, stored}
use ptab.Concurrent.Safety.{move_returns, move-Inv, move-Effect}
use ptab.Concurrent.Delayed.{History, DelayedReach, first}
use ptab.Concurrent.Delayed.Runs.{delayed-Inv}
use ptab.Concurrent.Alone.{Returns, one_more, at_rest, within, undo_alone, leave_alone}
use ptab.Concurrent.Loops.{fill_alone, acquire_alone, release_alone}

has_slot-le-permitted : {T : Type 0} (q : Pc T) → bit (has_slot q) ≤ bit (permitted q)
has_slot-le-permitted (holding _ _) = omega arith
has_slot-le-permitted (releasing _) = omega arith
has_slot-le-permitted (exchanging _ _) = omega arith
has_slot-le-permitted q = ground arith

-- A thread with a permit and no slot: fewer threads have a slot than a permit.
tally-lt :
    {T : Type 0} (n : ℕ) (pc : ℕ → Pc T) (k : ℕ)
    → k < n
    → permitted (pc k) ≡ true
    → has_slot (pc k) ≡ false
    → tally has_slot n pc < tally permitted n pc
tally-lt n pc k lt has no_slot =
    let pc' = update pc k (idle none) in
    let same : tally has_slot n pc' ≡ tally has_slot n pc =
      omega (arith, tally-update has_slot n pc k (idle none) lt, ap bit no_slot) in
    omega (
      arith,
      same,
      tally-update permitted n pc k (idle none) lt,
      ap bit has,
      count_mono (λ j. has_slot (pc' j)) (λ j. permitted (pc' j)) n
          (λ j _. has_slot-le-permitted (pc' j)),
    )

after_swap :
    {T : Type 0} {p : Params} {busy : ℕ} {m n : Map T} {call : Call T} {init : Detached → T}
    {a : Abstract} (q : Pc T)
    → Effect p busy m call (swapping init a) q n
    → (q ≡ acquiring init) ⊎ ((b : Abstract) × (q ≡ holding init b))
after_swap q (looks _ load) = elim load [ ]
after_swap q (works _ missed) = inl refl
after_swap q (works _ got) = inr (_, refl)

after_exchange :
    {T : Type 0} {p : Params} {busy : ℕ} {m n : Map T} {call : Call T} {next : ℕ} {free : Abstract}
    (q : Pc T)
    → Effect p busy m call (exchanging next free) q n
    → (q ≡ releasing next) ⊎ (q ≡ leaving)
after_exchange q (looks _ failed) = inl refl
after_exchange q (works _ stored) = inr refl

module _ {T Cell : Type 0} (o : AtomicOwned T Cell) (p : Params) where
  -- One move, and what it leaves to show.
  record MovedOnce (n : ℕ) (t : Table Cell) (pc : ℕ → Pc T) (k : ℕ) (q : Pc T) : Type 0 where
    next : Pc T
    after : Table Cell
    run : move o p Call.len false q t ≡ some (next, after)
    inv : Inv o p n after (update pc k next)
    here : update pc k next k ≡ next
    effect : Effect p (tally charged n pc) (view o p t) Call.len q next (view o p after)

module _ {T Cell : Type 0} (o : AtomicOwned T Cell) (p : Params) (fits : FitsLine p) {n : ℕ}
    (few : length_usize p + n < 2 ^ 32) where
  module _ {t : Table Cell} {pc : ℕ → Pc T} (inv : Inv o p n t pc) (k : ℕ) (lt : k < n) where
    pub room_to_take :
        permitted (pc k) ≡ true
        → has_slot (pc k) ≡ false
        → count (taken p t) (length_usize p) < length_usize p
    room_to_take has no_slot = omega (arith, inv.balance, inv.room, tally-lt n pc k lt has no_slot)

    pub room_to_return : has_slot (pc k) ≡ true → 0 < count (taken p t) (length_usize p)
    room_to_return has = omega (arith, inv.balance, count-true (λ i. has_slot (pc i)) n k lt has)

    free_index :
        permitted (pc k) ≡ true
        → has_slot (pc k) ≡ false
        → (i : ℕ) × (i < length_usize p) × Shows p t i
    free_index has no_slot =
        let (i, h, open_i) = count-lt (taken p t) (length_usize p) (room_to_take has no_slot) in
        let (s, e, word) = inv.slot_init i h in (i, h, (s, e, ground arith))

    reserved_place :
        has_slot (pc k) ≡ true
        → (j : ℕ) × (j < length_usize p) × (t.readonly.slot j ≡ some (reserved p))
    reserved_place has =
        let (j, h, hit) = count-pos (taken p t) (length_usize p) (room_to_return has) in
        let (s, e, word) = inv.slot_init j h in (j, h, ground arith)

    acquire_ends :
        (init : Detached → T)
        → pc k ≡ acquiring init
        → Returns o p (length_usize p + length_usize p + 1) (acquiring init) t
    acquire_ends init here =
        let (i, h, shows) = free_index (ap permitted here) (ap has_slot here) in
        let (d, near, meets) = probe_reaches p t.volatile.next_id i fits h in
        within o p (acquiring init) t (omega arith)
          (acquire_alone o p fits few d init k inv lt here (rw meets shows))

    release_ends :
        (next : ℕ)
        → pc k ≡ releasing next
        → Returns o p (length_usize p + length_usize p + 1) (releasing next) t
    release_ends next here =
        let (j, h, e) = reserved_place (ap has_slot here) in
        let (d, near, meets) = probe_reaches p t.volatile.free_id j fits h in
        within o p (releasing next) t (omega arith)
          (release_alone o p fits few d next k inv lt here (ap t.readonly.slot meets ∙ e))

  module _ {t : Table Cell} {pc : ℕ → Pc T} (inv : Inv o p n t pc) (k : ℕ) (lt : k < n) where
    moved_once : (q : Pc T) → pc k ≡ q → MovedOnce o p n t pc k q
    moved_once q here =
        let (next, u, run) = move_returns o p fits few inv lt Call.len false tt in
        record {
          next = next;
          after = u;
          run = ap (λ (x : Pc T). move o p Call.len false x t) (sym here) ∙ run;
          inv = move-Inv o p fits few inv lt Call.len false tt run;
          here = update_self pc k next;
          effect =
              subst
                (λ (x : Pc T).
                  Effect p (tally charged n pc) (view o p t) Call.len x next (view o p u))
                here (move-Effect o p fits few inv lt Call.len false tt run);
        }

    swap_ends :
        (init : Detached → T) (a : Abstract)
        → pc k ≡ swapping init a
        → Returns o p (length_usize p + length_usize p + 2) (swapping init a) t
    swap_ends init a here =
        let m = moved_once (swapping init a) here in
        within o p (swapping init a) t (omega arith) (
          one_more o p (swapping init a) t m.next m.after m.run (elim (after_swap m.next m.effect) [
            | inl again ↦
                subst (λ (x : Pc T). Returns o p (length_usize p + length_usize p + 1) x m.after)
                  (sym again) (acquire_ends m.inv k lt init (m.here ∙ again))
            | inr (b, gained) ↦
                subst (λ (x : Pc T). Returns o p (length_usize p + length_usize p + 1) x m.after)
                  (sym gained)
                  (within o p (holding init b) m.after (omega arith)
                    (fill_alone o p fits few init b k m.inv lt (m.here ∙ gained)))
          ]))

    exchange_ends :
        (next : ℕ) (free : Abstract)
        → pc k ≡ exchanging next free
        → Returns o p (length_usize p + length_usize p + 2) (exchanging next free) t
    exchange_ends next free here =
        let m = moved_once (exchanging next free) here in
        within o p (exchanging next free) t (omega arith) (
          one_more o p (exchanging next free) t m.next m.after m.run
            (elim (after_exchange m.next m.effect) [
              | inl again ↦
                  subst (λ (x : Pc T). Returns o p (length_usize p + length_usize p + 1) x m.after)
                    (sym again) (release_ends m.inv k lt next (m.here ∙ again))
              | inr done ↦
                  subst (λ (x : Pc T). Returns o p (length_usize p + length_usize p + 1) x m.after)
                    (sym done) (within o p leaving m.after (omega arith) (leave_alone o p m.after))
            ]))

  call_ends :
      {t : Table Cell} {pc : ℕ → Pc T}
      → Inv o p n t pc
      → (k : ℕ) → k < n
      → (q : Pc T) → pc k ≡ q
      → Returns o p (length_usize p + length_usize p + 2) q t
  call_ends {t} inv k lt (idle last) here = at_rest o p _ last t
  call_ends {t} inv k lt (undoing current) here =
      within o p (undoing current) t (omega arith) (undo_alone o p current t)
  call_ends {t} inv k lt (acquiring init) here =
      within o p (acquiring init) t (omega arith) (acquire_ends inv k lt init here)
  call_ends inv k lt (swapping init a) here = swap_ends inv k lt init a here
  call_ends {t} inv k lt (holding init a) here =
      within o p (holding init a) t (omega arith) (fill_alone o p fits few init a k inv lt here)
  call_ends {t} inv k lt (releasing next) here =
      within o p (releasing next) t (omega arith) (release_ends inv k lt next here)
  call_ends inv k lt (exchanging next free) here = exchange_ends inv k lt next free here
  call_ends {t} inv k lt leaving here = within o p leaving t (omega arith) (leave_alone o p t)

  -- From every state that a number of threads which, added to the length, is below 2 to the 32
  -- reach from a valid table where a cache line fits, by moves in any order, in which operations
  -- that only read may have seen any earlier state, each thread that from then on moves alone and
  -- sees the last contents, with no weak exchange that fails for no reason, returns from its call
  -- within two moves more than twice the length, wherever the other threads stand.
  pub alone-Returns :
      {t : Table Cell} {s : History (System T Cell)}
      → IsValid o p t
      → DelayedReach o p n (first t) s
      → (k : ℕ) → k < n
      → Returns o p (length_usize p + length_usize p + 2) (s.now.pc k) s.now.table
  alone-Returns {t} {s} valid run k lt =
      call_ends (delayed-Inv o p fits few valid run) k lt (s.now.pc k) refl
