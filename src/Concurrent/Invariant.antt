-- ===== src/Concurrent/Invariant.antt =====
-- src/table.rs: what holds between the atomic steps of any threads, and how it meets the invariant
-- of a table that no call is working on.
use ptab.Common.{
  ℕ, ◌+◌, ◌^◌, ◌≤◌, ◌<◌, ◌≡◌, ◌≢◌, inl, inr, refl, ap, ◌∙◌, sym, arith, Bool, true, false, Option,
  none, some, update, bit, count, count-change, count_mono, count-none, Option-cases,
}
use ptab.Params.Derived.{Params, length_usize}
use ptab.Index.Fields.{IsWord}
use ptab.Reclaim.Owned.{AtomicOwned}
use ptab.Reclaim.Sdd.{is_some}
use ptab.Table.State.{Table, reserved}
use ptab.Table.View.{place, value_at, taken, held_back, population, IsValid}
use ptab.Spec.{Reply}
use ptab.Concurrent.System.{
  fresh_threads, IsQuiescent, Pc, idle, undoing, holding, releasing, exchanging,
}
use ptab.Concurrent.Effect.{charged, tally}
use ptab.Concurrent.Ownership.{ring, cell, thread, owned, IsExclusive, ring_owned, cell_owned}

-- Threads that have the slot of an index in their hands.
abbrev pub has_slot : {T : Type 0} → Pc T → Bool
has_slot (holding _ _) = true
has_slot (releasing _) = true
has_slot (exchanging _ _) = true
has_slot _ = false

-- Threads with a permit that stands for no value of the table.
abbrev pub permitted : {T : Type 0} → Pc T → Bool
permitted (idle _) = false
permitted (undoing _) = false
permitted _ = true

pub tally-update :
    {T : Type 0} (f : Pc T → Bool) (n : ℕ) (pc : ℕ → Pc T) (k : ℕ) (q : Pc T)
    → k < n
    → tally f n (update pc k q) + bit (f (pc k)) ≡ tally f n pc + bit (f q)
tally-update f n pc k q lt =
    ground (
      arith,
      count-change (λ j. f (update pc k q j)) (λ j. f (pc j)) n k lt (λ j _ ne. ground arith),
    )

permitted-le-charged : {T : Type 0} (q : Pc T) → bit (permitted q) ≤ bit (charged q)
permitted-le-charged (idle _) = omega arith
permitted-le-charged (undoing _) = omega arith
permitted-le-charged q = ground arith

pub tally-permitted-le :
    {T : Type 0} (n : ℕ) (pc : ℕ → Pc T) → tally permitted n pc ≤ tally charged n pc
tally-permitted-le n pc =
    count_mono (λ k. permitted (pc k)) (λ k. charged (pc k)) n (λ k _. permitted-le-charged (pc k))

-- The indices in the hands of a thread.
abbrev pub IsSound : {T : Type 0} → Params → Pc T → Type 0
IsSound p (holding _ s) = IsWord p s.source
IsSound p (releasing next) = IsWord p next × (next ≢ reserved p)
IsSound p (exchanging next _) = IsWord p next × (next ≢ reserved p)
IsSound p _ = Unit

ring-ne-cell : {i c : ℕ} → ring i ≢ cell c
ring-ne-cell e = cc

ring_injective : {i j : ℕ} → ring i ≡ ring j → i ≡ j
ring_injective e = cc

module _ {T Cell : Type 0} (o : AtomicOwned T Cell) (p : Params) (n : ℕ) where
  -- Both arrays are initialised; every slot of the table is free, in use or in the hands of one
  -- thread, and never two of these; a slot of the ring is reserved for each index that is not in
  -- it; `entries` counts the values and the threads; and the permits are no more than the slots.
  pub record Inv (t : Table Cell) (pc : ℕ → Pc T) : Type 0 where
    pub cell_init : (c : ℕ) → c < length_usize p → (x : Cell) × (t.readonly.cells c ≡ some x)
    pub slot_init :
        (i : ℕ) → i < length_usize p → (s : ℕ) × (t.readonly.slot i ≡ some s) × IsWord p s
    pub exclusive : IsExclusive (owned o p t pc)
    pub sound : (k : ℕ) → IsSound p (pc k)
    pub balance : count (taken p t) (length_usize p) ≡ population o p t + tally has_slot n pc
    pub counted : t.volatile.entries ≡ held_back p + population o p t + tally charged n pc
    pub room : held_back p + population o p t + tally permitted n pc ≤ length_usize p
    pub next_small : t.volatile.next_id < 2 ^ 32
    pub free_small : t.volatile.free_id < 2 ^ 32

  tally-idle :
      (f : Pc T → Bool) (pc : ℕ → Pc T)
      → ((last : Option (Reply T)) → f (idle last) ≡ false)
      → IsQuiescent pc
      → tally f n pc ≡ 0
  tally-idle f pc e all =
      count-none (λ k. f (pc k)) n (λ k _. let (last, here) = all k in ap f here ∙ e last)

  -- With every thread idle, the invariant is that of a table alone.
  pub Inv-IsValid : (t : Table Cell) (pc : ℕ → Pc T) → IsQuiescent pc → Inv t pc → IsValid o p t
  Inv-IsValid t pc all inv = record {
    cell_init = inv.cell_init;
    slot_init = inv.slot_init;
    vacant = λ i s lt e ne. elim (Option-cases (value_at o t (place p s))) [
      | inl empty ↦ empty
      | inr (v, full) ↦ absurd (
          ring-ne-cell
            (inv.exclusive (ring i) (cell (place p s)) (place p s) (ground arith) (ground arith)))
    ];
    distinct = λ i j s r li lj ei ej ni nj same.
        ring_injective
          (inv.exclusive (ring i) (ring j) (place p s) (ground arith) (ground (arith, same)));
    balance = omega (arith, inv.balance, tally-idle has_slot pc (λ _. refl) all);
    counted = omega (arith, inv.counted, tally-idle charged pc (λ _. refl) all);
    room = omega (arith, inv.room, inv.counted, tally-idle charged pc (λ _. refl) all);
    next_small = inv.next_small;
    free_small = inv.free_small;
  }

  apart :
      (t : Table Cell)
      → IsValid o p t
      → (i b c : ℕ) → owned o p t fresh_threads (ring i) ≡ some c
      → owned o p t fresh_threads (cell b) ≡ some c
      → ⊥
  apart t valid i b c ha hb =
      let (s, li, ei, ni, pi) = ring_owned o p t fresh_threads i c ha in
      let (bc, full) = cell_owned o p t fresh_threads b c hb in
      let empty = valid.vacant i s li ei ni in
      cc (full, ap (λ (d : ℕ). is_some (value_at o t d)) (bc ∙ sym pi), ap is_some empty)

  -- A source of a table alone: a place of the ring with an index, or a cell with a value.
  alone-IsExclusive : (t : Table Cell) → IsValid o p t → IsExclusive (owned o p t fresh_threads)
  alone-IsExclusive t valid (ring i) (ring j) c ha hb =
      let (s, li, ei, ni, pi) = ring_owned o p t fresh_threads i c ha in
      let (r, lj, ej, nj, pj) = ring_owned o p t fresh_threads j c hb in
      ap ring (valid.distinct i j s r li lj ei ej ni nj (pi ∙ sym pj))
  alone-IsExclusive t valid (ring i) (cell b) c ha hb = absurd (apart t valid i b c ha hb)
  alone-IsExclusive t valid (cell a) (ring j) c ha hb = absurd (apart t valid j a c hb ha)
  alone-IsExclusive t valid (cell a) (cell b) c ha hb = ground arith
  alone-IsExclusive t valid (thread k) b c ha hb = cc
  alone-IsExclusive t valid (ring i) (thread k) c ha hb = cc
  alone-IsExclusive t valid (cell a) (thread k) c ha hb = cc

  pub IsValid-Inv : (t : Table Cell) → IsValid o p t → Inv t fresh_threads
  IsValid-Inv t valid = record {
    cell_init = valid.cell_init;
    slot_init = valid.slot_init;
    exclusive = alone-IsExclusive t valid;
    sound = λ k. tt;
    balance =
        omega
          (arith, valid.balance, tally-idle has_slot fresh_threads (λ _. refl) (λ _. (none, refl)));
    counted =
        omega
          (arith, valid.counted, tally-idle charged fresh_threads (λ _. refl) (λ _. (none, refl)));
    room = omega (
      arith,
      valid.room,
      valid.counted,
      tally-idle permitted fresh_threads (λ _. refl) (λ _. (none, refl)),
    );
    next_small = valid.next_small;
    free_small = valid.free_small;
  }
