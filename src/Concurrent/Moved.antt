-- ===== src/Concurrent/Moved.antt =====
-- src/table.rs: what a move of one thread has to show for the invariant to go on.
use ptab.Common.{
  ℕ, ◌+◌, ◌^◌, ◌≤◌, ◌<◌, ◌≡◌, ◌⊎◌, inl, inr, ap, ◌∙◌, sym, subst, arith, Bool, true, false, some,
  update, update_self, update_other, bit, count,
}
use native.Mathlib.Decide.{ℕ_discrete}
use ptab.Params.Derived.{Params, length_usize}
use ptab.Index.Fields.{IsWord}
use ptab.Reclaim.Owned.{AtomicOwned}
use ptab.Table.State.{Table}
use ptab.Table.View.{taken, population}
use ptab.Concurrent.System.{Pc}
use ptab.Concurrent.Ownership.{owned, IsExclusive}
use ptab.Concurrent.Effect.{charged}
use ptab.Concurrent.Invariant.{has_slot, permitted, tally-update, tally-permitted-le, IsSound, Inv}

module _ {T Cell : Type 0} (o : AtomicOwned T Cell) (p : Params) where
  -- Thread `k` goes from `q` to `q'`, and the table from `t` to `u`. Either no permit is made, or
  -- one is where `entries` was less than the length.
  pub record Moved (t u : Table Cell) (pc : ℕ → Pc T) (k : ℕ) (q q' : Pc T) : Type 0 where
    pub cell_init : (c : ℕ) → c < length_usize p → (x : Cell) × (u.readonly.cells c ≡ some x)
    pub slot_init :
        (i : ℕ) → i < length_usize p → (s : ℕ) × (u.readonly.slot i ≡ some s) × IsWord p s
    pub exclusive : IsExclusive (owned o p u (update pc k q'))
    pub sound : IsSound p q'
    pub balance :
        count (taken p u) (length_usize p) + population o p t + bit (has_slot q)
        ≡ count (taken p t) (length_usize p) + population o p u + bit (has_slot q')
    pub counted :
        u.volatile.entries + population o p t + bit (charged q)
        ≡ t.volatile.entries + population o p u + bit (charged q')
    pub room :
        (population o p u + bit (permitted q') ≤ population o p t + bit (permitted q))
        ⊎ ((t.volatile.entries < length_usize p) × (population o p u ≡ population o p t))
    pub next_small : u.volatile.next_id < 2 ^ 32
    pub free_small : u.volatile.free_id < 2 ^ 32

  bit-le : (b : Bool) → bit b ≤ 1
  bit-le true = omega arith
  bit-le false = omega arith

  pub Moved-Inv :
      {n : ℕ} {t u : Table Cell} {pc : ℕ → Pc T} {k : ℕ} {q' : Pc T}
      → Inv o p n t pc
      → k < n
      → Moved t u pc k (pc k) q'
      → Inv o p n u (update pc k q')
  Moved-Inv {n} {t} {u} {pc} {k} {q'} inv lt m = record {
    cell_init = m.cell_init;
    slot_init = m.slot_init;
    exclusive = m.exclusive;
    sound = λ j. elim (ℕ_discrete k j) [
      | yes here ↦ subst (IsSound p) (sym (update_self pc k q') ∙ ap (update pc k q') here) m.sound
      | no other ↦ subst (IsSound p) (sym (update_other pc k q' j other)) (inv.sound j)
    ];
    balance = omega (arith, inv.balance, m.balance, tally-update has_slot n pc k q' lt);
    counted = omega (arith, inv.counted, m.counted, tally-update charged n pc k q' lt);
    room = elim (m.room) [
      | inl kept ↦ omega (arith, inv.room, kept, tally-update permitted n pc k q' lt)
      | inr (space, same) ↦ omega (
        arith,
        inv.counted,
        space,
        same,
        tally-update permitted n pc k q' lt,
        tally-permitted-le n pc,
        bit-le (permitted q'),
      )
    ];
    next_small = m.next_small;
    free_small = m.free_small;
  }
