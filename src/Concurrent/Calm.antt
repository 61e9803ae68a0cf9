-- ===== src/Concurrent/Calm.antt =====
-- src/table.rs: moves that leave the ring and the values as they are.
use ptab.Common.{
  ℕ, ◌+◌, ◌^◌, ◌≤◌, ◌<◌, ◌≡◌, ◌⊎◌, inl, inr, refl, ap, ◌∙◌, sym, arith, Option, none, some,
  if◌then◌else◌, update, update_self, update_other, bit, count, count-ext, ltb, fun_ext,
}
use native.Mathlib.Decide.{ℕ_discrete}
use ptab.Params.Derived.{Params, length_usize}
use ptab.Reclaim.Owned.{AtomicOwned}
use ptab.Reclaim.Sdd.{is_some}
use ptab.Table.State.{Table}
use ptab.Table.View.{value_at, occupied, taken, is_reserved, population}
use ptab.Concurrent.System.{Pc, holding, releasing, exchanging}
use ptab.Concurrent.Ownership.{Source, ring, cell, thread, claim, shown, owned, same-IsExclusive}
use ptab.Concurrent.Effect.{charged}
use ptab.Concurrent.Invariant.{has_slot, permitted, IsSound, Inv}
use ptab.Concurrent.Effect.{view}
use ptab.Concurrent.Moved.{Moved}

pub has_slot-claim : {T : Type 0} (p : Params) (q : Pc T) → has_slot q ≡ is_some (claim p q)
has_slot-claim p (holding _ _) = refl
has_slot-claim p (releasing _) = refl
has_slot-claim p (exchanging _ _) = refl
has_slot-claim p q = ground arith

module _ {T Cell : Type 0} (o : AtomicOwned T Cell) (p : Params) where
  pub record Calm (t u : Table Cell) : Type 0 where
    pub slots : (i : ℕ) → u.readonly.slot i ≡ t.readonly.slot i
    pub values : (c : ℕ) → value_at o u c ≡ value_at o t c
    pub cell_init : (c : ℕ) → c < length_usize p → (x : Cell) × (u.readonly.cells c ≡ some x)

  module _ {n : ℕ} {t u : Table Cell} {pc : ℕ → Pc T} {k : ℕ} {q : Pc T} (q' : Pc T)
      (inv : Inv o p n t pc) (here : pc k ≡ q) (calm : Calm t u)
      (same : claim p q' ≡ claim p q) where
    calm_owned : (z : Source) → owned o p u (update pc k q') z ≡ owned o p t pc z
    calm_owned (ring i) =
        ap (λ (s : Option ℕ). if ltb i (length_usize p) then shown p s else none) (calm.slots i)
    calm_owned (cell c) = ap (λ (v : Option T). if is_some v then some c else none) (calm.values c)
    calm_owned (thread j) = elim (ℕ_discrete k j) [
      | yes me ↦
          ap (claim p) (ap (update pc k q') (sym me) ∙ update_self pc k q')
          ∙ same
          ∙ ap (claim p) (sym here ∙ ap pc me)
      | no other ↦ ap (claim p) (update_other pc k q' j other)
    ]

    calm_population : population o p u ≡ population o p t
    unfolding population
    calm_population =
        count-ext (occupied o u) (occupied o t) (length_usize p) (λ i _. ap is_some (calm.values i))

    pub Calm-view : view o p u ≡ view o p t
    Calm-view = λ i. record { values = fun_ext calm.values i; size = calm_population i }

    calm_taken : count (taken p u) (length_usize p) ≡ count (taken p t) (length_usize p)
    calm_taken =
        count-ext (taken p u) (taken p t) (length_usize p)
          (λ i _. ap (is_reserved p) (calm.slots i))

    calm_has_slot : has_slot q' ≡ has_slot q
    calm_has_slot = has_slot-claim p q' ∙ ap is_some same ∙ sym (has_slot-claim p q)

    -- It is enough to look at the counters.
    pub Calm-Moved :
        IsSound p q'
        → u.volatile.entries + bit (charged q) ≡ t.volatile.entries + bit (charged q')
        → (bit (permitted q') ≤ bit (permitted q)) ⊎ (t.volatile.entries < length_usize p)
        → u.volatile.next_id < 2 ^ 32
        → u.volatile.free_id < 2 ^ 32
        → Moved o p t u pc k q q'
    Calm-Moved sound counted room next_small free_small = record {
      cell_init = calm.cell_init;
      slot_init = λ i h. let (s, e, word) = inv.slot_init i h in (s, calm.slots i ∙ e, word);
      exclusive =
          same-IsExclusive (owned o p t pc) (owned o p u (update pc k q')) calm_owned inv.exclusive;
      sound = sound;
      balance = omega (arith, calm_taken, calm_population, ap bit calm_has_slot);
      counted = omega (arith, counted, calm_population);
      room = elim room [
        | inl kept ↦ inl (omega (arith, kept, calm_population))
        | inr space ↦ inr (space, calm_population)
      ];
      next_small = next_small;
      free_small = free_small;
    }
