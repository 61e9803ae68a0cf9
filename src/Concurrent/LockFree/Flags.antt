-- ===== src/Concurrent/LockFree/Flags.antt =====
-- src/table.rs: how far the threads are in their calls, as counts of threads.
use ptab.Common.{
  ℕ, ◌+◌, ◌<◌, ◌≡◌, ap, ◌∙◌, sym, arith, Bool, true, false, not, ◌==◌, update, update_self,
  update_other, bit,
}
use native.Mathlib.Decide.{ℕ_discrete}
use ptab.Params.Derived.{Params}
use ptab.Table.View.{place}
use ptab.Concurrent.System.{
  Pc, idle, undoing, acquiring, swapping, holding, releasing, exchanging, leaving,
}
use ptab.Concurrent.Effect.{tally}
use ptab.Concurrent.Invariant.{tally-update}

abbrev pub is_idle : {T : Type 0} → Pc T → Bool
is_idle (idle _) = true
is_idle _ = false

-- Before the last atomic step of its call.
abbrev pub early : {T : Type 0} → Pc T → Bool
early (holding _ _) = false
early leaving = false
early _ = true

-- In the loop of `reserve_slot`, with another value in hand than that of `entries`.
abbrev pub stale : {T : Type 0} → ℕ → Pc T → Bool
stale entries (undoing current) = not (current == entries)
stale entries _ = false

-- In the loop of `acquire_slot`, and of `release_slot`.
abbrev pub seeking : {T : Type 0} → Pc T → Bool
seeking (acquiring _) = true
seeking (swapping _ _) = true
seeking _ = false

abbrev pub returning : {T : Type 0} → Pc T → Bool
returning (releasing _) = true
returning (exchanging _ _) = true
returning _ = false

-- About to swap, and to exchange.
abbrev pub has_drawn : {T : Type 0} → Pc T → Bool
has_drawn (swapping _ _) = true
has_drawn _ = false

abbrev pub has_aimed : {T : Type 0} → Pc T → Bool
has_aimed (exchanging _ _) = true
has_aimed _ = false

-- Not about to swap, or to exchange, at place `i`.
abbrev pub off_swap : {T : Type 0} → Params → ℕ → Pc T → Bool
off_swap p i (swapping _ a) = not (place p a.source == i)
off_swap p i _ = true

abbrev pub off_exchange : {T : Type 0} → Params → ℕ → Pc T → Bool
off_exchange p i (exchanging _ a) = not (place p a.source == i)
off_exchange p i _ = true

module _ {T : Type 0} {n : ℕ} (pc : ℕ → Pc T) (k : ℕ) {q : Pc T} (lt : k < n) (here : pc k ≡ q)
    (f : Pc T → Bool) (q' : Pc T) where
  pub flag-update : tally f n (update pc k q') + bit (f q) ≡ tally f n pc + bit (f q')
  flag-update = omega (arith, tally-update f n pc k q' lt, ap (λ (x : Pc T). bit (f x)) here)

  -- A flag that the move does not set was set before.
  pub flag_before :
      (f q' ≡ true → f q ≡ true) → (j : ℕ) → f (update pc k q' j) ≡ true → f (pc j) ≡ true
  flag_before unset j set = elim (ℕ_discrete k j) [
    | yes me ↦
        ap f (ap pc (sym me) ∙ here)
        ∙ unset (ap f (sym (ap (update pc k q') (sym me) ∙ update_self pc k q')) ∙ set)
    | no other ↦ ap f (sym (update_other pc k q' j other)) ∙ set
  ]
