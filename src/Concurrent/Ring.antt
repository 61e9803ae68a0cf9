-- ===== src/Concurrent/Ring.antt =====
-- src/table.rs: the moves on a place of the ring: the `swap` of `acquire_slot`, and the exchange of
-- `release_slot`.
use ptab.Common.{
  ℕ, ◌+◌, ◌<◌, ◌≡◌, ◌≢◌, refl, ap, ◌∙◌, sym, arith, true, false, Option, none, some, ◌==◌,
  if◌then◌else◌, update, update_self, update_other, bit, count, count-change, ltb,
}
use native.Mathlib.Decide.{ℕ_discrete}
use ptab.Params.Derived.{Params, length_usize}
use ptab.Index.Fields.{IsWord}
use ptab.Reclaim.Owned.{AtomicOwned}
use ptab.Table.State.{Table, reserved}
use ptab.Table.View.{place, value_at, taken, population}
use ptab.Concurrent.System.{Pc}
use ptab.Concurrent.Ownership.{Source, ring, cell, thread, claim, shown, owned}
use ptab.Concurrent.Invariant.{Inv}
use ptab.Concurrent.Effect.{view}

module _ {T Cell : Type 0} (o : AtomicOwned T Cell) (p : Params) where
  -- The table with `s` at place `i` of the ring.
  abbrev pub with_slot : Table Cell → ℕ → ℕ → Table Cell
  with_slot t i s = record t {
    readonly = record (t.readonly) { slot = update t.readonly.slot i (some s) };
  }

  module _ (t : Table Cell) (pc : ℕ → Pc T) (k i s : ℕ) (q' : Pc T) where
    -- Sources other than place `i` and thread `k` do not change.
    pub others_kept :
        (z : Source)
        → z ≢ ring i
        → z ≢ thread k
        → owned o p (with_slot t i s) (update pc k q') z ≡ owned o p t pc z
    others_kept (ring j) ne _ =
        ap (λ (x : Option ℕ). if ltb j (length_usize p) then shown p x else none)
          (update_other t.readonly.slot i (some s) j (λ e. ne (ap ring (sym e))))
    others_kept (cell c) _ _ = refl
    others_kept (thread j) _ ne =
        ap (claim p) (update_other pc k q' j (λ e. ne (ap thread (sym e))))

    pub ring_at :
        i < length_usize p
        → owned o p (with_slot t i s) (update pc k q') (ring i) ≡ shown p (some s)
    ring_at h = ground arith

    pub thread_at : owned o p (with_slot t i s) (update pc k q') (thread k) ≡ claim p q'
    thread_at = ap (claim p) (update_self pc k q')

  pub ring_was :
      (t : Table Cell) (pc : ℕ → Pc T) (i r : ℕ)
      → i < length_usize p
      → t.readonly.slot i ≡ some r
      → owned o p t pc (ring i) ≡ shown p (some r)
  ring_was t pc i r h e = ground (arith, e)

  pub shown-reserved : (s : ℕ) → s == reserved p ≡ true → shown p (some s) ≡ none
  shown-reserved s e = ground (arith, e)

  pub shown-free : (s : ℕ) → s == reserved p ≡ false → shown p (some s) ≡ some (place p s)
  shown-free s e = ground (arith, e)

  pub set_taken :
      (t : Table Cell) (i s r : ℕ)
      → i < length_usize p
      → t.readonly.slot i ≡ some r
      → count (taken p (with_slot t i s)) (length_usize p) + bit (r == reserved p)
        ≡ count (taken p t) (length_usize p) + bit (s == reserved p)
  set_taken t i s r h e = ground (
    arith,
    count-change (taken p (with_slot t i s)) (taken p t) (length_usize p) i h
        (λ j _ ne. ground arith),
    e,
  )

  pub refl_test : (s : ℕ) → s == s ≡ true
  refl_test s = ground arith

  pub set_population :
      (t : Table Cell) (i s : ℕ) → population o p (with_slot t i s) ≡ population o p t
  unfolding population
  set_population t i s = refl

  pub set_view : (t : Table Cell) (i s : ℕ) → view o p (with_slot t i s) ≡ view o p t
  set_view t i s = λ j. record { values = value_at o t; size = set_population t i s j }

  -- A place of the ring that is set to what it holds.
  pub set_same :
      (t : Table Cell) (i s : ℕ)
      → t.readonly.slot i ≡ some s
      → (j : ℕ) → update t.readonly.slot i (some s) j ≡ t.readonly.slot j
  set_same t i s e j = elim (ℕ_discrete i j) [
    | yes here ↦
        ap (update t.readonly.slot i (some s)) (sym here)
        ∙ update_self t.readonly.slot i (some s)
        ∙ sym e
        ∙ ap t.readonly.slot here
    | no other ↦ update_other t.readonly.slot i (some s) j other
  ]

  module _ {n : ℕ} {t : Table Cell} {pc : ℕ → Pc T} (inv : Inv o p n t pc) where
    pub slot_set_init :
        (i s : ℕ)
        → IsWord p s
        → (j : ℕ) → j < length_usize p
        → (r : ℕ) × ((with_slot t i s).readonly.slot j ≡ some r) × IsWord p r
    slot_set_init i s word j h = elim (ℕ_discrete i j) [
      | yes here ↦ (
        s,
        ap (update t.readonly.slot i (some s)) (sym here) ∙ update_self t.readonly.slot i (some s),
        word,
      )
      | no other ↦
          let (r, e, w) = inv.slot_init j h in
          (r, update_other t.readonly.slot i (some s) j other ∙ e, w)
    ]
