-- ===== src/Concurrent/LockFree/Moves.antt =====
-- src/table.rs: a move after which the call still runs, with no weak exchange that fails for no reason:
-- it brings the call further, or is one of the five that keep it in a loop.
use mathlib.Core.Option.{some-injective}
use ptab.Common.{
  ℕ, ◌+◌, ◌^◌, ◌<◌, ◌≡◌, ◌≢◌, refl, ap, ◌∙◌, sym, subst, arith, true, false, none, some, bit,
}
use native.Mathlib.Decide.{ℕ_discrete}
use ptab.Params.Derived.{Params, length_usize}
use ptab.Params.Geometry.{FitsLine}
use ptab.Index.Defs.{Detached, Abstract}
use ptab.Reclaim.Owned.{AtomicOwned}
use ptab.Table.State.{
  Table, reserved, fetch_next_id, swap_slot, fetch_free_id, exchange_slot, swap_entries,
}
use ptab.Table.View.{place}
use ptab.Table.Probe.{place-lt}
use ptab.Spec.{Map, Call, Reply, IsWordCall}
use ptab.Common.Word.{wrapping_sub}
use ptab.Concurrent.Counters.{with_volatile}
use ptab.Concurrent.System.{
  Pc, idle, undoing, acquiring, swapping, holding, releasing, exchanging, leaving, move,
}
use ptab.Concurrent.Effect.{
  tally, charged, view, Effect, works, admitted, rejected, looks, reads, checks, counts, finds_none,
  evicts, fills, leaves,
}
use ptab.Concurrent.Invariant.{Inv}
use ptab.Concurrent.Safety.{move-Effect}
use ptab.Concurrent.Ring.{with_slot}
use ptab.Concurrent.Alone.{drawn, next_of, aimed, free_of}
use ptab.Concurrent.LockFree.Flags.{is_idle, early}

abbrev pub weight : {T : Type 0} → Pc T → ℕ
weight q = bit (early q) + bit (is_idle q)

module _ {T Cell : Type 0} (o : AtomicOwned T Cell) (p : Params) where
  pub data Outcome (t : Table Cell) : Pc T → Pc T × Table Cell → Type 0 where
    further : {q : Pc T} {w : Pc T × Table Cell} → weight w.0 + 1 ≡ weight q → Outcome t q w
    late :
        {current : ℕ}
        → current ≢ t.volatile.entries
        → Outcome t (undoing current) (undoing t.volatile.entries, t)
    draws :
        {init : Detached → T}
        → Outcome t (acquiring init) (swapping init (next_of o p t), drawn o p t)
    misses :
        {init : Detached → T} {a : Abstract}
        → t.readonly.slot (place p a.source) ≡ some (reserved p)
        → Outcome t
            (swapping init a)
            (acquiring init, with_slot o p t (place p a.source) (reserved p))
    aims : {next : ℕ} → Outcome t (releasing next) (exchanging next (free_of o p t), aimed o p t)
    fails :
        {next s : ℕ} {free : Abstract}
        → t.readonly.slot (place p free.source) ≡ some s
        → s ≢ reserved p
        → Outcome t (exchanging next free) (releasing next, t)

  -- What a move gives, and its outcome if the call still runs.
  record Computed (call : Call T) (t : Table Cell) (q : Pc T) : Type 0 where
    result : Pc T × Table Cell
    run : move o p call false q t ≡ some result
    outcome : is_idle result.0 ≡ false → Outcome t q result

  idle_weight :
      {busy : ℕ} {m n : Map T} {call : Call T} {last : _} (q : Pc T)
      → Effect p busy m call (idle last) q n
      → is_idle q ≡ false
      → weight q + 1 ≡ 2
  idle_weight q (works _ (admitted _ _)) busy = refl
  idle_weight q (works _ (rejected _ _)) busy = refl
  idle_weight q (looks _ (reads _)) busy = absurd cc
  idle_weight q (looks _ (checks _)) busy = absurd cc
  idle_weight q (looks _ (counts _)) busy = absurd cc
  idle_weight q (finds_none _ _ _) busy = absurd cc
  idle_weight q (evicts _ _) busy = refl

  -- A thread that still runs after its last atomic step does not exist.
  holding_ends :
      {busy : ℕ} {m n : Map T} {call : Call T} {init : Detached → T} {a : Abstract} (q : Pc T)
      → Effect p busy m call (holding init a) q n
      → is_idle q ≡ true
  holding_ends q (works _ inner) = elim inner [ ]
  holding_ends q (looks _ load) = elim load [ ]
  holding_ends q (fills _) = refl

  leaving_ends :
      {busy : ℕ} {m n : Map T} {call : Call T} (q : Pc T)
      → Effect p busy m call leaving q n
      → is_idle q ≡ true
  leaving_ends q (works _ inner) = elim inner [ ]
  leaving_ends q (looks _ load) = elim load [ ]
  leaving_ends q (leaves _) = refl

  module _ (call : Call T) (t : Table Cell) where
    undo-Computed : (current : ℕ) → Computed call t (undoing current)
    unfolding move swap_entries
    undo-Computed current = elim (ℕ_discrete current t.volatile.entries) [
      | yes hit ↦ record {
        result = (
          idle (some (Reply.index none)),
          with_volatile o p t (record (t.volatile) { entries = wrapping_sub 32 current 1 }),
        );
        run = ground (arith, hit);
        outcome = λ busy. absurd cc;
      }
      | no miss ↦ record {
        result = (undoing t.volatile.entries, t);
        run = ground (arith, miss);
        outcome = λ _. late miss;
      }
    ]

    acquire-Computed : (init : Detached → T) → Computed call t (acquiring init)
    unfolding move fetch_next_id drawn
    acquire-Computed init = record {
      result = (swapping init (next_of o p t), drawn o p t);
      run = refl;
      outcome = λ _. draws;
    }

    release-Computed : (next : ℕ) → Computed call t (releasing next)
    unfolding move fetch_free_id aimed
    release-Computed next = record {
      result = (exchanging next (free_of o p t), aimed o p t);
      run = refl;
      outcome = λ _. aims;
    }

    swap-Computed :
        (init : Detached → T) (a : Abstract) (s : ℕ)
        → t.readonly.slot (place p a.source) ≡ some s
        → Computed call t (swapping init a)
    unfolding move swap_slot
    swap-Computed init a s e = elim (ℕ_discrete s (reserved p)) [
      | yes empty ↦ record {
        result = (acquiring init, with_slot o p t (place p a.source) (reserved p));
        run = ground (arith, e, empty);
        outcome = λ _. misses (e ∙ ap some empty);
      }
      | no free ↦ record {
        result =
            (holding init (record { source = s }), with_slot o p t (place p a.source) (reserved p));
        run = ground (arith, e, free);
        outcome = λ _. further refl;
      }
    ]

    exchange-Computed :
        (next : ℕ) (free : Abstract) (s : ℕ)
        → t.readonly.slot (place p free.source) ≡ some s
        → Computed call t (exchanging next free)
    unfolding move exchange_slot
    exchange-Computed next free s e = elim (ℕ_discrete s (reserved p)) [
      | yes empty ↦ record {
        result = (leaving, with_slot o p t (place p free.source) next);
        run = ground (arith, e, empty);
        outcome = λ _. further refl;
      }
      | no full ↦ record {
        result = (releasing next, t);
        run = ground (arith, e, full);
        outcome = λ _. fails e full;
      }
    ]

  module _ (fits : FitsLine p) {n : ℕ} (few : length_usize p + n < 2 ^ 32) {t : Table Cell}
      {pc : ℕ → Pc T} (inv : Inv o p n t pc) {k : ℕ} (lt : k < n) (call : Call T)
      (word : IsWordCall p call) where
    Computed-Outcome :
        {q : Pc T} (w : Pc T × Table Cell)
        → Computed call t q
        → move o p call false q t ≡ some w
        → is_idle w.0 ≡ false
        → Outcome t q w
    Computed-Outcome {q} w c run busy =
        let same : c.result ≡ w = some-injective _ _ (sym c.run ∙ run) in
        subst (λ (v : Pc T × Table Cell). Outcome t q v) same
          (c.outcome (ap (λ (v : Pc T × Table Cell). is_idle v.0) same ∙ busy))

    pub move-Outcome :
        (q : Pc T) (w : Pc T × Table Cell)
        → pc k ≡ q
        → move o p call false q t ≡ some w
        → is_idle w.0 ≡ false
        → Outcome t q w
    move-Outcome q w here run busy = go q here run (
        subst (λ (x : Pc T). Effect p (tally charged n pc) (view o p t) call x w.0 (view o p w.1))
          here
          (move-Effect o p fits few inv lt call false word
            (ap (λ (x : Pc T). move o p call false x t) here ∙ run)))
      where
        go :
            (q : Pc T)
            → pc k ≡ q
            → move o p call false q t ≡ some w
            → Effect p (tally charged n pc) (view o p t) call q w.0 (view o p w.1)
            → Outcome t q w
        go (idle last) here run effect = further (idle_weight w.0 effect busy)
        go (undoing current) here run effect =
            Computed-Outcome w (undo-Computed call t current) run busy
        go (acquiring init) here run effect =
            Computed-Outcome w (acquire-Computed call t init) run busy
        go (swapping init a) here run effect =
            let (s, e, word') = inv.slot_init (place p a.source) (place-lt p fits a.source) in
            Computed-Outcome w (swap-Computed call t init a s e) run busy
        go (holding init a) here run effect = absurd (cc (busy, holding_ends w.0 effect))
        go (releasing next) here run effect =
            Computed-Outcome w (release-Computed call t next) run busy
        go (exchanging next free) here run effect =
            let (s, e, word') = inv.slot_init (place p free.source) (place-lt p fits free.source) in
            Computed-Outcome w (exchange-Computed call t next free s e) run busy
        go leaving here run effect = absurd (cc (busy, leaving_ends w.0 effect))
