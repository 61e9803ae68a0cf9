-- ===== src/Concurrent/Sequential.antt =====
-- src/table.rs: a thread that moves alone does what the operations of `Table` do when a call runs
-- by itself.
use mathlib.Core.Option.{some-injective}
use ptab.Common.{
  ℕ, zero, suc, ◌+◌, ◌≡◌, inl, inr, refl, ap, ◌∙◌, sym, subst, arith, false, none, some,
  Option-cases,
}
use native.Mathlib.Decide.{ℕ_discrete}
use ptab.Params.Derived.{Params}
use ptab.Index.Defs.{Detached, Abstract}
use ptab.Reclaim.Owned.{AtomicOwned}
use ptab.Table.State.{
  Table, WeakCas, reserved, fetch_next_id, fetch_free_id, swap_slot, exchange_slot,
}
use ptab.Table.Slots.{acquire_loop, release_loop}
use ptab.Table.View.{place}
use ptab.Table.Acquire.{after, acquire_hit, acquire_miss}
use ptab.Table.Release.{skip, put, release_hit, release_miss}
use ptab.Concurrent.System.{acquiring, swapping, holding, releasing, exchanging, leaving}
use ptab.Concurrent.Alone.{
  alone, Leads, one_move, drawn, next_of, draw, swap_hit, swap_miss, aimed, put_at, free_of, aim,
  exchange_hit, exchange_miss,
}

-- No weak exchange fails for no reason.
abbrev pub steady : WeakCas
steady = record { fails = λ _. false; bound = 0 }

module _ {T Cell : Type 0} (o : AtomicOwned T Cell) (p : Params) where
  acquire_none :
      (fuel : ℕ) (t : Table Cell)
      → t.readonly.slot (place p t.volatile.next_id) ≡ none
      → acquire_loop p (suc fuel) t ≡ none
  unfolding acquire_loop fetch_next_id swap_slot
  acquire_none fuel t e = ground (arith, e)

  -- The loop of `acquire_slot`.
  pub acquire_Leads :
      (fuel : ℕ) (init : Detached → T) (t : Table Cell) (a : Abstract) (u : Table Cell)
      → acquire_loop p fuel t ≡ some (a, u)
      → Leads o p (acquiring init) t (holding init a) u
  unfolding acquire_loop
  acquire_Leads zero init t a u run r m e = absurd cc
  acquire_Leads (suc fuel) init t a u run r m e =
      elim (Option-cases (t.readonly.slot (place p t.volatile.next_id))) [
        | inl empty ↦ absurd (cc (run, acquire_none fuel t empty))
        | inr (s, at) ↦ elim (ℕ_discrete s (reserved p)) [
          | yes passed ↦
              let at' = at ∙ ap some passed in
              let (l, rest) =
                acquire_Leads fuel init (after p t) a u (sym (acquire_miss p fuel t at') ∙ run) r m
                  e in
              let (l', rest') =
                one_move o p (swapping init (next_of o p t)) (drawn o p t) _ _ refl
                  (swap_miss o p init t at') r l rest in
              one_move o p (acquiring init) t _ _ refl (draw o p init t) r l' rest'
          | no free ↦
              let same = some-injective _ _ (sym (acquire_hit p fuel s t at free) ∙ run) in
              let e' =
                subst (λ (w : Abstract × Table Cell). alone o p m (holding init w.0) w.1 ≡ some r)
                  (sym same) e in
              let (l', rest') =
                one_move o p (swapping init (next_of o p t)) (drawn o p t) _ _ refl
                  (swap_hit o p init t s at free) r m e' in
              one_move o p (acquiring init) t _ _ refl (draw o p init t) r l' rest'
        ]
      ]

  release_none :
      (fuel i next : ℕ) (t : Table Cell)
      → t.readonly.slot (place p t.volatile.free_id) ≡ none
      → release_loop p steady (suc fuel) i next t ≡ none
  unfolding release_loop fetch_free_id exchange_slot
  release_none fuel i next t e = ground (arith, e)

  aimed-eq : (t : Table Cell) → skip p steady t ≡ aimed o p t
  unfolding skip aimed
  aimed-eq t = refl

  put_at-eq : (t : Table Cell) (next : ℕ) → put p steady t next ≡ put_at o p t next
  unfolding put put_at aimed
  put_at-eq t next = refl

  -- The loop of `release_slot`.
  pub release_Leads :
      (fuel i next : ℕ) (t u : Table Cell)
      → release_loop p steady fuel i next t ≡ some (tt, u)
      → Leads o p (releasing next) t leaving u
  unfolding release_loop
  release_Leads zero i next t u run r m e = absurd cc
  release_Leads (suc fuel) i next t u run r m e =
      elim (Option-cases (t.readonly.slot (place p t.volatile.free_id))) [
        | inl empty ↦ absurd (cc (run, release_none fuel i next t empty))
        | inr (s, at) ↦ elim (ℕ_discrete s (reserved p)) [
          | yes found ↦
              let at' = at ∙ ap some found in
              let same : put_at o p t next ≡ u =
                sym (put_at-eq t next)
                ∙ ap (λ (w : Unit {0} × Table Cell). w.1)
                    (some-injective _ _
                      (sym (release_hit p steady fuel i next t at' refl) ∙ run)) in
              let e' = subst (λ (w : Table Cell). alone o p m leaving w ≡ some r) (sym same) e in
              let (l', rest') =
                one_move o p (exchanging next (free_of o p t)) (aimed o p t) _ _ refl
                  (exchange_hit o p next t at') r m e' in
              one_move o p (releasing next) t _ _ refl (aim o p next t) r l' rest'
          | no passed ↦
              let run' : release_loop p steady fuel (i + 1) next (aimed o p t) ≡ some (tt, u) =
                ap (release_loop p steady fuel (i + 1) next) (sym (aimed-eq t))
                ∙ sym (release_miss p steady fuel i next s t at (ground (arith, passed)))
                ∙ run in
              let (l, rest) = release_Leads fuel (i + 1) next (aimed o p t) u run' r m e in
              let (l', rest') =
                one_move o p (exchanging next (free_of o p t)) (aimed o p t) _ _ refl
                  (exchange_miss o p next s t at passed) r l rest in
              one_move o p (releasing next) t _ _ refl (aim o p next t) r l' rest'
        ]
      ]
