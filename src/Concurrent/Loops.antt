-- ===== src/Concurrent/Loops.antt =====
-- src/table.rs: a thread that moves alone: the loops of `acquire_slot` and `release_slot` end, once
-- some place of the ring has what they look for.
use ptab.Common.{
  ℕ, zero, suc, ◌+◌, ◌^◌, ◌<◌, ◌≡◌, ◌≢◌, refl, ap, ◌∙◌, sym, subst, arith, false, Option, some,
  update, update_self,
}
use native.Mathlib.Decide.{ℕ_discrete}
use ptab.Params.Derived.{Params, length_usize}
use ptab.Params.Geometry.{FitsLine}
use ptab.Index.Defs.{Detached, Abstract}
use ptab.Reclaim.Owned.{AtomicOwned}
use ptab.Table.State.{Table, reserved}
use ptab.Table.View.{place}
use ptab.Table.Probe.{advance-suc, advance_zero, probe, place-lt}
use ptab.Table.Acquire.{Shows, after, after-Shows, after-next_id}
use ptab.Spec.{Map, Call, Reply}
use ptab.Concurrent.System.{Pc, idle, acquiring, swapping, holding, releasing, exchanging, move}
use ptab.Concurrent.Invariant.{Inv}
use ptab.Concurrent.Fill.{fill}
use ptab.Concurrent.Effect.{Effect, works, looks, fills}
use ptab.Concurrent.Safety.{move-Inv}
use ptab.Concurrent.Alone.{
  Returns, one_more, at_rest, within, drawn, next_of, draw, swap_hit, swap_miss, aimed, free_of,
  aim, exchange_miss, aimed_slot, aimed-free_id, released,
}

module _ {T Cell : Type 0} (o : AtomicOwned T Cell) (p : Params) where
  pub filled :
      {busy : ℕ} {m n : Map T} {init : Detached → T} {a : Abstract} (q : Pc T)
      → Effect p busy m Call.len (holding init a) q n
      → (last : Option (Reply T)) × (q ≡ idle last)
  filled q (works _ inner) = elim inner [ ]
  filled q (looks _ load) = elim load [ ]
  filled q (fills step) = (_, refl)

  module _ (fits : FitsLine p) {n : ℕ} (few : length_usize p + n < 2 ^ 32) where
    pub fill_alone :
        (init : Detached → T) (a : Abstract) {t : Table Cell} {pc : ℕ → Pc T} (k : ℕ)
        → Inv o p n t pc
        → k < n
        → pc k ≡ holding init a
        → Returns o p 1 (holding init a) t
    fill_alone init a {t} k inv lt here =
        let step = fill o p inv fits lt Call.len false init a here in
        let (last, e) = filled step.next step.effect in
        one_more o p (holding init a) t step.next step.after step.run
          (subst (λ (q : Pc T). Returns o p 0 q step.after) (sym e) (at_rest o p 0 last step.after))

    -- The invariant after two moves of thread `k`.
    two_moves :
        {t : Table Cell} {pc : ℕ → Pc T} (k : ℕ) (q : Pc T) {q' q'' : Pc T} {u v : Table Cell}
        → Inv o p n t pc
        → k < n
        → pc k ≡ q
        → move o p Call.len false q t ≡ some (q', u)
        → move o p Call.len false q' u ≡ some (q'', v)
        → (pc' : ℕ → Pc T) × Inv o p n v pc' × (pc' k ≡ q'')
    two_moves {t} {pc} k q {q'} {q''} {u} inv lt here first second =
        let pc1 : ℕ → Pc T = update pc k q' in
        let inv1 =
          move-Inv o p fits few inv lt Call.len false tt
            (ap (λ (x : Pc T). move o p Call.len false x t) here ∙ first) in
        let here1 : pc1 k ≡ q' = update_self pc k q' in
        (
          update pc1 k q'',
          move-Inv o p fits few inv1 lt Call.len false tt
              (ap (λ (x : Pc T). move o p Call.len false x u) here1 ∙ second),
          update_self pc1 k q'',
        )

    -- A round that meets an index.
    acquired :
        (init : Detached → T) (s : ℕ) {t : Table Cell} {pc : ℕ → Pc T} (k : ℕ)
        → Inv o p n t pc
        → k < n
        → pc k ≡ acquiring init
        → t.readonly.slot (place p t.volatile.next_id) ≡ some s
        → s ≢ reserved p
        → Returns o p 3 (acquiring init) t
    acquired init s {t} k inv lt here e free =
        let at : Abstract = record { source = s } in
        let (pc', inv', here') =
          two_moves k (acquiring init) inv lt here (draw o p init t)
            (swap_hit o p init t s e free) in
        one_more o p (acquiring init) t _ _ (draw o p init t) (
          one_more o p (swapping init (next_of o p t)) (drawn o p t) _ _
            (swap_hit o p init t s e free) (fill_alone init at k inv' lt here'))

    pub acquire_alone :
        (d : ℕ) (init : Detached → T) {t : Table Cell} {pc : ℕ → Pc T} (k : ℕ)
        → Inv o p n t pc
        → k < n
        → pc k ≡ acquiring init
        → Shows p t (probe p t.volatile.next_id d)
        → Returns o p (d + d + 3) (acquiring init) t
    acquire_alone zero init {t} k inv lt here (s, shown, free) =
        let e : t.readonly.slot (place p t.volatile.next_id) ≡ some s =
          rw (advance_zero t.volatile.next_id inv.next_small) at shown in
        acquired init s k inv lt here e free
    acquire_alone (suc d) init {t} k inv lt here shows =
        let (old, e, word) =
          inv.slot_init (place p t.volatile.next_id) (place-lt p fits t.volatile.next_id) in
        elim (ℕ_discrete old (reserved p)) [
          | yes empty ↦
              let e' : t.readonly.slot (place p t.volatile.next_id) ≡ some (reserved p) =
                e ∙ ap some empty in
              let shows' : Shows p (after p t) (probe p (after p t).volatile.next_id d) =
                rw (after-next_id p t, advance-suc t.volatile.next_id d)
                  (after-Shows p t (probe p t.volatile.next_id (suc d)) e' shows) in
              let (pc', inv', here') =
                two_moves k (acquiring init) inv lt here (draw o p init t)
                  (swap_miss o p init t e') in
              within o p (acquiring init) t (omega arith) (
                one_more o p (acquiring init) t _ _ (draw o p init t) (
                  one_more o p (swapping init (next_of o p t)) (drawn o p t) _ _
                    (swap_miss o p init t e') (acquire_alone d init k inv' lt here' shows')))
          | no free ↦
              within o p (acquiring init) t (omega arith) (acquired init old k inv lt here e free)
        ]

    pub release_alone :
        (d next : ℕ) {t : Table Cell} {pc : ℕ → Pc T} (k : ℕ)
        → Inv o p n t pc
        → k < n
        → pc k ≡ releasing next
        → t.readonly.slot (probe p t.volatile.free_id d) ≡ some (reserved p)
        → Returns o p (d + d + 3) (releasing next) t
    release_alone zero next {t} k inv lt here reserved_at =
        let e : t.readonly.slot (place p t.volatile.free_id) ≡ some (reserved p) =
          rw (advance_zero t.volatile.free_id inv.free_small) at reserved_at in
        released o p next t e
    release_alone (suc d) next {t} k inv lt here reserved_at =
        let (old, e, word) =
          inv.slot_init (place p t.volatile.free_id) (place-lt p fits t.volatile.free_id) in
        elim (ℕ_discrete old (reserved p)) [
          | yes empty ↦
              within o p (releasing next) t (omega arith) (released o p next t (e ∙ ap some empty))
          | no full ↦
              let reserved_at' : (aimed o p t).readonly.slot
                    (probe p (aimed o p t).volatile.free_id d)
                  ≡ some (reserved p) =
                rw (aimed-free_id o p t, advance-suc t.volatile.free_id d, aimed_slot o p t)
                  reserved_at in
              let (pc', inv', here') =
                two_moves k (releasing next) inv lt here (aim o p next t)
                  (exchange_miss o p next old t e full) in
              within o p (releasing next) t (omega arith) (
                one_more o p (releasing next) t _ _ (aim o p next t) (
                  one_more o p (exchanging next (free_of o p t)) (aimed o p t) _ _
                    (exchange_miss o p next old t e full)
                    (release_alone d next k inv' lt here' reserved_at')))
        ]
