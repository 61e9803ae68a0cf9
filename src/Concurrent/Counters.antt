-- ===== src/Concurrent/Counters.antt =====
-- src/table.rs: the moves on `entries`, `next_id` and `free_id`.
use ptab.Common.{
  ℕ, ◌+◌, ◌^◌, ◌<◌, ◌≡◌, inl, inr, refl, ap, subst, arith, Bool, true, not, ◌&&◌, none, some, ◌==◌,
  count-le, count-true, Bool-cases,
}
use ptab.Common.Word.{wrapping_add, wrapping_sub}
use ptab.Params.Derived.{Params, length_usize}
use ptab.Index.Defs.{Detached, Abstract}
use ptab.Reclaim.Owned.{AtomicOwned}
use ptab.Table.State.{Table, Volatile, decr_entries, swap_entries, fetch_next_id, fetch_free_id}
use ptab.Table.View.{value_at, population}
use ptab.Spec.{Call, Reply}
use ptab.Concurrent.System.{
  Pc, idle, undoing, acquiring, swapping, releasing, exchanging, leaving, move,
}
use ptab.Concurrent.Invariant.{IsSound, Inv}
use ptab.Concurrent.Effect.{
  charged, tally, view, Effect, seen, drawn, aimed, works, looks, refuses, leaves,
}
use ptab.Concurrent.Moved.{Moved}
use ptab.Concurrent.Calm.{Calm, Calm-Moved}

module _ {T Cell : Type 0} (o : AtomicOwned T Cell) (p : Params) where
  -- A move returns, and meets the conditions of `Moved`.
  pub record Advances (n : ℕ) (call : Call T) (fails : Bool) (t : Table Cell) (pc : ℕ → Pc T)
      (k : ℕ) (q : Pc T) : Type 0 where
    pub next : Pc T
    pub after : Table Cell
    pub run : move o p call fails q t ≡ some (next, after)
    pub moved : Moved o p t after pc k q next
    pub effect : Effect p (tally charged n pc) (view o p t) call q next (view o p after)

  abbrev pub with_volatile : Table Cell → Volatile → Table Cell
  with_volatile t v = record t { volatile = v }

  -- `entries` does not wrap.
  pub entries-lt :
      {n : ℕ} {t : Table Cell} {pc : ℕ → Pc T}
      → Inv o p n t pc
      → length_usize p + n < 2 ^ 32
      → t.volatile.entries < 2 ^ 32
  entries-lt {n} {t} {pc} inv few =
      omega (arith, inv.counted, inv.room, few, count-le (λ j. charged (pc j)) n)

  module _ {n : ℕ} {t : Table Cell} {pc : ℕ → Pc T} {k : ℕ} (inv : Inv o p n t pc) (lt : k < n)
      (few : length_usize p + n < 2 ^ 32) where
    pub still : (v : Volatile) → Calm o p t (with_volatile t v)
    still v = record { slots = λ i. refl; values = λ c. refl; cell_init = inv.cell_init }

    pub still_population : (v : Volatile) → population o p (with_volatile t v) ≡ population o p t
    unfolding population
    still_population v = refl

    pub still_view : (v : Volatile) → view o p (with_volatile t v) ≡ view o p t
    still_view v = λ i. record { values = value_at o t; size = still_population v i }

    -- A thread at work counts.
    entries-pos : charged (pc k) ≡ true → 0 < t.volatile.entries
    entries-pos e = omega (arith, inv.counted, count-true (λ j. charged (pc j)) n k lt e)

    pub undo :
        (call : Call T) (fails : Bool) (current : ℕ)
        → pc k ≡ undoing current
        → Advances n call fails t pc k (undoing current)
    unfolding move swap_entries
    undo call fails current here =
        let v : Volatile = record (t.volatile) { entries = wrapping_sub 32 current 1 } in
        elim (Bool-cases (t.volatile.entries == current && not fails)) [
          | inl hit ↦
              let same : t.volatile.entries ≡ current = ground arith in
              record {
                next = idle (some (Reply.index none));
                after = with_volatile t v;
                run = ground arith;
                moved =
                    Calm-Moved o p (idle (some (Reply.index none))) inv here (still v) refl tt
                      (omega (arith, same, entries-lt inv few, entries-pos (ap charged here)))
                      (inl (omega arith)) inv.next_small inv.free_small;
                effect = refuses (still_view v);
              }
          | inr miss ↦ record {
            next = undoing t.volatile.entries;
            after = t;
            run = ground arith;
            moved =
                Calm-Moved o p (undoing t.volatile.entries) inv here (still t.volatile) refl tt
                  (omega arith) (inl (omega arith)) inv.next_small inv.free_small;
            effect = looks (still_view t.volatile) seen;
          }
        ]

    pub acquire_next :
        (call : Call T) (fails : Bool) (init : Detached → T)
        → pc k ≡ acquiring init
        → Advances n call fails t pc k (acquiring init)
    unfolding move fetch_next_id
    acquire_next call fails init here =
        let v : Volatile = record (t.volatile) { next_id = wrapping_add 32 t.volatile.next_id 1 } in
        let at : Abstract = record { source = t.volatile.next_id } in
        record {
          next = swapping init at;
          after = with_volatile t v;
          run = ground arith;
          moved =
              Calm-Moved o p (swapping init at) inv here (still v) refl tt (omega arith)
                (inl (omega arith)) (omega arith) inv.free_small;
          effect = works (still_view v) drawn;
        }

    pub release_next :
        (call : Call T) (fails : Bool) (next : ℕ)
        → pc k ≡ releasing next
        → Advances n call fails t pc k (releasing next)
    unfolding move fetch_free_id
    release_next call fails next here =
        let v : Volatile = record (t.volatile) { free_id = wrapping_add 32 t.volatile.free_id 1 } in
        let at : Abstract = record { source = t.volatile.free_id } in
        record {
          next = exchanging next at;
          after = with_volatile t v;
          run = ground arith;
          moved =
              Calm-Moved o p (exchanging next at) inv here (still v) refl
                (subst (IsSound p) here (inv.sound k)) (omega arith) (inl (omega arith))
                inv.next_small (omega arith);
          effect = works (still_view v) aimed;
        }

    pub leave :
        (call : Call T) (fails : Bool) → pc k ≡ leaving → Advances n call fails t pc k leaving
    unfolding move decr_entries
    leave call fails here =
        let v : Volatile = record (t.volatile) { entries = wrapping_sub 32 t.volatile.entries 1 } in
        record {
          next = idle (some (Reply.removed true));
          after = with_volatile t v;
          run = ground arith;
          moved =
              Calm-Moved o p (idle (some (Reply.removed true))) inv here (still v) refl tt
                (omega (arith, entries-lt inv few, entries-pos (ap charged here)))
                (inl (omega arith)) inv.next_small inv.free_small;
          effect = leaves (still_view v);
        }
