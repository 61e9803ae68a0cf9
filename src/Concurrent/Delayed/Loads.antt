-- ===== src/Concurrent/Delayed/Loads.antt =====
-- src/table.rs: an operation that only reads, on the table of any state.
use ptab.Common.{ℕ, ◌+◌, ◌^◌, ◌<◌, ◌≡◌, refl, sym, subst, arith, true, some}
use ptab.Params.Derived.{Params, length_usize}
use ptab.Params.Geometry.{FitsLine}
use ptab.Reclaim.Owned.{AtomicOwned}
use ptab.Table.State.{Table, swap_entries, exchange_slot}
use ptab.Table.View.{value_at, occupied, place}
use ptab.Table.Probe.{place-lt}
use ptab.Table.Ops.{len}
use ptab.Table.Insert.{slot_of}
use ptab.Spec.{Call, Reply}
use ptab.Concurrent.System.{Pc, idle, undoing, releasing, exchanging, move}
use ptab.Concurrent.Effect.{tally, charged, view, Load, seen, failed, reads, checks, counts}
use ptab.Concurrent.Invariant.{permitted, IsSound, Inv}
use ptab.Concurrent.Ownership.{claim}
use ptab.Concurrent.Lookups.{read_value, exists_value, len_lem}
use ptab.Concurrent.Delayed.{is_load}

module _ {T Cell : Type 0} (o : AtomicOwned T Cell) (p : Params) where
  -- It leaves the table, and the thread with the same permit and the same slot.
  pub record Loaded (busy : ℕ) (t : Table Cell) (call : Call T) (q : Pc T) : Type 0 where
    pub next : Pc T
    pub run : move o p call true q t ≡ some (next, t)
    pub slot : claim p next ≡ claim p q
    pub sound : IsSound p q → IsSound p next
    pub call_goes_on : charged next ≡ charged q
    pub permit : permitted next ≡ permitted q
    pub effect : Load p busy (view o p t) call q next

module _ {T Cell : Type 0} (o : AtomicOwned T Cell) (p : Params) (fits : FitsLine p) {n : ℕ}
    (few : length_usize p + n < 2 ^ 32) {t : Table Cell} {pc : ℕ → Pc T}
    (inv : Inv o p n t pc) where
  pub loaded :
      (call : Call T) (q : Pc T) → is_load call q ≡ true → Loaded o p (tally charged n pc) t call q
  unfolding move swap_entries exchange_slot
  loaded call (undoing current) e = record {
    next = undoing t.volatile.entries;
    run = ground arith;
    slot = refl;
    sound = λ _. tt;
    call_goes_on = refl;
    permit = refl;
    effect = seen;
  }
  loaded call (exchanging next free) e =
      let (s, shows, word) = inv.slot_init (place p free.source) (place-lt p fits free.source) in
      record {
        next = releasing next;
        run = ground (arith, shows);
        slot = refl;
        sound = λ sound. sound;
        call_goes_on = refl;
        permit = refl;
        effect = failed;
      }
  loaded (Call.read key) (idle last) e = record {
    next = idle (some (Reply.value (value_at o t (slot_of p key))));
    run = ground (arith, read_value o p inv fits key);
    slot = refl;
    sound = λ _. tt;
    call_goes_on = refl;
    permit = refl;
    effect = reads refl;
  }
  loaded (Call.exists key) (idle last) e = record {
    next = idle (some (Reply.present (occupied o t (slot_of p key))));
    run = ground (arith, exists_value o p inv fits key);
    slot = refl;
    sound = λ _. tt;
    call_goes_on = refl;
    permit = refl;
    effect = checks refl;
  }
  loaded Call.len (idle last) e = record {
    next = idle (some (Reply.count (len p t)));
    run = refl;
    slot = refl;
    sound = λ _. tt;
    call_goes_on = refl;
    permit = refl;
    effect =
        subst
          (λ (x : ℕ).
            Load p (tally charged n pc) (view o p t) Call.len (idle last)
              (idle (some (Reply.count x))))
          (sym (len_lem o p inv few)) (counts refl);
  }
  loaded call q e = absurd cc
