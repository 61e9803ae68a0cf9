-- ===== src/Table/Insertion.antt =====
-- src/table.rs: the invariant, when an index leaves the ring and its slot is filled.
use ptab.Common.{
  ℕ, ◌+◌, ◌^◌, ◌<◌, ◌≡◌, ◌≢◌, sym, arith, none, some, ◌==◌, if◌then◌else◌, count, count-change,
  pow-pos,
}
use native.Mathlib.Decide.{ℕ_discrete}
use ptab.Params.Target.{word_bits}
use ptab.Params.Derived.{Params, length_usize}
use ptab.Index.Fields.{IsWord}
use ptab.Reclaim.Owned.{AtomicOwned}
use ptab.Table.State.{Table, reserved}
use ptab.Table.View.{place, value_at, occupied, taken, population, IsValid}

module _ {T Cell : Type 0} (o : AtomicOwned T Cell) (p : Params) where
  -- `u` is `t` with index `s` taken from slot `from` of the ring, and `v` stored at its slot.
  pub record Insertion (t u : Table Cell) (s : ℕ) (v : T) : Type 0 where
    pub from : ℕ
    pub from_lt : from < length_usize p
    pub was : t.readonly.slot from ≡ some s
    pub free : s ≢ reserved p
    pub slots :
        (i : ℕ) → u.readonly.slot i ≡ (if from == i then some (reserved p) else t.readonly.slot i)
    pub stored : Cell
    pub stored_value : o.load stored ≡ some v
    pub cells :
        (c : ℕ) → u.readonly.cells c ≡ (if place p s == c then some stored else t.readonly.cells c)
    pub place_lt : place p s < length_usize p
    pub entries : u.volatile.entries ≡ t.volatile.entries + 1
    pub spare : t.volatile.entries < length_usize p
    pub next_small : u.volatile.next_id < 2 ^ 32
    pub free_id : u.volatile.free_id ≡ t.volatile.free_id

  module _ {t u : Table Cell} {s : ℕ} {v : T} (valid : IsValid o p t)
      (change : Insertion t u s v) where
    -- The slot of the index was empty.
    pub inserted_vacant : value_at o t (place p s) ≡ none
    inserted_vacant = valid.vacant change.from s change.from_lt change.was change.free

    pub inserted_value :
        (c : ℕ) → value_at o u c ≡ (if place p s == c then some v else value_at o t c)
    inserted_value c = ground (arith, change.cells c, change.stored_value)

    slot_kept :
        (i r : ℕ)
        → u.readonly.slot i ≡ some r
        → r ≢ reserved p
        → (t.readonly.slot i ≡ some r) × (i ≢ change.from)
    slot_kept i r e ne = ground (arith, change.slots i)

    inserted_balance :
        (count (taken p u) (length_usize p) ≡ count (taken p t) (length_usize p) + 1)
        × (population o p u ≡ population o p t + 1)
    unfolding population
    inserted_balance = (
      ground (
        arith,
        count-change (taken p u) (taken p t) (length_usize p) change.from change.from_lt
            (λ j lt ne. ground (arith, change.slots j)),
        change.slots change.from,
        change.was,
        change.free,
      ),
      ground (
        arith,
        count-change (occupied o u) (occupied o t) (length_usize p) (place p s) change.place_lt
            (λ j lt ne. ground (arith, inserted_value j)),
        inserted_value (place p s),
        inserted_vacant,
      ),
    )

    pub population_inserted : population o p u ≡ population o p t + 1
    population_inserted = inserted_balance.1

    cell_after : (c : ℕ) → c < length_usize p → (x : Cell) × (u.readonly.cells c ≡ some x)
    cell_after c h = elim (ℕ_discrete (place p s) c) [
      | yes here ↦ (change.stored, ground (arith, change.cells c))
      | no other ↦ let (x, e) = valid.cell_init c h in (x, ground (arith, change.cells c))
    ]

    slot_after : (i : ℕ) → i < length_usize p → (r : ℕ) × (u.readonly.slot i ≡ some r) × IsWord p r
    slot_after i h = elim (ℕ_discrete change.from i) [
      | yes here ↦
          (reserved p, ground (arith, change.slots i), omega (arith, pow-pos (word_bits p.target)))
      | no other ↦
          let (r, e, word) = valid.slot_init i h in (r, ground (arith, change.slots i), word)
    ]

    vacant_after :
        (i r : ℕ)
        → i < length_usize p
        → u.readonly.slot i ≡ some r
        → r ≢ reserved p
        → value_at o u (place p r) ≡ none
    vacant_after i r h e ne =
        let (kept, apart) = slot_kept i r e ne in
        elim (ℕ_discrete (place p s) (place p r)) [
          | yes clash ↦ absurd (
              apart (
                sym (
                  valid.distinct change.from i s r change.from_lt h change.was kept change.free ne
                    clash)))
          | no fine ↦ ground (arith, inserted_value (place p r), valid.vacant i r h kept ne)
        ]

    pub Insertion-IsValid : IsValid o p u
    Insertion-IsValid = record {
      cell_init = cell_after;
      slot_init = slot_after;
      vacant = vacant_after;
      distinct = λ i j r q hi hj ei ej ni nj e.
          valid.distinct i j r q hi hj (slot_kept i r ei ni).0 (slot_kept j q ej nj).0 ni nj e;
      balance = omega (arith, inserted_balance, valid.balance);
      counted = omega (arith, change.entries, valid.counted, inserted_balance);
      room = omega (arith, change.entries, change.spare);
      next_small = change.next_small;
      free_small = rw change.free_id valid.free_small;
    }
