-- ===== src/Table/Removal.antt =====
-- src/table.rs: the invariant, when a slot is emptied and its next index goes into the ring.
use ptab.Common.{
  ℕ, ◌+◌, ◌^◌, ◌<◌, ◌≡◌, ◌≢◌, ap, ◌∙◌, sym, arith, none, some, ◌==◌, if◌then◌else◌, count,
  count-change, ◌⊎◌, inl, inr,
}
use native.Mathlib.Decide.{ℕ_discrete}
use ptab.Params.Derived.{Params, length_usize}
use ptab.Index.Fields.{IsWord}
use ptab.Reclaim.Owned.{AtomicOwned}
use ptab.Table.State.{Table, reserved}
use ptab.Table.View.{place, value_at, occupied, taken, population, IsValid}

module _ {T Cell : Type 0} (o : AtomicOwned T Cell) (p : Params) where
  -- `u` is `t` with slot `c` emptied, and index `next` for it stored in slot `target` of the ring.
  pub record Removal (t u : Table Cell) (c next : ℕ) : Type 0 where
    pub value : T
    pub held : value_at o t c ≡ some value
    pub slot_lt : c < length_usize p
    pub target : ℕ
    pub target_lt : target < length_usize p
    pub was : t.readonly.slot target ≡ some (reserved p)
    pub slots : (i : ℕ) → u.readonly.slot i ≡ (if target == i then some next else t.readonly.slot i)
    pub emptied : Cell
    pub emptied_value : o.load emptied ≡ none
    pub cells : (x : ℕ) → u.readonly.cells x ≡ (if c == x then some emptied else t.readonly.cells x)
    pub index : next ≢ reserved p
    pub index_word : IsWord p next
    pub index_place : place p next ≡ c
    pub entries : u.volatile.entries + 1 ≡ t.volatile.entries
    pub next_id : u.volatile.next_id ≡ t.volatile.next_id
    pub free_small : u.volatile.free_id < 2 ^ 32

  module _ {t u : Table Cell} {c next : ℕ} (valid : IsValid o p t)
      (change : Removal t u c next) where
    pub removed_value : (x : ℕ) → value_at o u x ≡ (if c == x then none else value_at o t x)
    removed_value x = ground (arith, change.cells x, change.emptied_value)

    removed_balance :
        (count (taken p u) (length_usize p) + 1 ≡ count (taken p t) (length_usize p))
        × (population o p u + 1 ≡ population o p t)
    unfolding population
    removed_balance = (
      ground (
        arith,
        count-change (taken p u) (taken p t) (length_usize p) change.target change.target_lt
            (λ j lt ne. ground (arith, change.slots j)),
        change.slots change.target,
        change.was,
        change.index,
      ),
      ground (
        arith,
        count-change (occupied o u) (occupied o t) (length_usize p) c change.slot_lt
            (λ j lt ne. ground (arith, removed_value j)),
        removed_value c,
        change.held,
      ),
    )

    pub population_removed : population o p u + 1 ≡ population o p t
    population_removed = removed_balance.1

    cell_after : (x : ℕ) → x < length_usize p → (y : Cell) × (u.readonly.cells x ≡ some y)
    cell_after x h = elim (ℕ_discrete c x) [
      | yes here ↦ (change.emptied, ground (arith, change.cells x))
      | no other ↦ let (y, e) = valid.cell_init x h in (y, ground (arith, change.cells x))
    ]

    slot_after : (i : ℕ) → i < length_usize p → (r : ℕ) × (u.readonly.slot i ≡ some r) × IsWord p r
    slot_after i h = elim (ℕ_discrete change.target i) [
      | yes here ↦ (next, ground (arith, change.slots i), change.index_word)
      | no other ↦
          let (r, e, word) = valid.slot_init i h in (r, ground (arith, change.slots i), word)
    ]

    -- What a slot of the ring shows afterwards it showed before, but for the index put in.
    slot_origin :
        (i r : ℕ)
        → u.readonly.slot i ≡ some r
        → ((i ≡ change.target) × (r ≡ next)) ⊎ (t.readonly.slot i ≡ some r)
    slot_origin i r e = elim (ℕ_discrete change.target i) [
      | yes here ↦ inl (sym here, ground (arith, change.slots i))
      | no other ↦ inr (ground (arith, change.slots i))
    ]

    vacant_after :
        (i r : ℕ)
        → i < length_usize p
        → u.readonly.slot i ≡ some r
        → r ≢ reserved p
        → value_at o u (place p r) ≡ none
    vacant_after i r h e ne = elim (slot_origin i r e) [
      | inl (here, same) ↦
          let at_c : place p r ≡ c = ap (place p) same ∙ change.index_place in
          ground (arith, removed_value (place p r))
      | inr old ↦ ground (arith, removed_value (place p r), valid.vacant i r h old ne)
    ]

    -- The slot that is emptied had no index in the ring.
    no_clash :
        (j r : ℕ) → j < length_usize p → t.readonly.slot j ≡ some r → r ≢ reserved p → place p r ≢ c
    no_clash j r h e ne clash =
        absurd (cc (valid.vacant j r h e ne, change.held, ap (value_at o t) clash))

    distinct_after :
        (i j r q : ℕ)
        → i < length_usize p
        → j < length_usize p
        → u.readonly.slot i ≡ some r
        → u.readonly.slot j ≡ some q
        → r ≢ reserved p
        → q ≢ reserved p
        → place p r ≡ place p q
        → i ≡ j
    distinct_after i j r q hi hj ei ej ni nj e = elim (slot_origin i r ei) [
      | inl (here, same) ↦ elim (slot_origin j q ej) [
        | inl (here', same') ↦ here ∙ sym here'
        | inr old ↦ absurd (no_clash j q hj old nj (sym e ∙ ap (place p) same ∙ change.index_place))
      ]
      | inr old ↦ elim (slot_origin j q ej) [
        | inl (here', same') ↦
            absurd (no_clash i r hi old ni (e ∙ ap (place p) same' ∙ change.index_place))
        | inr old' ↦ valid.distinct i j r q hi hj old old' ni nj e
      ]
    ]

    pub Removal-IsValid : IsValid o p u
    Removal-IsValid = record {
      cell_init = cell_after;
      slot_init = slot_after;
      vacant = vacant_after;
      distinct = distinct_after;
      balance = omega (arith, removed_balance, valid.balance);
      counted = omega (arith, change.entries, valid.counted, removed_balance);
      room = omega (arith, change.entries, valid.room);
      next_small = rw change.next_id valid.next_small;
      free_small = change.free_small;
    }
