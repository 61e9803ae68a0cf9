-- ===== src/Table/View.antt =====
-- src/table.rs: what a client sees of a table, and the invariant that ties it to the ring of free
-- indices.
use ptab.Common.{ℕ, ◌+◌, ◌^◌, ◌≤◌, ◌<◌, ◌≡◌, ◌≢◌, Bool, false, Option, none, some, ◌==◌, bit, count}
use ptab.Params.Derived.{Params, length_usize}
use ptab.Index.Defs.{abstract_to_concrete}
use ptab.Index.Fields.{IsWord}
use ptab.Reclaim.Owned.{AtomicOwned}
use ptab.Reclaim.Sdd.{is_some}
use ptab.Table.State.{Table, reserved, is_max}

-- The slot that a free index stands for.
abbrev pub place : Params → ℕ → ℕ
place p s = (abstract_to_concrete p (record { source = s })).source

-- Whether a slot of the ring holds no index.
abbrev pub is_reserved : Params → Option ℕ → Bool
is_reserved p none = false
is_reserved p (some s) = s == reserved p

module _ {T Cell : Type 0} (o : AtomicOwned T Cell) where
  abbrev pub content : Option Cell → Option T
  content none = none
  content (some cell) = o.load cell

  -- The value at a slot.
  abbrev pub value_at : Table Cell → ℕ → Option T
  value_at t c = content (t.readonly.cells c)

  abbrev pub occupied : Table Cell → ℕ → Bool
  occupied t c = is_some (value_at t c)

abbrev pub taken : {Cell : Type 0} → Params → Table Cell → ℕ → Bool
taken p t i = is_reserved p (t.readonly.slot i)

-- The permits that no call can get: one at the largest capacity.
abbrev pub held_back : Params → ℕ
held_back p = bit (is_max p)

-- The number of entries.
unfoldable pub population : {T Cell : Type 0} → AtomicOwned T Cell → Params → Table Cell → ℕ
population o p t = count (occupied o t) (length_usize p)

-- Between calls: every element of both arrays is initialised; a free index stands for an empty
-- slot, and no other free index for the same; as many slots of the ring are reserved as there are
-- entries; and `entries` counts these.
pub record IsValid {T Cell : Type 0} (o : AtomicOwned T Cell) (p : Params) (t : Table Cell)
    : Type 0 where
  pub cell_init : (c : ℕ) → c < length_usize p → (x : Cell) × (t.readonly.cells c ≡ some x)
  pub slot_init : (i : ℕ) → i < length_usize p → (s : ℕ) × (t.readonly.slot i ≡ some s) × IsWord p s
  pub vacant :
      (i s : ℕ)
      → i < length_usize p
      → t.readonly.slot i ≡ some s
      → s ≢ reserved p
      → value_at o t (place p s) ≡ none
  pub distinct :
      (i j s r : ℕ)
      → i < length_usize p
      → j < length_usize p
      → t.readonly.slot i ≡ some s
      → t.readonly.slot j ≡ some r
      → s ≢ reserved p
      → r ≢ reserved p
      → place p s ≡ place p r
      → i ≡ j
  pub balance : count (taken p t) (length_usize p) ≡ population o p t
  pub counted : t.volatile.entries ≡ held_back p + population o p t
  pub room : t.volatile.entries ≤ length_usize p
  pub next_small : t.volatile.next_id < 2 ^ 32
  pub free_small : t.volatile.free_id < 2 ^ 32
