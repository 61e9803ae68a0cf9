-- ===== src/Concurrent/Permits.antt =====
-- src/table.rs: `reserve_slot` and the decrement of `release_slot` by several threads at once. Each
-- atomic operation on `entries` is a step, and the steps of the threads come in any order.
use ptab.Common.{
  ℕ, suc, ◌+◌, ◌^◌, ◌≤◌, ◌<◌, ◌≡◌, refl, ap, arith, Bool, true, false, Option, none, some, ltb,
  update, bit, count, count-change, count-none, count-le,
}
use ptab.Common.Word.{wrapping_add, wrapping_sub}
use ptab.Params.Capacity.{as_u32}
use ptab.Params.Derived.{Params, length_usize}
use ptab.Params.Geometry.{length_usize-bounds}
use ptab.Reclaim.Owned.{AtomicOwned}
use ptab.Table.Create.{new_counters}
use ptab.Table.State.{
  Table, new, CasResult, ok, err, incr_entries, decr_entries, swap_entries, load_entries,
}
use ptab.Table.View.{held_back}
use ptab.Table.Reserve.{as_u32-length}

-- Where a thread is: outside of `reserve_slot` or with a permit, or in the loop that takes an
-- increment back, with the value that it last saw.
pub data Phase : Type 0 where
  outside : Phase
  undoing : ℕ → Phase

abbrev pub is_undoing : Phase → Bool
is_undoing outside = false
is_undoing (undoing _) = true

-- How many of the threads are in that loop.
abbrev pub waiting : ℕ → (ℕ → Phase) → ℕ
waiting threads phases = count (λ i. is_undoing (phases i)) threads

-- One thread moves.
waiting-update :
    (threads : ℕ) (phases : ℕ → Phase) (i : ℕ) (next : Phase)
    → i < threads
    → waiting threads (update phases i next) + bit (is_undoing (phases i))
      ≡ waiting threads phases + bit (is_undoing next)
waiting-update threads phases i next lt = ground (
  arith,
  count-change (λ j. is_undoing (update phases i next j)) (λ j. is_undoing (phases j)) threads i lt
      (λ j _ ne. ground arith),
)

module _ {Cell : Type 0} where
  abbrev value_of : Option (ℕ × Table Cell) → ℕ
  value_of none = 0
  value_of (some (x, u)) = x

  abbrev entries_after : {A : Type 0} → Option (A × Table Cell) → ℕ
  entries_after none = 0
  entries_after (some (x, u)) = load_entries u

  abbrev has_swapped : Option (CasResult × Table Cell) → Bool
  has_swapped none = false
  has_swapped (some (ok _, u)) = true
  has_swapped (some (err _, u)) = false

  swap_ok :
      (fails : Bool) (current updated old : ℕ) (t u : Table Cell)
      → swap_entries fails current updated t ≡ some (ok old, u)
      → (load_entries t ≡ current) × (load_entries u ≡ updated)
  unfolding swap_entries
  swap_ok fails current updated old t u e =
      (ground (arith, ap has_swapped e), ground (arith, ap has_swapped e, ap entries_after e))

  swap_err :
      (fails : Bool) (current updated next : ℕ) (t u : Table Cell)
      → swap_entries fails current updated t ≡ some (err next, u)
      → load_entries u ≡ load_entries t
  unfolding swap_entries
  swap_err fails current updated next t u e = ground (arith, ap has_swapped e, ap entries_after e)

-- A table that `threads` threads share. `permits` counts those that were granted and not given back
-- by a removal, and the entry that is held back at the largest capacity.
pub record Config (Cell : Type 0) : Type 0 where
  pub table : Table Cell
  pub permits : ℕ
  pub phases : ℕ → Phase

module _ {Cell : Type 0} (p : Params) (threads : ℕ) where
  pub data Step (c : Config Cell) : Config Cell → Type 0 where
    granted :
        {i prev : ℕ} {u : Table Cell}
        → i < threads
        → c.phases i ≡ outside
        → incr_entries c.table ≡ some (prev, u)
        → ltb prev (as_u32 p.length) ≡ true
        → Step c (record { table = u; permits = suc c.permits; phases = c.phases })
    refused :
        {i prev : ℕ} {u : Table Cell}
        → i < threads
        → c.phases i ≡ outside
        → incr_entries c.table ≡ some (prev, u)
        → ltb prev (as_u32 p.length) ≡ false
        → Step c (record {
          table = u;
          permits = c.permits;
          phases = update c.phases i (undoing (wrapping_add 32 prev 1));
        })
    undone :
        {i current old : ℕ} {u : Table Cell} (fails : Bool)
        → i < threads
        → c.phases i ≡ undoing current
        → swap_entries fails current (wrapping_sub 32 current 1) c.table ≡ some (ok old, u)
        → Step c (record { table = u; permits = c.permits; phases = update c.phases i outside })
    retried :
        {i current next : ℕ} {u : Table Cell} (fails : Bool)
        → i < threads
        → c.phases i ≡ undoing current
        → swap_entries fails current (wrapping_sub 32 current 1) c.table ≡ some (err next, u)
        → Step c
            (record { table = u; permits = c.permits; phases = update c.phases i (undoing next) })
    released :
        {prev k : ℕ} {u : Table Cell}
        → c.permits ≡ suc k
        → decr_entries c.table ≡ some (prev, u)
        → Step c (record { table = u; permits = k; phases = c.phases })

  pub data Run (c : Config Cell) : Config Cell → Type 0 where
    start : Run c c
    more : {d e : Config Cell} → Run c d → Step d e → Run c e

  -- `entries` is the number of permits and of increments that are still to be taken back.
  pub record IsCounted (c : Config Cell) : Type 0 where
    pub entries : load_entries c.table ≡ c.permits + waiting threads c.phases
    pub within : c.permits ≤ length_usize p

  module _ (few : length_usize p + threads < 2 ^ 32) where
    Step-IsCounted : {c d : Config Cell} → IsCounted c → Step c d → IsCounted d
    unfolding incr_entries decr_entries
    Step-IsCounted {c} inv (granted {i} {prev} {u} lt at run space) =
        let prev_e : load_entries c.table ≡ prev = ap value_of run in
        let after : wrapping_add 32 (load_entries c.table) 1 ≡ load_entries u =
          ap entries_after run in
        let room : prev < length_usize p = ground (arith, space, as_u32-length p) in
        record {
          entries = omega (arith, inv.entries, after, room, prev_e, few);
          within = omega (arith, inv.entries, room, prev_e);
        }
    Step-IsCounted {c} inv (refused {i} {prev} {u} lt at run full) =
        let after : wrapping_add 32 (load_entries c.table) 1 ≡ load_entries u =
          ap entries_after run in
        let moved = waiting-update threads c.phases i (undoing (wrapping_add 32 prev 1)) lt in
        record {
          entries = omega (
            arith,
            inv.entries,
            inv.within,
            after,
            few,
            moved,
            count-le (λ j. is_undoing (update c.phases i (undoing (wrapping_add 32 prev 1)) j))
                threads,
            ap (λ (ph : Phase). bit (is_undoing ph)) at,
          );
          within = inv.within;
        }
    Step-IsCounted {c} inv (undone {i} {current} {old} {u} fails lt at run) =
        let (was, now) = swap_ok fails current (wrapping_sub 32 current 1) old c.table u run in
        let moved = waiting-update threads c.phases i outside lt in
        record {
          entries = omega (
            arith,
            inv.entries,
            inv.within,
            few,
            moved,
            was,
            now,
            count-le (λ j. is_undoing (c.phases j)) threads,
            ap (λ (ph : Phase). bit (is_undoing ph)) at,
          );
          within = inv.within;
        }
    Step-IsCounted {c} inv (retried {i} {current} {next} {u} fails lt at run) =
        let same = swap_err fails current (wrapping_sub 32 current 1) next c.table u run in
        let moved = waiting-update threads c.phases i (undoing next) lt in
        record {
          entries = omega (
            arith,
            inv.entries,
            inv.within,
            few,
            moved,
            same,
            count-le (λ j. is_undoing (c.phases j)) threads,
            ap (λ (ph : Phase). bit (is_undoing ph)) at,
          );
          within = inv.within;
        }
    Step-IsCounted {c} inv (released {prev} {k} {u} e run) =
        let after : wrapping_sub 32 (load_entries c.table) 1 ≡ load_entries u =
          ap entries_after run in
        record {
          entries = omega (
            arith,
            inv.entries,
            inv.within,
            few,
            after,
            e,
            count-le (λ j. is_undoing (c.phases j)) threads,
          );
          within = omega (arith, inv.within, e);
        }

    Run-IsCounted : {c d : Config Cell} → IsCounted c → Run c d → IsCounted d
    Run-IsCounted inv start = inv
    Run-IsCounted inv (more run step) = Step-IsCounted (Run-IsCounted inv run) step

-- A new table before any call.
abbrev pub initial : {T Cell : Type 0} → AtomicOwned T Cell → Params → Config Cell
initial o p = record { table = new o p; permits = held_back p; phases = λ _. outside }

initial-IsCounted :
    {T Cell : Type 0} (o : AtomicOwned T Cell) (p : Params) (threads : ℕ)
    → IsCounted p threads (initial o p)
initial-IsCounted o p threads = record {
  entries = omega (arith, (new_counters o p).0, count-none (λ _. false) threads (λ i lt. refl));
  within = ground (arith, length_usize-bounds p);
}

-- From a new table, after any interleaving of the atomic steps on entries by a number of threads
-- that, added to the length, is below 2 to the 32, at most as many permits are out as there are
-- slots, the one held back at the largest capacity included, and entries is the number of permits
-- and of threads that have still to take an increment back. A permit is given back at most once.
pub permits_bounded :
    {T Cell : Type 0} (o : AtomicOwned T Cell) (p : Params) (threads : ℕ) {d : Config Cell}
    → length_usize p + threads < 2 ^ 32
    → Run p threads (initial o p) d
    → (d.permits ≤ length_usize p) × (load_entries d.table ≡ d.permits + waiting threads d.phases)
permits_bounded o p threads few run =
    let counted = Run-IsCounted p threads few (initial-IsCounted o p threads) run in
    (counted.within, counted.entries)
