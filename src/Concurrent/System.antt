-- ===== src/Concurrent/System.antt =====
-- src/table.rs: `write` and `remove` by several threads at once. Each atomic operation on shared
-- memory is one step, and the steps of the threads come in any order.
use ptab.Common.{
  ℕ, ◌<◌, ◌≡◌, Bool, true, false, Option, none, some, ltb, ◌==◌, if◌then◌else◌, update, State, pure,
  ◌>>=◌, ◌>>◌,
}
use ptab.Common.Word.{wrapping_add, wrapping_sub}
use ptab.Params.Capacity.{as_u32}
use ptab.Params.Derived.{Params}
use ptab.Index.Defs.{
  Detached, Abstract, detached_to_abstract, detached_to_concrete, abstract_to_concrete,
  abstract_to_detached,
}
use ptab.Reclaim.Owned.{AtomicOwned}
use ptab.Table.State.{
  Table, reserved, ok, err, incr_entries, decr_entries, swap_entries, fetch_next_id, fetch_free_id,
  swap_slot, exchange_slot, write_cell, evict_cell,
}
use ptab.Table.Slots.{generate_next_slot}
use ptab.Table.Ops.{read, exists, len}
use ptab.Spec.{Call, Reply, IsWordCall}

-- Where a thread stands between two atomic operations, with the local variables that are live.
pub data Pc (T : Type 0) : Type 0 where
  idle : (last : Option (Reply T)) → Pc T  -- with what the call before returned
  undoing : (current : ℕ) → Pc T  -- the `while` of `reserve_slot`
  acquiring : (init : Detached → T) → Pc T  -- head of the `loop` of `acquire_slot`
  swapping : (init : Detached → T) (abstract_idx : Abstract) → Pc T  -- before its `swap`
  holding : (init : Detached → T) (abstract_idx : Abstract) → Pc T  -- in `write`, with an index
  releasing : (next : ℕ) → Pc T  -- the `while` of `release_slot`
  exchanging : (next : ℕ) (free : Abstract) → Pc T  -- before its `compare_exchange_weak`
  leaving : Pc T  -- before the decrement of `release_slot`

module _ {T Cell : Type 0} (o : AtomicOwned T Cell) (p : Params) where
  -- `reserve_slot` up to its loop.
  abbrev start_write : (Detached → T) → State (Table Cell) (Pc T)
  start_write init = do
    prev ← incr_entries
    pure (if ltb prev (as_u32 p.length) then acquiring init else undoing (wrapping_add 32 prev 1))

  -- A lookup is one load.
  abbrev look : {A : Type 0} → (A → Reply T) → (Table Cell → Option A) → State (Table Cell) (Pc T)
  look reply f t = elim (f t) [ none ↦ none | some a ↦ some (idle (some (reply a)), t) ]

  -- One atomic operation and the local code up to the next one. `call` is read when the thread
  -- is idle; `fails` says that a weak exchange fails for no reason. `none` is undefined behaviour.
  unfoldable pub move : Call T → Bool → Pc T → State (Table Cell) (Pc T)
  move (Call.insert value) fails (idle last) = start_write (λ _. value)
  move (Call.write init) fails (idle last) = start_write init
  move (Call.read key) fails (idle last) = look Reply.value (read o p key)
  move (Call.exists key) fails (idle last) = look Reply.present (exists o p key)
  move Call.len fails (idle last) = look Reply.count (λ t. some (len p t))
  move (Call.remove key) fails (idle last) = do
    present ← evict_cell o (detached_to_concrete p key)
    pure (
        if present
        then releasing (generate_next_slot p (detached_to_abstract p key))
        else idle (some (Reply.removed false)))
  move call fails (undoing current) = do
    result ← swap_entries fails current (wrapping_sub 32 current 1)
    elim result [ ok _ ↦ pure (idle (some (Reply.index none))) | err next ↦ pure (undoing next) ]
  move call fails (acquiring init) = do
    abstract_idx ← fetch_next_id
    pure (swapping init abstract_idx)
  move call fails (swapping init abstract_idx) = do
    result ← swap_slot (abstract_to_concrete p abstract_idx) (reserved p)
    pure
        (if result == reserved p then acquiring init else holding init (record { source = result }))
  move call fails (holding init abstract_idx) = do
    write_cell o (abstract_to_concrete p abstract_idx)
        (some (init (abstract_to_detached p abstract_idx)))
    pure (idle (some (Reply.index (some (abstract_to_detached p abstract_idx)))))
  move call fails (releasing next) = do free ← fetch_free_id; pure (exchanging next free)
  move call fails (exchanging next free) = do
    stored ← exchange_slot fails (abstract_to_concrete p free) (reserved p) next
    pure (if stored then leaving else releasing next)
  move call fails leaving = do prev ← decr_entries; pure (idle (some (Reply.removed true)))

-- A table with the threads that share it.
pub record System (T Cell : Type 0) : Type 0 where
  pub table : Table Cell
  pub pc : ℕ → Pc T

module _ {T Cell : Type 0} (o : AtomicOwned T Cell) (p : Params) (threads : ℕ) where
  -- Thread `k` moves.
  pub data Step (s : System T Cell) : System T Cell → Type 0 where
    pick :
        (k : ℕ) (call : Call T) (fails : Bool) {q : Pc T} {u : Table Cell}
        → k < threads
        → IsWordCall p call
        → move o p call fails (s.pc k) s.table ≡ some (q, u)
        → Step s (record { table = u; pc = update s.pc k q })

  pub data Reach (s : System T Cell) : System T Cell → Type 0 where
    start : Reach s s
    later : {u v : System T Cell} → Reach s u → Step u v → Reach s v

-- Threads that have made no call, and a table.
abbrev pub fresh_threads : {T : Type 0} → ℕ → Pc T
fresh_threads k = idle none

abbrev pub initial : {T Cell : Type 0} → Table Cell → System T Cell
initial t = record { table = t; pc = fresh_threads }

-- No thread is in a call.
abbrev pub IsQuiescent : {T : Type 0} → (ℕ → Pc T) → Type 0
IsQuiescent {T = T} pc = (k : ℕ) → (last : Option (Reply T)) × (pc k ≡ idle last)
