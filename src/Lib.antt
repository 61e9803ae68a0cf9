-- ===== src/Lib.antt =====
-- ptab: a table of entries with generational indices, over a fixed number of slots.
--
-- The program (paths from the repository's root)
--
-- - src/padded.rs and src/params.rs: the size of a cache line on each architecture, the capacity
--   of a table, and the constants derived from both: blocks (cache lines of the table), masks and
--   shifts.
-- - src/index.rs: an index in three forms. `Abstract` counts the allocations, `Concrete` is an
--   offset in the arrays, and `Detached` is what a client holds. Successive abstract indices are
--   spread over the cache lines.
-- - src/array.rs: the arrays, one element per slot. src/reclaim: the cells, which hold a value or
--   none, over sdd::AtomicOwned or over a pointer to a box that is freed with the table only.
-- - src/table.rs: the table. An array of cells holds the values; a ring of as many slots holds
--   the free indices, and `RESERVED` where an index is in use. `insert` counts an entry
--   (`reserve_slot`), takes an index out of the ring (`acquire_slot`) and fills the cell;
--   `remove` empties the cell and puts the index of the next generation back (`release_slot`).
--   `WeakKeys`, `Drop` and `Debug` walk the cells.
-- - src/public.rs: `PTab`, which wraps the table.
--
-- The development
--
-- - Common: tests on numbers, operations on words of w bits with their wrap-around, fields and
--   masks, the state of code that can fault, and families indexed by numbers.
-- - Params: Enum, Capacity, Rounding and Valid (src/params.rs: the capacities, the rounding of
--   `Capacity::new`, and the check of `new_unchecked`), Target (src/padded.rs), Derived, Geometry
--   and Strict (the constants of `ParamsExt`, these as powers of two, and their overflow).
-- - Index: Defs are the conversions of src/index.rs under their names; Fields, RoundTrip, Places,
--   Bounds and Order are about them.
-- - Array, Reclaim.Owned, Reclaim.Sdd, Reclaim.Leak: src/array.rs and src/reclaim. Array has the
--   elements by offset, Array.Buffer their allocation. AtomicOwned is a parameter: a record of
--   the operations of sdd that the crate calls, with the laws it relies on. The cells of leak.rs
--   are pointers to boxes; Leak.Memory has several cells with the memory of their boxes, and the
--   same cells over sdd; Sound, Drops, Kept and Agree compare them.
-- - Table: State (the fields and the atomic steps), Slots (the ring), Ops (the operations of
--   `Table`), Keys (`WeakKeys`, `Drop`, the entries of `Debug`), Weak (a walk of `WeakKeys` while
--   the table changes). View has the invariant `IsValid` and the values that a client sees. The
--   other modules are proofs: Probe, Acquire, Release and Reserve on the loops of the ring,
--   Queue, Dequeue, Enqueue and Fresh on its order, Insertion and Removal on the invariant,
--   Create, Insert, Remove, Lookup, Teardown, Iteration and Walk on the operations, Generations,
--   Period and Stale on the indices of a slot.
-- - Public: `PTab`. Spec: what a client may rely on when calls come one after another, as steps
--   on a map from slots to values. Refine: the calls of `PTab` against these steps.
-- - Concurrent: calls of several threads. System has `move`, one atomic operation of a thread with
--   the local code up to the next, and the states that moves in any order reach; Effect has the
--   turns of the specification that such moves may be, and the log of a run, with the thread, the
--   call and the state after each move. The invariant (Invariant) says who has the use of each
--   slot (Ownership): a place of the ring, the cell, or a thread. Start, Counters, Lookups, Swap,
--   Exchange, Fill and Evict have a lemma for each move, by way of Moved, Calm, Ring and Cells,
--   and Safety puts them together. Iteration has a walk over the keys at the same time. Alone,
--   Loops and Progress are on a thread that moves while the others stand. LockFree is on all
--   threads that move in any order: its Moves are the five that keep a call in a loop, Watch and
--   Targets the place of the ring that a loop comes to, and Potential, Steps, Draws and Bound
--   count how many such moves there are until a call returns (Returns). Delayed is on operations
--   that only read and see what was there before, with a log that names the state that was seen:
--   Loads and Runs. Sequential, Calls, Removes and Equivalence compare it with the operations of
--   Table and PTab, which have the same steps in loops with fuel. Permits is on the steps on
--   `entries` alone, where a removal gives back any permit that is out.
-- - Examples: a table of 64 slots on x86_64, with exchanges that fail twice, two threads on it,
--   and cells over boxes.
--
-- How the code is read
--
-- - A `usize` is a number below 2 to the width of a pointer, which is a parameter with the
--   architecture; `u32` arithmetic wraps at 2 to the 32. Undefined behaviour (a cell out of
--   bounds or not initialised) and a loop without fuel are `none`.
-- - Each atomic operation is one step on the state of the table. With several threads, their
--   number and the length of the table are together below 2 to the 32, so that `entries` does not
--   wrap. A `compare_exchange_weak` that fails for no reason does so as a parameter `WeakCas`
--   says, for the attempts of one call; it is called reliable if none fails from attempt `bound`
--   on, without which the loops of the code need not end.
-- - Fuel: `acquire_slot` has as many rounds as the table has slots, since `next_id` meets each
--   slot once in so many steps; `release_slot` has `bound` rounds more; the loop that undoes a
--   count has `bound + 1`.
-- - `FitsLine`: the table has at least the slots of one cache line. The build does not check it.
--
-- Not modelled
--
-- - Memory orders as such. Whatever changes `entries`, a counter, a place of the ring or a cell
--   is one operation that reads and writes it, so each of these has one sequence of contents; in
--   Concurrent each such operation takes the last, in the order of the steps, which takes for
--   granted that no operation sees one that comes to depend on it. Operations that only read may
--   see any earlier contents in Delayed, whatever their order; which of these they may not see
--   any more is not modelled, and in the other modules of Concurrent they see the last. A closure
--   of `write` that calls the table, and, in Concurrent, one that leaves no value. Outside of
--   Concurrent a call runs alone.
-- - Guards and the freeing of memory by sdd; over sdd a loaded value is seen as the value.
-- - A failed allocation, which ends the process; the text that `Debug` and `Display` print;
--   marker traits; the shims for loom and shuttle; tests.
pub mod Common
pub mod Params
pub mod Index
pub mod Array
pub mod Reclaim
pub mod Table
pub mod Public
pub mod Spec
pub mod Refine
pub mod Concurrent
pub mod Examples
