-- ===== src/Concurrent/Delayed.antt =====
-- src/table.rs: the memory orders. Whatever changes the entries, a counter, a place of the ring or
-- a cell reads it and writes it in one operation, so each of them goes through one sequence of
-- contents, and each such operation takes the last. An operation that only reads, also an exchange
-- that fails, may see what was there before. The orders decide how late; here, at any time before.
use mathlib.Core.List.{List, [], ◌∷◌, Memᴰ}
use mathlib.Core.List
use ptab.Common.{ℕ, ◌<◌, ◌≡◌, Bool, true, false, Option, none, some, update}
use ptab.Params.Derived.{Params}
use ptab.Reclaim.Owned.{AtomicOwned}
use ptab.Table.State.{Table}
use ptab.Spec.{Call, IsWordCall}
use ptab.Concurrent.System.{Pc, idle, undoing, exchanging, move, System, Step, initial}
use ptab.Concurrent.Effect.{tally, charged, Load, SharedMap, shared, Turn, mover}
pub mod Loads
pub mod Runs

-- The next operation of the thread can be one that only reads.
abbrev pub is_load : {T : Type 0} → Call T → Pc T → Bool
is_load call (undoing _) = true
is_load call (exchanging _ _) = true
is_load (Call.read _) (idle _) = true
is_load (Call.exists _) (idle _) = true
is_load Call.len (idle _) = true
is_load call q = false

-- A state, and those before it, the last one first.
pub record History (S : Type 0) : Type 0 where
  pub now : S
  pub past : List S

abbrev pub Passed : {S : Type 0} → History S → S → Type 0
Passed s h = Memᴰ h (s.now ∷ s.past)

abbrev pub goes_on : {S : Type 0} → History S → S → History S
goes_on s u = record { now = u; past = s.now ∷ s.past }

module _ {T Cell : Type 0} (o : AtomicOwned T Cell) (p : Params) (threads : ℕ) where
  pub data DelayedStep (s : History (System T Cell)) : History (System T Cell) → Type 0 where
    latest : {u : System T Cell} → Step o p threads s.now u → DelayedStep s (goes_on s u)
    -- Thread `k` reads what was there in the state `h`; an exchange fails.
    delayed :
        (k : ℕ) (call : Call T) (h : System T Cell) {q : Pc T} {t : Table Cell}
        → k < threads
        → IsWordCall p call
        → is_load call (s.now.pc k) ≡ true
        → Passed s h
        → move o p call true (s.now.pc k) h.table ≡ some (q, t)
        → DelayedStep s (goes_on s (record { table = s.now.table; pc = update s.now.pc k q }))

  pub data DelayedReach (s : History (System T Cell)) : History (System T Cell) → Type 0 where
    start : DelayedReach s s
    later : {u v : History (System T Cell)} → DelayedReach s u → DelayedStep u v → DelayedReach s v

abbrev pub first : {T Cell : Type 0} → Table Cell → History (System T Cell)
first t = record { now = initial t; past = [] }

-- The same of the specification, with `call` as the call of thread `k` if it is idle: a turn on
-- the last map, or an operation that reads an earlier one, which is named, and leaves the last.
pub data DelayedTurn {T : Type 0} (p : Params) (threads : ℕ) (s : History (SharedMap T)) (k : ℕ)
    (call : Call T) : Option (SharedMap T) → History (SharedMap T) → Type 0 where
  latest :
      {u : SharedMap T}
      → Turn p threads s.now k call u
      → DelayedTurn p threads s k call none (goes_on s u)
  delayed :
      (h : SharedMap T) {q : Pc T}
      → k < threads
      → Passed s h
      → Load p (tally charged threads h.pc) h.map call (s.now.pc k) q
      → DelayedTurn p threads s k call
          (some h)
          (goes_on s (record { map = s.now.map; pc = update s.now.pc k q }))

-- Who took a turn, with which call, and the earlier state that it read, if it did.
pub record DelayedTaken (T : Type 0) : Type 0 where
  pub thread : ℕ
  pub call : Call T
  pub source : Option (SharedMap T)

-- Turns in a row, the last one first in the list.
pub data DelayedTurns {T : Type 0} (p : Params) (threads : ℕ) (s : History (SharedMap T))
    : List (DelayedTaken T) → History (SharedMap T) → Type 0 where
  none_yet : DelayedTurns p threads s [] s
  and_then :
      {u v : History (SharedMap T)} {log : List (DelayedTaken T)} {k : ℕ} {call : Call T}
      {source : Option (SharedMap T)}
      → DelayedTurns p threads s log u
      → DelayedTurn p threads u k call source v
      → DelayedTurns p threads s (record { thread = k; call = call; source = source } ∷ log) v

module _ {T Cell : Type 0} (o : AtomicOwned T Cell) (p : Params) (threads : ℕ) where
  abbrev pub delayed_taken :
      {s u : History (System T Cell)} → DelayedStep o p threads s u → DelayedTaken T
  delayed_taken (latest step) = record {
    thread = (mover o p threads step).0;
    call = (mover o p threads step).1;
    source = none;
  }
  delayed_taken (delayed k call h lt word load passed run) = record {
    thread = k;
    call = call;
    source = some (shared o p h);
  }

  -- The steps of a run.
  unfoldable pub delayed_log :
      {s u : History (System T Cell)} → DelayedReach o p threads s u → List (DelayedTaken T)
  delayed_log start = []
  delayed_log (later before step) = delayed_taken step ∷ delayed_log before

abbrev pub seen :
    {T Cell : Type 0}
    → AtomicOwned T Cell
    → Params
    → History (System T Cell)
    → History (SharedMap T)
seen o p s = record { now = shared o p s.now; past = List.map (shared o p) s.past }
