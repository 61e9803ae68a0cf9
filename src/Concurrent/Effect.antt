-- ===== src/Concurrent/Effect.antt =====
-- src/table.rs: what one atomic step of a thread means for a client: the specification's step that
-- takes place there, or none.
use mathlib.Core.List.{List, [], ◌∷◌}
use ptab.Common.{
  ◌+◌, false, true, Bool, count, ltb, if◌then◌else◌, ℕ, ◌≤◌, ◌≡◌, true, Option, none, some,
}
use ptab.Params.Derived.{Params}
use ptab.Index.Defs.{Detached, Abstract, abstract_to_detached, detached_to_abstract}
use ptab.Table.Slots.{generate_next_slot}
use ptab.Reclaim.Owned.{AtomicOwned}
use ptab.Table.State.{Table}
use ptab.Table.Ops.{cap}
use ptab.Table.View.{value_at, population}
use ptab.Spec
use ptab.Spec.{Map, Call, Reply}
use ptab.Common.{◌<◌, update}
use ptab.Spec.{IsWordCall}
use ptab.Reclaim.Sdd.{is_some}
use ptab.Table.Insert.{slot_of}
use ptab.Concurrent.System.{
  Step, pick, Reach, start, later, System, Pc, idle, undoing, acquiring, swapping, holding,
  releasing, exchanging, leaving,
}

-- The map that a client sees.
abbrev pub view : {T Cell : Type 0} → AtomicOwned T Cell → Params → Table Cell → Map T
view o p t = record { values = value_at o t; size = population o p t }

-- The threads that are in a call.
abbrev pub charged : {T : Type 0} → Pc T → Bool
charged (idle _) = false
charged _ = true

abbrev pub tally : {T : Type 0} → (Pc T → Bool) → ℕ → (ℕ → Pc T) → ℕ
tally f n pc = count (λ k. f (pc k)) n

-- The closure of a call that inserts.
abbrev pub closure : {T : Type 0} → Call T → Option (Detached → T)
closure (Call.insert value) = some (λ _. value)
closure (Call.write init) = some init
closure _ = none

-- A step inside a call, of which a client sees nothing. An insertion is admitted where the entries
-- and the `busy` threads are fewer than the capacity.
pub data Inner {T : Type 0} (p : Params) (busy : ℕ) (m : Map T) (call : Call T)
    : Pc T → Pc T → Type 0 where
  admitted :
      {last : Option (Reply T)} {init : Detached → T}
      → closure call ≡ some init
      → m.size + busy < cap p
      → Inner p busy m call (idle last) (acquiring init)
  rejected :
      {last : Option (Reply T)} {init : Detached → T} {current : ℕ}
      → closure call ≡ some init
      → cap p ≤ m.size + busy
      → Inner p busy m call (idle last) (undoing current)
  drawn :
      {init : Detached → T} {a : Abstract} → Inner p busy m call (acquiring init) (swapping init a)
  missed :
      {init : Detached → T} {a : Abstract} → Inner p busy m call (swapping init a) (acquiring init)
  got :
      {init : Detached → T} {a b : Abstract}
      → Inner p busy m call (swapping init a) (holding init b)
  aimed : {next : ℕ} {free : Abstract} → Inner p busy m call (releasing next) (exchanging next free)
  stored : {next : ℕ} {free : Abstract} → Inner p busy m call (exchanging next free) leaving

-- What `len` says: the entries and the busy threads, and no more than the capacity.
abbrev pub reported : {T : Type 0} → Params → ℕ → Map T → ℕ
reported p busy m = if ltb (cap p) (m.size + busy) then cap p else m.size + busy

-- An operation that only reads: a lookup, which answers from the map, or an exchange that fails.
pub data Load {T : Type 0} (p : Params) (busy : ℕ) (m : Map T) (call : Call T)
    : Pc T → Pc T → Type 0 where
  reads :
      {last : Option (Reply T)} {key : Detached}
      → call ≡ Call.read key
      → Load p busy m call (idle last) (idle (some (Reply.value (m.values (slot_of p key)))))
  checks :
      {last : Option (Reply T)} {key : Detached}
      → call ≡ Call.exists key
      → Load p busy m call
          (idle last)
          (idle (some (Reply.present (is_some (m.values (slot_of p key))))))
  counts :
      {last : Option (Reply T)}
      → call ≡ Call.len
      → Load p busy m call (idle last) (idle (some (Reply.count (reported p busy m))))
  seen : {current next : ℕ} → Load p busy m call (undoing current) (undoing next)
  failed : {next : ℕ} {free : Abstract} → Load p busy m call (exchanging next free) (releasing next)

-- A thread goes from one place to another, and the map from `m` to `n`, with `call` as its call
-- where it was idle.
pub data Effect {T : Type 0} (p : Params) (busy : ℕ) (m : Map T) (call : Call T)
    : Pc T → Pc T → Map T → Type 0 where
  works : {q q' : Pc T} {n : Map T} → n ≡ m → Inner p busy m call q q' → Effect p busy m call q q' n
  looks : {q q' : Pc T} {n : Map T} → n ≡ m → Load p busy m call q q' → Effect p busy m call q q' n
  -- A removal that finds no value.
  finds_none :
      {key : Detached} {last : Option (Reply T)} {n : Map T}
      → call ≡ Call.remove key
      → m.values (slot_of p key) ≡ none
      → n ≡ m
      → Effect p busy m call (idle last) (idle (some (Reply.removed false))) n
  fills :
      {init : Detached → T} {a : Abstract} {n : Map T}
      → Spec.Step p m (Call.write init) (Reply.index (some (abstract_to_detached p a))) n
      → Effect p busy m call
          (holding init a)
          (idle (some (Reply.index (some (abstract_to_detached p a)))))
          n
  refuses :
      {current : ℕ} {n : Map T}
      → n ≡ m
      → Effect p busy m call (undoing current) (idle (some (Reply.index none))) n
  evicts :
      {key : Detached} {last : Option (Reply T)} {n : Map T}
      → call ≡ Call.remove key
      → Spec.Step p m call (Reply.removed true) n
      → Effect p busy m call
          (idle last)
          (releasing (generate_next_slot p (detached_to_abstract p key)))
          n
  leaves : {n : Map T} → n ≡ m → Effect p busy m call leaving (idle (some (Reply.removed true))) n

-- The specification with the threads that share it.
pub record SharedMap (T : Type 0) : Type 0 where
  pub map : Map T
  pub pc : ℕ → Pc T

abbrev pub shared : {T Cell : Type 0} → AtomicOwned T Cell → Params → System T Cell → SharedMap T
shared o p s = record { map = view o p s.table; pc = s.pc }

-- Thread `k` takes the turn, with `call` as its call if it is idle.
pub data Turn {T : Type 0} (p : Params) (threads : ℕ) (s : SharedMap T) (k : ℕ) (call : Call T)
    : SharedMap T → Type 0 where
  turn :
      {q : Pc T} {n : Map T}
      → k < threads
      → IsWordCall p call
      → Effect p (tally charged threads s.pc) s.map call (s.pc k) q n
      → Turn p threads s k call (record { map = n; pc = update s.pc k q })

-- A turn of a run: who took it, with which call, and what it led to.
pub record Taken (T : Type 0) : Type 0 where
  pub thread : ℕ
  pub call : Call T
  pub after : SharedMap T

-- Turns in a row, the last one first in the list.
pub data Turns {T : Type 0} (p : Params) (threads : ℕ) (s : SharedMap T)
    : List (Taken T) → SharedMap T → Type 0 where
  none_yet : Turns p threads s [] s
  and_then :
      {u v : SharedMap T} {log : List (Taken T)} {k : ℕ} {call : Call T}
      → Turns p threads s log u
      → Turn p threads u k call v
      → Turns p threads s (record { thread = k; call = call; after = v } ∷ log) v

module _ {T Cell : Type 0} (o : AtomicOwned T Cell) (p : Params) (threads : ℕ) where
  -- The thread of a step, and its call.
  abbrev pub mover : {s u : System T Cell} → Step o p threads s u → ℕ × Call T
  mover (pick k call fails lt word run) = (k, call)

  -- The steps of a run, with the map after each.
  unfoldable pub log_of : {s u : System T Cell} → Reach o p threads s u → List (Taken T)
  log_of start = []
  log_of (later {v = v} before step) =
      record { thread = (mover step).0; call = (mover step).1; after = shared o p v }
      ∷ log_of before
