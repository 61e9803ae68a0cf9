-- ===== src/Public.antt =====
-- src/public.rs: `PTab`, the table that a client sees. Each lookup makes a guard of its own; a guard
-- only keeps values alive.
use ptab.Common.{ℕ, Bool, Option, none, some, State}
use ptab.Params.Derived.{Params}
use ptab.Index.Defs.{Detached}
use ptab.Reclaim.Owned.{AtomicOwned}
use ptab.Table.State
use ptab.Table.State.{Table, WeakCas}
use ptab.Table.Ops
use ptab.Table.Keys
use ptab.Table.Keys.{WeakKeys}

pub record PTab (Cell : Type 0) : Type 0 where
  pub inner : Table Cell

-- A method that works on `self.inner`.
abbrev on_inner : {Cell A : Type 0} → State (Table Cell) A → State (PTab Cell) A
on_inner f self = elim (f self.inner) [ none ↦ none | some (a, t) ↦ some (a, record { inner = t }) ]

abbrev pub capacity : Params → ℕ
capacity p = Ops.cap p

module _ {Cell : Type 0} (p : Params) where
  abbrev pub len : PTab Cell → ℕ
  len self = Ops.len p self.inner

  abbrev pub is_empty : PTab Cell → Bool
  is_empty self = Ops.is_empty p self.inner

module _ {T Cell : Type 0} (o : AtomicOwned T Cell) (p : Params) where
  abbrev pub new : PTab Cell
  new = record { inner = State.new o p }

  abbrev pub insert : WeakCas → T → State (PTab Cell) (Option Detached)
  insert weak value = on_inner (Ops.insert o p weak value)

  abbrev pub write : WeakCas → (Detached → Option T) → State (PTab Cell) (Option Detached)
  write weak init = on_inner (Ops.write o p weak init)

  abbrev pub remove : WeakCas → Detached → State (PTab Cell) Bool
  remove weak index = on_inner (Ops.remove o p weak index)

  abbrev pub exists : Detached → PTab Cell → Option Bool
  exists index self = Ops.exists o p index self.inner

  abbrev pub with : {R : Type 0} → Detached → (T → R) → PTab Cell → Option (Option R)
  with index f self = Ops.with o p index f self.inner

  abbrev pub read : Detached → PTab Cell → Option (Option T)
  read index self = Ops.read o p index self.inner

  abbrev pub weak_keys : PTab Cell → WeakKeys
  weak_keys self = Keys.new p
