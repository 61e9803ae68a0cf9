-- ===== src/Spec.antt =====
-- What a table promises when its calls come one after another: a map from slots to values with a
-- bound on its size. An index stands for its slot only, and `insert` may choose any empty slot.
use mathlib.Core.List.{List, [], ◌∷◌}
use ptab.Common.{ℕ, ◌+◌, ◌<◌, ◌≡◌, Bool, Option, none, some, ◌==◌, if◌then◌else◌, bit}
use ptab.Params.Derived.{Params, length_usize}
use ptab.Index.Defs.{Detached}
use ptab.Index.Fields.{IsWord}
use ptab.Reclaim.Sdd.{is_some}
use ptab.Table.Ops.{cap}
use ptab.Table.Insert.{slot_of}

pub record Map (T : Type 0) : Type 0 where
  pub values : ℕ → Option T
  pub size : ℕ

abbrev pub empty : (T : Type 0) → Map T
empty T = record { values = λ c. none; size = 0 }

pub data Call (T : Type 0) : Type 0 where
  insert : T → Call T
  write : (Detached → T) → Call T
  remove : Detached → Call T
  read : Detached → Call T
  exists : Detached → Call T
  len : Call T

pub data Reply (T : Type 0) : Type 0 where
  index : Option Detached → Reply T
  removed : Bool → Reply T
  value : Option T → Reply T
  present : Bool → Reply T
  count : ℕ → Reply T

-- An index is a `usize`.
abbrev pub IsWordCall : {T : Type 0} → Params → Call T → Type 0
IsWordCall p (Call.remove d) = IsWord p d.bits
IsWordCall p _ = Unit

abbrev pub AreWordCalls : {T : Type 0} → Params → List (Call T) → Type 0
AreWordCalls p [] = Unit
AreWordCalls p (c ∷ calls) = IsWordCall p c × AreWordCalls p calls

module _ {T : Type 0} (p : Params) where
  -- `n` is `m` with `v` under the index `d`, whose slot was empty.
  pub record Adds (m n : Map T) (d : Detached) (v : T) : Type 0 where
    pub space : m.size < cap p
    pub index_word : IsWord p d.bits
    pub in_table : slot_of p d < length_usize p
    pub was_free : m.values (slot_of p d) ≡ none
    pub values : (c : ℕ) → n.values c ≡ (if slot_of p d == c then some v else m.values c)
    pub size : n.size ≡ m.size + 1

  -- `n` is `m` without the value at the slot of `d`.
  pub record Erases (m n : Map T) (d : Detached) : Type 0 where
    pub values : (c : ℕ) → n.values c ≡ (if slot_of p d == c then none else m.values c)
    pub size : n.size + bit (is_some (m.values (slot_of p d))) ≡ m.size

  pub data Step (m : Map T) : Call T → Reply T → Map T → Type 0 where
    insert_full : (v : T) → m.size ≡ cap p → Step m (Call.insert v) (index none) m
    insert_new :
        {n : Map T} {d : Detached} (v : T)
        → Adds m n d v
        → Step m (Call.insert v) (index (some d)) n
    write_full : (f : Detached → T) → m.size ≡ cap p → Step m (Call.write f) (index none) m
    write_new :
        {n : Map T} {d : Detached} (f : Detached → T)
        → Adds m n d (f d)
        → Step m (Call.write f) (index (some d)) n
    remove :
        {n : Map T} (d : Detached)
        → Erases m n d
        → Step m (Call.remove d) (removed (is_some (m.values (slot_of p d)))) n
    read : (d : Detached) → Step m (Call.read d) (value (m.values (slot_of p d))) m
    exists : (d : Detached) → Step m (Call.exists d) (present (is_some (m.values (slot_of p d)))) m
    len : Step m Call.len (count m.size) m

  -- Calls in a row with their replies.
  pub data Trace : Map T → List (Call T) → List (Reply T) → Map T → Type 0 where
    done : {m : Map T} → Trace m [] [] m
    next :
        {m n k : Map T} {c : Call T} {calls : List (Call T)} {r : Reply T}
        {replies : List (Reply T)}
        → Step m c r n
        → Trace n calls replies k
        → Trace m (c ∷ calls) (r ∷ replies) k
