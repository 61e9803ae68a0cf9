-- ===== src/Refine.antt =====
-- The calls of `PTab`, one after another, against the specification.
use mathlib.Core.List.{List, [], ◌∷◌}
use ptab.Common.{
  ℕ, suc, ◌≡◌, refl, subst, fun_ext, arith, Option, none, some, State, pure, ◌>>=◌, ◌⊎◌, inl, inr,
}
use native.Mathlib.Decide.{dec_lt}
use ptab.Params.Derived.{Params}
use ptab.Params.Geometry.{FitsLine}
use ptab.Index.Defs.{Detached}
use ptab.Reclaim.Owned.{AtomicOwned}
use ptab.Table.State.{Table, WeakCas}
use ptab.Table.Ops.{cap}
use ptab.Table.View.{value_at, occupied, population, IsValid}
use ptab.Table.Release.{IsReliable}
use ptab.Table.Create.{new_value, population-new, new-IsValid}
use ptab.Table.Insert.{slot_of, write_open, write_full}
use ptab.Table.Remove.{remove_lem}
use ptab.Table.Lookup.{cap-add-held_back, len-eq-population, read_lem, exists_lem}
use ptab.Table.Ops
use ptab.Public
use ptab.Public.{PTab}
use ptab.Spec.{Map, empty, Call, Reply, IsWordCall, AreWordCalls, Adds, Step, Trace}

module _ {T Cell : Type 0} (o : AtomicOwned T Cell) (p : Params) where
  abbrev lookup :
      {A : Type 0} → (A → Reply T) → (PTab Cell → Option A) → State (PTab Cell) (Reply T)
  lookup reply f self = elim (f self) [ none ↦ none | some a ↦ some (reply a, self) ]

  -- One call of a method.
  unfoldable pub perform : WeakCas → Call T → State (PTab Cell) (Reply T)
  perform weak (Call.insert v) = do r ← Public.insert o p weak v; pure (Reply.index r)
  perform weak (Call.write f) = do r ← Public.write o p weak (λ d. some (f d)); pure (Reply.index r)
  perform weak (Call.remove d) = do r ← Public.remove o p weak d; pure (Reply.removed r)
  perform weak (Call.read d) = lookup Reply.value (Public.read o p d)
  perform weak (Call.exists d) = lookup Reply.present (Public.exists o p d)
  perform weak Call.len = lookup Reply.count (λ self. some (Public.len p self))

  -- Calls in a row; the exchanges of call number `n` fail as `weak n` says.
  pub perform_all : (ℕ → WeakCas) → ℕ → List (Call T) → State (PTab Cell) (List (Reply T))
  perform_all weak n [] = pure []
  perform_all weak n (c ∷ calls) = do
    r ← perform (weak n) c
    replies ← perform_all weak (suc n) calls
    pure (r ∷ replies)

  -- The map that a client sees.
  abbrev pub view : PTab Cell → Map T
  view self = record { values = value_at o self.inner; size = population o p self.inner }

  -- Outcome of a call: it returns, keeps the invariant, and is a step of the specification.
  pub record Performs (self : PTab Cell) (c : Call T) (result : Option (Reply T × PTab Cell))
      : Type 0 where
    pub reply : Reply T
    pub after : PTab Cell
    pub returns : result ≡ some (reply, after)
    pub valid : IsValid o p after.inner
    pub step : Step p (view self) c reply (view after)

  module _ (fits : FitsLine p) (weak : WeakCas) (reliable : IsReliable weak) (self : PTab Cell)
      (valid : IsValid o p self.inner) where
    write_outcome :
        (f : Detached → T)
        → ((population o p self.inner ≡ cap p)
            × (Ops.write o p weak (λ d. some (f d)) self.inner ≡ some (none, self.inner)))
          ⊎ ((d : Detached) × (u : Table Cell) × (Ops.write o p weak (λ e. some (f e)) self.inner
                ≡ some (some d, u))
              × IsValid o p u
              × Adds p (view self) (view (record { inner = u })) d (f d))
    write_outcome f = elim (dec_lt (population o p self.inner) (cap p)) [
      | yes space ↦
          let (d, u, run, ins) =
            write_open o p weak f fits valid (omega (arith, valid.counted, cap-add-held_back p)) in
          inr (
            d,
            u,
            run,
            ins.valid,
            record {
              space = space;
              index_word = ins.index_word;
              in_table = ins.in_table;
              was_free = ins.was_free;
              values = ins.values;
              size = ins.one_more;
            },
          )
      | no full ↦ inl (
        omega (arith, valid.counted, valid.room, cap-add-held_back p),
        write_full o p weak (λ d. some (f d)) self.inner reliable
            (omega (arith, valid.counted, valid.room, cap-add-held_back p)),
      )
    ]

    -- Each call returns, keeps the invariant and is a step of the specification.
    pub perform-Performs : (c : Call T) → IsWordCall p c → Performs self c (perform weak c self)
    unfolding perform Ops.insert
    perform-Performs (Call.insert v) _ = elim (write_outcome (λ _. v)) [
      | inl (full, run) ↦ record {
        reply = Reply.index none;
        after = self;
        returns = ground (arith, run);
        valid = valid;
        step = Step.insert_full v full;
      }
      | inr (d, u, run, kept, adds) ↦ record {
        reply = Reply.index (some d);
        after = record { inner = u };
        returns = ground (arith, run);
        valid = kept;
        step = Step.insert_new v adds;
      }
    ]
    perform-Performs (Call.write f) _ = elim (write_outcome f) [
      | inl (full, run) ↦ record {
        reply = Reply.index none;
        after = self;
        returns = ground (arith, run);
        valid = valid;
        step = Step.write_full f full;
      }
      | inr (d, u, run, kept, adds) ↦ record {
        reply = Reply.index (some d);
        after = record { inner = u };
        returns = ground (arith, run);
        valid = kept;
        step = Step.write_new f adds;
      }
    ]
    perform-Performs (Call.remove d) word =
        let (u, run, gone) = remove_lem o p weak d fits reliable valid word in
        record {
          reply = Reply.removed (occupied o self.inner (slot_of p d));
          after = record { inner = u };
          returns = ground (arith, run);
          valid = gone.valid;
          step = Step.remove d (record { values = gone.values; size = gone.counted_off });
        }
    perform-Performs (Call.read d) _ = record {
      reply = Reply.value (value_at o self.inner (slot_of p d));
      after = self;
      returns = ground (arith, read_lem p o d fits valid);
      valid = valid;
      step = Step.read d;
    }
    perform-Performs (Call.exists d) _ = record {
      reply = Reply.present (occupied o self.inner (slot_of p d));
      after = self;
      returns = ground (arith, exists_lem p o d fits valid);
      valid = valid;
      step = Step.exists d;
    }
    perform-Performs Call.len _ = record {
      reply = Reply.count (population o p self.inner);
      after = self;
      returns = ground (arith, len-eq-population p o valid);
      valid = valid;
      step = Step.len;
    }

  perform_all-Trace :
      (weak : ℕ → WeakCas) (n : ℕ) (calls : List (Call T)) (self : PTab Cell)
      → FitsLine p
      → ((i : ℕ) → IsReliable (weak i))
      → IsValid o p self.inner
      → AreWordCalls p calls
      → (replies : List (Reply T)) × (after : PTab Cell) × (perform_all weak n calls self
          ≡ some (replies, after))
        × Trace p (view self) calls replies (view after)
  unfolding perform_all
  perform_all-Trace weak n [] self fits reliable valid words = ([], self, refl, Trace.done)
  perform_all-Trace weak n (c ∷ calls) self fits reliable valid (word, words) =
      let first = perform-Performs fits (weak n) (reliable n) self valid c word in
      let (replies, after, run, trace) =
        perform_all-Trace weak (suc n) calls first.after fits reliable first.valid words in
      (
        first.reply ∷ replies,
        after,
        ground (arith, first.returns, run),
        Trace.next first.step trace,
      )

  view-new : view (Public.new o p) ≡ empty T
  view-new = λ i. record { values = fun_ext (new_value o p) i; size = population-new o p i }

  -- From a new table, every list of calls of insert, write, remove, read, exists and len, made
  -- one after another with indices that are words, returns its replies, and these are a trace of
  -- the specification from the empty map: an insertion puts the value at an empty slot while
  -- there are fewer entries than the capacity, and answers none and changes nothing when there
  -- are as many; a removal and a lookup concern the slot that the index names. A cache line fits
  -- the table, and the weak exchanges of each call fail only finitely often.
  pub new-refines :
      (weak : ℕ → WeakCas) (calls : List (Call T))
      → FitsLine p
      → ((i : ℕ) → IsReliable (weak i))
      → AreWordCalls p calls
      → (replies : List (Reply T)) × (after : PTab Cell) × (perform_all weak 0 calls
            (Public.new o p)
          ≡ some (replies, after))
        × Trace p (empty T) calls replies (view after)
  new-refines weak calls fits reliable words =
      let (replies, after, run, trace) =
        perform_all-Trace weak 0 calls (Public.new o p) fits reliable (new-IsValid o p fits)
          words in
      (
        replies,
        after,
        run,
        subst (λ (m : Map T). Trace p m calls replies (view after)) view-new trace,
      )
