-- ===== src/Concurrent/Equivalence.antt =====
-- src/table.rs: every call of `PTab` by one thread alone, as moves on shared memory and as the
-- operations have it.
use mathlib.Core.Option.{some-injective}
use ptab.Common.{
  ℕ, ◌≡◌, inl, inr, refl, ap, ◌∙◌, sym, arith, Bool, Option, none, some, Option-cases,
}
use ptab.Params.Derived.{Params}
use ptab.Params.Geometry.{FitsLine}
use ptab.Index.Defs.{Detached}
use ptab.Reclaim.Owned.{AtomicOwned}
use ptab.Table.State.{Table}
use ptab.Table.View.{IsValid}
use ptab.Table.Ops
use ptab.Public
use ptab.Public.{PTab}
use ptab.Spec.{Call, Reply, IsWordCall}
use ptab.Refine.{perform, perform-Performs}
use ptab.Concurrent.System.{move}
use ptab.Concurrent.Alone.{alone, call_alone}
use ptab.Concurrent.Sequential.{steady}
use ptab.Concurrent.Calls.{write_alone}
use ptab.Concurrent.Removes.{remove_alone}

module _ {T Cell : Type 0} (o : AtomicOwned T Cell) (p : Params) where
  abbrev table_with : Table Cell → PTab Cell
  table_with t = record { inner = t }

  insert_as_write :
      (l : ℕ) (value : T) (t : Table Cell)
      → call_alone o p l (Call.insert value) t ≡ call_alone o p l (Call.write (λ _. value)) t
  unfolding call_alone move
  insert_as_write l value t = refl

  write_stuck :
      (f : Detached → T) (self : PTab Cell)
      → Ops.write o p steady (λ d. some (f d)) self.inner ≡ none
      → perform o p steady (Call.write f) self ≡ none
  unfolding perform
  write_stuck f self e = ground (arith, e)

  write_returns :
      (f : Detached → T) (self : PTab Cell) (x : Option Detached) (u : Table Cell)
      → Ops.write o p steady (λ d. some (f d)) self.inner ≡ some (x, u)
      → perform o p steady (Call.write f) self ≡ some (Reply.index x, table_with u)
  unfolding perform
  write_returns f self x u e = ground (arith, e)

  insert-perform :
      (value : T) (self : PTab Cell)
      → perform o p steady (Call.insert value) self
        ≡ perform o p steady (Call.write (λ _. value)) self
  unfolding perform Ops.insert
  insert-perform value self = refl

  remove_stuck :
      (key : Detached) (self : PTab Cell)
      → Ops.remove o p steady key self.inner ≡ none
      → perform o p steady (Call.remove key) self ≡ none
  unfolding perform
  remove_stuck key self e = ground (arith, e)

  remove_returns :
      (key : Detached) (self : PTab Cell) (b : Bool) (u : Table Cell)
      → Ops.remove o p steady key self.inner ≡ some (b, u)
      → perform o p steady (Call.remove key) self ≡ some (Reply.removed b, table_with u)
  unfolding perform
  remove_returns key self b u e = ground (arith, e)

  abbrev returned : Reply T → PTab Cell → Option (Option (Reply T) × Table Cell)
  returned r v = some (some r, v.inner)

  abbrev answer : Reply T → PTab Cell → Option (Reply T × PTab Cell)
  answer r v = some (r, v)

  returned_same :
      {r s : Reply T} {u v : PTab Cell} → answer r u ≡ answer s v → returned r u ≡ returned s v
  returned_same e = ap (λ (w : Reply T × PTab Cell). returned w.0 w.1) (some-injective _ _ e)

  written :
      (f : Detached → T) (self : PTab Cell) {r : Reply T} {v : PTab Cell}
      → perform o p steady (Call.write f) self ≡ some (r, v)
      → (l : ℕ) × (call_alone o p l (Call.write f) self.inner ≡ some (some r, v.inner))
  written f self run = elim (Option-cases (Ops.write o p steady (λ d. some (f d)) self.inner)) [
    | inl e ↦ absurd (cc (run, write_stuck f self e))
    | inr ((x, u), e) ↦
        let (l, alone_e) = write_alone o p f self.inner x u e in
        (l, alone_e ∙ returned_same (sym (write_returns f self x u e) ∙ run))
  ]

  -- What a lookup answers.
  looked_up :
      {A : Type 0} (reply : A → Reply T) (f : PTab Cell → Option A) (call : Call T)
      (self : PTab Cell) {r : Reply T} {v : PTab Cell}
      → ((a : A)
          → f self ≡ some a
          → call_alone o p 0 call self.inner ≡ some (some (reply a), self.inner))
      → (f self ≡ none → perform o p steady call self ≡ none)
      → ((a : A) → f self ≡ some a → perform o p steady call self ≡ some (reply a, self))
      → perform o p steady call self ≡ some (r, v)
      → (l : ℕ) × (call_alone o p l call self.inner ≡ some (some r, v.inner))
  looked_up reply f call self moves stuck answers run = elim (Option-cases (f self)) [
    | inl e ↦ absurd (cc (run, stuck e))
    | inr (a, e) ↦ (0, moves a e ∙ returned_same (sym (answers a e) ∙ run))
  ]

  read_moves :
      (key : Detached) (self : PTab Cell) (a : Option T)
      → Public.read o p key self ≡ some a
      → call_alone o p 0 (Call.read key) self.inner ≡ some (some (Reply.value a), self.inner)
  unfolding call_alone alone move
  read_moves key self a e = ground (arith, e)

  exists_moves :
      (key : Detached) (self : PTab Cell) (a : Bool)
      → Public.exists o p key self ≡ some a
      → call_alone o p 0 (Call.exists key) self.inner ≡ some (some (Reply.present a), self.inner)
  unfolding call_alone alone move
  exists_moves key self a e = ground (arith, e)

  perform-moves :
      (call : Call T) (self : PTab Cell) {r : Reply T} {v : PTab Cell}
      → perform o p steady call self ≡ some (r, v)
      → (l : ℕ) × (call_alone o p l call self.inner ≡ some (some r, v.inner))
  unfolding perform
  perform-moves (Call.insert value) self run =
      let (l, e) = written (λ _. value) self (sym (insert-perform value self) ∙ run) in
      (l, insert_as_write l value self.inner ∙ e)
  perform-moves (Call.write f) self run = written f self run
  perform-moves (Call.remove key) self run =
      elim (Option-cases (Ops.remove o p steady key self.inner)) [
        | inl e ↦ absurd (cc (run, remove_stuck key self e))
        | inr ((b, u), e) ↦
            let (l, alone_e) = remove_alone o p key self.inner b u e in
            (l, alone_e ∙ returned_same (sym (remove_returns key self b u e) ∙ run))
      ]
  perform-moves (Call.read key) self run =
      looked_up Reply.value (Public.read o p key) (Call.read key) self (read_moves key self)
        (λ e. ground (arith, e)) (λ a e. ground (arith, e)) run
  perform-moves (Call.exists key) self run =
      looked_up Reply.present (Public.exists o p key) (Call.exists key) self (exists_moves key self)
        (λ e. ground (arith, e)) (λ a e. ground (arith, e)) run
  perform-moves Call.len self run = (0, unfold call_alone alone move in returned_same run)

  -- On a valid table where a cache line fits, with no weak exchange that fails for no reason, a
  -- call of insert, write, remove, read, exists or len, with an index to remove that is a word,
  -- returns as an operation of PTab, and one thread that makes the call by its moves on shared
  -- memory returns the same and leaves the same table.
  pub alone-eq-perform :
      (call : Call T) {self : PTab Cell}
      → FitsLine p
      → IsValid o p self.inner
      → IsWordCall p call
      → (reply : Reply T) × (u : PTab Cell) × (l : ℕ) × (perform o p steady call self
          ≡ some (reply, u))
        × (call_alone o p l call self.inner ≡ some (some reply, u.inner))
  alone-eq-perform call {self} fits valid word =
      let done = perform-Performs o p fits steady (λ i _. refl) self valid call word in
      let (l, e) = perform-moves call self done.returns in
      (done.reply, done.after, l, done.returns, e)
