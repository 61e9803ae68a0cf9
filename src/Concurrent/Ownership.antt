-- ===== src/Concurrent/Ownership.antt =====
-- src/table.rs: who has the use of a slot of the table: a place of the ring that shows its index,
-- the cell with a value, or a thread between the two.
use ptab.Common.{
  ℕ, ◌≡◌, ◌≢◌, ◌⊎◌, inl, inr, ap, ◌∙◌, sym, arith, true, Option, none, some, ◌<◌, Option-cases, ltb,
  ◌==◌, if◌then◌else◌,
}
use ptab.Params.Derived.{Params, length_usize}
use ptab.Reclaim.Owned.{AtomicOwned}
use ptab.Reclaim.Sdd.{is_some}
use ptab.Table.State.{Table, reserved}
use ptab.Table.View.{place, value_at, occupied}
use ptab.Concurrent.System.{Pc, holding, releasing, exchanging}
use native.Mathlib.Decide.{ℕ_discrete}

pub data Source : Type 0 where
  ring : ℕ → Source
  cell : ℕ → Source
  thread : ℕ → Source

Source-discrete : Discrete Source
Source-discrete = hlevel ℕ_discrete

-- The slot that a thread has between taking an index out of the ring and filling the cell, and
-- between emptying the cell and putting an index back.
abbrev pub claim : {T : Type 0} → Params → Pc T → Option ℕ
claim p (holding init s) = some (place p s.source)
claim p (releasing next) = some (place p next)
claim p (exchanging next free) = some (place p next)
claim p _ = none

abbrev pub shown : Params → Option ℕ → Option ℕ
shown p none = none
shown p (some s) = if s == reserved p then none else some (place p s)

module _ {T Cell : Type 0} (o : AtomicOwned T Cell) (p : Params) where
  abbrev pub owned : Table Cell → (ℕ → Pc T) → Source → Option ℕ
  owned t pc (ring i) = if ltb i (length_usize p) then shown p (t.readonly.slot i) else none
  owned t pc (cell c) = if is_some (value_at o t c) then some c else none
  owned t pc (thread k) = claim p (pc k)

  module _ (t : Table Cell) (pc : ℕ → Pc T) where
    -- A place of the ring that has slot `c` shows an index of it.
    pub ring_owned :
        (i c : ℕ)
        → owned t pc (ring i) ≡ some c
        → (s : ℕ) × (i < length_usize p)
          × (t.readonly.slot i ≡ some s)
          × (s ≢ reserved p)
          × (place p s ≡ c)
    ring_owned i c e = elim (Option-cases (t.readonly.slot i)) [
      | inl empty ↦ absurd (ground (arith, empty))
      | inr (s, at) ↦ (s, ground (arith, at), at, ground (arith, at), ground (arith, at))
    ]

    -- A cell that has slot `c` is the cell of the slot, with a value.
    pub cell_owned : (b c : ℕ) → owned t pc (cell b) ≡ some c → (b ≡ c) × (occupied o t b ≡ true)
    cell_owned b c e = ground arith

-- No two sources have the same slot.
abbrev pub IsExclusive : (Source → Option ℕ) → Type 0
IsExclusive f = (a b : Source) (c : ℕ) → f a ≡ some c → f b ≡ some c → a ≡ b

-- `g` is `f` with the slot of `x` handed to `y`, or all is as before.
pub record Handed (f g : Source → Option ℕ) (x y : Source) : Type 0 where
  pub gone : g x ≡ none
  pub given : g y ≡ f x
  pub kept : (z : Source) → z ≢ x → z ≢ y → g z ≡ f z

module _ {f g : Source → Option ℕ} {x y : Source} (h : Handed f g x y) where
  -- Where a source that has slot `c` afterwards had it from.
  origin :
      (z : Source) (c : ℕ) → g z ≡ some c → ((z ≡ y) × (f x ≡ some c)) ⊎ ((z ≢ x) × (f z ≡ some c))
  origin z c e = elim (Source-discrete z y) [
    | yes new ↦ inl (new, sym h.given ∙ ap g (sym new) ∙ e)
    | no old ↦ elim (Source-discrete z x) [
      | yes empty ↦ absurd (cc (ap g empty, h.gone))
      | no other ↦ inr (other, sym (h.kept z other old) ∙ e)
    ]
  ]

  pub Handed-IsExclusive : IsExclusive f → IsExclusive g
  Handed-IsExclusive ex a b c ha hb = elim (origin a c ha) [
    | inl (a_new, had) ↦ elim (origin b c hb) [
      | inl (b_new, _) ↦ a_new ∙ sym b_new
      | inr (other, hf) ↦ absurd (other (ex b x c hf had))
    ]
    | inr (other, hf) ↦ elim (origin b c hb) [
      | inl (_, had) ↦ absurd (other (ex a x c hf had))
      | inr (_, hf') ↦ ex a b c hf hf'
    ]
  ]

pub same-IsExclusive :
    (f g : Source → Option ℕ) → ((z : Source) → g z ≡ f z) → IsExclusive f → IsExclusive g
same-IsExclusive f g same ex a b c ha hb = ex a b c (sym (same a) ∙ ha) (sym (same b) ∙ hb)
