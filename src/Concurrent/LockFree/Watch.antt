-- ===== src/Concurrent/LockFree/Watch.antt =====
-- src/table.rs: the place of the ring that a loop waits for, how far the counter is from it, and the
-- number of moves that the loops can still make.
use ptab.Common.{ℕ, suc, ◌+◌, ◌*◌, ◌-◌, ◌≤◌, ◌<◌, ◌≡◌, ap, ◌∙◌, sym, arith, Bool, true, update}
use native.Mathlib.Nat.{mul-le-mul_right, suc-mul, zero-add}
use ptab.Params.Derived.{Params, length_usize}
use ptab.Params.Geometry.{FitsLine}
use ptab.Table.State.{Table}
use ptab.Table.View.{place, taken}
use ptab.Table.Probe.{advance, advance-suc, probe}
use ptab.Table.Queue.{probe_period}
use ptab.Concurrent.System.{Pc}
use ptab.Concurrent.LockFree.Flags.{flag_before}

-- For a counter `d` steps before its place, with `g` threads not at the place and `s` threads about
-- to try one.
abbrev pub pot : ℕ → ℕ → ℕ → ℕ → ℕ
pot l g d s = 2 * (g * l + d) + s

suc-mul-le : (a b l : ℕ) → suc a ≤ b → a * l + l ≤ b * l
suc-mul-le a b l h = omega (arith, mul-le-mul_right l h, suc-mul a l)

pub pot_far : (l g g' d s : ℕ) → g' ≤ g → pot l g' d (s + 1) + 1 ≤ pot l g (suc d) s
pot_far l g g' d s h = omega (arith, mul-le-mul_right l h)

pub pot_near : (l g g' s : ℕ) → 0 < l → suc g' ≤ g → pot l g' (l - 1) (s + 1) + 1 ≤ pot l g 0 s
pot_near l g g' s pos h = omega (arith, suc-mul-le g' g l h)

pub pot_less : (l g g' d s : ℕ) → g' ≤ g → pot l g' d s + 1 ≤ pot l g d (s + 1)
pot_less l g g' d s h = omega (arith, mul-le-mul_right l h)

pub pot_same : (l g g' d s s' : ℕ) → g' ≤ g → s' ≤ s → pot l g' d s' ≤ pot l g d s
pot_same l g g' d s s' h k = omega (arith, mul-le-mul_right l h)

pub pot_most : (l n g d s : ℕ) → g ≤ n → s ≤ n → d < l → pot l g d s ≤ 2 * (n * l + l) + n
pot_most l n g d s h k near = omega (arith, mul-le-mul_right l h)

module _ {T Cell : Type 0} (p : Params) (n : ℕ) where
  -- Place `spot` of the ring, `ahead` increments of the counter away, shows what a looking thread waits
  -- for: an index to take, or room for one.
  pub record Target (b : Bool) (looking : Pc T → Bool) (counter : ℕ) (t : Table Cell)
      (pc : ℕ → Pc T) (spot ahead : ℕ) : Type 0 where
    pub near : ahead < length_usize p
    pub meets : probe p counter ahead ≡ spot
    pub there : (k : ℕ) → k < n → looking (pc k) ≡ true → taken p t spot ≡ b

  module _ {b : Bool} {looking : Pc T → Bool} {t : Table Cell} (u : Table Cell) {pc : ℕ → Pc T}
      {k : ℕ} {q : Pc T} (q' : Pc T) (lt : k < n) (here : pc k ≡ q)
      (unset : looking q' ≡ true → looking q ≡ true) {spot : ℕ}
      (same : taken p u spot ≡ taken p t spot) where
    there_after :
        {counter ahead : ℕ}
        → Target b looking counter t pc spot ahead
        → (j : ℕ) → j < n
        → looking (update pc k q' j) ≡ true
        → taken p u spot ≡ b
    there_after w j h set = same ∙ w.there j h (flag_before pc k lt here looking q' unset j set)

    pub target_kept :
        {counter ahead : ℕ}
        → Target b looking counter t pc spot ahead
        → Target b looking counter u (update pc k q') spot ahead
    target_kept w = record { near = w.near; meets = w.meets; there = there_after w }

    pub target_ahead :
        {counter ahead : ℕ}
        → Target b looking counter t pc spot (suc ahead)
        → Target b looking (advance counter 1) u (update pc k q') spot ahead
    target_ahead {counter} {ahead} w = record {
      near = omega (arith, w.near);
      meets = ap (place p) (advance-suc counter ahead) ∙ w.meets;
      there = there_after w;
    }

    -- Past the place, the counter meets it again after a round.
    pub target_round :
        FitsLine p
        → {counter : ℕ} → Target b looking counter t pc spot 0
        → Target b looking (advance counter 1) u (update pc k q') spot (length_usize p - 1)
    target_round fits {counter} w =
        let pos : suc (length_usize p - 1) ≡ length_usize p = omega (arith, w.near) in
        record {
          near = omega (arith, w.near);
          meets =
              ap (place p) (advance-suc counter (length_usize p - 1))
              ∙ ap (probe p counter) (pos ∙ sym (zero-add (length_usize p)))
              ∙ probe_period p fits counter 0
              ∙ w.meets;
          there = there_after w;
        }
