-- ===== src/Concurrent/LockFree/Returns.antt =====
-- src/table.rs: the moves of all threads until a call of one of them returns.
use ptab.Common.{
  ℕ, zero, suc, ◌+◌, ◌^◌, ◌≤◌, ◌<◌, ◌≡◌, refl, arith, Bool, true, false, Option, none, some, update,
  Bool-cases, inl, inr, ◌>>=◌, State, pure,
}
use ptab.Params.Derived.{Params, length_usize}
use ptab.Params.Geometry.{FitsLine}
use ptab.Reclaim.Owned.{AtomicOwned}
use ptab.Table.State.{Table}
use ptab.Table.View.{IsValid}
use ptab.Spec.{Call, IsWordCall}
use ptab.Concurrent.System.{move, System}
use ptab.Concurrent.Safety.{move_returns, move-Inv}
use ptab.Concurrent.Delayed.{History, DelayedReach, first}
use ptab.Concurrent.Delayed.Runs.{delayed-Inv}
use ptab.Concurrent.LockFree.Flags.{is_idle}
use ptab.Concurrent.LockFree.Moves.{move-Outcome}
use ptab.Concurrent.LockFree.Bound.{most_moves, Budget, move_Progress, budget, spend}

module _ {T Cell : Type 0} (o : AtomicOwned T Cell) (p : Params) where
  -- A thread moves, with the call that it makes if it is idle, and with no weak exchange that fails
  -- for no reason. Does its call return?
  unfoldable pub take_turn : ℕ × Call T → State (System T Cell) Bool
  take_turn (k, call) s = elim (move o p call false (s.pc k) s.table) [
    | none ↦ none
    | some (q, u) ↦ some (is_idle q, record { table = u; pc = update s.pc k q })
  ]

  -- Turn by turn, until a call returns: the thread of this call, or none when the turns run out.
  unfoldable pub until_return : ℕ → (ℕ → ℕ × Call T) → State (System T Cell) (Option ℕ)
  until_return zero turn = pure none
  until_return (suc turns) turn = do
    returned ← take_turn (turn 0)
    elim returned [ true ↦ pure (some (turn 0).0) | false ↦ until_return turns (λ i. turn (suc i)) ]

module _ {T Cell : Type 0} (o : AtomicOwned T Cell) (p : Params) (fits : FitsLine p) {n : ℕ}
    (few : length_usize p + n < 2 ^ 32) where
  returns_soon :
      (turn : ℕ → ℕ × Call T)
      → ((i : ℕ) → ((turn i).0 < n) × IsWordCall p (turn i).1)
      → (turns m : ℕ) {s : System T Cell} → Budget o p n m s.table s.pc
      → most_moves p n < m + turns
      → (k : ℕ) × (u : System T Cell) × (until_return o p turns turn s ≡ some (some k, u))
  unfolding until_return take_turn
  returns_soon turn proper zero m b h =
      absurd (let le : m ≤ most_moves p n = omega (arith, b.enough) in omega (arith, le, h))
  returns_soon turn proper (suc turns) m {s} b h =
      let (lt, word) = proper 0 in
      let (q, u, run) = move_returns o p fits few b.inv lt (turn 0).1 false word in
      let s' : System T Cell = record { table = u; pc = update s.pc (turn 0).0 q } in
      elim (Bool-cases (is_idle q)) [
        | inl rests ↦ ((turn 0).0, s', ground (arith, run, rests))
        | inr busy ↦
            let b' : Budget o p n (suc m) u (update s.pc (turn 0).0 q) =
              spend o p fits few b (move-Inv o p fits few b.inv lt (turn 0).1 false word run) (
                move_Progress o p fits few b.inv b.watched lt (q, u) refl
                  (move-Outcome o p fits few b.inv lt (turn 0).1 word (s.pc (turn 0).0) (q, u) refl
                    run busy)) in
            let (k, v, e) =
              returns_soon (λ i. turn (suc i)) (λ i. proper (suc i)) turns (suc m) {s = s'} b'
                (omega (arith, h)) in
            (k, v, ground (arith, run, busy, e))
      ]

  -- A number n of threads which, added to the length, is below 2 to the 32 have moved in any
  -- order from a valid table where a cache line fits, and operations that only read may have seen
  -- any earlier state. From then on they take turns in any order, each turn one move, which sees
  -- the last contents, with no weak exchange that fails for no reason and with indices that are
  -- words. Then some call returns within most_moves + 1 turns, which is a number that depends on
  -- n and the length alone: no turn faults, and however they are scheduled, the threads do not
  -- keep each other in the loops for ever.
  pub some_call-Returns :
      {t : Table Cell} {s : History (System T Cell)}
      → IsValid o p t
      → DelayedReach o p n (first t) s
      → (turn : ℕ → ℕ × Call T) → ((i : ℕ) → ((turn i).0 < n) × IsWordCall p (turn i).1)
      → (k : ℕ) × (u : System T Cell) × (until_return o p (suc (most_moves p n)) turn s.now
          ≡ some (some k, u))
  some_call-Returns {t} {s} valid run turn proper =
      returns_soon turn proper (suc (most_moves p n)) 0 {s = s.now}
        (budget o p fits few (delayed-Inv o p fits few valid run)) (omega arith)
