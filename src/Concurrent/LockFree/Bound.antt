-- ===== src/Concurrent/LockFree/Bound.antt =====
-- src/table.rs: each move of a thread spends some of a number of moves.
use ptab.Common.{ℕ, suc, ◌+◌, ◌*◌, ◌^◌, ◌≤◌, ◌<◌, ◌≡◌, refl, ap, ◌∙◌, sym, arith, update, count-le}
use native.Mathlib.Nat.{suc-mul, mul-le-mul_right}
use ptab.Params.Derived.{Params, length_usize}
use ptab.Params.Geometry.{FitsLine}
use ptab.Reclaim.Owned.{AtomicOwned}
use ptab.Table.State.{Table}
use ptab.Concurrent.System.{Pc}
use ptab.Concurrent.Effect.{tally}
use ptab.Concurrent.Invariant.{Inv}
use ptab.Concurrent.LockFree.Flags.{
  is_idle, early, stale, has_drawn, has_aimed, off_swap, off_exchange, flag-update,
}
use ptab.Concurrent.LockFree.Moves.{Outcome, further, late, draws, misses, aims, fails, weight}
use ptab.Concurrent.LockFree.Targets.{next_target, free_target}
use ptab.Concurrent.LockFree.Potential.{side_most}
use ptab.Concurrent.LockFree.Steps.{Watched, potential, late_Nearer, miss_Nearer, fail_Nearer}
use ptab.Concurrent.LockFree.Draws.{draw_Nearer, aim_Nearer}

-- The moves of `n` threads in a row in the loops, and all their moves before a call returns.
abbrev pub loop_moves : Params → ℕ → ℕ
loop_moves p n = 4 * (n * length_usize p + length_usize p) + 3 * n

abbrev pub most_moves : Params → ℕ → ℕ
most_moves p n = 2 * n * suc (loop_moves p n) + loop_moves p n

pub rank : {T : Type 0} → ℕ → (ℕ → Pc T) → ℕ
rank n pc = tally early n pc + tally is_idle n pc

module _ {T : Type 0} {n : ℕ} (pc : ℕ → Pc T) {k : ℕ} {q : Pc T} (lt : k < n) (here : pc k ≡ q)
    (q' : Pc T) where
  rank-update : rank n (update pc k q') + weight q ≡ rank n pc + weight q'
  unfolding rank
  rank-update =
      omega (arith, flag-update pc k lt here early q', flag-update pc k lt here is_idle q')

  rank_same : weight q' ≡ weight q → rank n (update pc k q') ≡ rank n pc
  rank_same e = omega (arith, e, rank-update)

spend_rank : (r r' c : ℕ) → suc r' ≡ r → r' * c + c ≡ r * c
spend_rank r r' c e = sym (suc-mul r' c) ∙ ap (λ (x : ℕ). x * c) e

module _ {T Cell : Type 0} (o : AtomicOwned T Cell) (p : Params) (n : ℕ) where
  -- Of the moves of all threads, `m` are spent.
  pub record Budget (m : ℕ) (t : Table Cell) (pc : ℕ → Pc T) : Type 0 where
    pub inv : Inv o p n t pc
    pub watched : Watched p n t pc
    pub enough : m + rank n pc * suc (loop_moves p n) + potential p n t pc watched ≤ most_moves p n

module _ {T Cell : Type 0} (o : AtomicOwned T Cell) (p : Params) (fits : FitsLine p) {n : ℕ}
    (few : length_usize p + n < 2 ^ 32) where
  potential_most :
      {t : Table Cell} {pc : ℕ → Pc T} (w : Watched p n t pc)
      → potential p n t pc w ≤ loop_moves p n
  potential_most {t} {pc} w = omega (
    arith,
    count-le (λ k. stale t.volatile.entries (pc k)) n,
    side_most (length_usize p) n (off_swap p w.next_spot) has_drawn pc w.next_ahead w.next.near,
    side_most (length_usize p) n (off_exchange p w.free_spot) has_aimed pc w.free_ahead w.free.near,
  )

  watch : {t : Table Cell} {pc : ℕ → Pc T} → Inv o p n t pc → Watched p n t pc
  watch {t} {pc} inv =
      let (i, d, next) = next_target p fits pc o few inv t.volatile.next_id in
      let (j, e, free) = free_target p fits pc o few inv t.volatile.free_id in
      record {
        next_spot = i;
        next_ahead = d;
        free_spot = j;
        free_ahead = e;
        next = next;
        free = free;
      }

  module _ {t : Table Cell} {pc : ℕ → Pc T} where
    -- A call comes further, or the loops come nearer to their end.
    pub data Progress (w : Watched p n t pc) (u : Table Cell) (pc' : ℕ → Pc T) : Type 0 where
      comes_further : suc (rank n pc') ≡ rank n pc → Progress w u pc'
      comes_nearer :
          rank n pc' ≡ rank n pc
          → (w' : Watched p n u pc') × (potential p n u pc' w' + 1 ≤ potential p n t pc w)
          → Progress w u pc'

    pub move_Progress :
        Inv o p n t pc
        → (w : Watched p n t pc) {k : ℕ} → k < n
        → {q : Pc T} (w' : Pc T × Table Cell) → pc k ≡ q
        → Outcome o p t q w'
        → Progress w w'.1 (update pc k w'.0)
    move_Progress inv w {k} lt w' here (further less) =
        comes_further (omega (arith, less, rank-update pc lt here w'.0))
    move_Progress inv w lt w' here (late miss) =
        comes_nearer (rank_same pc lt here _ refl) (late_Nearer o p fits inv lt w _ here miss)
    move_Progress inv w lt w' here draws =
        comes_nearer (rank_same pc lt here _ refl) (draw_Nearer o p fits inv lt w _ here)
    move_Progress inv w lt w' here (misses e) =
        comes_nearer (rank_same pc lt here _ refl) (miss_Nearer o p fits inv lt w _ _ here e)
    move_Progress inv w lt w' here aims =
        comes_nearer (rank_same pc lt here _ refl) (aim_Nearer o p fits inv lt w _ here)
    move_Progress inv w lt w' here (fails e full) =
        comes_nearer (rank_same pc lt here _ refl) (fail_Nearer o p fits inv lt w _ _ _ here e full)

  pub budget : {t : Table Cell} {pc : ℕ → Pc T} → Inv o p n t pc → Budget o p n 0 t pc
  unfolding rank
  budget {t} {pc} inv = record {
    inv = inv;
    watched = watch inv;
    enough = omega (
      arith,
      potential_most (watch inv),
      mul-le-mul_right (suc (loop_moves p n)) (
          let most : rank n pc ≤ 2 * n =
            omega (arith, count-le (λ k. early (pc k)) n, count-le (λ k. is_idle (pc k)) n) in
          most),
    );
  }

  pub spend :
      {m : ℕ} {t u : Table Cell} {pc pc' : ℕ → Pc T} (b : Budget o p n m t pc)
      → Inv o p n u pc'
      → Progress b.watched u pc'
      → Budget o p n (suc m) u pc'
  spend {pc = pc} {pc' = pc'} b inv (comes_further e) = record {
    inv = inv;
    watched = watch inv;
    enough = omega (
      arith,
      b.enough,
      potential_most (watch inv),
      spend_rank (rank n pc) (rank n pc') (suc (loop_moves p n)) e,
    );
  }
  spend {pc = pc} {pc' = pc'} b inv (comes_nearer same (w, less)) = record {
    inv = inv;
    watched = w;
    enough = omega (arith, b.enough, less, ap (λ (r : ℕ). r * suc (loop_moves p n)) same);
  }
