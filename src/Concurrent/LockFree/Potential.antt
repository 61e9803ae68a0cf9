-- ===== src/Concurrent/LockFree/Potential.antt =====
-- src/table.rs: the number of moves that the threads in one kind of loop can still make.
use ptab.Common.{ℕ, suc, ◌+◌, ◌*◌, ◌-◌, ◌≤◌, ◌<◌, ◌≡◌, arith, Bool, update, bit, count-le}
use ptab.Concurrent.System.{Pc}
use ptab.Concurrent.Effect.{tally}
use ptab.Concurrent.LockFree.Flags.{flag-update}
use ptab.Concurrent.LockFree.Watch.{pot, pot_far, pot_near, pot_same, pot_most}

-- `off` are the threads that are not about to try the place, `trying` those about to try one.
abbrev pub side : {T : Type 0} → ℕ → ℕ → (Pc T → Bool) → (Pc T → Bool) → (ℕ → Pc T) → ℕ → ℕ
side l n off trying pc d = pot l (tally off n pc) d (tally trying n pc)

pub side_most :
    {T : Type 0} (l n : ℕ) (off trying : Pc T → Bool) (pc : ℕ → Pc T) (d : ℕ)
    → d < l
    → side l n off trying pc d ≤ 2 * (n * l + l) + n
side_most l n off trying pc d near =
    pot_most l n (tally off n pc) d (tally trying n pc) (count-le (λ k. off (pc k)) n)
      (count-le (λ k. trying (pc k)) n) near

module _ {T : Type 0} (l : ℕ) {n : ℕ} (pc : ℕ → Pc T) {k : ℕ} {q : Pc T} (q' : Pc T) (lt : k < n)
    (here : pc k ≡ q) (off trying : Pc T → Bool) where
  pub side_same :
      (d : ℕ)
      → bit (off q') ≤ bit (off q)
      → bit (trying q') ≤ bit (trying q)
      → side l n off trying (update pc k q') d ≤ side l n off trying pc d
  side_same d h j =
      pot_same l _ _ d _ _ (omega (arith, flag-update pc k lt here off q', h))
        (omega (arith, flag-update pc k lt here trying q', j))

  pub side_less :
      (d : ℕ)
      → bit (off q') ≤ bit (off q)
      → bit (trying q') + 1 ≡ bit (trying q)
      → side l n off trying (update pc k q') d + 1 ≤ side l n off trying pc d
  side_less d h j =
      let g : tally off n (update pc k q') ≤ tally off n pc =
        omega (arith, flag-update pc k lt here off q', h) in
      omega (
        arith,
        flag-update pc k lt here trying q',
        j,
        pot_same l (tally off n pc) (tally off n (update pc k q')) d 0 0 g (omega arith),
      )

  pub side_far :
      (d : ℕ)
      → bit (off q') ≤ bit (off q)
      → bit (trying q') ≡ bit (trying q) + 1
      → side l n off trying (update pc k q') d + 1 ≤ side l n off trying pc (suc d)
  side_far d h j =
      let g : tally off n (update pc k q') ≤ tally off n pc =
        omega (arith, flag-update pc k lt here off q', h) in
      omega (
        arith,
        flag-update pc k lt here trying q',
        j,
        pot_far l (tally off n pc) (tally off n (update pc k q')) d (tally trying n pc) g,
      )

  pub side_near :
      0 < l
      → bit (off q') + 1 ≤ bit (off q)
      → bit (trying q') ≡ bit (trying q) + 1
      → side l n off trying (update pc k q') (l - 1) + 1 ≤ side l n off trying pc 0
  side_near pos h j =
      let g : suc (tally off n (update pc k q')) ≤ tally off n pc =
        omega (arith, flag-update pc k lt here off q', h) in
      omega (
        arith,
        flag-update pc k lt here trying q',
        j,
        pot_near l (tally off n pc) (tally off n (update pc k q')) (tally trying n pc) pos g,
      )
