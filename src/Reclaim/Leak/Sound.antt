-- ===== src/Reclaim/Leak/Sound.antt =====
-- src/reclaim/leak.rs: each box is held by one cell, and what a cell shows is in its box.
use native.Mathlib.Decide.{ℕ_discrete}
use ptab.Common.{
  ℕ, ◌≤◌, ◌≡◌, ◌≢◌, ◌∙◌, sym, arith, Option, none, some, update, Option-cases, ◌⊎◌, inl, inr,
}
use ptab.Reclaim.Leak.{null, load, as_ref}
use ptab.Reclaim.Leak.Memory.{Memory}
use ptab.Reclaim.Leak.Kept.{update-Keeps}

module _ {T : Type 0} where
  -- The value that a cell shows.
  abbrev pub shows : Memory T → ℕ → Option T
  shows m i = elim (m.cell i).inner [ none ↦ none | some box ↦ m.heap box ]

  -- The cells from offset `from` on have a box each that is not freed.
  pub record IsSound (from : ℕ) (m : Memory T) : Type 0 where
    pub held : (i a : ℕ) → from ≤ i → (m.cell i).inner ≡ some a → (v : T) × (m.heap a ≡ some v)
    pub alone :
        (i j a : ℕ)
        → from ≤ i
        → from ≤ j
        → (m.cell i).inner ≡ some a
        → (m.cell j).inner ≡ some a
        → i ≡ j

  pub reads_shown :
      {from : ℕ} (m : Memory T) (i : ℕ)
      → IsSound from m
      → from ≤ i
      → as_ref (load (m.cell i)) m.heap ≡ some (shows m i)
  reads_shown m i sound h = elim (Option-cases (m.cell i).inner) [
    | inl nothing ↦ ground (arith, nothing)
    | inr (a, here) ↦ let (v, full) = sound.held i a h here in ground (arith, here, full)
  ]

  abbrev pub with_new : Memory T → ℕ → ℕ → T → Memory T
  with_new m i box v = record {
    heap = update m.heap box (some v);
    cell = update m.cell i (record { inner = some box });
  }

  abbrev pub without : Memory T → ℕ → Memory T
  without m i = record { heap = m.heap; cell = update m.cell i null }

  module _ (m : Memory T) (sound : IsSound 0 m) where
    -- A box that a cell holds is not new.
    not_new : (box j a : ℕ) → m.heap box ≡ none → (m.cell j).inner ≡ some a → box ≢ a
    not_new box j a new e same =
        let (v, full) = sound.held j a (omega arith) e in cc (new, full, same)

    module _ (i box : ℕ) (v : T) (new : m.heap box ≡ none) where
      pub new_shows : (j : ℕ) → shows (with_new m i box v) j ≡ update (shows m) i (some v) j
      new_shows j = elim (ℕ_discrete i j) [
        | yes same ↦ ground (arith, same)
        | no other ↦ elim (Option-cases (m.cell j).inner) [
          | inl nothing ↦ ground (arith, other, nothing)
          | inr (a, here) ↦ ground (arith, other, here, not_new box j a new here)
        ]
      ]

      -- Which cell holds a box afterwards.
      new_holds :
          (j a : ℕ)
          → ((with_new m i box v).cell j).inner ≡ some a
          → ((i ≡ j) × (box ≡ a)) ⊎ ((i ≢ j) × ((m.cell j).inner ≡ some a))
      new_holds j a e = elim (ℕ_discrete i j) [
        | yes same ↦ inl (same, ground (arith, same, e))
        | no other ↦ inr (other, ground (arith, other, e))
      ]

      pub new-IsSound : IsSound 0 (with_new m i box v)
      new-IsSound = record {
        held = λ j a h e. elim (new_holds j a e) [
          | inl (same, at) ↦ (v, ground (arith, at))
          | inr (other, was) ↦
              let (w, full) = sound.held j a h was in (w, update-Keeps m.heap box v new a w full)
        ];
        alone = λ j k a hj hk ej ek. elim (new_holds j a ej) [
          | inl (same, at) ↦ elim (new_holds k a ek) [
            | inl (same', at') ↦ sym same ∙ same'
            | inr (other, was) ↦ absurd (not_new box k a new was at)
          ]
          | inr (other, was) ↦ elim (new_holds k a ek) [
            | inl (same', at') ↦ absurd (not_new box j a new was at')
            | inr (other', was') ↦ sound.alone j k a hj hk was was'
          ]
        ];
      }

    module _ (i : ℕ) where
      pub evicted_shows : (j : ℕ) → shows (without m i) j ≡ update (shows m) i none j
      evicted_shows j = elim (ℕ_discrete i j) [
        | yes same ↦ ground (arith, same)
        | no other ↦ ground (arith, other)
      ]

      still_holds : (j a : ℕ) → ((without m i).cell j).inner ≡ some a → (m.cell j).inner ≡ some a
      still_holds j a e = elim (ℕ_discrete i j) [
        | yes same ↦ absurd (ground (arith, same, e))
        | no other ↦ ground (arith, other, e)
      ]

      pub evicted-IsSound : IsSound 0 (without m i)
      evicted-IsSound = record {
        held = λ j a h e. sound.held j a h (still_holds j a e);
        alone =
            λ j k a hj hk ej ek. sound.alone j k a hj hk (still_holds j a ej) (still_holds k a ek);
      }
