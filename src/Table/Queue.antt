-- ===== src/Table/Queue.antt =====
-- src/table.rs: the ring as a queue of free indices, for calls that run one after another with no weak
-- exchange that fails for no reason.
use ptab.Common.{
  ℕ, suc, ◌+◌, ◌-◌, ◌%◌, ◌^◌, ◌≤◌, ◌<◌, ◌≡◌, ◌≢◌, ◌⊎◌, inl, inr, ap, ◌∙◌, sym, arith, Option, ltb,
}
use native.Mathlib.Decide.{dec_lt}
use native.Mathlib.Nat.{mod-mod_of_dvd, mod-eq_of_lt, add-mod_right, mod-add-mod, mod-lt}
use ptab.Params.Derived.{Params, length_usize}
use ptab.Params.Geometry.{FitsLine, length_usize-bounds}
use ptab.Index.Defs.{Concrete}
use ptab.Index.Places.{same_slot_iff}
use ptab.Table.State.{Table}
use ptab.Table.View.{is_reserved}
use ptab.Table.Probe.{advance, probe, length_dvd}
use ptab.Table.Acquire.{SlotsInit}

-- A remainder of a sum of two remainders.
rem_cases : (l x : ℕ) → x < l + l → ((x < l) × (x % l ≡ x)) ⊎ ((l ≤ x) × (x % l + l ≡ x))
rem_cases l x h = elim (dec_lt x l) [
  | yes below ↦ inl (below, mod-eq_of_lt below)
  | no above ↦
      let e : x ≡ x - l + l = omega arith in
      let r : x % l ≡ x - l =
        ap (λ (y : ℕ). y % l) e ∙ add-mod_right (x - l) l ∙ mod-eq_of_lt (omega arith) in
      inr (omega arith, omega (arith, r))
]

rem-add_cancel : (l r i j : ℕ) → r < l → i < l → j < l → (r + i) % l ≡ (r + j) % l → i ≡ j
rem-add_cancel l r i j hr hi hj e = elim (rem_cases l (r + i) (omega arith)) [
  | inl (bi, ei) ↦ elim (rem_cases l (r + j) (omega arith)) [
    | inl (bj, ej) ↦ omega (arith, e, ei, ej)
    | inr (bj, ej) ↦ absurd (omega (arith, e, ei, ej))
  ]
  | inr (bi, ei) ↦ elim (rem_cases l (r + j) (omega arith)) [
    | inl (bj, ej) ↦ absurd (omega (arith, e, ei, ej))
    | inr (bj, ej) ↦ omega (arith, e, ei, ej)
  ]
]

pub suc-ne-zero : (j : ℕ) → suc j ≢ 0
suc-ne-zero j e = omega (arith, e)

module _ (p : Params) (fits : FitsLine p) where
  advance-rem : (n k : ℕ) → advance n k % length_usize p ≡ (n + k) % length_usize p
  advance-rem n k = mod-mod_of_dvd (length_usize p) (n + k) (length_dvd p 32 (omega arith))

  -- A counter meets different places within one round.
  pub probe_injective :
      (n i j : ℕ) → i < length_usize p → j < length_usize p → probe p n i ≡ probe p n j → i ≡ j
  probe_injective n i j hi hj e =
      let (low, high) = length_usize-bounds p in
      let l : ℕ = length_usize p in
      let same : advance n i % l ≡ advance n j % l =
        (same_slot_iff p fits (record { source = advance n i }) (record { source = advance n j })).0
          (ap (λ (x : ℕ). let c : Concrete = record { source = x } in c) e) in
      rem-add_cancel l (n % l) i j (mod-lt n (omega arith)) hi hj (
        mod-add-mod n l i
        ∙ sym (advance-rem n i)
        ∙ same
        ∙ advance-rem n j
        ∙ sym (mod-add-mod n l j))

  -- And the same again after a round.
  pub probe_period : (n k : ℕ) → probe p n (k + length_usize p) ≡ probe p n k
  probe_period n k =
      let l : ℕ = length_usize p in
      let shift : (n + (k + l)) % l ≡ (n + k) % l =
        ap (λ (x : ℕ). x % l) (let e : n + (k + l) ≡ n + k + l = omega arith in e)
        ∙ add-mod_right (n + k) l in
      ap (λ (c : Concrete). c.source)
        ((same_slot_iff p fits (record { source = advance n (k + l) })
            (record { source = advance n k })).1
          (advance-rem n (k + l) ∙ shift ∙ sym (advance-rem n k)))

module _ {Cell : Type 0} (p : Params) where
  -- Place `j` of the ring, from where the next index is taken.
  abbrev pub nth_free : Table Cell → ℕ → Option ℕ
  nth_free t j = t.readonly.slot (probe p t.volatile.next_id j)

  -- From `free_id` on, the ring has `m` reserved places and then, from `next_id` on, the free
  -- indices.
  pub record IsQueue (t : Table Cell) (m : ℕ) : Type 0 where
    pub slot_init : SlotsInit p t
    pub next_small : t.volatile.next_id < 2 ^ 32
    pub free_small : t.volatile.free_id < 2 ^ 32
    pub bound : m ≤ length_usize p
    pub window :
        (j : ℕ)
        → j < length_usize p
        → is_reserved p (t.readonly.slot (probe p t.volatile.free_id j)) ≡ ltb j m
    pub follows : (j : ℕ) → probe p t.volatile.next_id j ≡ probe p t.volatile.free_id (m + j)
