-- ===== src/Table/Release.antt =====
-- src/table.rs: the loop of `release_slot` from any position of `free_id`, with exchanges that fail
-- for no reason.
use ptab.Common.{
  ℕ, zero, suc, ◌+◌, ◌^◌, ◌≤◌, ◌<◌, ◌≡◌, refl, ap, ◌∙◌, sym, subst, arith, Bool, true, false, not,
  some, ◌==◌, ◌&&◌, if◌then◌else◌, update, Bool-cases, inl, inr,
}
use ptab.Common.Word.{wrapping_add, wrapping_sub}
use ptab.Params.Derived.{Params, length_usize}
use ptab.Params.Geometry.{FitsLine}
use ptab.Index.Defs.{Abstract}
use ptab.Table.State.{Table, reserved, WeakCas, fetch_free_id, exchange_slot, decr_entries}
use ptab.Table.Slots.{generate_next_slot, release_loop, release_slot}
use ptab.Table.View.{place}
use ptab.Table.Probe.{
  advance, advance-suc, advance_zero, advance-advance, probe, place-lt, probe_reaches,
}
use ptab.Table.Acquire.{SlotsInit}

-- From attempt number `bound` on, an exchange fails only for a reason.
abbrev pub IsReliable : WeakCas → Type 0
IsReliable weak = (i : ℕ) → weak.bound ≤ i → weak.fails i ≡ false

-- Which of the attempts from number `i` on fail for no reason.
abbrev pub from_attempt : WeakCas → ℕ → ℕ → Bool
from_attempt weak i j = weak.fails (i + j)

module _ {Cell : Type 0} where
  -- `u` is `t` with `next` at the first slot of the ring, from `free_id` on, that was reserved
  -- when the exchange there did not fail for no reason; `fails j` says whether attempt `j` did.
  pub record Stored (p : Params) (fails : ℕ → Bool) (t u : Table Cell) (next : ℕ) : Type 0 where
    pub steps : ℕ
    pub passed :
        (j : ℕ)
        → j < steps
        → t.readonly.slot (probe p t.volatile.free_id j) ≡ some (reserved p)
        → fails j ≡ true
    pub moved : u.volatile.free_id ≡ advance t.volatile.free_id (suc steps)
    pub target : ℕ
    pub target_eq : target ≡ probe p t.volatile.free_id steps
    pub target_lt : target < length_usize p
    pub was : t.readonly.slot target ≡ some (reserved p)
    pub slots : (i : ℕ) → u.readonly.slot i ≡ (if target == i then some next else t.readonly.slot i)
    pub cells : u.readonly.cells ≡ t.readonly.cells
    pub entries : u.volatile.entries ≡ t.volatile.entries
    pub next_id : u.volatile.next_id ≡ t.volatile.next_id
    pub free_small : u.volatile.free_id < 2 ^ 32

  -- The table with one entry less counted.
  abbrev pub uncount : Table Cell → Table Cell
  uncount t = record t {
    volatile = record (t.volatile) { entries = wrapping_sub 32 t.volatile.entries 1 };
  }

module _ {Cell : Type 0} (p : Params) (weak : WeakCas) where
  -- The table after one attempt that fails, and after one that succeeds.
  unfoldable pub skip : Table Cell → Table Cell
  skip t = record t {
    volatile = record (t.volatile) { free_id = wrapping_add 32 t.volatile.free_id 1 };
  }

  unfoldable pub put : Table Cell → ℕ → Table Cell
  put t next = record t {
    volatile = record (t.volatile) { free_id = wrapping_add 32 t.volatile.free_id 1 };
    readonly = record (t.readonly) {
      slot = update t.readonly.slot (place p t.volatile.free_id) (some next);
    };
  }

  pub release_hit :
      (fuel i next : ℕ) (t : Table Cell)
      → t.readonly.slot (place p t.volatile.free_id) ≡ some (reserved p)
      → weak.fails i ≡ false
      → release_loop p weak (suc fuel) i next t ≡ some (tt, put t next)
  unfolding release_loop fetch_free_id exchange_slot put
  release_hit fuel i next t e sound = ground arith

  pub release_miss :
      (fuel i next old : ℕ) (t : Table Cell)
      → t.readonly.slot (place p t.volatile.free_id) ≡ some old
      → (old == reserved p && not (weak.fails i)) ≡ false
      → release_loop p weak (suc fuel) i next t ≡ release_loop p weak fuel (i + 1) next (skip t)
  unfolding release_loop fetch_free_id exchange_slot skip
  release_miss fuel i next old t e failed = ground arith

  put-Stored :
      (i next : ℕ) (t : Table Cell)
      → FitsLine p
      → t.readonly.slot (place p t.volatile.free_id) ≡ some (reserved p)
      → t.volatile.free_id < 2 ^ 32
      → Stored p (from_attempt weak i) t (put t next) next
  unfolding put
  put-Stored i next t fits e small = record {
    steps = 0;
    passed = λ j lt. absurd (omega arith);
    moved = refl;
    target_eq = ap (place p) (sym (advance_zero t.volatile.free_id small));
    target = place p t.volatile.free_id;
    target_lt = place-lt p fits t.volatile.free_id;
    was = e;
    slots = λ i. refl;
    cells = refl;
    entries = refl;
    next_id = refl;
    free_small = omega arith;
  }

  -- A slot that is passed over is not reserved, or the attempt failed for no reason.
  passed_one :
      (i old : ℕ) (t : Table Cell) {k : ℕ}
      → t.readonly.slot (place p t.volatile.free_id) ≡ some old
      → (old == reserved p && not (weak.fails i)) ≡ false
      → t.volatile.free_id < 2 ^ 32
      → ((j : ℕ)
          → j < k
          → (skip t).readonly.slot (probe p (skip t).volatile.free_id j) ≡ some (reserved p)
          → weak.fails (i + 1 + j) ≡ true)
      → (j : ℕ) → j < suc k
      → t.readonly.slot (probe p t.volatile.free_id j) ≡ some (reserved p)
      → weak.fails (i + j) ≡ true
  unfolding skip
  passed_one i old t e miss small rest zero lt full =
      let here : t.readonly.slot (place p t.volatile.free_id) ≡ some (reserved p) =
        ap (λ (n : ℕ). t.readonly.slot (place p n)) (sym (advance_zero t.volatile.free_id small))
        ∙ full in
      let failed : weak.fails i ≡ true = ground (arith, e, here, miss) in
      subst (λ (n : ℕ). weak.fails n ≡ true) (omega arith) failed
  passed_one i old t e miss small rest (suc j) lt full =
      subst (λ (n : ℕ). weak.fails n ≡ true) (omega arith)
        (rest j (omega arith)
          (ap (λ (n : ℕ). t.readonly.slot (place p n)) (advance-suc t.volatile.free_id j) ∙ full))

  skip-Stored :
      (i old next : ℕ) (t u : Table Cell)
      → t.readonly.slot (place p t.volatile.free_id) ≡ some old
      → (old == reserved p && not (weak.fails i)) ≡ false
      → t.volatile.free_id < 2 ^ 32
      → Stored p (from_attempt weak (i + 1)) (skip t) u next
      → Stored p (from_attempt weak i) t u next
  unfolding skip
  skip-Stored i old next t u e miss small s = record {
    steps = suc s.steps;
    passed = passed_one i old t e miss small (λ j lt full. s.passed j lt full);
    moved = s.moved ∙ advance-suc t.volatile.free_id (suc s.steps);
    target_eq = s.target_eq ∙ ap (place p) (advance-suc t.volatile.free_id s.steps);
    target = s.target;
    target_lt = s.target_lt;
    was = s.was;
    slots = s.slots;
    cells = s.cells;
    entries = s.entries;
    next_id = s.next_id;
    free_small = s.free_small;
  }

  skip-same : (t : Table Cell) → (skip t).readonly ≡ t.readonly
  unfolding skip
  skip-same t = refl

  skip-free_id : (t : Table Cell) → (skip t).volatile.free_id ≡ advance t.volatile.free_id 1
  unfolding skip
  skip-free_id t = refl

  -- An attempt `k` steps on that meets a reserved slot and does not fail for no reason ends the
  -- loop, if none before does.
  release_loop_lem :
      (fuel k i next : ℕ) (t : Table Cell)
      → FitsLine p
      → SlotsInit p t
      → t.volatile.free_id < 2 ^ 32
      → k < fuel
      → weak.fails (i + k) ≡ false
      → t.readonly.slot (probe p t.volatile.free_id k) ≡ some (reserved p)
      → (u : Table Cell) × (release_loop p weak fuel i next t ≡ some (tt, u))
        × Stored p (from_attempt weak i) t u next
  release_loop_lem zero k i next t fits init small h sound e = absurd (omega arith)
  release_loop_lem (suc fuel) zero i next t fits init small h sound e =
      let here : t.readonly.slot (place p t.volatile.free_id) ≡ some (reserved p) =
        rw (advance_zero t.volatile.free_id small) at e in
      let sure : weak.fails i ≡ false =
        subst (λ (j : ℕ). weak.fails j ≡ false) (omega arith) sound in
      (put t next, release_hit fuel i next t here sure, put-Stored i next t fits here small)
  release_loop_lem (suc fuel) (suc k) i next t fits init small h sound e =
      let n : ℕ = t.volatile.free_id in
      let (old, old_e, word) = init (place p n) (place-lt p fits n) in
      elim (Bool-cases (old == reserved p && not (weak.fails i))) [
        | inl hit ↦
            let here : t.readonly.slot (place p n) ≡ some (reserved p) =
              old_e ∙ ap some (ground arith) in
            (
              put t next,
              release_hit fuel i next t here (ground arith),
              put-Stored i next t fits here small,
            )
        | inr miss ↦
            let later : weak.fails (i + 1 + k) ≡ false =
              subst (λ (j : ℕ). weak.fails j ≡ false) (omega arith) sound in
            let (u, run, stored) =
              release_loop_lem fuel k (i + 1) next (skip t) fits init' small' (omega arith) later
                next_e in
            (
              u,
              release_miss fuel i next old t old_e miss ∙ run,
              skip-Stored i old next t u old_e miss small stored,
            )
      ]
    where
      init' : SlotsInit p (skip t)
      init' = unfold skip in init

      small' : (skip t).volatile.free_id < 2 ^ 32
      small' = omega (arith, skip-free_id t)

      next_e : (skip t).readonly.slot (probe p (skip t).volatile.free_id k) ≡ some (reserved p)
      next_e = rw (skip-free_id t, advance-suc t.volatile.free_id k) (unfold skip in e)

  release_slot_run :
      (index : Abstract) (t u : Table Cell)
      → release_loop p weak (weak.bound + length_usize p) 0 (generate_next_slot p index) t
        ≡ some (tt, u)
      → release_slot p weak index t ≡ some (tt, uncount u)
  unfolding release_slot decr_entries
  release_slot_run index t u run = ground arith

  -- Where a cache line fits, the ring is initialised with words, free_id is a u32, slot j of the
  -- ring is reserved and the weak exchange fails only finitely often, release_slot returns: it
  -- stores the next index in the first slot of the ring, from the slot of free_id on and in the
  -- order of the counter, that was reserved when the exchange there did not fail for no reason,
  -- moves free_id just behind it, takes one off entries, and changes nothing else.
  pub release_slot_lem :
      (index : Abstract) (j : ℕ) (t : Table Cell)
      → FitsLine p
      → IsReliable weak
      → SlotsInit p t
      → t.volatile.free_id < 2 ^ 32
      → j < length_usize p
      → t.readonly.slot j ≡ some (reserved p)
      → (u : Table Cell) × (release_slot p weak index t ≡ some (tt, uncount u))
        × Stored p (from_attempt weak 0) t u (generate_next_slot p index)
  release_slot_lem index j t fits reliable init small h e =
      let n : ℕ = t.volatile.free_id in
      let (k, near, meets) = probe_reaches p (advance n weak.bound) j fits h in
      let there : probe p n (weak.bound + k) ≡ j =
        ap (place p) (sym (advance-advance n weak.bound k)) ∙ meets in
      let (u, run, stored) =
        release_loop_lem (weak.bound + length_usize p) (weak.bound + k) 0
          (generate_next_slot p index) t fits init small (omega arith)
          (reliable (0 + (weak.bound + k)) (omega arith)) (ap t.readonly.slot there ∙ e) in
      (u, release_slot_run index t u run, stored)
