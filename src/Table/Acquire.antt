-- ===== src/Table/Acquire.antt =====
-- src/table.rs: the loop of `acquire_slot` from any position of `next_id`.
use ptab.Common.{
  ℕ, zero, suc, ◌^◌, ◌<◌, ◌≡◌, ◌≢◌, refl, ap, ◌∙◌, sym, arith, some, ◌==◌, if◌then◌else◌, update,
  pow-pos,
}
use native.Mathlib.Decide.{ℕ_discrete}
use ptab.Common.Word.{wrapping_add}
use ptab.Params.Derived.{Params, length_usize}
use ptab.Params.Target.{word_bits}
use ptab.Params.Geometry.{FitsLine}
use ptab.Index.Fields.{IsWord}
use ptab.Table.State.{Table, reserved, fetch_next_id, swap_slot}
use ptab.Table.Slots.{permit, acquire_loop, acquire_slot}
use ptab.Table.View.{place}
use ptab.Table.Probe.{advance, advance-suc, advance_zero, probe, place-lt, probe_reaches}

module _ {Cell : Type 0} (p : Params) where
  -- All slots of the ring are initialised, with words.
  abbrev pub SlotsInit : Table Cell → Type 0
  SlotsInit t = (i : ℕ) → i < length_usize p → (s : ℕ) × (t.readonly.slot i ≡ some s) × IsWord p s

  -- Slot `i` of the ring shows an index.
  abbrev pub Shows : Table Cell → ℕ → Type 0
  Shows t i = (s : ℕ) × (t.readonly.slot i ≡ some s) × (s ≢ reserved p)

  -- `s` is the first index that the ring of `t` shows from `next_id` on, and `u` is `t` without it.
  pub record Acquired (t u : Table Cell) (s : ℕ) : Type 0 where
    pub steps : ℕ
    pub passed :
        (j : ℕ) → j < steps → t.readonly.slot (probe p t.volatile.next_id j) ≡ some (reserved p)
    pub moved : u.volatile.next_id ≡ advance t.volatile.next_id (suc steps)
    pub from : ℕ
    pub from_eq : from ≡ probe p t.volatile.next_id steps
    pub from_lt : from < length_usize p
    pub was : t.readonly.slot from ≡ some s
    pub free : s ≢ reserved p
    pub slots :
        (i : ℕ) → u.readonly.slot i ≡ (if from == i then some (reserved p) else t.readonly.slot i)
    pub cells : u.readonly.cells ≡ t.readonly.cells
    pub entries : u.volatile.entries ≡ t.volatile.entries
    pub free_id : u.volatile.free_id ≡ t.volatile.free_id
    pub next_small : u.volatile.next_id < 2 ^ 32

  -- The table after one step of the loop.
  unfoldable pub after : Table Cell → Table Cell
  after t = record t {
    volatile = record (t.volatile) { next_id = wrapping_add 32 t.volatile.next_id 1 };
    readonly = record (t.readonly) {
      slot = update t.readonly.slot (place p t.volatile.next_id) (some (reserved p));
    };
  }

  pub acquire_hit :
      (fuel s : ℕ) (t : Table Cell)
      → t.readonly.slot (place p t.volatile.next_id) ≡ some s
      → s ≢ reserved p
      → acquire_loop p (suc fuel) t ≡ some (record { source = s }, after t)
  unfolding acquire_loop fetch_next_id swap_slot after
  acquire_hit fuel s t e ne = ground arith

  pub acquire_miss :
      (fuel : ℕ) (t : Table Cell)
      → t.readonly.slot (place p t.volatile.next_id) ≡ some (reserved p)
      → acquire_loop p (suc fuel) t ≡ acquire_loop p fuel (after t)
  unfolding acquire_loop fetch_next_id swap_slot after
  acquire_miss fuel t e = ground arith

  after-SlotsInit : (t : Table Cell) → SlotsInit t → SlotsInit (after t)
  unfolding after
  after-SlotsInit t init i h = elim (ℕ_discrete (place p t.volatile.next_id) i) [
    | yes here ↦ (reserved p, ground arith, omega (arith, pow-pos (word_bits p.target)))
    | no other ↦ let (s, e, word) = init i h in (s, ground arith, word)
  ]

  -- A reserved slot that is passed over hides no index.
  pub after-Shows :
      (t : Table Cell) (i : ℕ)
      → t.readonly.slot (place p t.volatile.next_id) ≡ some (reserved p)
      → Shows t i
      → Shows (after t) i
  unfolding after
  after-Shows t i e (s, shown, free) = (s, ground arith, free)

  pub after-next_id : (t : Table Cell) → (after t).volatile.next_id ≡ advance t.volatile.next_id 1
  unfolding after
  after-next_id t = refl

  after-small : (t : Table Cell) → (after t).volatile.next_id < 2 ^ 32
  after-small t = omega (arith, after-next_id t)

  hit-Acquired :
      (s : ℕ) (t : Table Cell)
      → FitsLine p
      → t.readonly.slot (place p t.volatile.next_id) ≡ some s
      → s ≢ reserved p
      → t.volatile.next_id < 2 ^ 32
      → Acquired t (after t) s
  unfolding after
  hit-Acquired s t fits e ne small = record {
    steps = 0;
    passed = λ j lt. absurd (omega arith);
    moved = refl;
    from_eq = ap (place p) (sym (advance_zero t.volatile.next_id small));
    from = place p t.volatile.next_id;
    from_lt = place-lt p fits t.volatile.next_id;
    was = e;
    free = ne;
    slots = λ i. refl;
    cells = refl;
    entries = refl;
    free_id = refl;
    next_small = omega arith;
  }

  passed_one :
      (t : Table Cell) {k : ℕ}
      → t.readonly.slot (place p t.volatile.next_id) ≡ some (reserved p)
      → t.volatile.next_id < 2 ^ 32
      → ((j : ℕ)
          → j < k
          → (after t).readonly.slot (probe p (after t).volatile.next_id j) ≡ some (reserved p))
      → (j : ℕ) → j < suc k
      → t.readonly.slot (probe p t.volatile.next_id j) ≡ some (reserved p)
  unfolding after
  passed_one t e small rest zero lt =
      ap (λ (n : ℕ). t.readonly.slot (place p n)) (advance_zero t.volatile.next_id small) ∙ e
  passed_one t e small rest (suc j) lt =
      let there : probe p (advance t.volatile.next_id 1) j ≡ probe p t.volatile.next_id (suc j) =
        ap (place p) (advance-suc t.volatile.next_id j) in
      ground (arith, e, rest j (omega arith), there)

  miss-Acquired :
      (s : ℕ) (t u : Table Cell)
      → t.readonly.slot (place p t.volatile.next_id) ≡ some (reserved p)
      → t.volatile.next_id < 2 ^ 32
      → Acquired (after t) u s
      → Acquired t u s
  unfolding after
  miss-Acquired s t u e small a = record {
    steps = suc a.steps;
    passed = passed_one t e small (λ j lt. a.passed j lt);
    moved = a.moved ∙ advance-suc t.volatile.next_id (suc a.steps);
    from_eq = a.from_eq ∙ ap (place p) (advance-suc t.volatile.next_id a.steps);
    from = a.from;
    from_lt = a.from_lt;
    was = ground (arith, a.was, a.free);
    free = a.free;
    slots = λ i. ground (arith, a.slots i);
    cells = a.cells;
    entries = a.entries;
    free_id = a.free_id;
    next_small = a.next_small;
  }

  acquire_loop_lem :
      (fuel k : ℕ) (t : Table Cell)
      → FitsLine p
      → SlotsInit t
      → t.volatile.next_id < 2 ^ 32
      → k < fuel
      → Shows t (probe p t.volatile.next_id k)
      → (s : ℕ) × (u : Table Cell) × (acquire_loop p fuel t ≡ some (record { source = s }, u))
        × Acquired t u s
  acquire_loop_lem zero k t fits init small h shows = absurd (omega arith)
  acquire_loop_lem (suc fuel) zero t fits init small h (s, shown, free) =
      let e : t.readonly.slot (place p t.volatile.next_id) ≡ some s =
        rw (advance_zero t.volatile.next_id small) at shown in
      (s, after t, acquire_hit fuel s t e free, hit-Acquired s t fits e free small)
  acquire_loop_lem (suc fuel) (suc k) t fits init small h shows =
      let n : ℕ = t.volatile.next_id in
      let (old, e, word) = init (place p n) (place-lt p fits n) in
      elim (ℕ_discrete old (reserved p)) [
        | yes full ↦
            let full_e : t.readonly.slot (place p n) ≡ some (reserved p) = e ∙ ap some full in
            let next : Shows (after t) (probe p (after t).volatile.next_id k) =
              rw (after-next_id t, advance-suc n k)
                (after-Shows t (probe p n (suc k)) full_e shows) in
            let (s, u, run, got) =
              acquire_loop_lem fuel k (after t) fits (after-SlotsInit t init) (after-small t)
                (omega arith) next in
            (s, u, acquire_miss fuel t full_e ∙ run, miss-Acquired s t u full_e small got)
        | no free ↦
            (old, after t, acquire_hit fuel old t e free, hit-Acquired old t fits e free small)
      ]

  -- Where a cache line fits, the ring is initialised with words, next_id is a u32 and slot i of
  -- the ring shows an index, acquire_slot returns within as many rounds as there are slots: it
  -- returns the first index that the ring shows from the slot of next_id on, in the order of the
  -- counter, leaves that slot reserved, moves next_id just behind it, and changes nothing else.
  pub acquire_slot_lem :
      (i : ℕ) (t : Table Cell)
      → FitsLine p
      → SlotsInit t
      → t.volatile.next_id < 2 ^ 32
      → i < length_usize p
      → Shows t i
      → (s : ℕ) × (u : Table Cell) × (acquire_slot p permit t ≡ some (record { source = s }, u))
        × Acquired t u s
  unfolding acquire_slot
  acquire_slot_lem i t fits init small h shows =
      let (k, near, meets) = probe_reaches p t.volatile.next_id i fits h in
      acquire_loop_lem (length_usize p) k t fits init small near (rw meets shows)
