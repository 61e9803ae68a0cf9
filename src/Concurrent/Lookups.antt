-- ===== src/Concurrent/Lookups.antt =====
-- src/table.rs: the calls that only load: `read`, `exists` and `len`.
use ptab.Common.{
  subst, sym, ℕ, ◌+◌, ◌^◌, ◌<◌, ◌≡◌, inl, refl, arith, Bool, true, false, not, Option, none, some,
}
use mathlib.Core.Option
use ptab.Params.Derived.{Params, length_usize}
use ptab.Params.Geometry.{FitsLine, length_usize-bounds}
use ptab.Index.Defs.{Detached}
use ptab.Reclaim.Owned.{AtomicOwned}
use ptab.Reclaim.Sdd.{is_some}
use ptab.Table.State.{Table}
use ptab.Table.View.{value_at, occupied}
use ptab.Table.Ops.{len, read, exists, with, find, load}
use ptab.Table.Insert.{slot_of}
use ptab.Table.Lookup.{slot_of-lt, cap-add-held_back}
use ptab.Table.Reserve.{as_u32-length}
use ptab.Params.Capacity.{max_capacity}
use ptab.Params.Rounding.{as_u32-eq-as_usize}
use ptab.Table.State.{is_max}
use ptab.Spec.{Call, Reply}
use ptab.Concurrent.System.{Pc, idle, move}
use ptab.Concurrent.Invariant.{Inv}
use ptab.Concurrent.Calm.{Calm-Moved}
use ptab.Concurrent.Moved.{Moved}
use ptab.Concurrent.Effect.{view, reported, tally, charged, Effect, looks, reads, checks, counts}
use ptab.Concurrent.Counters.{Advances, entries-lt}

module _ {T Cell : Type 0} (o : AtomicOwned T Cell) (p : Params) where
  same_option : (v : Option T) → Option.map (λ value. value) v ≡ v
  same_option none = refl
  same_option (some v) = refl

  double_not : (b : Bool) → not (not b) ≡ b
  double_not true = refl
  double_not false = refl

  module _ {n : ℕ} {t : Table Cell} {pc : ℕ → Pc T} (inv : Inv o p n t pc) (fits : FitsLine p) where
    pub read_value : (key : Detached) → read o p key t ≡ some (value_at o t (slot_of p key))
    unfolding read with find load
    read_value key =
        let (x, e) = inv.cell_init (slot_of p key) (slot_of-lt p fits key) in
        ground (arith, e, same_option (o.load x))

    pub exists_value : (key : Detached) → exists o p key t ≡ some (occupied o t (slot_of p key))
    unfolding exists find load
    exists_value key =
        let (x, e) = inv.cell_init (slot_of p key) (slot_of-lt p fits key) in
        ground (arith, e, double_not (is_some (o.load x)))

  -- `len` counts the entries and the threads in a call, and is cut off at the capacity.
  pub len_lem :
      {n : ℕ} {t : Table Cell} {pc : ℕ → Pc T}
      → Inv o p n t pc
      → length_usize p + n < 2 ^ 32
      → len p t ≡ reported p (tally charged n pc) (view o p t)
  unfolding len is_max
  len_lem {n} inv few =
      let (low, high) = length_usize-bounds p in
      let lt = entries-lt o p inv few in
      ground
        (arith, as_u32-length p, as_u32-eq-as_usize max_capacity, inv.counted, cap-add-held_back p)

  module _ {n : ℕ} {t : Table Cell} {pc : ℕ → Pc T} {k : ℕ} (inv : Inv o p n t pc) where
    -- A call that leaves the table as it is and returns at once.
    unmoved :
        (last : Option (Reply T)) (reply : Reply T)
        → pc k ≡ idle last
        → Moved o p t t pc k (idle last) (idle (some reply))
    unmoved last reply here =
        Calm-Moved o p {u = t} (idle (some reply)) inv here
          (record { slots = λ i. refl; values = λ c. refl; cell_init = inv.cell_init }) refl tt refl
          (inl (omega arith)) inv.next_small inv.free_small

    pub len_now :
        length_usize p + n < 2 ^ 32
        → (fails : Bool) (last : Option (Reply T)) → pc k ≡ idle last
        → Advances o p n Call.len fails t pc k (idle last)
    unfolding move
    len_now few fails last here = record {
      next = idle (some (Reply.count (len p t)));
      after = t;
      run = refl;
      moved = unmoved last (Reply.count (len p t)) here;
      effect =
          subst
            (λ (x : ℕ).
              Effect p (tally charged n pc) (view o p t) Call.len (idle last)
                (idle (some (Reply.count x))) (view o p t))
            (sym (len_lem inv few)) (looks refl (counts refl));
    }

    module _ (fits : FitsLine p) (key : Detached) where
      pub read_now :
          (fails : Bool) (last : Option (Reply T))
          → pc k ≡ idle last
          → Advances o p n (Call.read key) fails t pc k (idle last)
      unfolding move
      read_now fails last here =
          let reply : Reply T = Reply.value (value_at o t (slot_of p key)) in
          record {
            next = idle (some reply);
            after = t;
            run = ground (arith, read_value inv fits key);
            moved = unmoved last reply here;
            effect = looks refl (reads refl);
          }

      pub exists_now :
          (fails : Bool) (last : Option (Reply T))
          → pc k ≡ idle last
          → Advances o p n (Call.exists key) fails t pc k (idle last)
      unfolding move
      exists_now fails last here =
          let reply : Reply T = Reply.present (occupied o t (slot_of p key)) in
          record {
            next = idle (some reply);
            after = t;
            run = ground (arith, exists_value inv fits key);
            moved = unmoved last reply here;
            effect = looks refl (checks refl);
          }
