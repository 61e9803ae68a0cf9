-- ===== src/Table/Lookup.antt =====
-- src/table.rs: what the lookups and the counts of a valid table return.
use mathlib.Core.Option
use ptab.Common.{
  ℕ, ◌+◌, ◌-◌, ◌%◌, ◌^◌, ◌≤◌, ◌<◌, ◌≡◌, refl, ap, ◌∙◌, arith, Bool, true, false, not, Option, none,
  some,
}
use native.Mathlib.Nat.{pow-le-pow_right, add-mod_right, mod-eq_of_lt, mod-lt}
use ptab.Common.Word.{wrapping_sub}
use ptab.Params.Capacity.{max_capacity}
use ptab.Params.Rounding.{as_u32-eq-as_usize}
use ptab.Params.Target.{word_bits}
use ptab.Params.Derived.{Params, length_usize}
use ptab.Params.Geometry.{FitsLine, length_usize-bounds, word_bits-ge}
use ptab.Index.Defs.{Detached}
use ptab.Index.Fields.{detached_concrete-eq}
use ptab.Reclaim.Owned.{AtomicOwned}
use ptab.Table.State.{Table, is_max}
use ptab.Table.Ops.{cap, len, load, find, with, exists, read}
use ptab.Table.View.{value_at, occupied, held_back, population, IsValid}
use ptab.Table.Reserve.{as_u32-length}
use ptab.Table.Insert.{slot_of}

module _ (p : Params) where
  -- One slot is held back at the largest capacity only.
  pub cap-add-held_back : cap p + held_back p ≡ length_usize p
  unfolding cap is_max
  cap-add-held_back = let (low, high) = length_usize-bounds p in ground (arith, one_less)
    where
      wide : 2 ^ 32 ≤ 2 ^ word_bits p.target
      wide = pow-le-pow_right {n = 2} (omega arith) {i = 32} (word_bits-ge p.target)

      one_less : wrapping_sub (word_bits p.target) (length_usize p) 1 ≡ length_usize p - 1
      one_less =
          let (low, high) = length_usize-bounds p in
          ap (λ (t : ℕ). t % 2 ^ word_bits p.target)
            (let e : length_usize p + 2 ^ word_bits p.target - 1
                  ≡ length_usize p - 1 + 2 ^ word_bits p.target =
                omega (arith, wide) in
              e)
          ∙ add-mod_right (length_usize p - 1) (2 ^ word_bits p.target)
          ∙ mod-eq_of_lt (omega (arith, wide))

  pub slot_of-lt : FitsLine p → (d : Detached) → slot_of p d < length_usize p
  slot_of-lt fits d =
      let (low, high) = length_usize-bounds p in
      rw (detached_concrete-eq p fits d) (mod-lt d.bits (omega arith))

  module _ {T Cell : Type 0} (o : AtomicOwned T Cell) {t : Table Cell} where
    -- On a valid table, len is the number of slots that have a value.
    pub len-eq-population : IsValid o p t → len p t ≡ population o p t
    unfolding len is_max
    len-eq-population valid =
        let (low, high) = length_usize-bounds p in
        ground (arith, as_u32-length p, as_u32-eq-as_usize max_capacity, valid.counted, valid.room)

    -- A lookup depends on the index only by the slot that it names.
    pub find_lem :
        (d : Detached)
        → IsValid o p t
        → slot_of p d < length_usize p
        → find o p d t ≡ some (record { pointer = value_at o t (slot_of p d) })
    unfolding find load
    find_lem d valid h = let (x, e) = valid.cell_init (slot_of p d) h in ground arith

    pub with_lem :
        {R : Type 0} (d : Detached) (f : T → R)
        → FitsLine p
        → IsValid o p t
        → with o p d f t ≡ some (Option.map f (value_at o t (slot_of p d)))
    unfolding with
    with_lem d f fits valid = rw (find_lem d valid (slot_of-lt fits d)) refl

    pub exists_lem :
        (d : Detached)
        → FitsLine p
        → IsValid o p t
        → exists o p d t ≡ some (occupied o t (slot_of p d))
    unfolding exists
    exists_lem d fits valid =
        rw (find_lem d valid (slot_of-lt fits d)) (double_not (occupied o t (slot_of p d)))
      where
        double_not : (b : Bool) → some (not (not b)) ≡ some b
        double_not true = refl
        double_not false = refl

    -- On a valid table where a cache line fits, read with any index returns the value at the slot
    -- that the index names.
    pub read_lem :
        (d : Detached)
        → FitsLine p
        → IsValid o p t
        → read o p d t ≡ some (value_at o t (slot_of p d))
    unfolding read
    read_lem d fits valid =
        with_lem d (λ value. value) fits valid ∙ ap some (same (value_at o t (slot_of p d)))
      where
        same : (v : Option T) → Option.map (λ value. value) v ≡ v
        same none = refl
        same (some v) = refl
