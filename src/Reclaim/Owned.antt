-- ===== src/Reclaim/Owned.antt =====
-- What the crate relies on of `sdd::AtomicOwned`: a cell that holds one owned value or none, read
-- and exchanged atomically. A value that a reader has loaded stays alive for its guard, so a load
-- is seen as the value itself. The tag bits are always `Tag::None`.
use ptab.Common.{◌≡◌, refl, Option, none}

pub record AtomicOwned (T Cell : Type 0) : Type 0 where
  pub null : Cell
  pub load : Cell → Option T
  -- The value that is taken out, and the cell afterwards.
  pub swap : Cell → Option T → Option T × Cell
  pub into_owned : Cell → Option T
  pub load-null : load null ≡ none
  pub swap_old : (c : Cell) (v : Option T) → (swap c v).0 ≡ load c
  pub load-swap : (c : Cell) (v : Option T) → load (swap c v).1 ≡ v
  pub into_owned-eq-load : (c : Cell) → into_owned c ≡ load c

-- A cell that is its content meets this.
abbrev pub plain : (T : Type 0) → AtomicOwned T (Option T)
plain T = record {
  null = none;
  load = λ c. c;
  swap = λ c v. (c, v);
  into_owned = λ c. c;
  load-null = refl;
  swap_old = λ c v. refl;
  load-swap = λ c v. refl;
  into_owned-eq-load = λ c. refl;
}
