-- ===== src/Reclaim/Leak/Drops.antt =====
-- src/reclaim/: a cell that is dropped gives its box back, and the cells after it keep theirs.
use ptab.Common.{ℕ, suc, ◌≤◌, ◌≡◌, ◌≢◌, ◌∙◌, arith, none, some, update, Option-cases, inl, inr}
use ptab.Reclaim.Leak
use ptab.Reclaim.Leak.{null}
use ptab.Reclaim.Leak.Memory.{Memory, drop_at}
use ptab.Reclaim.Leak.Sound.{IsSound, shows}

module _ {T : Type 0} where
  -- The first of the cells is dropped, with its box.
  pub record Dropped (from : ℕ) (m : Memory T) : Type 0 where
    pub after : Memory T
    pub run : drop_at from m ≡ some (shows m from, after)
    pub sound : IsSound (suc from) after
    pub same : (j : ℕ) → suc from ≤ j → shows after j ≡ shows m j

  drop_null :
      (from : ℕ) (m : Memory T) → IsSound from m → (m.cell from).inner ≡ none → Dropped from m
  unfolding drop_at Leak.drop_in_place
  drop_null from m sound nothing =
      let still : (j : ℕ) → suc from ≤ j → update m.cell from (m.cell from) j ≡ m.cell j =
        λ j h. (let ne : from ≢ j = λ e. omega (arith, e, h) in ground (arith, ne)) in
      record {
        after = record { heap = m.heap; cell = update m.cell from (m.cell from) };
        run = ground (arith, nothing);
        sound = record {
          held = λ j a h e. sound.held j a (omega (arith, h)) (ground (arith, still j h, e));
          alone = λ j k a hj hk ej ek.
              sound.alone j k a (omega (arith, hj)) (omega (arith, hk))
                (ground (arith, still j hj, ej)) (ground (arith, still k hk, ek));
        };
        same = λ j h. ground (arith, still j h);
      }

  drop_box :
      (from : ℕ) (m : Memory T) (a : ℕ) (v : T)
      → IsSound from m
      → (m.cell from).inner ≡ some a
      → m.heap a ≡ some v
      → Dropped from m
  unfolding drop_at Leak.drop_in_place
  drop_box from m a v sound here full =
      let other : (j : ℕ) → suc from ≤ j → from ≢ j = λ j h e. omega (arith, e, h) in
      let cells : (j : ℕ) → suc from ≤ j → update m.cell from (m.cell from) j ≡ m.cell j =
        λ j h. (let ne = other j h in ground (arith, ne)) in
      let boxes : (j b : ℕ)
          → suc from ≤ j
          → (m.cell j).inner ≡ some b
          → update m.heap a none b ≡ m.heap b =
        λ j b h e.
          (let ne : a ≢ b = λ same. other j h (
              sound.alone from j a (omega arith) (omega (arith, h)) here
                (ground (arith, same, e))) in
            ground (arith, ne)) in
      record {
        after = record { heap = update m.heap a none; cell = update m.cell from (m.cell from) };
        run = ground (arith, here, full);
        sound = record {
          held = λ j b h e.
              let was : (m.cell j).inner ≡ some b = ground (arith, cells j h, e) in
              let (w, e') = sound.held j b (omega (arith, h)) was in (w, boxes j b h was ∙ e');
          alone = λ j k b hj hk ej ek.
              sound.alone j k b (omega (arith, hj)) (omega (arith, hk))
                (ground (arith, cells j hj, ej)) (ground (arith, cells k hk, ek));
        };
        same = λ j h. elim (Option-cases (m.cell j).inner) [
          | inl nothing ↦ ground (arith, cells j h, nothing)
          | inr (b, e) ↦ ground (arith, cells j h, e, boxes j b h e)
        ];
      }

  pub drop_lem : (from : ℕ) (m : Memory T) → IsSound from m → Dropped from m
  drop_lem from m sound = elim (Option-cases (m.cell from).inner) [
    | inl nothing ↦ drop_null from m sound nothing
    | inr (a, here) ↦
        let (v, full) = sound.held from a (omega arith) here in drop_box from m a v sound here full
  ]
