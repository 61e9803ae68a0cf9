-- ===== src/Reclaim/Leak/Agree.antt =====
-- src/reclaim/: cells of leak.rs give the answers of the cells of sdd.rs.
use mathlib.Core.List.{List, [], ◌∷◌}
use mathlib.Core.Option.{some-injective}
use native.Mathlib.Decide.{ℕ_discrete}
use ptab.Common.{
  Bool, ℕ, zero, suc, ◌≤◌, ◌≡◌, refl, ap, ◌∙◌, sym, subst, arith, Option, none, some, update,
  Option-cases, inl, inr,
}
use ptab.Reclaim.Owned.{AtomicOwned}
use ptab.Reclaim.Sdd
use ptab.Reclaim.Sdd.{is_some}
use ptab.Reclaim.Leak
use ptab.Reclaim.Leak.{null, Heap}
use ptab.Reclaim.Leak.Memory.{
  Act, loads, writes, evicts, Answer, shown, written, evicted, Memory, perform, performs, drops,
  IsNew, IsAllocated, IsAllocated-later, perform_sdd, performs_sdd, drops_sdd,
}
use ptab.Reclaim.Leak.Sound.{
  IsSound, shows, reads_shown, with_new, new_shows, new-IsSound, without, evicted_shows,
  evicted-IsSound,
}
use ptab.Reclaim.Leak.Drops.{drop_lem}

module _ {T Cell : Type 0} (o : AtomicOwned T Cell) where
  -- The cells from offset `from` on show the same over both.
  abbrev pub IsSame : ℕ → (ℕ → Cell) → Memory T → Type 0
  IsSame from cells m = (j : ℕ) → from ≤ j → o.load (cells j) ≡ shows m j

  drops_agree :
      (n from : ℕ) (m : Memory T) (cells : ℕ → Cell)
      → IsSound from m
      → IsSame from cells m
      → (u : Memory T) × (drops n from m ≡ some (drops_sdd o n from cells, u))
  unfolding drops Sdd.drop_in_place
  drops_agree zero from m cells sound same = (m, refl)
  drops_agree (suc n) from m cells sound same =
      let d = drop_lem from m sound in
      let (u, rest) =
        drops_agree n (suc from) d.after cells d.sound
          (λ j h. same j (omega (arith, h)) ∙ sym (d.same j h)) in
      let value : shows m from ≡ o.into_owned (cells from) =
        sym (o.into_owned-eq-load (cells from) ∙ same from (omega arith)) in
      (u, ground (arith, d.run, rest, value))

  -- The same operation over leak.rs.
  record Followed (act : Act T) (m : Memory T) (answer : Answer T) (cells : ℕ → Cell) : Type 0 where
    after : Memory T
    run : perform act m ≡ some (answer, after)
    sound : IsSound 0 after
    same : IsSame 0 cells after

  written_load : (c c' : Cell) (v : T) → Sdd.write o c (some v) ≡ some c' → o.load c' ≡ some v
  unfolding Sdd.write
  written_load c c' v run = elim (Option-cases (o.swap c (some v)).0) [
    | inl empty ↦
        let e : (o.swap c (some v)).1 ≡ c' = ground (arith, empty, run) in
        ap o.load (sym e) ∙ o.load-swap c (some v)
    | inr (old, full) ↦ absurd (ground (arith, full, run))
  ]

  write_uninit : (c : Cell) → Sdd.write o c none ≡ none
  unfolding Sdd.write
  write_uninit c = refl

  module _ (m : Memory T) (cells : ℕ → Cell) (sound : IsSound 0 m) (same : IsSame 0 cells m) where
    set_same :
        (i : ℕ) (c : Cell) (value : Option T)
        → o.load c ≡ value
        → (j : ℕ) → o.load (update cells i c j) ≡ update (shows m) i value j
    set_same i c value e j = elim (ℕ_discrete i j) [
      | yes here ↦ ground (arith, here, e)
      | no other ↦ ground (arith, other, same j (omega arith))
    ]

    -- A cell shows a value exactly if it has a box.
    present : (i : ℕ) → is_some (m.cell i).inner ≡ is_some (shows m i)
    present i = elim (Option-cases (m.cell i).inner) [
      | inl nothing ↦ ground (arith, nothing)
      | inr (a, here) ↦
          let (v, full) = sound.held i a (omega arith) here in ground (arith, here, full)
    ]

    follow_load : (i : ℕ) → Followed (loads i) m (shown (o.load (cells i))) cells
    unfolding perform
    follow_load i = record {
      after = m;
      run = ground (arith, reads_shown m i sound (omega arith), same i (omega arith));
      sound = sound;
      same = same;
    }

    follow_evict :
        (i : ℕ)
        → Followed
            (evicts i)
            m
            (evicted (Sdd.evict o (cells i)).0)
            (update cells i (Sdd.evict o (cells i)).1)
    unfolding perform Leak.evict Sdd.evict
    follow_evict i = record {
      after = without m i;
      run =
          ap (λ (b : Bool). some (let a : Answer T = evicted b in a, without m i))
            (present i ∙ ap is_some (sym (o.swap_old (cells i) none ∙ same i (omega arith))));
      sound = evicted-IsSound m sound i;
      same =
          λ j h. set_same i _ none (o.load-swap (cells i) none) j ∙ sym (evicted_shows m sound i j);
    }

    follow_write :
        (i box : ℕ) (v : T) (c : Cell)
        → m.heap box ≡ none
        → Sdd.write o (cells i) (some v) ≡ some c
        → Followed (writes i box (some v)) m written (update cells i c)
    unfolding perform Leak.write Sdd.write
    follow_write i box v c new run = record {
      after = with_new m i box v;
      run = refl;
      sound = new-IsSound m sound i box v new;
      same = λ j h.
          set_same i c (some v) (written_load (cells i) c v run) j
          ∙ sym (new_shows m sound i box v new j);
    }

    follow :
        (act : Act T) {answer : Answer T} {cells' : ℕ → Cell}
        → IsNew m act
        → perform_sdd o act cells ≡ some (answer, cells')
        → Followed act m answer cells'
    unfolding perform_sdd
    follow (loads i) new run =
        subst (λ (r : Answer T × (ℕ → Cell)). Followed (loads i) m r.0 r.1) (some-injective _ _ run)
          (follow_load i)
    follow (writes i box none) new run = absurd (ground (arith, write_uninit (cells i), run))
    follow (writes i box (some v)) new run = elim (Option-cases (Sdd.write o (cells i) (some v))) [
      | inl bad ↦ absurd (ground (arith, bad, run))
      | inr (c, good) ↦
          subst (λ (r : Answer T × (ℕ → Cell)). Followed (writes i box (some v)) m r.0 r.1)
            (some-injective _ _ (
              let e : some (written, update cells i c)
                  ≡ perform_sdd o (writes i box (some v)) cells =
                ground (arith, good) in
              e ∙ run))
            (follow_write i box v c new good)
    ]
    follow (evicts i) new run =
        subst (λ (r : Answer T × (ℕ → Cell)). Followed (evicts i) m r.0 r.1)
          (some-injective _ _ run) (follow_evict i)

  follow_all :
      (acts : List (Act T)) (m : Memory T) (cells : ℕ → Cell) {answers : List (Answer T)}
      {cells' : ℕ → Cell}
      → IsSound 0 m
      → IsSame 0 cells m
      → IsAllocated m acts
      → performs_sdd o acts cells ≡ some (answers, cells')
      → (u : Memory T) × (performs acts m ≡ some (answers, u)) × IsSound 0 u × IsSame 0 cells' u
  unfolding performs performs_sdd
  follow_all [] m cells {answers} {cells'} sound same new run =
      let none_left : [] ≡ answers = ground (arith, run) in
      let kept : cells ≡ cells' = ground (arith, run) in
      (
        m,
        ap (λ (l : List (Answer T)). some (l, m)) none_left,
        sound,
        λ j h. ap (λ (f : ℕ → Cell). o.load (f j)) (sym kept) ∙ same j h,
      )
  follow_all (act ∷ acts) m cells {answers} {cells'} sound same new run =
      elim (Option-cases (perform_sdd o act cells)) [
        | inl bad ↦ absurd (ground (arith, bad, run))
        | inr ((answer, between), first) ↦ elim (Option-cases (performs_sdd o acts between)) [
          | inl bad ↦ absurd (ground (arith, first, bad, run))
          | inr ((others, last), rest) ↦
              let f = follow m cells sound same act new.0 first in
              let (u, run', sound', same') =
                follow_all acts f.after between f.sound f.same
                  (IsAllocated-later act acts m new f.run) rest in
              let all : answer ∷ others ≡ answers = ground (arith, first, rest, run) in
              let ends : last ≡ cells' = ground (arith, first, rest, run) in
              (
                u,
                ground (arith, f.run, run', all),
                sound',
                λ j h. ap (λ (g : ℕ → Cell). o.load (g j)) (sym ends) ∙ same' j h,
              )
        ]
      ]

  -- Cells that are null, over boxes of others.
  abbrev pub null_cells : Heap T → Memory T
  null_cells heap = record { heap = heap; cell = λ _. null }

  null-IsSound : (heap : Heap T) → IsSound 0 (null_cells heap)
  null-IsSound heap = record { held = λ i a h e. absurd cc; alone = λ i j a hi hj ei ej. absurd cc }

  -- From cells that are null, where a list of loads, writes and evictions is no undefined
  -- behaviour over sdd.rs, it is none over leak.rs either, in a memory where each write gets the
  -- address of a new box, and gives the same answers; then any number of the cells can be dropped
  -- one after another over leak.rs, with no box freed twice, and the dropped values are those of
  -- sdd.rs.
  pub same_answers :
      (heap : Heap T) (acts : List (Act T)) (n : ℕ) {answers : List (Answer T)} {cells' : ℕ → Cell}
      → IsAllocated (null_cells heap) acts
      → performs_sdd o acts (λ _. Sdd.null o) ≡ some (answers, cells')
      → (m : Memory T) × (performs acts (null_cells heap) ≡ some (answers, m))
        × ((u : Memory T) × (drops n 0 m ≡ some (drops_sdd o n 0 cells', u)))
  same_answers heap acts n {cells' = cells'} new run =
      let (m, run', sound, same) =
        follow_all acts (null_cells heap) (λ _. Sdd.null o) (null-IsSound heap) (λ j h. o.load-null)
          new run in
      (m, run', drops_agree n 0 m cells' sound same)
