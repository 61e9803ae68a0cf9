-- ===== src/Reclaim/Leak/Kept.antt =====
-- src/reclaim/leak.rs: a box is never freed while the table lives, so a pointer that was loaded stays
-- good.
use mathlib.Core.List.{List, [], ◌∷◌}
use native.Mathlib.Decide.{ℕ_discrete}
use ptab.Common.{
  ℕ, ◌≡◌, ap, ◌∙◌, sym, arith, Option, none, some, update, update_other, Option-cases, inl, inr,
}
use ptab.Reclaim.Leak.{Heap, Shared, as_ref, null, load, write, evict}
use ptab.Reclaim.Leak.Memory.{
  Act, loads, writes, evicts, Answer, Memory, perform, performs, IsNew, IsAllocated,
  IsAllocated-later,
}

-- What is in a box stays in it.
abbrev pub Keeps : {T : Type 0} → Heap T → Heap T → Type 0
Keeps {T = T} h h' = (a : ℕ) (v : T) → h a ≡ some v → h' a ≡ some v

module _ {T : Type 0} where
  pub update-Keeps : (h : Heap T) (box : ℕ) (v : T) → h box ≡ none → Keeps h (update h box (some v))
  update-Keeps h box v new a w e = elim (ℕ_discrete box a) [
    | yes same ↦ absurd (cc (new, ap h same, e))
    | no other ↦ update_other h box (some v) a other ∙ e
  ]

  perform-Keeps :
      (act : Act T) (m : Memory T) {answer : Answer T} {u : Memory T}
      → IsNew m act
      → perform act m ≡ some (answer, u)
      → Keeps m.heap u.heap
  unfolding perform write evict
  perform-Keeps (loads i) m {u = u} new run a w e =
      elim (Option-cases (as_ref (load (m.cell i)) m.heap)) [
        | inl bad ↦ absurd (ground (arith, bad, run))
        | inr (shows, good) ↦
            let same : m ≡ u = ground (arith, good, run) in
            ap (λ (x : Memory T). x.heap a) (sym same) ∙ e
      ]
  perform-Keeps (writes i box none) m {u = u} new run a w e = absurd cc
  perform-Keeps (writes i box (some v)) m {u = u} new run a w e =
      let v' : Memory T = record {
        heap = update m.heap box (some v);
        cell = update m.cell i (record { inner = some box });
      } in
      let same : v' ≡ u = ground (arith, run) in
      ap (λ (x : Memory T). x.heap a) (sym same) ∙ update-Keeps m.heap box v new a w e
  perform-Keeps (evicts i) m {u = u} new run a w e =
      let v' : Memory T = record { heap = m.heap; cell = update m.cell i null } in
      let same : v' ≡ u = ground (arith, run) in ap (λ (x : Memory T). x.heap a) (sym same) ∙ e

  -- The first operation of a list, and the others.
  pub record Split (act : Act T) (acts : List (Act T)) (m : Memory T) (answers : List (Answer T))
      (u : Memory T) : Type 0 where
    pub answer : Answer T
    pub between : Memory T
    pub others : List (Answer T)
    pub first : perform act m ≡ some (answer, between)
    pub rest : performs acts between ≡ some (others, u)

  pub split :
      (act : Act T) (acts : List (Act T)) (m : Memory T) (answers : List (Answer T)) (u : Memory T)
      → performs (act ∷ acts) m ≡ some (answers, u)
      → Split act acts m answers u
  unfolding performs
  split act acts m answers u run = elim (Option-cases (perform act m)) [
    | inl bad ↦ absurd (ground (arith, bad, run))
    | inr ((answer, between), first) ↦ elim (Option-cases (performs acts between)) [
      | inl bad ↦ absurd (ground (arith, first, bad, run))
      | inr ((others, v), rest) ↦
          let same : v ≡ u = ground (arith, first, rest, run) in
          record {
            answer = answer;
            between = between;
            others = others;
            first = first;
            rest = rest ∙ ap (λ (x : Memory T). some (others, x)) same;
          }
    ]
  ]

  performs-Keeps :
      (acts : List (Act T)) (m : Memory T) {answers : List (Answer T)} {u : Memory T}
      → IsAllocated m acts
      → performs acts m ≡ some (answers, u)
      → Keeps m.heap u.heap
  unfolding performs
  performs-Keeps [] m {u = u} new run a w e =
      let same : m ≡ u = ground (arith, run) in ap (λ (x : Memory T). x.heap a) (sym same) ∙ e
  performs-Keeps (act ∷ acts) m {answers} {u} new run a w e =
      let s = split act acts m answers u run in
      performs-Keeps acts s.between (IsAllocated-later act acts m new s.first) s.rest a w
        (perform-Keeps act m new.0 s.first a w e)

  -- Over leak.rs a pointer that shows a value, or is null, shows the same after any list of
  -- loads, writes and evictions that is no undefined behaviour, where each write gets the address
  -- of a new box: also when the cell that it came from was emptied and filled again.
  pub loaded_stays :
      (s : Shared) (acts : List (Act T)) (m u : Memory T) {value : Option T}
      {answers : List (Answer T)}
      → as_ref s m.heap ≡ some value
      → IsAllocated m acts
      → performs acts m ≡ some (answers, u)
      → as_ref s u.heap ≡ some value
  loaded_stays s acts m u {value} good new run = elim (Option-cases s.pointer) [
    | inl nothing ↦ ground (arith, nothing, good)
    | inr (a, here) ↦ elim (Option-cases (m.heap a)) [
      | inl bad ↦ absurd (ground (arith, here, bad, good))
      | inr (v, held) ↦ ground (arith, here, held, good, performs-Keeps acts m new run a v held)
    ]
  ]
