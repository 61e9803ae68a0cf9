-- ===== src/Common/Fault.antt =====
-- Stateful code that can fault: a function from a state to a result and a new state, or `none` for
-- undefined behaviour or a loop that has used up its fuel.
use mathlib.Core.Option.{Option, none, some}

abbrev pub State : Type 0 → Type 0 → Type 0
State S A = S → Option (A × S)

module _ {S : Type 0} where
  abbrev pub pure : {A : Type 0} → A → State S A
  pure a s = some (a, s)

  abbrev pub fault : {A : Type 0} → State S A
  fault s = none

  infixl 5 ◌>>=◌ ◌>>◌
  abbrev pub ◌>>=◌ : {A B : Type 0} → State S A → (A → State S B) → State S B
  ◌>>=◌ m f s = elim (m s) [ none ↦ none | some (a, s') ↦ f a s' ]

  abbrev pub ◌>>◌ : {A B : Type 0} → State S A → State S B → State S B
  m >> k = m >>= λ _. k

  -- A step that cannot fault.
  abbrev pub total : {A : Type 0} → (S → A × S) → State S A
  total f s = some (f s)

  -- A step that reads the state only.
  abbrev pub reads : {A : Type 0} → (S → A) → State S A
  reads f s = some (f s, s)
