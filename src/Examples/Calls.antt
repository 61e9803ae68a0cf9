-- ===== src/Examples/Calls.antt =====
-- The theorem on sequences of calls, on a sequence with every call.
use mathlib.Core.List.{List, [], ◌∷◌}
use ptab.Common.{ℕ, ◌≡◌, arith, Option, some}
use ptab.Reclaim.Owned.{plain}
use ptab.Public
use ptab.Public.{PTab}
use ptab.Spec.{empty, Call, Reply, AreWordCalls, Trace}
use ptab.Refine.{perform_all, view, new-refines}
use ptab.Examples.Fixtures.{medium, medium_fits, flaky, flaky-IsReliable}

abbrev session : List (Call ℕ)
session =
    Call.insert 7
    ∷ Call.len
    ∷ Call.write (λ d. d.bits)
    ∷ Call.read (record { bits = 0 })
    ∷ Call.remove (record { bits = 0 })
    ∷ Call.exists (record { bits = 0 })
    ∷ Call.remove (record { bits = 64 })
    ∷ []

session-AreWordCalls : AreWordCalls medium session
session-AreWordCalls = (tt, (tt, (tt, (tt, (omega arith, (tt, (omega arith, tt)))))))

new-refines_example :
    (replies : List (Reply ℕ)) × (after : PTab (Option ℕ)) × (perform_all
        (plain ℕ)
        medium
        (λ _. flaky)
        0
        session
        (Public.new (plain ℕ) medium)
      ≡ some (replies, after))
    × Trace medium (empty ℕ) session replies (view (plain ℕ) medium after)
new-refines_example =
    new-refines (plain ℕ) medium (λ _. flaky) session medium_fits (λ i. flaky-IsReliable)
      session-AreWordCalls
