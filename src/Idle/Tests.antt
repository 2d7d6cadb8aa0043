-- ===== src/Idle/Tests.antt =====
-- The idle window at concrete inputs.
use nabla.Base.{◌≡◌, ◌≤◌, refl, [], ◌∷◌, true, inl, inr, arith}
use nabla.Idle.{Shared, effective_frontier}
use nabla.Idle.Soundness.{Log, reflected, reflected-effective_frontier}

abbrev shared : Shared
shared = record { initialized = true; window = record { from = 10; to = 20 } }

lifts_inside : effective_frontier shared 15 ≡ 20
unfolding effective_frontier
lifts_inside = refl

stays_before : effective_frontier shared 9 ≡ 9
unfolding effective_frontier
stays_before = refl

abbrev log : Log
log = (8, 1) ∷ (10, 2) ∷ (25, 3) ∷ []

reflected-effective_frontier_example :
    (reflected (effective_frontier shared 15) log ≡ reflected 15 log)
    × (15 ≤ effective_frontier shared 15)
reflected-effective_frontier_example =
    reflected-effective_frontier shared 15 log
      (inl (omega arith), (inl (omega arith), (inr (omega arith), tt)))
