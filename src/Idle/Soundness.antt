-- ===== src/Idle/Soundness.antt =====
-- `effective_frontier` of src/idle.rs, with the windows that the worker publishes.
use nabla.Base.{
  ℕ, ◌≤◌, ◌<◌, ◌≡◌, ◌⊎◌, inl, inr, refl, List, [], ◌∷◌, All, leb, if◌then◌else◌, arith,
}
use nabla.Idle.{IdleWindow, Shared, effective_frontier}

-- The published changes of the log, each with the end of its transaction, and those among them
-- that the base tables show at a position.
abbrev pub Log : Type 0
Log = List (ℕ × ℕ)

unfoldable pub reflected : ℕ → Log → Log
reflected at [] = []
reflected at ((end, change) ∷ log) =
    if leb end at then (end, change) ∷ reflected at log else reflected at log

-- The range `(from, to]` of the log holds no published change.
abbrev pub IsQuiet : IdleWindow → Log → Type 0
IsQuiet w log = All (λ c. (c.0 ≤ w.from) ⊎ (w.to < c.0)) log

same_reflected :
    (w : IdleWindow) (frontier : ℕ) (log : Log)
    → IsQuiet w log
    → w.from ≤ frontier
    → frontier < w.to
    → reflected w.to log ≡ reflected frontier log
unfolding reflected
same_reflected w frontier [] q h k = refl
same_reflected w frontier ((end, change) ∷ log) (inl early, q) h k =
    ground (arith, same_reflected w frontier log q h k)
same_reflected w frontier ((end, change) ∷ log) (inr late, q) h k =
    ground (arith, same_reflected w frontier log q h k)

-- If the published window is quiet, the base tables show the same changes at the effective
-- frontier as at the stored one, and the effective frontier is not the earlier of the two.
pub reflected-effective_frontier :
    (s : Shared) (frontier : ℕ) (log : Log)
    → IsQuiet s.window log
    → (reflected (effective_frontier s frontier) log ≡ reflected frontier log)
      × (frontier ≤ effective_frontier s frontier)
unfolding effective_frontier
reflected-effective_frontier s frontier log q =
    (ground (arith, same_reflected s.window frontier log q), ground arith)
