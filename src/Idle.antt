-- ===== src/Idle.antt =====
-- src/idle.rs: the idle window that the worker shares with the backends.
use nabla.Base.{ℕ, Bool, true, false, not, ◌&&◌, ltb, leb, ◌==◌, if◌then◌else◌}
pub mod Soundness
mod Tests

pub record IdleWindow : Type 0 where
  pub from : ℕ
  pub to : ℕ

-- The shared segment, and whether the postmaster requested it.
pub record Shared : Type 0 where
  pub initialized : Bool
  pub window : IdleWindow

-- `in_progress`: the library is being loaded through shared_preload_libraries.
unfoldable pub register : Bool → Shared → Shared
register in_progress s =
    if in_progress then record { initialized = true; window = record { from = 0; to = 0 } } else s

unfoldable pub publish : ℕ → ℕ → Shared → Shared
publish from to s =
    if s.initialized then record s { window = record { from = from; to = to } } else s

unfoldable pub effective_frontier : Shared → ℕ → ℕ
effective_frontier s frontier =
    if not s.initialized
    then frontier
    else if not (s.window.from == 0) && (leb s.window.from frontier && ltb frontier s.window.to)
    then s.window.to
    else frontier
