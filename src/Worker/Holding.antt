-- ===== src/Worker/Holding.antt =====
-- Where the replication slot is held when a view must retry a transaction (src/worker.rs).
use nabla.Base.{ℕ, zero, suc, ◌≤◌, ◌≡◌, refl, List, [], ◌∷◌, map, take, max, some, arith}
use nabla.Pgoutput.Types.{SourceTransaction}
use nabla.Worker.Types.{Tracked}
use nabla.Worker.Coverage.{Reaches}
use nabla.Worker.Poll.{advance_slot, end_at, hold_slot}

-- The end of a transaction before index `k` is one of the ends that the view has reached.
Reaches-end :
    (s : Tracked) (k : ℕ) (txs : List SourceTransaction)
    → Reaches s (take (suc k) (map (λ tx. tx.end_lsn) txs))
    → end_at k txs ≤ s.view.frontier
unfolding end_at
Reaches-end s zero [] h = omega arith
Reaches-end s (suc k) [] h = omega arith
Reaches-end s zero (tx ∷ txs) (h, hs) = h
Reaches-end s (suc k) (tx ∷ txs) (h, hs) = Reaches-end s k txs hs

-- If a view has absorbed all transactions before the one that it must retry, the slot is held at a
-- position that the view has reached, unless the slot was further already; and it never goes back.
pub hold_slot-Reaches :
    (s : Tracked) (k : ℕ) (txs : List SourceTransaction) (confirmed : ℕ)
    → Reaches s (take k (map (λ tx. tx.end_lsn) txs))
    → (to : ℕ) × (hold_slot k txs (some confirmed) ≡ some to)
      × (to ≤ max confirmed s.view.frontier)
      × (confirmed ≤ to)
unfolding hold_slot advance_slot
hold_slot-Reaches s zero txs confirmed h = (confirmed, refl, omega arith, omega arith)
hold_slot-Reaches s (suc k) txs confirmed h =
    let reached : end_at k txs ≤ s.view.frontier = Reaches-end s k txs h in
    (max (end_at k txs) confirmed, refl, omega arith, omega arith)
