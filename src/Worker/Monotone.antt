-- ===== src/Worker/Monotone.antt =====
-- The position of the replication slot (src/worker.rs, `run_round` and the loop around it).
use nabla.Base.{
  ℕ, zero, suc, ◌≤◌, ◌≡◌, ◌⊎◌, inl, inr, refl, sym, ap, subst, ◌∙◌, List, [], ◌∷◌, Option, none,
  some, Bool, true, false, Result, ok, err, Holds, Holds-then, max, ltb, ◌==◌, ◌&&◌, length, arith,
  Bool-cases, Option-cases, if◌then◌else◌,
}
use nabla.Pgoutput.Types.{SourceTransaction}
use nabla.Pgoutput.Decoder.{feed_all, discard_incomplete, take_complete}
use nabla.Worker.Types.{Host, Settings}
use nabla.Worker.Round.{Committed, apply_round}
use nabla.Worker.Poll.{
  Observed, WorkerState, Progress, RoundError, decode_failed, apply_failed, map_err, advance_slot,
  hold_slot, is_empty, World, publish_idle, idle_advance, last_end_of, after_apply, apply_complete,
  run_peeked, round_at, run_round, or_reset, idle, poll, drop_lagging,
}

-- A slot is still there, and at or past a position.
abbrev pub IsSlotPast : ℕ → Option ℕ → Type 0
IsSlotPast c none = false ≡ true
IsSlotPast c (some d) = c ≤ d

advance_slot-IsSlotPast :
    (c to : ℕ) (slot : Option ℕ) → IsSlotPast c slot → IsSlotPast c (advance_slot to slot)
unfolding advance_slot
advance_slot-IsSlotPast c to none h = h
advance_slot-IsSlotPast c to (some d) h = omega arith

hold_slot-IsSlotPast :
    (c k : ℕ) (txs : List SourceTransaction) (slot : Option ℕ)
    → IsSlotPast c slot
    → IsSlotPast c (hold_slot k txs slot)
unfolding hold_slot
hold_slot-IsSlotPast c zero txs slot h = h
hold_slot-IsSlotPast c (suc k) txs slot h = advance_slot-IsSlotPast c _ slot h

module _ (host : Host) (settings : Settings) where
  -- What a round leaves, with a slot that is not behind.
  KeepsSlot : ℕ → Progress × (WorkerState × World host) → Type 0
  KeepsSlot c r = IsSlotPast c r.1.1.slot

  KeepsSlot-idle_advance :
      (c : ℕ) (drained : Bool) (seen : Observed) (last : ℕ) (state : WorkerState)
      (world : World host)
      → IsSlotPast c world.slot
      → KeepsSlot c (idle_advance host drained seen last state world)
  unfolding KeepsSlot idle_advance
  KeepsSlot-idle_advance c true seen last state world h = advance_slot-IsSlotPast c _ world.slot h
  KeepsSlot-idle_advance c false seen last state world h = h

  KeepsSlot-after_apply :
      (c : ℕ) (drained : Bool) (seen : Observed) (confirmed : ℕ) (txs : List SourceTransaction)
      (state : WorkerState) (world : World host) (done : Committed host)
      → IsSlotPast c world.slot
      → KeepsSlot c (after_apply host drained seen confirmed txs state world done)
  unfolding after_apply
  KeepsSlot-after_apply c drained seen confirmed txs state world done h =
      elim (Option-cases done.stats.blocked_at) [
        | inr (k, e) ↦
            rw (e, after_apply) (unfold KeepsSlot in hold_slot-IsSlotPast c k txs world.slot h)
        | inl e ↦
            rw (e, after_apply)
              (KeepsSlot-idle_advance c drained seen (last_end_of host confirmed txs) _ _
                (advance_slot-IsSlotPast c _ world.slot h))
      ]

  KeepsSlot-apply_complete :
      (c : ℕ) (drained : Bool) (seen : Observed) (confirmed : ℕ) (txs : List SourceTransaction)
      (state : WorkerState) (world : World host)
      → IsSlotPast c world.slot
      → Holds (KeepsSlot c) (apply_complete host settings drained seen confirmed txs state world)
  unfolding apply_complete
  KeepsSlot-apply_complete c drained seen confirmed [] state world h =
      KeepsSlot-idle_advance c drained seen confirmed state world h
  KeepsSlot-apply_complete c drained seen confirmed (tx ∷ txs) state world h =
      Holds-then (KeepsSlot c)
        (map_err apply_failed
          (apply_round host settings state.decoder.relations (tx ∷ txs) world.catalog world.tables))
        (λ done. ok (after_apply host drained seen confirmed (tx ∷ txs) state world done))
        (λ done. KeepsSlot-after_apply c drained seen confirmed (tx ∷ txs) state world done h)

  publish_idle_slot :
      (state : WorkerState) (at : ℕ) (world : World host)
      → (publish_idle host state at world).slot ≡ world.slot
  unfolding publish_idle
  publish_idle_slot state at world = elim (Bool-cases (ltb 0 state.last_advance)) [
    | inl e ↦ rw e
    | inr e ↦ rw e
  ]

  KeepsSlot-run_peeked :
      (c : ℕ) (seen : Observed) (confirmed : ℕ) (rows : List (List ℕ)) (state : WorkerState)
      (world : World host)
      → IsSlotPast c world.slot
      → Holds (KeepsSlot c) (run_peeked host settings seen confirmed rows state world)
  unfolding run_peeked
  KeepsSlot-run_peeked c seen confirmed rows state world h =
      elim (Bool-cases (is_empty rows && seen.target == state.self_flush)) [
        | inl e ↦ rw e (unfold KeepsSlot in rw (publish_idle_slot state seen.target world) h)
        | inr e ↦ rw e (
            Holds-then (KeepsSlot c) (map_err decode_failed (feed_all rows state.decoder)) _
              (λ decoder.
                KeepsSlot-apply_complete c (ltb (length rows) (max settings.batch_changes 1)) seen
                  confirmed (take_complete (discard_incomplete decoder)).0
                  (record state { decoder = (take_complete (discard_incomplete decoder)).1 }) world
                  h))
      ]

  KeepsSlot-or_reset :
      (c : ℕ) (state : WorkerState) (world : World host)
      (m : Result RoundError (Progress × (WorkerState × World host)))
      → IsSlotPast c world.slot
      → Holds (KeepsSlot c) m
      → KeepsSlot c (or_reset host state world m)
  unfolding or_reset
  KeepsSlot-or_reset c state world (ok done) h k = k
  KeepsSlot-or_reset c state world (err e) h k = unfold KeepsSlot in h

  run_round_lagging :
      (seen : Observed) (state : WorkerState) (world : World host) {confirmed : ℕ}
      → world.slot ≡ some confirmed
      → seen.lag_exceeded ≡ true
      → run_round host settings seen state world
        ≡ ok (idle, (state, record world { catalog = drop_lagging world.catalog; slot = none }))
  unfolding run_round round_at
  run_round_lagging seen state world e l = ap (round_at host settings seen state world) e ∙ rw l

  run_round_reading :
      (seen : Observed) (state : WorkerState) (world : World host) (confirmed : ℕ)
      → world.slot ≡ some confirmed
      → seen.lag_exceeded ≡ false
      → run_round host settings seen state world
        ≡ run_peeked host settings seen confirmed
            (if ltb confirmed seen.target then seen.rows else [])
            state
            world
  unfolding run_round round_at
  run_round_reading seen state world confirmed e l =
      ap (round_at host settings seen state world) e ∙ rw l

  -- A poll of a slot whose lag is within the limit leaves the slot at or past where it was; one
  -- that finds the lag too large drops the slot.
  pub poll-IsSlotPast :
      (seen : Observed) (state : WorkerState) (world : World host) (confirmed : ℕ)
      → world.slot ≡ some confirmed
      → ((seen.lag_exceeded ≡ false)
          × IsSlotPast confirmed (poll host settings seen state world).1.1.slot)
        ⊎ ((seen.lag_exceeded ≡ true) × ((poll host settings seen state world).1.1.slot ≡ none))
  unfolding poll KeepsSlot
  poll-IsSlotPast seen state world confirmed e = elim (Bool-cases seen.lag_exceeded) [
    | inl l ↦ inr (
      l,
      ap (λ m. (or_reset host state world m).1.1.slot) (run_round_lagging seen state world e l)
          ∙ unfold or_reset in refl,
    )
    | inr l ↦
        let here : IsSlotPast confirmed world.slot =
          subst (IsSlotPast confirmed) (sym e) (omega arith) in
        let rows : List (List ℕ) = if ltb confirmed seen.target then seen.rows else [] in
        inl (
          l,
          subst (λ m. KeepsSlot confirmed (or_reset host state world m))
              (sym (run_round_reading seen state world confirmed e l))
              (KeepsSlot-or_reset confirmed state world
                (run_peeked host settings seen confirmed rows state world) here
                (KeepsSlot-run_peeked confirmed seen confirmed rows state world here)),
        )
  ]
