-- ===== src/Worker/Poll.antt =====
-- `run_round` of src/worker.rs and the loop around it: what one poll of the replication slot does.
-- The queued views (src/populate.rs) are built before; a round is modelled from there on.
use nabla.Base.{
  ℕ, zero, suc, max, List, [], ◌∷◌, map, Option, none, some, Bool, true, false, not, ◌&&◌, Text,
  Result, ok, err, ◌>>=◌, length, get_last?, get_elem?, codes, ◌==◌, ltb, if◌then◌else◌,
}
use nabla.Pgoutput.Types.{Error, SourceTransaction}
use nabla.Pgoutput.Decoder.{Decoder, feed_all, discard_incomplete, take_complete, empty}
use nabla.Idle.{Shared, publish}
use nabla.Worker.Types.{Host, Settings, Catalog, Status, ViewRow, ShadowRow}
use nabla.Worker.Catalog.{is_live}
use nabla.Worker.Round.{Committed, apply_round}

-- What the queries of a round return: whether the slot's lag exceeds the limit, the end of the
-- flushed log, the messages that the slot has up to there, and the end of the log after the round.
pub record Observed : Type 0 where
  pub lag_exceeded : Bool
  pub target : ℕ
  pub rows : List (List ℕ)
  pub flush_after : ℕ

-- What the loop of the worker keeps from poll to poll, with the extension installed. The flag that only spares a
-- repeated log line is left out.
pub record WorkerState : Type 0 where
  pub decoder : Decoder
  pub self_flush : ℕ
  pub last_advance : ℕ

pub data Progress : Type 0 where
  idle : Progress
  more_work : Progress

pub data RoundError : Type 0 where
  decode_failed : Error → RoundError
  apply_failed : Text → RoundError

unfoldable pub map_err : {E F A : Type 0} → (E → F) → Result E A → Result F A
map_err f (ok a) = ok a
map_err f (err e) = err (f e)

unfoldable pub lag_reason : Text
lag_reason = codes "replication slot lag exceeded nabla.max_slot_lag_bytes; slot dropped"

unfoldable pub drop_lagging : Catalog → Catalog
drop_lagging cat = record cat {
  views =
      map {A = ViewRow}
        (λ r.
          if is_live r.status
          then record r { status = Status.stale; stale_reason = some lag_reason }
          else r)
        cat.views;
}

-- `advance_slot`: the slot never goes back.
unfoldable pub advance_slot : ℕ → Option ℕ → Option ℕ
advance_slot to none = none
advance_slot to (some confirmed) = some (max to confirmed)

-- The two statements of the idle advance.
unfoldable pub advance_frontiers : ℕ → Catalog → Catalog
advance_frontiers frontier cat = record cat {
  views =
      map {A = ViewRow}
        (λ r.
          if is_live r.status && ltb r.frontier_lsn frontier
          then record r { frontier_lsn = frontier }
          else r)
        cat.views;
  shadows =
      map {A = ShadowRow}
        (λ r.
          if not r.failed && ltb r.frontier_lsn frontier
          then record r { frontier_lsn = frontier }
          else r)
        cat.shadows;
}

-- The end of the transaction at an index.
unfoldable pub end_at : ℕ → List SourceTransaction → ℕ
end_at i txs = elim (get_elem? txs i) [ none ↦ 0 | some tx ↦ tx.end_lsn ]

-- Where the slot is held when transaction `k` must be retried: just before it.
unfoldable pub hold_slot : ℕ → List SourceTransaction → Option ℕ → Option ℕ
hold_slot zero txs slot = slot
hold_slot (suc k) txs slot = advance_slot (end_at k txs) slot

unfoldable pub is_empty : {A : Type 0} → List A → Bool
is_empty [] = true
is_empty (x ∷ xs) = false

module _ (host : Host) where
  open host use {spi}

  -- What outlives a round: the catalog, the tables, the confirmed position of the slot, if there is
  -- a slot, and the shared idle window.
  pub record World : Type 0 where
    pub catalog : Catalog
    pub tables : spi.Tables
    pub slot : Option ℕ
    pub shared : Shared

  abbrev pub Outcome : Type 0
  Outcome = Result RoundError (Progress × (WorkerState × World))

  -- Nothing to apply: the idle window is published if the worker has ever advanced.
  unfoldable pub publish_idle : WorkerState → ℕ → World → World
  publish_idle state at world =
      if ltb 0 state.last_advance
      then record world { shared = publish state.last_advance at world.shared }
      else world

  -- The idle advance, when the peek drained the slot.
  unfoldable pub idle_advance :
      Bool → Observed → ℕ → WorkerState → World → Progress × (WorkerState × World)
  idle_advance drained seen last_end state world =
      let frontier = max seen.target last_end in
      if drained
      then (
        idle,
        (
          record state { self_flush = seen.flush_after; last_advance = frontier },
          record world {
            catalog = advance_frontiers frontier world.catalog;
            slot = advance_slot frontier world.slot;
            shared = publish frontier frontier world.shared;
          },
        ),
      )
      else (more_work, (state, world))

  -- The end of the last transaction, or of the slot.
  unfoldable pub last_end_of : ℕ → List SourceTransaction → ℕ
  last_end_of confirmed txs = elim (get_last? txs) [
    | none ↦ confirmed
    | some tx ↦ max confirmed tx.end_lsn
  ]

  unfoldable pub after_apply :
      Bool
      → Observed
      → ℕ
      → List SourceTransaction
      → WorkerState
      → World
      → Committed host
      → Progress × (WorkerState × World)
  after_apply drained seen confirmed txs state world done =
      let state' : WorkerState = record state {
        decoder = record state.decoder { relations = done.known };
      } in
      let world' : World = record world { catalog = done.catalog; tables = done.tables } in
      elim done.stats.blocked_at [
        | some k ↦ (idle, (state', record world' { slot = hold_slot k txs world.slot }))
        | none ↦
            idle_advance drained seen (last_end_of confirmed txs) state'
              (record world' { slot = advance_slot (last_end_of confirmed txs) world.slot })
      ]

  unfoldable pub apply_complete :
      Settings → Bool → Observed → ℕ → List SourceTransaction → WorkerState → World → Outcome
  apply_complete settings drained seen confirmed [] state world =
      ok (idle_advance drained seen confirmed state world)
  apply_complete settings drained seen confirmed (tx ∷ txs) state world =
      map_err apply_failed
        (apply_round host settings state.decoder.relations (tx ∷ txs) world.catalog world.tables)
      >>= λ done. ok (after_apply drained seen confirmed (tx ∷ txs) state world done)

  unfoldable pub run_peeked :
      Settings → Observed → ℕ → List (List ℕ) → WorkerState → World → Outcome
  run_peeked settings seen confirmed rows state world =
      let drained = ltb (length rows) (max settings.batch_changes 1) in
      if is_empty rows && seen.target == state.self_flush
      then ok (idle, (state, publish_idle state seen.target world))
      else (map_err decode_failed (feed_all rows state.decoder) >>= λ decoder.
          let taken = take_complete (discard_incomplete decoder) in
          apply_complete settings drained seen confirmed taken.0
            (record state { decoder = taken.1 }) world)

  -- The round for a slot that is confirmed up to a position, or is not there. Nothing is read when
  -- the log has not grown past the slot.
  unfoldable pub round_at : Settings → Observed → WorkerState → World → Option ℕ → Outcome
  round_at settings seen state world none = ok (idle, (state, world))
  round_at settings seen state world (some confirmed) =
      if seen.lag_exceeded
      then ok (idle, (state, record world { catalog = drop_lagging world.catalog; slot = none }))
      else run_peeked settings seen confirmed (if ltb confirmed seen.target then seen.rows else [])
          state world

  unfoldable pub run_round : Settings → Observed → WorkerState → World → Outcome
  run_round settings seen state world = round_at settings seen state world world.slot

  -- A failed round starts over with an empty decoder on the next poll.
  unfoldable pub or_reset : WorkerState → World → Outcome → Progress × (WorkerState × World)
  or_reset state world (ok done) = done
  or_reset state world (err e) = (idle, (record state { decoder = empty }, world))

  unfoldable pub poll : Settings → Observed → WorkerState → World → Progress × (WorkerState × World)
  poll settings seen state world = or_reset state world (run_round settings seen state world)
