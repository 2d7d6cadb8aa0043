-- ===== src/Worker/NoLoss.antt =====
-- The views after the transactions of a round (src/worker.rs, `apply_round`).
use nabla.Base.{
  ℕ, suc, ◌≤◌, ◌≡◌, inl, inr, refl, sym, subst, List, [], ◌∷◌, ◌++◌, append_assoc, append-nil, map,
  All, take, length, length-append, Option, none, some, false, ok, Holds, Holds-bind, Holds-ok,
  arith,
}
use nabla.Pgoutput.Types.{Relation, SourceTransaction}
use nabla.Apply.Net.{net}
use nabla.Worker.Types.{Host, Settings, Catalog, Status, ViewRow, Tracked}
use nabla.Worker.Catalog.{mark_stale}
use nabla.Worker.Steps.{absorb_deltas}
use nabla.Worker.Phases.{Round, plan_changes}
use nabla.Worker.Executing.{
  execute_view, execute_views, execute_transaction, apply_transaction, apply_transactions,
}
use nabla.Worker.Outcome.{
  without_plans, Outcome, skipped, marked, failed, absorbed, execute_view-Outcome,
}
use nabla.Worker.Unmoved.{Unmoved, Unmoved-plan_changes}
use nabla.Worker.Coverage.{
  Covered, done, gone_stale, retried, Grows, grows, IsBounded, Grows-refl, Grows-trans,
  Reaches-append, Reaches-mono, Covered-next, Covered-grow, IsStaleRow-update_views,
  IsStaleRow-marked, AfterView, AfterView-fail_view,
}

module _ (host : Host) (settings : Settings) (tx : SourceTransaction) where
  open host use {spi, json}
  open spi use {Tables}

  AfterView-Outcome :
      (ends : List ℕ) (s : Tracked) (cat : Catalog) (tables : Tables) (blocked : Option ℕ)
      (r : (Tracked × (Catalog × Option ℕ)) × Tables)
      → IsBounded (length ends) blocked
      → Covered ends cat.views blocked s
      → Outcome host settings (length ends) tx s cat tables blocked r
      → AfterView host settings tx cat.views blocked ends r
  unfolding AfterView mark_stale absorb_deltas
  AfterView-Outcome ends s cat tables blocked r bound c (skipped why e) = rw e (record {
    grown = Grows-refl cat.views blocked;
    bounded = bound;
    covered =
        Covered-next cat.views ends tx.end_lsn s s (Grows-refl cat.views blocked) refl (omega arith)
          (λ alive reached. elim why [
            | inl dead ↦ cc (alive, dead)
            | inr past ↦ done alive (Reaches-append s ends tx.end_lsn reached past)
          ])
          c;
  })
  AfterView-Outcome ends s cat tables blocked r bound c (marked reason h e) = rw e (record {
    grown =
        grows
          (λ id p.
            IsStaleRow-update_views
              (λ row. record row { status = Status.stale; stale_reason = some reason }) id s.view.id
              cat (record { keeps_id = λ row. refl; keeps_stale = λ row q. refl }) p)
          (λ k q. q);
    bounded = bound;
    covered = gone_stale (
        IsStaleRow-marked (λ row. record row { status = Status.stale; stale_reason = some reason })
          s.view.id cat (λ row. refl));
  })
  AfterView-Outcome ends s cat tables blocked r bound c (failed message t same e) =
      subst (AfterView host settings tx cat.views blocked ends) (sym e)
        (AfterView-fail_view host settings tx ends message s t cat tables blocked same bound c)
  AfterView-Outcome ends s cat tables blocked r bound c
        (absorbed written tables' alive late run e) =
      let u : Tracked = absorb_deltas tx (net json s.view.spec written) s in
      rw e (record {
        grown = Grows-refl cat.views blocked;
        bounded = bound;
        covered =
            Covered-next cat.views ends tx.end_lsn s u (Grows-refl cat.views blocked) refl
              (omega arith)
              (λ dead reached. done alive (
                Reaches-append u ends tx.end_lsn (Reaches-mono s u ends (omega arith) reached)
                  (omega arith)))
              c;
      })

  All-grow :
      {views : List ViewRow} {blocked : Option ℕ} {views' : List ViewRow} {blocked' : Option ℕ}
      (ends : List ℕ) (slots : List Tracked)
      → Grows views blocked views' blocked'
      → All (Covered ends views blocked) slots
      → All (Covered ends views' blocked') slots
  All-grow ends [] g h = tt
  All-grow ends (s ∷ slots) g (h, hs) = (Covered-grow ends s g h, All-grow ends slots g hs)

  -- All views after one more transaction.
  AfterViews :
      List ViewRow → Option ℕ → List ℕ → (List Tracked × (Catalog × Option ℕ)) × Tables → Type 0
  AfterViews views blocked ends r =
      Grows views blocked r.0.1.0.views r.0.1.1
      × IsBounded (length ends) r.0.1.1
      × All (Covered (ends ++ (tx.end_lsn ∷ [])) r.0.1.0.views r.0.1.1) r.0.0

  AfterViews-execute_views :
      (ends : List ℕ) (slots : List Tracked) (cat : Catalog) (tables : Tables) (blocked : Option ℕ)
      → IsBounded (length ends) blocked
      → All (Covered ends cat.views blocked) slots
      → AfterViews cat.views blocked ends
          (execute_views host settings (length ends) tx slots cat tables blocked)
  unfolding AfterViews execute_views AfterView
  AfterViews-execute_views ends [] cat tables blocked bound c =
      (Grows-refl cat.views blocked, bound, tt)
  AfterViews-execute_views ends (s ∷ slots) cat tables blocked bound (c, cs) =
      let one : (Tracked × (Catalog × Option ℕ)) × Tables =
        execute_view host settings (length ends) tx s cat tables blocked in
      let step : AfterView host settings tx cat.views blocked ends one =
        AfterView-Outcome ends s cat tables blocked one bound c
          (execute_view-Outcome host settings (length ends) tx s cat tables blocked) in
      let rest =
        AfterViews-execute_views ends slots one.0.1.0 one.1 one.0.1.1 step.bounded
          (All-grow ends slots step.grown cs) in
      (
        Grows-trans step.grown rest.0,
        rest.1,
        (Covered-grow (ends ++ (tx.end_lsn ∷ [])) one.0.0 rest.0 step.covered, rest.2),
      )

Covered-plans :
    (ends : List ℕ) (views : List ViewRow) (blocked : Option ℕ) (s : Tracked)
    → Covered ends views blocked s
    → Covered ends views blocked (without_plans s)
Covered-plans ends views blocked s (done alive r) =
    done alive (Reaches-mono s (without_plans s) ends (omega arith) r)
Covered-plans ends views blocked s (gone_stale h) = gone_stale h
Covered-plans ends views blocked s (retried k b h r) =
    retried k b h (Reaches-mono s (without_plans s) (take k ends) (omega arith) r)

Covered-unplan :
    (ends : List ℕ) (views : List ViewRow) (blocked : Option ℕ) (s : Tracked)
    → Covered ends views blocked (without_plans s)
    → Covered ends views blocked s
Covered-unplan ends views blocked s (done alive r) =
    done alive (Reaches-mono (without_plans s) s ends (omega arith) r)
Covered-unplan ends views blocked s (gone_stale h) = gone_stale h
Covered-unplan ends views blocked s (retried k b h r) =
    retried k b h (Reaches-mono (without_plans s) s (take k ends) (omega arith) r)

All-plans :
    (ends : List ℕ) (views : List ViewRow) (blocked : Option ℕ) (slots : List Tracked)
    → All (Covered ends views blocked) slots
    → All (Covered ends views blocked) (map without_plans slots)
All-plans ends views blocked [] h = tt
All-plans ends views blocked (s ∷ slots) (h, hs) =
    (Covered-plans ends views blocked s h, All-plans ends views blocked slots hs)

All-unplan :
    (ends : List ℕ) (views : List ViewRow) (blocked : Option ℕ) (slots : List Tracked)
    → All (Covered ends views blocked) (map without_plans slots)
    → All (Covered ends views blocked) slots
All-unplan ends views blocked [] h = tt
All-unplan ends views blocked (s ∷ slots) (h, hs) =
    (Covered-unplan ends views blocked s h, All-unplan ends views blocked slots hs)

module _ (host : Host) (settings : Settings) (relations : ℕ → Option Relation) where
  -- The invariant of a round: its views are covered.
  pub record AreCovered (ends : List ℕ) (st : Round host) : Type 0 where
    pub bounded : IsBounded (length ends) st.blocked_at
    pub covered : All (Covered ends st.catalog.views st.blocked_at) st.slots

  AreCovered-Unmoved :
      (ends : List ℕ) (st st' : Round host)
      → AreCovered ends st
      → Unmoved host st st'
      → AreCovered ends st'
  AreCovered-Unmoved ends st st' c u = record {
    bounded = rw u.same_blocked c.bounded;
    covered = All-unplan ends st'.catalog.views st'.blocked_at st'.slots (
        rw (u.same_slots, u.same_views, u.same_blocked)
          (All-plans ends st.catalog.views st.blocked_at st.slots c.covered));
  }

  AreCovered-execute_transaction :
      (ends : List ℕ) (tx : SourceTransaction) (st : Round host)
      → AreCovered ends st
      → AreCovered
          (ends ++ (tx.end_lsn ∷ []))
          (execute_transaction host settings (length ends) tx st)
  unfolding execute_transaction AfterViews
  AreCovered-execute_transaction ends tx st c =
      let after : AfterViews host settings tx st.catalog.views st.blocked_at ends (
          execute_views host settings (length ends) tx st.slots st.catalog st.tables
            st.blocked_at) =
        AfterViews-execute_views host settings tx ends st.slots st.catalog st.tables st.blocked_at
          c.bounded c.covered in
      record {
        bounded =
            IsBounded-mono (length ends) (length (ends ++ (tx.end_lsn ∷ []))) _
              (rw (length-append ends (tx.end_lsn ∷ [])) (omega arith)) after.1;
        covered = after.2;
      }
    where
      IsBounded-mono :
          (m n : ℕ) (blocked : Option ℕ) → m ≤ n → IsBounded m blocked → IsBounded n blocked
      IsBounded-mono m n none h b = tt
      IsBounded-mono m n (some k) h b = omega arith

  AreCovered-apply_transaction :
      (ends : List ℕ) (tx : SourceTransaction) (st : Round host)
      → AreCovered ends st
      → Holds
          (AreCovered (ends ++ (tx.end_lsn ∷ [])))
          (apply_transaction host settings relations (length ends) tx st)
  unfolding apply_transaction
  AreCovered-apply_transaction ends tx st c =
      Holds-bind (Unmoved host st) (AreCovered (ends ++ (tx.end_lsn ∷ [])))
        (plan_changes host relations tx tx.changes st)
        (λ planned. ok (execute_transaction host settings (length ends) tx planned))
        (Unmoved-plan_changes host relations tx tx.changes st)
        (λ planned u.
          AreCovered-execute_transaction ends tx planned (AreCovered-Unmoved ends st planned c u))

  AreCovered-apply_transactions :
      (ends : List ℕ) (txs : List SourceTransaction) (st : Round host)
      → AreCovered ends st
      → Holds
          (AreCovered (ends ++ map (λ tx. tx.end_lsn) txs))
          (apply_transactions host settings relations (length ends) txs st)
  unfolding apply_transactions
  AreCovered-apply_transactions ends [] st c = rw (append-nil ends) c
  AreCovered-apply_transactions ends (tx ∷ txs) st c =
      Holds-bind (AreCovered (ends ++ (tx.end_lsn ∷ [])))
        (AreCovered (ends ++ map (λ t. t.end_lsn) (tx ∷ txs)))
        (apply_transaction host settings relations (length ends) tx st)
        (apply_transactions host settings relations (suc (length ends)) txs)
        (AreCovered-apply_transaction ends tx st c)
        (λ mid h.
          let more = AreCovered-apply_transactions (ends ++ (tx.end_lsn ∷ [])) txs mid h in
          let size : length (ends ++ (tx.end_lsn ∷ [])) ≡ suc (length ends) =
            omega (arith, length-append ends (tx.end_lsn ∷ [])) in
          rw (size, append_assoc ends (tx.end_lsn ∷ []) (map (λ t. t.end_lsn) txs)) at more)

  starts :
      (blocked : Option ℕ) (views : List ViewRow) (slots : List Tracked)
      → All (λ s. s.view.dead ≡ false) slots
      → All (Covered [] views blocked) slots
  starts blocked views [] h = tt
  starts blocked views (s ∷ slots) (h, hs) = (done h tt, starts blocked views slots hs)

  -- If no view is dead and no index is reported when the transactions of a round begin, then, when
  -- they end without an error, each view has absorbed all of them, or is stale in the catalog, or
  -- the round reports the index of a transaction to retry and the view has absorbed all those
  -- before it.
  pub apply_transactions-Covered :
      (txs : List SourceTransaction) (st st' : Round host)
      → All (λ s. s.view.dead ≡ false) st.slots
      → st.blocked_at ≡ none
      → apply_transactions host settings relations 0 txs st ≡ ok st'
      → All (Covered (map (λ tx. tx.end_lsn) txs) st'.catalog.views st'.blocked_at) st'.slots
  apply_transactions-Covered txs st st' alive free e =
      let first : AreCovered [] st = record {
        bounded = rw free tt;
        covered = starts st.blocked_at st.catalog.views st.slots alive;
      } in
      (Holds-ok (AreCovered (map (λ tx. tx.end_lsn) txs)) st'
        (AreCovered-apply_transactions [] txs st first) e).covered
