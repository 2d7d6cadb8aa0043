-- ===== src/Worker/Numbering.antt =====
-- The deltas that a round of src/worker.rs logs: their sequence numbers and positions.
use nabla.Base.{
  ℕ, suc, ◌+◌, ◌≤◌, ◌≡◌, inl, inr, refl, ap, sym, ◌∙◌, List, [], ◌∷◌, ◌++◌, append_assoc,
  append-nil, map, length, Option, some, Bool, true, false, Text, ok, Holds, Holds-bind, Holds-ok,
  arith, Bool-cases, leb, max,
}
use nabla.Pgoutput.Types.{Relation, SourceTransaction}
use nabla.Apply.Types.{Delta}
use nabla.Apply.Net.{net}
use nabla.Worker.Types.{Host, Settings, Catalog, LiveView, Tracked, PendingDelta}
use nabla.Worker.Catalog.{failure_reason, record_failure}
use nabla.Worker.Steps.{number_deltas, absorb_deltas}
use nabla.Worker.Phases.{Round, plan_changes}
use nabla.Worker.Executing.{
  note_failure, fail_view, execute_views, execute_transaction, apply_transaction,
  apply_transactions,
}
use nabla.Worker.Outcome.{
  without_plans, Outcome, skipped, marked, failed, absorbed, execute_view-Outcome,
}
use nabla.Worker.Unmoved.{Unmoved, Unmoved-plan_changes}

-- The deltas are numbered from `from` to `to` without a gap, and their positions go from `lo` to
-- `hi` and never back.
abbrev pub IsRun : ℕ → ℕ → List PendingDelta → ℕ → ℕ → Type 0
IsRun from lo [] to hi = (from ≡ to) × (lo ≤ hi)
IsRun from lo (d ∷ ds) to hi = (d.seq ≡ suc from) × (lo ≤ d.lsn) × IsRun (suc from) d.lsn ds to hi

IsRun-lower :
    (from lo lo' : ℕ) (ds : List PendingDelta) (to hi : ℕ)
    → lo' ≤ lo
    → IsRun from lo ds to hi
    → IsRun from lo' ds to hi
IsRun-lower from lo lo' [] to hi h r = (r.0, omega arith)
IsRun-lower from lo lo' (d ∷ ds) to hi h r = (r.0, omega arith, r.2)

IsRun-append :
    (a lo : ℕ) (xs : List PendingDelta) (b mid : ℕ) (ys : List PendingDelta) (c hi : ℕ)
    → IsRun a lo xs b mid
    → IsRun b mid ys c hi
    → IsRun a lo (xs ++ ys) c hi
IsRun-append a lo [] b mid ys c hi (e, h) r = rw e (IsRun-lower b mid lo ys c hi h r)
IsRun-append a lo (d ∷ xs) b mid ys c hi (e, h, rest) r =
    (e, h, IsRun-append (suc a) d.lsn xs b mid ys c hi rest r)

IsRun-number_deltas :
    (tx : SourceTransaction) (last lo : ℕ) (ds : List Delta)
    → lo ≤ tx.end_lsn
    → IsRun last lo (number_deltas tx last ds) (last + length ds) tx.end_lsn
unfolding number_deltas
IsRun-number_deltas tx last lo [] h = (omega arith, h)
IsRun-number_deltas tx last lo (d ∷ ds) h =
    let e : last + suc (length ds) ≡ suc last + length ds = omega arith in
    rw e (refl, h, IsRun-number_deltas tx (suc last) tx.end_lsn ds (omega arith))

-- How a view goes on: it keeps its id, its frontier does not go back, and the deltas that it gets
-- continue its sequence, from its old frontier to its new one.
pub record Continues (s t : Tracked) : Type 0 where
  pub same_id : t.view.id ≡ s.view.id
  pub logged : List PendingDelta
  pub appended : t.pending ≡ s.pending ++ logged
  pub run : IsRun s.view.last_seq s.view.frontier logged t.view.last_seq t.view.frontier

Continues-refl : (s t : Tracked) → without_plans t ≡ without_plans s → Continues s t
Continues-refl s t e = record {
  same_id = ap (λ x. x.view.id) e;
  logged = [];
  appended = ap (λ x. x.pending) e ∙ sym (append-nil s.pending);
  run = (sym (ap (λ x. x.view.last_seq) e), omega (arith, ap (λ x. x.view.frontier) e));
}

Continues-trans : {s t u : Tracked} → Continues s t → Continues t u → Continues s u
Continues-trans {s} {t} {u} h k = record {
  same_id = k.same_id ∙ h.same_id;
  logged = h.logged ++ k.logged;
  appended =
      k.appended ∙ ap (λ p. p ++ k.logged) h.appended ∙ append_assoc s.pending h.logged k.logged;
  run =
      IsRun-append s.view.last_seq s.view.frontier h.logged t.view.last_seq t.view.frontier k.logged
        u.view.last_seq u.view.frontier h.run k.run;
}

-- Each view of a round goes on as the one at its place in another.
abbrev pub AllContinue : List Tracked → List Tracked → Type 0
AllContinue [] [] = Unit {0}
AllContinue [] (t ∷ ts) = false ≡ true
AllContinue (s ∷ ss) [] = false ≡ true
AllContinue (s ∷ ss) (t ∷ ts) = Continues s t × AllContinue ss ts

AllContinue-trans :
    (ss ts us : List Tracked) → AllContinue ss ts → AllContinue ts us → AllContinue ss us
AllContinue-trans [] [] [] h k = tt
AllContinue-trans [] [] (u ∷ us) h k = k
AllContinue-trans [] (t ∷ ts) us h k = cc h
AllContinue-trans (s ∷ ss) [] us h k = cc h
AllContinue-trans (s ∷ ss) (t ∷ ts) [] h k = k
AllContinue-trans (s ∷ ss) (t ∷ ts) (u ∷ us) (h, hs) (k, ks) =
    (Continues-trans h k, AllContinue-trans ss ts us hs ks)

AllContinue-plans :
    (ss ts : List Tracked) → map without_plans ts ≡ map without_plans ss → AllContinue ss ts
AllContinue-plans [] [] e = tt
AllContinue-plans [] (t ∷ ts) e = cc e
AllContinue-plans (s ∷ ss) [] e = cc e
AllContinue-plans (s ∷ ss) (t ∷ ts) e =
    let head : without_plans t ≡ without_plans s = cc e in
    let tail : map without_plans ts ≡ map without_plans ss = cc e in
    (Continues-refl s t head, AllContinue-plans ss ts tail)

module _ (host : Host) (settings : Settings) (ti : ℕ) (tx : SourceTransaction) where
  open host use {spi, json}
  open spi use {Tables}

  Continues-note_failure :
      (s t : Tracked) (blocked : Option ℕ) (r : Bool × (LiveView × Catalog))
      → t.pending ≡ s.pending
      → r.1.0.id ≡ s.view.id
      → r.1.0.last_seq ≡ s.view.last_seq
      → r.1.0.frontier ≡ s.view.frontier
      → Continues s (note_failure host ti t blocked r).0
  unfolding note_failure
  Continues-note_failure s t blocked (retry, (view, cat)) e f g h = record {
    same_id = f;
    logged = [];
    appended = e ∙ sym (append-nil s.pending);
    run = (sym g, omega (arith, h));
  }

  Continues-Outcome :
      (s : Tracked) (cat : Catalog) (tables : Tables) (blocked : Option ℕ)
      (r : (Tracked × (Catalog × Option ℕ)) × Tables)
      → Outcome host settings ti tx s cat tables blocked r
      → Continues s r.0.0
  unfolding absorb_deltas fail_view
  Continues-Outcome s cat tables blocked r (skipped why e) = rw e (Continues-refl s s refl)
  Continues-Outcome s cat tables blocked r (marked reason h e) = rw e (record {
    same_id = refl;
    logged = [];
    appended = sym (append-nil s.pending);
    run = (refl, omega arith);
  })
  Continues-Outcome s cat tables blocked r (failed message t same e) = rw e (
      Continues-note_failure s t blocked (record_failure settings t.view message cat)
        (ap (λ x. x.pending) same)
        (failure_keeps (λ v. v.id) (λ v n st. refl) t ∙ ap (λ x. x.view.id) same)
        (failure_keeps (λ v. v.last_seq) (λ v n st. refl) t ∙ ap (λ x. x.view.last_seq) same)
        (failure_keeps (λ v. v.frontier) (λ v n st. refl) t ∙ ap (λ x. x.view.frontier) same))
    where
      failure_keeps :
          (f : LiveView → ℕ)
          → ((v : LiveView) (n : ℕ) (st : Option Text)
              → f (record v { apply_failures = n; stale = st }) ≡ f v)
          → (t : Tracked) → f (record_failure settings t.view message cat).1.0 ≡ f t.view
      failure_keeps f h t =
          unfold record_failure in
          elim (Bool-cases (leb (max settings.max_apply_failures 1) (suc t.view.apply_failures))) [
            | inl e ↦ rw e (
                h t.view (suc t.view.apply_failures)
                  (some (failure_reason (suc t.view.apply_failures) message)))
            | inr e ↦ rw e (h t.view (suc t.view.apply_failures) t.view.stale)
          ]
  Continues-Outcome s cat tables blocked r (absorbed written tables' alive late run e) =
      rw e (record {
        same_id = refl;
        logged = number_deltas tx s.view.last_seq (net json s.view.spec written);
        appended = refl;
        run =
            IsRun-number_deltas tx s.view.last_seq s.view.frontier (net json s.view.spec written)
              (omega arith);
      })

  AllContinue-execute_views :
      (slots : List Tracked) (cat : Catalog) (tables : Tables) (blocked : Option ℕ)
      → AllContinue slots (execute_views host settings ti tx slots cat tables blocked).0.0
  unfolding execute_views
  AllContinue-execute_views [] cat tables blocked = tt
  AllContinue-execute_views (s ∷ slots) cat tables blocked = (
    Continues-Outcome s cat tables blocked _
        (execute_view-Outcome host settings ti tx s cat tables blocked),
    AllContinue-execute_views slots _ _ _,
  )

module _ (host : Host) (settings : Settings) (relations : ℕ → Option Relation) where
  AllContinue-apply_transaction :
      (ti : ℕ) (tx : SourceTransaction) (st : Round host)
      → Holds
          (λ st'. AllContinue st.slots st'.slots)
          (apply_transaction host settings relations ti tx st)
  unfolding apply_transaction execute_transaction
  AllContinue-apply_transaction ti tx st =
      Holds-bind (Unmoved host st) (λ st'. AllContinue st.slots st'.slots)
        (plan_changes host relations tx tx.changes st)
        (λ planned. ok (execute_transaction host settings ti tx planned))
        (Unmoved-plan_changes host relations tx tx.changes st)
        (λ planned u.
          AllContinue-trans st.slots planned.slots _
            (AllContinue-plans st.slots planned.slots u.same_slots)
            (AllContinue-execute_views host settings ti tx planned.slots planned.catalog
              planned.tables planned.blocked_at))

  AllContinue-from :
      (ti : ℕ) (txs : List SourceTransaction) (a b : Round host)
      → AllContinue a.slots b.slots
      → Holds
          (λ st'. AllContinue a.slots st'.slots)
          (apply_transactions host settings relations ti txs b)
  unfolding apply_transactions
  AllContinue-from ti [] a b h = h
  AllContinue-from ti (tx ∷ txs) a b h =
      Holds-bind (λ st'. AllContinue b.slots st'.slots) (λ st'. AllContinue a.slots st'.slots)
        (apply_transaction host settings relations ti tx b)
        (apply_transactions host settings relations (suc ti) txs)
        (AllContinue-apply_transaction ti tx b)
        (λ mid k.
          AllContinue-from (suc ti) txs a mid (AllContinue-trans a.slots b.slots mid.slots h k))

  -- When the transactions of a round end without an error, every view has its id still, its
  -- frontier is not behind, and the deltas that it got are numbered from its old last number to its
  -- new one without a gap, at positions that never go back, from its old frontier to its new one.
  pub apply_transactions-AllContinue :
      (ti : ℕ) (txs : List SourceTransaction) (st st' : Round host)
      → apply_transactions host settings relations ti txs st ≡ ok st'
      → AllContinue st.slots st'.slots
  apply_transactions-AllContinue ti txs st st' e =
      Holds-ok (λ q. AllContinue st.slots q.slots) st'
        (AllContinue-from ti txs st st (AllContinue-plans st.slots st.slots refl)) e
