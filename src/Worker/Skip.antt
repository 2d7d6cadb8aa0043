-- ===== src/Worker/Skip.antt =====
-- Replaying transactions that were absorbed already: the frontier checks of `apply_round`.
use nabla.Base.{
  ℕ, suc, ◌≤◌, ◌≡◌, ◌⊎◌, inl, inr, refl, subst, ◌==◌, List, [], ◌∷◌, map, All, Option, none, some,
  true, false, Text, ok, ltb, leb, arith, Bool-cases, Option-cases,
}
use mathlib.Core.Option.{some_inj}
use nabla.Pgoutput.Types.{Relation, Tuple, Change, SourceTransaction}
use nabla.Worker.Types.{Host, Settings, Catalog, LiveView, Shadow, Tracked}
use nabla.Worker.Views.{active_for, is_none}
use nabla.Worker.Steps.{change_relids, find_shadow, active_shadow, absorbs, advance_shadow}
use nabla.Worker.Phases.{
  Round, plan_view, plan_views, read_old_row, maintain_shadow, plan_relation, plan_relations,
  plan_changes,
}
use nabla.Worker.Executing.{
  execute_view, execute_views, execute_transaction, apply_transaction, apply_transactions,
}

-- A view is at or past a position; a shadow is, or is not maintained any more.
abbrev pub IsViewPast : ℕ → Tracked → Type 0
IsViewPast end_lsn s = end_lsn ≤ s.view.frontier

abbrev pub IsShadowPast : ℕ → Shadow → Type 0
IsShadowPast end_lsn s = (s.failed ≡ true) ⊎ (end_lsn ≤ s.frontier)

ltb-past : (a b : ℕ) → b ≤ a → ltb a b ≡ false
ltb-past a b h = ground arith

leb-past : (a b : ℕ) → a ≤ b → leb a b ≡ true
leb-past a b h = ground arith

pub absorbs-IsShadowPast :
    (s : Shadow) (end_lsn : ℕ) → IsShadowPast end_lsn s → absorbs s end_lsn ≡ false
unfolding absorbs
absorbs-IsShadowPast s end_lsn (inl e) = rw e
absorbs-IsShadowPast s end_lsn (inr h) =
    rw (ltb-past s.frontier end_lsn h) (elim (Bool-cases s.failed) [ inl e ↦ rw e | inr e ↦ rw e ])

active_for-past :
    (view : LiveView) (relid end_lsn : ℕ)
    → end_lsn ≤ view.frontier
    → active_for view relid end_lsn ≡ false
unfolding active_for
active_for-past view relid end_lsn h =
    rw (ltb-past view.frontier end_lsn h) (elim (Bool-cases (is_none view.failed)) [
      | inl e ↦ rw e (elim (Bool-cases (is_none view.stale)) [ inl f ↦ rw f | inr f ↦ rw f ])
      | inr e ↦ rw e
    ])

pub find_shadow-All :
    (P : Shadow → Type 0) (relid : ℕ) (shadows : List Shadow) {s : Shadow}
    → All P shadows
    → find_shadow relid shadows ≡ some s
    → P s
unfolding find_shadow
find_shadow-All P relid [] h e = cc e
find_shadow-All P relid (t ∷ shadows) (ht, hs) e = elim (Bool-cases (t.relid == relid)) [
  | inl same ↦ subst P (some_inj.0 (rw same at e)) ht
  | inr other ↦ find_shadow-All P relid shadows hs (rw other at e)
]

active_shadow-past :
    (relid end_lsn : ℕ) (shadows : List Shadow)
    → All (IsShadowPast end_lsn) shadows
    → active_shadow relid end_lsn shadows ≡ none
unfolding active_shadow
active_shadow-past relid end_lsn shadows h = elim (Option-cases (find_shadow relid shadows)) [
  | inl e ↦ rw (e, active_shadow)
  | inr (s, e) ↦
      rw (e, active_shadow)
        (rw (
          absorbs-IsShadowPast s end_lsn
            (find_shadow-All (IsShadowPast end_lsn) relid shadows h e)))
]

-- The relations of a change are known.
abbrev pub IsKnown : (ℕ → Option Relation) → ℕ → Type 0
IsKnown relations relid = (rel : Relation) × (relations relid ≡ some rel)

abbrev pub AreKnown : (ℕ → Option Relation) → SourceTransaction → Type 0
AreKnown relations tx = All (λ change. All (IsKnown relations) (change_relids change)) tx.changes

module _ (host : Host) where
  open host use {spi}
  open spi use {Tables}

  plan_view-past :
      (tx : SourceTransaction) (relid : ℕ) (rel : Relation) (change : Change) (old : Option Tuple)
      (problem : Option Text) (view : LiveView) (tables : Tables)
      → tx.end_lsn ≤ view.frontier
      → plan_view host tx relid rel change old problem view tables ≡ (view, tables)
  unfolding plan_view
  plan_view-past tx relid rel change old problem view tables h =
      rw (active_for-past view relid tx.end_lsn h)
        (elim (Bool-cases view.dead) [ inl e ↦ rw e | inr e ↦ rw e ])

  plan_views-past :
      (tx : SourceTransaction) (relid : ℕ) (rel : Relation) (change : Change) (old : Option Tuple)
      (problem : Option Text) (slots : List Tracked) (tables : Tables)
      → All (IsViewPast tx.end_lsn) slots
      → plan_views host tx relid rel change old problem slots tables ≡ (slots, tables)
  unfolding plan_views
  plan_views-past tx relid rel change old problem [] tables h = refl
  plan_views-past tx relid rel change old problem (s ∷ slots) tables (h, hs) = rw (
    plan_view-past tx relid rel change old problem s.view tables h,
    plan_views-past tx relid rel change old problem slots tables hs,
  )

  -- Every view and every maintained shadow of the round is past a position.
  abbrev pub IsPast : ℕ → Round host → Type 0
  IsPast end_lsn st = All (IsViewPast end_lsn) st.slots × All (IsShadowPast end_lsn) st.shadows

  plan_relation-past :
      (relations : ℕ → Option Relation) (tx : SourceTransaction) (change : Change) (relid : ℕ)
      (st : Round host)
      → IsPast tx.end_lsn st
      → IsKnown relations relid
      → plan_relation host relations tx change relid st ≡ ok st
  unfolding plan_relation read_old_row maintain_shadow
  plan_relation-past relations tx change relid st (views, shadows) (rel, known) = rw (
    known,
    active_shadow-past relid tx.end_lsn st.shadows shadows,
    plan_views-past tx relid rel change none none st.slots st.tables views,
  )

  plan_relations-past :
      (relations : ℕ → Option Relation) (tx : SourceTransaction) (change : Change) (relids : List ℕ)
      (st : Round host)
      → IsPast tx.end_lsn st
      → All (IsKnown relations) relids
      → plan_relations host relations tx change relids st ≡ ok st
  unfolding plan_relations
  plan_relations-past relations tx change [] st past known = refl
  plan_relations-past relations tx change (relid ∷ relids) st past (known, more) =
      rw (plan_relation-past relations tx change relid st past known)
        (plan_relations-past relations tx change relids st past more)

  plan_changes-past :
      (relations : ℕ → Option Relation) (tx : SourceTransaction) (changes : List Change)
      (st : Round host)
      → IsPast tx.end_lsn st
      → All (λ change. All (IsKnown relations) (change_relids change)) changes
      → plan_changes host relations tx changes st ≡ ok st
  unfolding plan_changes
  plan_changes-past relations tx [] st past known = refl
  plan_changes-past relations tx (change ∷ changes) st past (known, more) =
      rw (plan_relations-past relations tx change (change_relids change) st past known)
        (plan_changes-past relations tx changes st past more)

  execute_view-past :
      (settings : Settings) (ti : ℕ) (tx : SourceTransaction) (s : Tracked) (cat : Catalog)
      (tables : Tables) (blocked : Option ℕ)
      → IsViewPast tx.end_lsn s
      → execute_view host settings ti tx s cat tables blocked ≡ ((s, (cat, blocked)), tables)
  unfolding execute_view
  execute_view-past settings ti tx s cat tables blocked h =
      rw (leb-past tx.end_lsn s.view.frontier h)
        (elim (Bool-cases s.view.dead) [ inl e ↦ rw e | inr e ↦ rw e ])

  execute_views-past :
      (settings : Settings) (ti : ℕ) (tx : SourceTransaction) (slots : List Tracked) (cat : Catalog)
      (tables : Tables) (blocked : Option ℕ)
      → All (IsViewPast tx.end_lsn) slots
      → execute_views host settings ti tx slots cat tables blocked
        ≡ ((slots, (cat, blocked)), tables)
  unfolding execute_views
  execute_views-past settings ti tx [] cat tables blocked h = refl
  execute_views-past settings ti tx (s ∷ slots) cat tables blocked (h, hs) = rw (
    execute_view-past settings ti tx s cat tables blocked h,
    execute_views-past settings ti tx slots cat tables blocked hs,
  )

  advance_shadow-past :
      (end_lsn : ℕ) (shadows : List Shadow)
      → All (IsShadowPast end_lsn) shadows
      → map (advance_shadow end_lsn) shadows ≡ shadows
  unfolding advance_shadow
  advance_shadow-past end_lsn [] h = refl
  advance_shadow-past end_lsn (s ∷ shadows) (h, hs) =
      rw (absorbs-IsShadowPast s end_lsn h, advance_shadow-past end_lsn shadows hs)

  apply_transaction-past :
      (settings : Settings) (relations : ℕ → Option Relation) (ti : ℕ) (tx : SourceTransaction)
      (st : Round host)
      → IsPast tx.end_lsn st
      → AreKnown relations tx
      → apply_transaction host settings relations ti tx st ≡ ok st
  unfolding apply_transaction execute_transaction
  apply_transaction-past settings relations ti tx st past known = rw (
    plan_changes-past relations tx tx.changes st past known,
    execute_views-past settings ti tx st.slots st.catalog st.tables st.blocked_at past.0,
    advance_shadow-past tx.end_lsn st.shadows past.1,
  )

  -- Transactions that every view and every maintained shadow of the round has absorbed change
  -- nothing.
  pub apply_transactions-past :
      (settings : Settings) (relations : ℕ → Option Relation) (ti : ℕ)
      (txs : List SourceTransaction) (st : Round host)
      → All (λ tx. IsPast tx.end_lsn st) txs
      → All (AreKnown relations) txs
      → apply_transactions host settings relations ti txs st ≡ ok st
  unfolding apply_transactions
  apply_transactions-past settings relations ti [] st past known = refl
  apply_transactions-past settings relations ti (tx ∷ txs) st (past, pasts) (known, knowns) =
      rw (apply_transaction-past settings relations ti tx st past known)
        (apply_transactions-past settings relations (suc ti) txs st pasts knowns)
