-- ===== src/Worker/Unmoved.antt =====
-- What phase 1 of `apply_round` in src/worker.rs leaves alone.
use nabla.Base.{
  ℕ, ◌≡◌, inl, inr, refl, ap, ◌∙◌, List, [], ◌∷◌, map, Option, none, some, Bool, true, false, not,
  ◌||◌, Text, Result, ok, err, ◌>>=◌, ok_or, codes, Holds, Holds-bind, Holds-then, if◌then◌else◌,
  Bool-cases, Option-cases,
}
use nabla.Pgoutput.Types.{Relation, Tuple, Change, SourceTransaction}
use nabla.Apply.Types.{Planned}
use nabla.Worker.Types.{Host, LiveView, Shadow, Tracked}
use nabla.Worker.Views.{active_for}
use nabla.Worker.Catalog.{record_shadow_failure, update_shadows}
use nabla.Worker.Steps.{
  change_relids, note_planned, lost_old_row, record_shadow_failure_for_view,
  record_shadow_failure_for_views, active_shadow,
}
use nabla.Worker.Phases.{
  Round, plan_view, plan_views, read_old_row, new_row, shadow_outcome, note_outcome,
  maintain_shadow, plan_relation, plan_relations, plan_changes,
}
use nabla.Worker.Outcome.{settled, without_plans}

settled-note_planned :
    (r : Result Text Planned) (view : LiveView) → settled (note_planned r view) ≡ settled view
unfolding note_planned
settled-note_planned (ok (Planned.ops rows)) view = refl
settled-note_planned (ok (Planned.stale s)) view = refl
settled-note_planned (err message) view = refl

settled-if :
    (b : Bool) (v w : LiveView) → settled v ≡ settled w → settled (if b then v else w) ≡ settled w
settled-if true v w h = h
settled-if false v w h = refl

settled-shadow_failure :
    (relid : ℕ) (rel : Relation) (message : Text) (view : LiveView)
    → settled (record_shadow_failure_for_view relid rel message view) ≡ settled view
unfolding record_shadow_failure_for_view
settled-shadow_failure relid rel message view = settled-if _ _ view refl

without_plans-shadow_failure :
    (relid : ℕ) (rel : Relation) (message : Text) (slots : List Tracked)
    → map without_plans (record_shadow_failure_for_views relid rel message slots)
      ≡ map without_plans slots
unfolding record_shadow_failure_for_views
without_plans-shadow_failure relid rel message [] = refl
without_plans-shadow_failure relid rel message (s ∷ slots) = rw (
  settled-shadow_failure relid rel message s.view,
  without_plans-shadow_failure relid rel message slots,
)

module _ (host : Host) where
  open host use {spi}
  open spi use {Tables}

  settled-plan_view :
      (tx : SourceTransaction) (relid : ℕ) (rel : Relation) (change : Change) (old : Option Tuple)
      (problem : Option Text) (view : LiveView) (tables : Tables)
      → settled (plan_view host tx relid rel change old problem view tables).0 ≡ settled view
  unfolding plan_view
  settled-plan_view tx relid rel change old problem view tables =
      elim (Bool-cases (view.dead || not (active_for view relid tx.end_lsn))) [
        | inl e ↦ rw e
        | inr e ↦ rw e (elim (Option-cases (lost_old_row view problem)) [
          | inl f ↦ rw f (settled-note_planned _ view)
          | inr (reason, f) ↦ rw f
        ])
      ]

  without_plans-plan_views :
      (tx : SourceTransaction) (relid : ℕ) (rel : Relation) (change : Change) (old : Option Tuple)
      (problem : Option Text) (slots : List Tracked) (tables : Tables)
      → map without_plans (plan_views host tx relid rel change old problem slots tables).0
        ≡ map without_plans slots
  unfolding plan_views
  without_plans-plan_views tx relid rel change old problem [] tables = refl
  without_plans-plan_views tx relid rel change old problem (s ∷ slots) tables =
      rw (settled-plan_view tx relid rel change old problem s.view tables) (
        ap (λ rest. without_plans s ∷ rest)
          (without_plans-plan_views tx relid rel change old problem slots _))

  -- The views keep everything but their plans, and the catalog its rows of views.
  pub record Unmoved (st st' : Round host) : Type 0 where
    pub same_slots : map without_plans st'.slots ≡ map without_plans st.slots
    pub same_views : st'.catalog.views ≡ st.catalog.views
    pub same_deltas : st'.catalog.deltas ≡ st.catalog.deltas
    pub same_blocked : st'.blocked_at ≡ st.blocked_at

  unmoved : (st : Round host) → Unmoved st st
  unmoved st = record {
    same_slots = refl;
    same_views = refl;
    same_deltas = refl;
    same_blocked = refl;
  }

  Unmoved-trans : {a b c : Round host} → Unmoved a b → Unmoved b c → Unmoved a c
  Unmoved-trans h k = record {
    same_slots = k.same_slots ∙ h.same_slots;
    same_views = k.same_views ∙ h.same_views;
    same_deltas = k.same_deltas ∙ h.same_deltas;
    same_blocked = k.same_blocked ∙ h.same_blocked;
  }

  Unmoved-note_outcome :
      (relid : ℕ) (rel : Relation) (shadow : Shadow) (r : Result Text (Unit {0}) × Tables)
      (st : Round host)
      → Unmoved st (note_outcome host relid rel shadow r st)
  unfolding note_outcome record_shadow_failure update_shadows
  Unmoved-note_outcome relid rel shadow (ok _, tables) st = record {
    same_slots = refl;
    same_views = refl;
    same_deltas = refl;
    same_blocked = refl;
  }
  Unmoved-note_outcome relid rel shadow (err message, tables) st = record {
    same_slots = without_plans-shadow_failure relid rel message st.slots;
    same_views = refl;
    same_deltas = refl;
    same_blocked = refl;
  }

  Unmoved-maintain_shadow :
      (relid : ℕ) (rel : Relation) (change : Change) (shadow : Option Shadow) (old : Option Tuple)
      (problem : Option Text) (st : Round host)
      → Holds (Unmoved st) (maintain_shadow host relid rel change shadow old problem st)
  unfolding maintain_shadow
  Unmoved-maintain_shadow relid rel change none old problem st = unmoved st
  Unmoved-maintain_shadow relid rel change (some shadow) old problem st =
      Holds-then (Unmoved st) (new_row host rel change old)
        (λ new_full. ok (
          note_outcome host relid rel shadow
            (shadow_outcome host shadow rel change old problem new_full st.tables) st))
        (λ new_full.
          Unmoved-note_outcome relid rel shadow
            (shadow_outcome host shadow rel change old problem new_full st.tables) st)

  -- Going on from a state that the first step reached.
  Unmoved-then :
      (a b : Round host) (m : Result Text (Round host))
      → Unmoved a b
      → Holds (Unmoved b) m
      → Holds (Unmoved a) m
  Unmoved-then a b (ok c) h k = Unmoved-trans h k
  Unmoved-then a b (err e) h k = tt

  Unmoved-plan_relation :
      (relations : ℕ → Option Relation) (tx : SourceTransaction) (change : Change) (relid : ℕ)
      (st : Round host)
      → Holds (Unmoved st) (plan_relation host relations tx change relid st)
  unfolding plan_relation
  Unmoved-plan_relation relations tx change relid st =
      Holds-then (Unmoved st) (ok_or (relations relid) (codes "no entry found for key")) _ (λ rel.
        let shadow : Option Shadow = active_shadow relid tx.end_lsn st.shadows in
        let old : (Option Tuple × Option Text) × Tables =
          read_old_row host shadow rel change st.tables in
        let planned : List Tracked × Tables =
          plan_views host tx relid rel change old.0.0 old.0.1 st.slots old.1 in
        let mid : Round host = record st { slots = planned.0; tables = planned.1 } in
        Unmoved-then st mid (maintain_shadow host relid rel change shadow old.0.0 old.0.1 mid)
          (record {
            same_slots =
                without_plans-plan_views tx relid rel change old.0.0 old.0.1 st.slots old.1;
            same_views = refl;
            same_deltas = refl;
            same_blocked = refl;
          })
          (Unmoved-maintain_shadow relid rel change shadow old.0.0 old.0.1 mid))

  Unmoved-bind :
      (st : Round host) (m : Result Text (Round host)) (f : Round host → Result Text (Round host))
      → Holds (Unmoved st) m
      → ((a : Round host) → Holds (Unmoved a) (f a))
      → Holds (Unmoved st) (m >>= f)
  Unmoved-bind st m f h k =
      Holds-bind (Unmoved st) (Unmoved st) m f h (λ a g. Unmoved-then st a (f a) g (k a))

  Unmoved-plan_relations :
      (relations : ℕ → Option Relation) (tx : SourceTransaction) (change : Change) (relids : List ℕ)
      (st : Round host)
      → Holds (Unmoved st) (plan_relations host relations tx change relids st)
  unfolding plan_relations
  Unmoved-plan_relations relations tx change [] st = unmoved st
  Unmoved-plan_relations relations tx change (relid ∷ relids) st =
      Unmoved-bind st (plan_relation host relations tx change relid st)
        (plan_relations host relations tx change relids)
        (Unmoved-plan_relation relations tx change relid st)
        (Unmoved-plan_relations relations tx change relids)

  -- Planning the changes of a transaction leaves the views where they are.
  pub Unmoved-plan_changes :
      (relations : ℕ → Option Relation) (tx : SourceTransaction) (changes : List Change)
      (st : Round host)
      → Holds (Unmoved st) (plan_changes host relations tx changes st)
  unfolding plan_changes
  Unmoved-plan_changes relations tx [] st = unmoved st
  Unmoved-plan_changes relations tx (change ∷ changes) st =
      Unmoved-bind st (plan_relations host relations tx change (change_relids change) st)
        (plan_changes host relations tx changes)
        (Unmoved-plan_relations relations tx change (change_relids change) st)
        (Unmoved-plan_changes relations tx changes)
