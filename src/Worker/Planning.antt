-- ===== src/Worker/Planning.antt =====
-- `plan_change` of src/worker.rs: what one change contributes to one view.
use nabla.Base.{
  ℕ, List, [], ◌∷◌, ◌++◌, Option, none, some, Bool, true, false, not, ◌&&◌, ◌||◌, Text, ok, err,
  ok_or, codes, concat, ◌==◌, if◌then◌else◌,
}
use nabla.Base.Int.{pos, negsuc}
use nabla.Definition.Types.{is_join}
use nabla.Pgoutput.Types.{Relation, Tuple, Change}
use nabla.Apply.Types.{Op, Planned}
use nabla.Apply.Sql.{Action}
use nabla.Apply.Actions.{pure, lift, bind, or_panic}
use nabla.Apply.Resolve.{resolve_unchanged}
use nabla.Apply.Plan.{ViewTarget, plan_single_insert, plan_single_delete, plan_join}
use nabla.Worker.Types.{Host, LiveView}
use nabla.Worker.Views.{relation_index, touches_used_columns}
use nabla.Worker.Shadows.{old_tuple}

unfoldable pub is_prefix : Text → Text → Bool
is_prefix [] cs = true
is_prefix (p ∷ ps) [] = false
is_prefix (p ∷ ps) (c ∷ cs) = p == c && is_prefix ps cs

-- `str::contains`.
unfoldable pub contains_text : Text → Text → Bool
contains_text needle [] = is_prefix needle []
contains_text needle (c ∷ cs) = is_prefix needle (c ∷ cs) || contains_text needle cs

unfoldable pub target : LiveView → ViewTarget
target view = record { name = view.storage; spec = view.spec }

unfoldable pub truncated : Planned
truncated =
    Planned.stale (record {
      reason = codes "base table was truncated; TRUNCATE is not maintained incrementally";
    })

unfoldable pub old_row_unavailable : Relation → Planned
old_row_unavailable rel = Planned.stale (record {
  reason = concat (
      codes "old row of " ∷ rel.name ∷ codes " unavailable (its shadow is ahead of the view)" ∷ []);
})

-- Without an old tuple the key is unchanged: it is taken from the new row.
unfoldable pub old_or_new : Option (ℕ × Tuple) → Tuple → ℕ × Tuple
old_or_new none new = (b'K', new)
old_or_new (some old) new = old

module _ (host : Host) where
  open host use {spi, to_lowercase}

  unfoldable pub mentions : LiveView → Text → Bool
  mentions view c = contains_text (to_lowercase c) (to_lowercase view.definition)

  -- Goes on with the resolved row, or stops with a stale view.
  unfoldable pub with_resolved :
      LiveView → Relation → Tuple → Option Tuple → (Tuple → Action spi Planned) → Action spi Planned
  with_resolved view rel new old k =
      bind spi (or_panic spi (resolve_unchanged rel new old (mentions view)))
        (λ r. elim r [ err s ↦ pure spi (Planned.stale s) | ok t ↦ k t ])

  -- Goes on with the rows planned so far, or stops with a stale view.
  unfoldable pub with_ops : Planned → (List Op → Action spi Planned) → Action spi Planned
  with_ops (Planned.stale s) k = pure spi (Planned.stale s)
  with_ops (Planned.ops rows) k = k rows

  -- The rows of one more step, after those planned before.
  unfoldable pub then_ops : List Op → Action spi (List Op) → Action spi Planned
  then_ops before more = bind spi more (λ rows. pure spi (Planned.ops (before ++ rows)))

  -- Only a complete old row can tell that nothing the view uses changed.
  unfoldable pub is_unaffected : LiveView → Relation → Option (ℕ × Tuple) → Tuple → Bool
  is_unaffected view rel none new = false
  is_unaffected view rel (some (kind, full)) new =
      kind == b'O' && not (touches_used_columns view rel.id rel (some full) new)

  unfoldable pub plan_join_change :
      LiveView → ℕ → Relation → Change → Option Tuple → Action spi Planned
  plan_join_change view index rel (Change.insert relid new) old_full =
      with_resolved view rel new none
        (λ t. then_ops [] (plan_join spi (target view) index rel t (pos 1)))
  plan_join_change view index rel (Change.delete relid kind decoded) none =
      pure spi (old_row_unavailable rel)
  plan_join_change view index rel (Change.delete relid kind decoded) (some old) =
      then_ops [] (plan_join spi (target view) index rel old (negsuc 0))
  plan_join_change view index rel (Change.update relid decoded new) none =
      pure spi (old_row_unavailable rel)
  plan_join_change view index rel (Change.update relid decoded new) (some old) =
      if not (touches_used_columns view rel.id rel (some old) new)
      then pure spi (Planned.ops [])
      else bind spi (plan_join spi (target view) index rel old (negsuc 0)) (λ removed.
        with_resolved view rel new (some old)
          (λ t. then_ops removed (plan_join spi (target view) index rel t (pos 1))))
  plan_join_change view index rel (Change.truncate relids) old_full = pure spi truncated

  unfoldable pub plan_single_change : LiveView → Relation → Change → Action spi Planned
  plan_single_change view rel (Change.insert relid new) =
      with_resolved view rel new none
        (λ t. then_ops [] (plan_single_insert spi (target view) rel t))
  plan_single_change view rel (Change.delete relid kind old) =
      plan_single_delete spi (target view) rel kind old
  plan_single_change view rel (Change.update relid old new) =
      let before = old_or_new old new in
      if is_unaffected view rel old new
      then pure spi (Planned.ops [])
      else bind spi (plan_single_delete spi (target view) rel before.0 before.1) (λ planned.
        with_ops planned (λ removed.
          with_resolved view rel new (old_tuple old)
            (λ t. then_ops removed (plan_single_insert spi (target view) rel t))))
  plan_single_change view rel (Change.truncate relids) = pure spi truncated

  unfoldable pub plan_change : LiveView → Relation → Change → Option Tuple → Action spi Planned
  plan_change view rel change old_full =
      if is_join view.spec
      then bind spi
          (lift spi (ok_or (relation_index view rel.id) (codes "view does not use this relation")))
          (λ index. plan_join_change view index rel change old_full)
      else plan_single_change view rel change
