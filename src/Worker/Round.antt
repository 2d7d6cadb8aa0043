-- ===== src/Worker/Round.antt =====
-- `apply_round` of src/worker.rs: the transactions of one peek, applied in one transaction of the
-- worker, and what it writes to the catalog at the end.
use nabla.Base.{
  ℕ, ◌+◌, List, [], ◌∷◌, ◌++◌, map, Option, none, some, ◌&&◌, Text, Result, ok, ◌>>=◌, ok_or,
  length, get_last?, codes, concat, decimal, ◌==◌, ltb, if◌then◌else◌,
}
use nabla.Definition.Types.{BaseRelation}
use nabla.Pgoutput.Types.{RelationColumn, Relation, Change, SourceTransaction}
use nabla.Pgoutput.Decoder.{Relations}
use nabla.Worker.Types.{
  Host, Settings, Catalog, ViewRow, LiveView, Shadow, PendingDelta, RoundStats, Tracked,
}
use nabla.Worker.Views.{is_none, drift}
use nabla.Worker.Catalog.{
  load_live_views, load_shadows, update_views, update_shadows, insert_deltas, collect_garbage,
  notification,
}
use nabla.Worker.Shadows.{or_else, shadow_drift}
use nabla.Worker.Steps.{change_relids, find_shadow, put_shadow, absorbs}
use nabla.Worker.Phases.{Round}
use nabla.Worker.Executing.{apply_transactions}

unfoldable pub track : LiveView → Tracked
track view = record { view = view; pending = []; absorbed = none }

-- The qualified name of a relation, as the first view knows it that reads the relation.
unfoldable pub qualified_in : ℕ → List BaseRelation → Option Text
qualified_in relid [] = none
qualified_in relid (r ∷ rs) =
    let rest = qualified_in relid rs in if r.oid == relid then some r.qualified else rest

unfoldable pub find_qualified : ℕ → List Tracked → Option Text
find_qualified relid [] = none
find_qualified relid (s ∷ slots) =
    or_else (qualified_in relid s.view.spec.relations) (find_qualified relid slots)

unfoldable pub qualified_name : ℕ → Relation → List Tracked → Text
qualified_name relid rel slots = elim (find_qualified relid slots) [
  | some q ↦ q
  | none ↦ concat (rel.namespace ∷ codes "." ∷ rel.name ∷ [])
]

unfoldable pub drift_view : ℕ → Relation → ℕ → LiveView → LiveView
drift_view relid rel round_end view =
    if is_none view.stale && ltb view.frontier round_end
    then elim (drift view relid rel) [
      | none ↦ view
      | some reason ↦ record view { stale = some reason }
    ]
    else view

unfoldable pub drift_shadow :
    Option Shadow → Relation → Text → ℕ → List Shadow × Catalog → List Shadow × Catalog
drift_shadow none rel qualified round_end (shadows, cat) = (shadows, cat)
drift_shadow (some s) rel qualified round_end (shadows, cat) =
    let drifted = shadow_drift s rel qualified cat in
    if absorbs s round_end then (put_shadow drifted.1.0 shadows, drifted.1.1) else (shadows, cat)

unfoldable pub last_end : List SourceTransaction → ℕ
last_end txs = elim (get_last? txs) [ none ↦ 0 | some tx ↦ tx.end_lsn ]

-- A clean round resets the record of failures; one in which the view failed keeps it.
unfoldable pub bookkeeping : LiveView → ℕ → ViewRow → ViewRow
bookkeeping view end_lsn r =
    if view.failed_this_round
    then record r { frontier_lsn = end_lsn; last_seq = view.last_seq }
    else record r {
      frontier_lsn = end_lsn;
      last_seq = view.last_seq;
      apply_failures = 0;
      last_error = none;
    }

-- The deltas of a view, the collection of old ones, and the message to its listeners.
unfoldable pub log_deltas : Settings → LiveView → List PendingDelta → Catalog → Catalog
log_deltas settings view pending cat =
    let logged : Catalog = insert_deltas view.id pending cat in
    elim (get_last? pending) [
      | none ↦ cat
      | some last ↦ record logged {
        deltas = collect_garbage view.id view.last_seq settings.retain_deltas logged.deltas;
        notifications = logged.notifications ++ (notification view last ∷ []);
      }
    ]

unfoldable pub finish_view : Settings → Tracked → Catalog → Catalog
finish_view settings s cat = elim s.absorbed [
  | none ↦ cat
  | some end_lsn ↦
      log_deltas settings s.view s.pending (update_views s.view.id (bookkeeping s.view end_lsn) cat)
]

unfoldable pub finish_views : Settings → List Tracked → Catalog → Catalog
finish_views settings [] cat = cat
finish_views settings (s ∷ slots) cat = finish_views settings slots (finish_view settings s cat)

unfoldable pub delta_count : List Tracked → ℕ
delta_count [] = 0
delta_count (s ∷ slots) = elim s.absorbed [
  | none ↦ delta_count slots
  | some _ ↦ length s.pending + delta_count slots
]

unfoldable pub finish_shadow : Shadow → Catalog → Catalog
finish_shadow s cat =
    if s.advanced
    then update_shadows s.relid (λ r. record r { frontier_lsn = s.frontier }) cat
    else cat

unfoldable pub finish_shadows : List Shadow → Catalog → Catalog
finish_shadows [] cat = cat
finish_shadows (s ∷ shadows) cat = finish_shadows shadows (finish_shadow s cat)

-- The relations of the round, in the order of their first change, with the decoder's cache.
pub record Resolved : Type 0 where
  pub known : Relations
  pub relations : List (ℕ × Relation)

unfoldable pub lookup : ℕ → List (ℕ × Relation) → Option Relation
lookup relid [] = none
lookup relid ((id, rel) ∷ rels) =
    let rest = lookup relid rels in if id == relid then some rel else rest

unfoldable pub remember : ℕ → Relation → Resolved → Resolved
remember relid rel r = record {
  known = λ id. if id == relid then some rel else r.known id;
  relations = r.relations ++ ((relid, rel) ∷ []);
}

module _ (host : Host) where
  open host use {spi, format_type}

  unfoldable pub resolve_column : RelationColumn → Result Text RelationColumn
  resolve_column col = elim col.type_name [
    | some _ ↦ ok col
    | none ↦
        ok_or (format_type col.typid col.typmod)
          (concat (codes "unknown type oid " ∷ decimal col.typid ∷ []))
        >>= λ name. ok (record col { type_name = some name })
  ]

  unfoldable pub resolve_columns : List RelationColumn → Result Text (List RelationColumn)
  resolve_columns [] = ok []
  resolve_columns (col ∷ cols) =
      let rest = resolve_columns cols in resolve_column col >>= λ c. rest >>= λ cs. ok (c ∷ cs)

  unfoldable pub resolve_types : Relation → Result Text Relation
  resolve_types rel =
      resolve_columns rel.columns >>= λ columns. ok (record rel { columns = columns })

  -- The relation as the decoder knows it, with its types resolved.
  unfoldable pub known_relation : Relations → ℕ → Result Text Relation
  known_relation known relid =
      ok_or (known relid) (concat (codes "change for unknown relation " ∷ decimal relid ∷ []))
      >>= resolve_types

  unfoldable pub resolve_relid : ℕ → Resolved → Result Text Resolved
  resolve_relid relid r = elim (lookup relid r.relations) [
    | some _ ↦ ok r
    | none ↦ known_relation r.known relid >>= λ rel. ok (remember relid rel r)
  ]

  unfoldable pub resolve_relids : List ℕ → Resolved → Result Text Resolved
  resolve_relids [] r = ok r
  resolve_relids (relid ∷ relids) r = resolve_relid relid r >>= resolve_relids relids

  unfoldable pub resolve_changes : List Change → Resolved → Result Text Resolved
  resolve_changes [] r = ok r
  resolve_changes (change ∷ changes) r =
      resolve_relids (change_relids change) r >>= resolve_changes changes

  unfoldable pub resolve_transactions : List SourceTransaction → Resolved → Result Text Resolved
  resolve_transactions [] r = ok r
  resolve_transactions (tx ∷ txs) r = resolve_changes tx.changes r >>= resolve_transactions txs

  -- Schema drift, once per relation.
  unfoldable pub drift_relation : ℕ → ℕ × Relation → Round host → Round host
  drift_relation round_end (relid, rel) st =
      let shadowed =
        drift_shadow (find_shadow relid st.shadows) rel (qualified_name relid rel st.slots)
          round_end (st.shadows, st.catalog) in
      record st {
        shadows = shadowed.0;
        catalog = shadowed.1;
        slots =
            map {A = Tracked} (λ s. record s { view = drift_view relid rel round_end s.view })
              st.slots;
      }

  unfoldable pub drift_relations : ℕ → List (ℕ × Relation) → Round host → Round host
  drift_relations round_end [] st = st
  drift_relations round_end (r ∷ rels) st =
      drift_relations round_end rels (drift_relation round_end r st)

  unfoldable pub start : Catalog → spi.Tables → Round host
  start cat tables = record {
    slots = map track (load_live_views cat.views);
    shadows = load_shadows cat.shadows;
    catalog = cat;
    tables = tables;
    blocked_at = none;
  }

  -- The catalog and the tables that the round commits.
  pub record Committed : Type 0 where
    pub known : Relations
    pub catalog : Catalog
    pub tables : spi.Tables
    pub stats : RoundStats

  unfoldable pub finish : Settings → Relations → List SourceTransaction → Round host → Committed
  finish settings known txs st = record {
    known = known;
    catalog = finish_shadows st.shadows (finish_views settings st.slots st.catalog);
    tables = st.tables;
    stats = record {
      deltas = delta_count st.slots;
      processed = length txs;
      blocked_at = st.blocked_at;
    };
  }

  unfoldable pub apply_round :
      Settings → Relations → List SourceTransaction → Catalog → spi.Tables → Result Text Committed
  apply_round settings known txs cat tables =
      resolve_transactions txs (record { known = known; relations = [] }) >>= λ resolved.
      apply_transactions host settings (λ relid. lookup relid resolved.relations) 0 txs
        (drift_relations (last_end txs) resolved.relations (start cat tables))
      >>= λ st. ok (finish settings resolved.known txs st)
