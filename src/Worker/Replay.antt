-- ===== src/Worker/Replay.antt =====
-- A round that replays what was absorbed already: `apply_round` after a crash between the commit of
-- a round and the advance of the slot.
use nabla.Base.{
  ℕ, ◌≤◌, ◌≡◌, ◌⊎◌, inl, inr, refl, subst, List, [], ◌∷◌, map, All, Option, none, some, true, false,
  Text, ok, Holds-ok, length, get_last?, ltb, arith, Bool-cases, Option-cases,
}
use mathlib.Core.Option.{some_inj}
use nabla.Pgoutput.Types.{Relation, SourceTransaction}
use nabla.Pgoutput.Decoder.{Relations}
use nabla.Worker.Types.{Host, Settings, Catalog, ViewRow, ShadowRow, Shadow, Tracked}
use nabla.Worker.Views.{is_none}
use nabla.Worker.Catalog.{load_live_views, load_shadows, is_live, live_view}
use nabla.Worker.Steps.{find_shadow, absorbs}
use nabla.Worker.Phases.{Round}
use nabla.Worker.Round.{
  track, drift_view, drift_shadow, qualified_name, last_end, finish_view, finish_views,
  finish_shadow, finish_shadows, delta_count, Resolved, lookup, resolve_transactions,
  drift_relation, drift_relations, start, finish, apply_round,
}
use nabla.Worker.Resolving.{Resolves, resolve_transactions-Finds}
use nabla.Worker.Skip.{
  find_shadow-All, IsViewPast, IsShadowPast, IsPast, AreKnown, absorbs-IsShadowPast,
  apply_transactions-past,
}

-- A live view of the catalog has absorbed everything up to a position.
abbrev pub IsRowPast : ℕ → ViewRow → Type 0
IsRowPast end_lsn r = (is_live r.status ≡ false) ⊎ (end_lsn ≤ r.frontier_lsn)

abbrev pub IsShadowRowPast : ℕ → ShadowRow → Type 0
IsShadowRowPast end_lsn r = (r.failed ≡ true) ⊎ (end_lsn ≤ r.frontier_lsn)

abbrev pub IsCatalogPast : Catalog → SourceTransaction → Type 0
IsCatalogPast cat tx =
    All (IsRowPast tx.end_lsn) cat.views × All (IsShadowRowPast tx.end_lsn) cat.shadows

load_live_views-past :
    (end_lsn : ℕ) (rows : List ViewRow)
    → All (IsRowPast end_lsn) rows
    → All (IsViewPast end_lsn) (map track (load_live_views rows))
unfolding load_live_views track live_view
load_live_views-past end_lsn [] h = tt
load_live_views-past end_lsn (r ∷ rows) (h, hs) = elim (Bool-cases (is_live r.status)) [
  | inr e ↦ rw e (load_live_views-past end_lsn rows hs)
  | inl e ↦ rw e (elim (Option-cases r.spec) [
    | inl f ↦ rw f (load_live_views-past end_lsn rows hs)
    | inr (spec, f) ↦ rw f (past e h, load_live_views-past end_lsn rows hs)
  ])
]
  where
    past : is_live r.status ≡ true → IsRowPast end_lsn r → end_lsn ≤ r.frontier_lsn
    past e (inl f) = cc (e, f)
    past e (inr l) = l

load_shadows-past :
    (end_lsn : ℕ) (rows : List ShadowRow)
    → All (IsShadowRowPast end_lsn) rows
    → All (IsShadowPast end_lsn) (load_shadows rows)
unfolding load_shadows
load_shadows-past end_lsn [] h = tt
load_shadows-past end_lsn (r ∷ rows) (h, hs) = (h, load_shadows-past end_lsn rows hs)

-- A round that starts has absorbed and advanced nothing yet.
finish_views-start :
    (settings : Settings) (rows : List ViewRow) (cat : Catalog)
    → finish_views settings (map track (load_live_views rows)) cat ≡ cat
unfolding finish_views finish_view load_live_views track
finish_views-start settings [] cat = refl
finish_views-start settings (r ∷ rows) cat = elim (Bool-cases (is_live r.status)) [
  | inr e ↦ rw e (finish_views-start settings rows cat)
  | inl e ↦ rw e (elim (Option-cases r.spec) [
    | inl f ↦ rw f (finish_views-start settings rows cat)
    | inr (spec, f) ↦ rw f (finish_views-start settings rows cat)
  ])
]

delta_count-start : (rows : List ViewRow) → delta_count (map track (load_live_views rows)) ≡ 0
unfolding delta_count load_live_views track
delta_count-start [] = refl
delta_count-start (r ∷ rows) = elim (Bool-cases (is_live r.status)) [
  | inr e ↦ rw e (delta_count-start rows)
  | inl e ↦ rw e (elim (Option-cases r.spec) [
    | inl f ↦ rw f (delta_count-start rows)
    | inr (spec, f) ↦ rw f (delta_count-start rows)
  ])
]

finish_shadows-start :
    (rows : List ShadowRow) (cat : Catalog) → finish_shadows (load_shadows rows) cat ≡ cat
unfolding finish_shadows finish_shadow load_shadows
finish_shadows-start [] cat = refl
finish_shadows-start (r ∷ rows) cat = finish_shadows-start rows cat

drift_view-past :
    (relid : ℕ) (rel : Relation) (round_end : ℕ) (slots : List Tracked)
    → All (IsViewPast round_end) slots
    → map {A = Tracked} (λ s. record s { view = drift_view relid rel round_end s.view }) slots
      ≡ slots
unfolding drift_view
drift_view-past relid rel round_end [] h = refl
drift_view-past relid rel round_end (s ∷ slots) (h, hs) =
    let late : ltb s.view.frontier round_end ≡ false = ground arith in
    rw (late, drift_view-past relid rel round_end slots hs)
      (elim (Bool-cases (is_none s.view.stale)) [ inl e ↦ rw e | inr e ↦ rw e ])

drift_shadow-past :
    (found : Option Shadow) (rel : Relation) (qualified : Text) (round_end : ℕ)
    (shadows : List Shadow) (cat : Catalog)
    → ((s : Shadow) → found ≡ some s → absorbs s round_end ≡ false)
    → drift_shadow found rel qualified round_end (shadows, cat) ≡ (shadows, cat)
unfolding drift_shadow
drift_shadow-past none rel qualified round_end shadows cat h = refl
drift_shadow-past (some s) rel qualified round_end shadows cat h = rw (h s refl)

last-All :
    (P : SourceTransaction → Type 0) (txs : List SourceTransaction) {tx : SourceTransaction}
    → All P txs
    → get_last? txs ≡ some tx
    → P tx
last-All P [] h e = cc e
last-All P (t ∷ []) (h, hs) e = subst P (some_inj.0 e) h
last-All P (t ∷ u ∷ txs) (h, hs) e = last-All P (u ∷ txs) hs e

module _ (host : Host) where
  open host use {spi}
  open spi use {Tables}

  last_end-IsPast :
      (txs : List SourceTransaction) (st : Round host)
      → All (λ tx. IsPast host tx.end_lsn st) txs
      → IsPast host (last_end txs) st
  unfolding last_end
  last_end-IsPast txs st h = elim (Option-cases (get_last? txs)) [
    | inl e ↦ rw (e, last_end) (zero_views st.slots, zero_shadows st.shadows)
    | inr (tx, e) ↦ rw (e, last_end) (last-All (λ t. IsPast host t.end_lsn st) txs h e)
  ]
    where
      zero_views : (slots : List Tracked) → All (IsViewPast 0) slots
      zero_views [] = tt
      zero_views (s ∷ slots) = (omega arith, zero_views slots)

      zero_shadows : (shadows : List Shadow) → All (IsShadowPast 0) shadows
      zero_shadows [] = tt
      zero_shadows (s ∷ shadows) = (inr (omega arith), zero_shadows shadows)

  drift_relations-past :
      (round_end : ℕ) (rels : List (ℕ × Relation)) (st : Round host)
      → IsPast host round_end st
      → drift_relations host round_end rels st ≡ st
  unfolding drift_relations drift_relation
  drift_relations-past round_end [] st past = refl
  drift_relations-past round_end ((relid, rel) ∷ rels) st past =
      rw
        (
          drift_view-past relid rel round_end st.slots past.0,
          drift_shadow-past (find_shadow relid st.shadows) rel (qualified_name relid rel st.slots)
              round_end st.shadows st.catalog
              (λ s e.
                absorbs-IsShadowPast s round_end
                  (find_shadow-All (IsShadowPast round_end) relid st.shadows past.1 e)),
        )
        (drift_relations-past round_end rels st past)

  start-IsPast :
      (txs : List SourceTransaction) (cat : Catalog) (tables : Tables)
      → All (IsCatalogPast cat) txs
      → All (λ tx. IsPast host tx.end_lsn (start host cat tables)) txs
  unfolding start
  start-IsPast [] cat tables h = tt
  start-IsPast (tx ∷ txs) cat tables (h, hs) = (
    (load_live_views-past tx.end_lsn cat.views h.0, load_shadows-past tx.end_lsn cat.shadows h.1),
    start-IsPast txs cat tables hs,
  )

  finish-start :
      (settings : Settings) (known : Relations) (txs : List SourceTransaction) (cat : Catalog)
      (tables : Tables)
      → finish host settings known txs (start host cat tables) ≡ record {
        known = known;
        catalog = cat;
        tables = tables;
        stats = record { deltas = 0; processed = length txs; blocked_at = none };
      }
  unfolding finish start
  finish-start settings known txs cat tables = rw (
    finish_views-start settings cat.views cat,
    finish_shadows-start cat.shadows cat,
    delta_count-start cat.views,
  )

  -- If every live view and every maintained shadow of the catalog is at or past the end of every
  -- transaction of a peek, and the relations of the peek are known, the round commits the catalog
  -- and the tables as they were, logs no delta, and holds the slot back nowhere.
  pub apply_round-replay :
      (settings : Settings) (known : Relations) (txs : List SourceTransaction) (cat : Catalog)
      (tables : Tables) (resolved : Resolved)
      → resolve_transactions host txs (record { known = known; relations = [] }) ≡ ok resolved
      → All (IsCatalogPast cat) txs
      → apply_round host settings known txs cat tables
        ≡ ok (record {
          known = resolved.known;
          catalog = cat;
          tables = tables;
          stats = record { deltas = 0; processed = length txs; blocked_at = none };
        })
  unfolding apply_round
  apply_round-replay settings known txs cat tables resolved e past =
      let st : Round host = start host cat tables in
      let pasts : All (λ tx. IsPast host tx.end_lsn st) txs = start-IsPast txs cat tables past in
      let found : Resolves (λ q. All (AreKnown (λ id. lookup id q.relations)) txs)
          (record { known = known; relations = [] }) resolved =
        Holds-ok _ resolved
          (resolve_transactions-Finds host txs (record { known = known; relations = [] })) e in
      rw (
        e,
        drift_relations-past (last_end txs) resolved.relations st (last_end-IsPast txs st pasts),
        apply_transactions-past host settings (λ id. lookup id resolved.relations) 0 txs st pasts
            found.0,
        finish-start settings resolved.known txs cat tables,
      )
