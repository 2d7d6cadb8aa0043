-- ===== src/Worker/Resolving.antt =====
-- The resolution of the relations at the start of `apply_round` in src/worker.rs.
use nabla.Base.{
  ℕ, ◌≡◌, inl, inr, List, [], ◌∷◌, ◌++◌, All, some, Text, Result, ok, err, ◌>>=◌, Holds, Holds-bind,
  Holds-then, ◌==◌, ==_refl, Bool-cases, Option-cases,
}
use nabla.Pgoutput.Types.{Relation, Change, SourceTransaction}
use nabla.Worker.Types.{Host}
use nabla.Worker.Steps.{change_relids}
use nabla.Worker.Round.{
  known_relation, remember, Resolved, lookup, resolve_relid, resolve_relids, resolve_changes,
  resolve_transactions,
}
use nabla.Worker.Skip.{IsKnown, AreKnown}

-- Every relation that a round meets is resolved before the first transaction is applied.
lookup-append :
    (relid : ℕ) (rels more : List (ℕ × Relation)) {rel : Relation}
    → lookup relid rels ≡ some rel
    → lookup relid (rels ++ more) ≡ some rel
unfolding lookup
lookup-append relid [] more h = cc h
lookup-append relid ((id, r) ∷ rels) more h = elim (Bool-cases (id == relid)) [
  | inl e ↦ rw e (rw e at h)
  | inr e ↦ rw e (lookup-append relid rels more (rw e at h))
]

abbrev pub Finds : Resolved → ℕ → Type 0
Finds r relid = IsKnown (λ id. lookup id r.relations) relid

-- What was found before is found after.
pub data Extends (r r' : Resolved) : Type 0 where
  extends : ((relid : ℕ) → Finds r relid → Finds r' relid) → Extends r r'

Extends-Finds : {r r' : Resolved} (relid : ℕ) → Extends r r' → Finds r relid → Finds r' relid
Extends-Finds relid (extends f) h = f relid h

Extends-trans : {a b c : Resolved} → Extends a b → Extends b c → Extends a c
Extends-trans (extends f) (extends g) = extends (λ relid h. g relid (f relid h))

lookup-new :
    (relid : ℕ) (rels : List (ℕ × Relation)) (rel : Relation)
    → IsKnown (λ id. lookup id (rels ++ ((relid, rel) ∷ []))) relid
unfolding lookup
lookup-new relid [] rel = (rel, rw (==_refl relid))
lookup-new relid ((id, r) ∷ rels) rel = elim (Bool-cases (id == relid)) [
  | inl e ↦ (r, rw e)
  | inr e ↦ let (found, f) = lookup-new relid rels rel in (found, rw e f)
]

-- A step of the resolution that finds what it looks for, and keeps what was found.
abbrev pub Resolves : (Resolved → Type 0) → Resolved → Resolved → Type 0
Resolves P r r' = P r' × Extends r r'

module _ (host : Host) where
  resolve_relid-Finds :
      (relid : ℕ) (r : Resolved)
      → Holds (Resolves (λ q. Finds q relid) r) (resolve_relid host relid r)
  unfolding resolve_relid
  resolve_relid-Finds relid r = elim (Option-cases (lookup relid r.relations)) [
    | inr (rel, found) ↦ rw (found, resolve_relid) ((rel, found), extends (λ id h. h))
    | inl missing ↦
        rw (missing, resolve_relid)
          (Holds-then (Resolves (λ q. Finds q relid) r) (known_relation host r.known relid)
            (λ rel. ok (remember relid rel r)) (λ rel. remembered rel))
  ]
    where
      remembered : (rel : Relation) → Resolves (λ q. Finds q relid) r (remember relid rel r)
      remembered rel =
          unfold remember in
          (
            lookup-new relid r.relations rel,
            extends (λ id h. (h.0, lookup-append id r.relations ((relid, rel) ∷ []) h.1)),
          )

  -- One more step: what the first found is still there.
  then-Resolves :
      (P Q : Resolved → Type 0) (r : Resolved) (m : Result Text Resolved)
      (f : Resolved → Result Text Resolved)
      → ((a b : Resolved) → Extends a b → P a → P b)
      → Holds (Resolves P r) m
      → ((a : Resolved) → Holds (Resolves Q a) (f a))
      → Holds (Resolves (λ q. P q × Q q) r) (m >>= f)
  then-Resolves P Q r m f kept first next =
      Holds-bind (Resolves P r) (Resolves (λ q. P q × Q q) r) m f first
        (λ a h. widen a h (f a) (next a))
    where
      widen :
          (a : Resolved)
          → Resolves P r a
          → (n : Result Text Resolved) → Holds (Resolves Q a) n
          → Holds (Resolves (λ q. P q × Q q) r) n
      widen a h (ok b) (q, more) = ((kept a b more h.0, q), Extends-trans h.1 more)
      widen a h (err e) g = tt

  kept-All :
      (relids : List ℕ) (a b : Resolved) → Extends a b → All (Finds a) relids → All (Finds b) relids
  kept-All [] a b e h = tt
  kept-All (relid ∷ relids) a b e (h, hs) = (Extends-Finds relid e h, kept-All relids a b e hs)

  resolve_relids-Finds :
      (relids : List ℕ) (r : Resolved)
      → Holds (Resolves (λ q. All (Finds q) relids) r) (resolve_relids host relids r)
  unfolding resolve_relids
  resolve_relids-Finds [] r = (tt, extends (λ id h. h))
  resolve_relids-Finds (relid ∷ relids) r =
      then-Resolves (λ q. Finds q relid) (λ q. All (Finds q) relids) r (resolve_relid host relid r)
        (resolve_relids host relids) (λ a b. Extends-Finds relid) (resolve_relid-Finds relid r)
        (resolve_relids-Finds relids)

  FindsChanges : List Change → Resolved → Type 0
  FindsChanges changes q = All (λ change. All (Finds q) (change_relids change)) changes

  kept-FindsChanges :
      (changes : List Change) (a b : Resolved)
      → Extends a b
      → FindsChanges changes a
      → FindsChanges changes b
  unfolding FindsChanges
  kept-FindsChanges [] a b e h = tt
  kept-FindsChanges (change ∷ changes) a b e (h, hs) =
      (kept-All (change_relids change) a b e h, kept-FindsChanges changes a b e hs)

  resolve_changes-Finds :
      (changes : List Change) (r : Resolved)
      → Holds (Resolves (FindsChanges changes) r) (resolve_changes host changes r)
  unfolding resolve_changes FindsChanges
  resolve_changes-Finds [] r = (tt, extends (λ id h. h))
  resolve_changes-Finds (change ∷ changes) r =
      then-Resolves (λ q. All (Finds q) (change_relids change)) (FindsChanges changes) r
        (resolve_relids host (change_relids change) r) (resolve_changes host changes)
        (kept-All (change_relids change)) (resolve_relids-Finds (change_relids change) r)
        (resolve_changes-Finds changes)

  -- Every relation of the transactions is found after the resolution.
  pub resolve_transactions-Finds :
      (txs : List SourceTransaction) (r : Resolved)
      → Holds
          (Resolves (λ q. All (AreKnown (λ id. lookup id q.relations)) txs) r)
          (resolve_transactions host txs r)
  unfolding resolve_transactions FindsChanges
  resolve_transactions-Finds [] r = (tt, extends (λ id h. h))
  resolve_transactions-Finds (tx ∷ txs) r =
      then-Resolves (FindsChanges tx.changes)
        (λ q. All (AreKnown (λ id. lookup id q.relations)) txs) r
        (resolve_changes host tx.changes r) (resolve_transactions host txs)
        (kept-FindsChanges tx.changes) (resolve_changes-Finds tx.changes r)
        (resolve_transactions-Finds txs)
