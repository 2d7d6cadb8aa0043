-- ===== src/Worker/Coverage.antt =====
-- What `apply_round` of src/worker.rs has done for each view when it ends.
use nabla.Base.{
  ℕ, zero, suc, ◌≤◌, ◌≡◌, ◌⊎◌, inl, inr, refl, ap, sym, subst, List, [], ◌∷◌, ◌++◌, map, All, take,
  length, length-append, take-append, Option, none, some, Bool, true, false, max, Text, leb, ◌==◌,
  if◌then◌else◌, arith, Bool-cases,
}
use nabla.Pgoutput.Types.{SourceTransaction}
use nabla.Worker.Types.{Host, Settings, Catalog, Status, ViewRow, LiveView, Tracked}
use nabla.Worker.Catalog.{update_views, failure_reason, record_failure}
use nabla.Worker.Steps.{block_at}
use nabla.Worker.Executing.{note_failure, fail_view}
use nabla.Worker.Outcome.{without_plans}

-- Every row with this id is stale.
abbrev pub IsStaleRow : ℕ → List ViewRow → Type 0
IsStaleRow id views = All (λ r. ((r.id == id) ≡ false) ⊎ (r.status ≡ Status.stale)) views

-- The view's frontier is at or past all these positions.
abbrev pub Reaches : Tracked → List ℕ → Type 0
Reaches s ends = All (λ e. e ≤ s.view.frontier) ends

-- A view after the transactions that end at `ends`: it has absorbed all of them; or it is stale in
-- the catalog; or the round reports the index of a transaction to retry, and the view has absorbed
-- all those before.
pub data Covered (ends : List ℕ) (views : List ViewRow) (blocked : Option ℕ) (s : Tracked)
    : Type 0 where
  done : s.view.dead ≡ false → Reaches s ends → Covered ends views blocked s
  gone_stale : IsStaleRow s.view.id views → Covered ends views blocked s
  retried :
      (k : ℕ)
      → blocked ≡ some k
      → k ≤ length ends
      → Reaches s (take k ends)
      → Covered ends views blocked s

-- Stale rows stay stale, and the index that is reported stays.
pub data Grows (views : List ViewRow) (blocked : Option ℕ) (views' : List ViewRow)
    (blocked' : Option ℕ) : Type 0 where
  grows :
      ((id : ℕ) → IsStaleRow id views → IsStaleRow id views')
      → ((k : ℕ) → blocked ≡ some k → blocked' ≡ some k)
      → Grows views blocked views' blocked'

abbrev pub IsBounded : ℕ → Option ℕ → Type 0
IsBounded n none = Unit
IsBounded n (some k) = k ≤ n

pub Grows-refl : (views : List ViewRow) (blocked : Option ℕ) → Grows views blocked views blocked
Grows-refl views blocked = grows (λ id h. h) (λ k h. h)

pub Grows-trans :
    {v w x : List ViewRow} {a b c : Option ℕ} → Grows v a w b → Grows w b x c → Grows v a x c
Grows-trans (grows f g) (grows h k) = grows (λ id p. h id (f id p)) (λ n p. k n (g n p))

take-short : (k : ℕ) (xs ys : List ℕ) → k ≤ length xs → take k (xs ++ ys) ≡ take k xs
take-short zero xs ys h = refl
take-short (suc k) [] ys h = ground arith
take-short (suc k) (x ∷ xs) ys h = rw (take-short k xs ys (omega arith))

Reaches-take : (s : Tracked) (k : ℕ) (ends : List ℕ) → Reaches s ends → Reaches s (take k ends)
Reaches-take s zero ends h = tt
Reaches-take s (suc k) [] h = tt
Reaches-take s (suc k) (e ∷ ends) (h, hs) = (h, Reaches-take s k ends hs)

pub Reaches-mono :
    (s t : Tracked) (ends : List ℕ)
    → s.view.frontier ≤ t.view.frontier
    → Reaches s ends
    → Reaches t ends
Reaches-mono s t [] h r = tt
Reaches-mono s t (e ∷ ends) h (r, rs) = (omega arith, Reaches-mono s t ends h rs)

pub Reaches-append :
    (s : Tracked) (ends : List ℕ) (e : ℕ)
    → Reaches s ends
    → e ≤ s.view.frontier
    → Reaches s (ends ++ (e ∷ []))
Reaches-append s [] e r h = (h, tt)
Reaches-append s (d ∷ ends) e (r, rs) h = (r, Reaches-append s ends e rs h)

-- A view that keeps its id and does not go back is still covered after one more transaction, if it
-- is in the case that it had absorbed all before.
pub Covered-next :
    {views : List ViewRow} {blocked : Option ℕ} (views' : List ViewRow) {blocked' : Option ℕ}
    (ends : List ℕ) (e : ℕ) (s t : Tracked)
    → Grows views blocked views' blocked'
    → t.view.id ≡ s.view.id
    → s.view.frontier ≤ t.view.frontier
    → (s.view.dead ≡ false → Reaches s ends → Covered (ends ++ (e ∷ [])) views' blocked' t)
    → Covered ends views blocked s
    → Covered (ends ++ (e ∷ [])) views' blocked' t
Covered-next views' ends e s t g same later k (done alive r) = k alive r
Covered-next views' ends e s t (grows f g) same later k (gone_stale h) =
    gone_stale (subst (λ id. IsStaleRow id views') (sym same) (f s.view.id h))
Covered-next views' ends e s t (grows f g) same later next (retried k b h r) =
    retried k (g k b) (rw (length-append ends (e ∷ [])) (omega arith))
      (rw (take-short k ends (e ∷ []) h) (Reaches-mono s t (take k ends) later r))

pub Covered-grow :
    {views : List ViewRow} {blocked : Option ℕ} {views' : List ViewRow} {blocked' : Option ℕ}
    (ends : List ℕ) (s : Tracked)
    → Grows views blocked views' blocked'
    → Covered ends views blocked s
    → Covered ends views' blocked' s
Covered-grow ends s (grows f g) (done alive r) = done alive r
Covered-grow ends s (grows f g) (gone_stale h) = gone_stale (f s.view.id h)
Covered-grow ends s (grows f g) (retried k b h r) = retried k (g k b) h r

-- An update that keeps the ids and either keeps a status or makes it stale.
pub record IsMild (f : ViewRow → ViewRow) : Type 0 where
  pub keeps_id : (r : ViewRow) → (f r).id ≡ r.id
  pub keeps_stale : (r : ViewRow) → r.status ≡ Status.stale → (f r).status ≡ Status.stale

pub IsStaleRow-update_views :
    (f : ViewRow → ViewRow) (id j : ℕ) (cat : Catalog)
    → IsMild f
    → IsStaleRow id cat.views
    → IsStaleRow id (update_views j f cat).views
unfolding update_views
IsStaleRow-update_views f id j cat mild h = go cat.views h
  where
    go :
        (views : List ViewRow)
        → IsStaleRow id views
        → IsStaleRow id (map (λ r. if r.id == j then f r else r) views)
    go [] h = tt
    go (r ∷ views) (h, hs) = elim (Bool-cases (r.id == j)) [
      | inl e ↦ rw e (
        elim h [
          | inl other ↦ inl (rw (mild.keeps_id r) other)
          | inr gone ↦ inr (mild.keeps_stale r gone)
        ],
        go views hs,
      )
      | inr e ↦ rw e (h, go views hs)
    ]

pub IsStaleRow-marked :
    (f : ViewRow → ViewRow) (id : ℕ) (cat : Catalog)
    → ((r : ViewRow) → (f r).status ≡ Status.stale)
    → IsStaleRow id (update_views id f cat).views
unfolding update_views
IsStaleRow-marked f id cat h = go cat.views
  where
    go : (views : List ViewRow) → IsStaleRow id (map (λ r. if r.id == id then f r else r) views)
    go [] = tt
    go (r ∷ views) = elim (Bool-cases (r.id == id)) [
      | inl e ↦ rw e (inr (h r), go views)
      | inr e ↦ rw e (inl e, go views)
    ]

block_at-Grows :
    (n : ℕ) (b : Bool) (blocked : Option ℕ) (k : ℕ)
    → blocked ≡ some k
    → block_at n b blocked ≡ some k
unfolding block_at
block_at-Grows n false blocked k h = h
block_at-Grows n true none k h = cc h
block_at-Grows n true (some j) k h = h

-- The invariant at index `length ends`, and that a step to the next index keeps it for a view.
pub record IsStep (views : List ViewRow) (blocked : Option ℕ) (ends : List ℕ) (e : ℕ) (s : Tracked)
    (cat : Catalog) (blocked' : Option ℕ) : Type 0 where
  pub grown : Grows views blocked cat.views blocked'
  pub bounded : IsBounded (length ends) blocked'
  pub covered : Covered (ends ++ (e ∷ [])) cat.views blocked' s

module _ (host : Host) (settings : Settings) (tx : SourceTransaction) where
  open host use {spi}
  open spi use {Tables}

  unfoldable pub AfterView :
      List ViewRow → Option ℕ → List ℕ → (Tracked × (Catalog × Option ℕ)) × Tables → Type 0
  AfterView views blocked ends r = IsStep views blocked ends tx.end_lsn r.0.0 r.0.1.0 r.0.1.1

  -- A failure either makes the row stale or reports the index.
  gave_up :
      (ends : List ℕ) (s t : Tracked) (cat : Catalog) (blocked : Option ℕ) (view : LiveView)
      (f : ViewRow → ViewRow)
      → IsMild f
      → ((r : ViewRow) → (f r).status ≡ Status.stale)
      → IsBounded (length ends) blocked
      → (tables : Tables)
      → AfterView cat.views blocked ends (
        note_failure host (length ends) t blocked (false, (view, update_views view.id f cat)),
        tables,
      )
  unfolding AfterView note_failure block_at
  gave_up ends s t cat blocked view f mild marks bound tables = record {
    grown = grows (λ id h. IsStaleRow-update_views f id view.id cat mild h) (λ k h. h);
    bounded = bound;
    covered = gone_stale (IsStaleRow-marked f view.id cat marks);
  }

  blocks :
      (ends : List ℕ) (s t : Tracked) (views : List ViewRow) (blocked : Option ℕ)
      → s.view.frontier ≤ t.view.frontier
      → IsBounded (length ends) blocked
      → Reaches s ends
      → Covered (ends ++ (tx.end_lsn ∷ [])) views (block_at (length ends) true blocked) t
  unfolding block_at
  blocks ends s t views none later bound r =
      retried (length ends) refl (rw (length-append ends (tx.end_lsn ∷ [])) (omega arith))
        (rw (take-append ends (tx.end_lsn ∷ [])) (Reaches-mono s t ends later r))
  blocks ends s t views (some k) later bound r =
      retried k refl (rw (length-append ends (tx.end_lsn ∷ [])) (omega arith)) (
        rw (take-short k ends (tx.end_lsn ∷ []) bound)
          (Reaches-mono s t (take k ends) later (Reaches-take s k ends r)))

  block_at-IsBounded :
      (n : ℕ) (blocked : Option ℕ) → IsBounded n blocked → IsBounded n (block_at n true blocked)
  unfolding block_at
  block_at-IsBounded n none h = omega arith
  block_at-IsBounded n (some k) h = h

  will_retry :
      (ends : List ℕ) (s t : Tracked) (cat : Catalog) (blocked : Option ℕ) (view : LiveView)
      (f : ViewRow → ViewRow)
      → view.id ≡ s.view.id
      → s.view.frontier ≤ view.frontier
      → IsMild f
      → IsBounded (length ends) blocked
      → Covered ends cat.views blocked s
      → (tables : Tables)
      → AfterView cat.views blocked ends (
        note_failure host (length ends) t blocked (true, (view, update_views view.id f cat)),
        tables,
      )
  unfolding AfterView note_failure
  will_retry ends s t cat blocked view f same later mild bound c tables =
      let u : Tracked = record t { view = record view { failed_this_round = true; dead = true } } in
      let views' : List ViewRow = (update_views view.id f cat).views in
      let grown : Grows cat.views blocked views' (block_at (length ends) true blocked) =
        grows (λ id h. IsStaleRow-update_views f id view.id cat mild h)
          (block_at-Grows (length ends) true blocked) in
      record {
        grown = grown;
        bounded = block_at-IsBounded (length ends) blocked bound;
        covered =
            Covered-next views' ends tx.end_lsn s u grown same later
              (λ alive r. blocks ends s u views' blocked later bound r) c;
      }

  pub AfterView-fail_view :
      (ends : List ℕ) (message : Text) (s t : Tracked) (cat : Catalog) (tables : Tables)
      (blocked : Option ℕ)
      → without_plans t ≡ without_plans s
      → IsBounded (length ends) blocked
      → Covered ends cat.views blocked s
      → AfterView cat.views blocked ends
          (fail_view host settings (length ends) message t cat blocked, tables)
  unfolding fail_view record_failure
  AfterView-fail_view ends message s t cat tables blocked same bound c =
      let id_same : t.view.id ≡ s.view.id = ap (λ x. x.view.id) same in
      let frontier_same : t.view.frontier ≡ s.view.frontier = ap (λ x. x.view.frontier) same in
      let later : s.view.frontier ≤ t.view.frontier = omega arith in
      let failures : ℕ = suc t.view.apply_failures in
      let reason : Text = failure_reason failures message in
      elim (Bool-cases (leb (max settings.max_apply_failures 1) (suc t.view.apply_failures))) [
        | inl e ↦ rw e (
            gave_up ends s t cat blocked
              (record t.view { apply_failures = failures; stale = some reason })
              (λ r. record r {
                status = Status.stale;
                stale_reason = some reason;
                apply_failures = failures;
                last_error = some message;
              })
              (record { keeps_id = λ r. refl; keeps_stale = λ r h. refl }) (λ r. refl) bound tables)
        | inr e ↦ rw e (
            will_retry ends s t cat blocked (record t.view { apply_failures = failures })
              (λ r. record r { apply_failures = failures; last_error = some message }) id_same later
              (record { keeps_id = λ r. refl; keeps_stale = λ r h. h }) bound c tables)
      ]
