-- ===== src/Client/Delivery.antt =====
-- `fetch` and `take_event` of clients/rust/nabla-client/src/lib.rs: the cursor and the queue.
use nabla.Base.{
  ℕ, suc, ◌+◌, ◌≡◌, inl, inr, refl, ap, sym, subst, ◌∙◌, List, [], ◌∷◌, ◌++◌, append_assoc,
  append-nil, map, Option, none, some, Bool, true, false, ok, Holds, Holds-bind, Holds-then,
  Holds-ok, length, get_last?, leb, ◌==◌, ==_iff, arith, Bool-cases, if◌then◌else◌,
}
use mathlib.Core.Option.{some_inj}
use nabla.Base.Int.{ℤ}
use nabla.Client.Types.{Delta, Event, ServerRow, ChangeRow, Subscription}
use nabla.Client.Fetch.{
  parse_op, parse_rows, same_transaction, Group, rows_of, add_row, group_rows, pop_group,
  last_seq_of, delta_of, event_of, after, hand_over, fetch,
}
use nabla.Client.Events.{adopt, take_event}

-- The numbers go from `from` to `to` without a gap.
abbrev pub IsSeqRun : ℕ → List ℕ → ℕ → Type 0
IsSeqRun from [] to = from ≡ to
IsSeqRun from (n ∷ ns) to = (n ≡ suc from) × IsSeqRun (suc from) ns to

module _ {V : Type 0} where
  abbrev pub seqs : List (ChangeRow V) → List ℕ
  seqs rows = map (λ r. r.seq) rows

  abbrev pub delta_seqs : List (Delta V) → List ℕ
  delta_seqs ds = map (λ d. d.seq) ds

  -- What is pending and the unfinished rows, read from a cursor on: each transaction continues
  -- where the one before ended and ends at its cursor; a snapshot starts at its own.
  abbrev pub Delivers : ℕ → List (Event V × Option ℕ) → List (ChangeRow V) → ℕ → Type 0
  Delivers from [] tail to = IsSeqRun from (seqs tail) to
  Delivers from ((Event.transaction xid lsn epoch deltas, some c) ∷ rest) tail to =
      IsSeqRun from (delta_seqs deltas) c × Delivers c rest tail to
  Delivers from ((Event.transaction xid lsn epoch deltas, none) ∷ rest) tail to = false ≡ true
  Delivers from ((Event.snapshot epoch frontier cursor rows, some c) ∷ rest) tail to =
      Delivers c rest tail to
  Delivers from ((Event.snapshot epoch frontier cursor rows, none) ∷ rest) tail to = false ≡ true
  Delivers from ((Event.resync reason, some c) ∷ rest) tail to = false ≡ true
  Delivers from ((Event.resync reason, none) ∷ rest) tail to = Delivers from rest tail to

  abbrev pub flatten : List (Group V) → List (ChangeRow V)
  flatten [] = []
  flatten (g ∷ gs) = rows_of g ++ flatten gs

  flatten-add_row :
      (gs : List (Group V)) (row : ChangeRow V)
      → flatten (add_row gs row) ≡ flatten gs ++ (row ∷ [])
  unfolding add_row
  flatten-add_row [] row = refl
  flatten-add_row (g ∷ []) row = elim (Bool-cases (same_transaction g.0 row)) [
    | inl e ↦ rw e (rw (append-nil (g.1 ++ (row ∷ [])), append-nil g.1))
    | inr e ↦ rw e (rw (append-nil g.1))
  ]
  flatten-add_row (g ∷ h ∷ gs) row =
      ap (λ l. rows_of g ++ l) (flatten-add_row (h ∷ gs) row)
      ∙ sym (append_assoc (rows_of g) (flatten (h ∷ gs)) (row ∷ []))

  pub flatten-group_rows :
      (gs : List (Group V)) (rows : List (ChangeRow V))
      → flatten (group_rows gs rows) ≡ flatten gs ++ rows
  unfolding group_rows
  flatten-group_rows gs [] = sym (append-nil (flatten gs))
  flatten-group_rows gs (row ∷ rows) =
      flatten-group_rows (add_row gs row) rows
      ∙ ap (λ l. l ++ rows) (flatten-add_row gs row)
      ∙ append_assoc (flatten gs) (row ∷ []) rows

  flatten-pop_group :
      (gs : List (Group V)) → flatten (pop_group gs).0 ++ (pop_group gs).1 ≡ flatten gs
  unfolding pop_group
  flatten-pop_group [] = refl
  flatten-pop_group (g ∷ []) = sym (append-nil (rows_of g))
  flatten-pop_group (g ∷ h ∷ gs) =
      append_assoc (rows_of g) (flatten (pop_group (h ∷ gs)).0) (pop_group (h ∷ gs)).1
      ∙ ap (λ l. rows_of g ++ l) (flatten-pop_group (h ∷ gs))

  -- A run over two lists, split where the first ends.
  run_split :
      (from : ℕ) (r : ChangeRow V) (rs more : List (ChangeRow V)) (to : ℕ)
      → IsSeqRun from (seqs ((r ∷ rs) ++ more)) to
      → IsSeqRun from (seqs (r ∷ rs)) (last_seq_of r rs)
        × IsSeqRun (last_seq_of r rs) (seqs more) to
  unfolding last_seq_of
  run_split from r [] more to (e, h) =
      ((e, sym e), subst (λ n. IsSeqRun n (seqs more) to) (sym e) h)
  run_split from r (s ∷ rs) more to (e, h) =
      let rest = run_split (suc from) s rs more to h in ((e, rest.0), rest.1)

  delta_seqs-delta_of : (rows : List (ChangeRow V)) → delta_seqs (map delta_of rows) ≡ seqs rows
  unfolding delta_of
  delta_seqs-delta_of [] = refl
  delta_seqs-delta_of (r ∷ rows) = rw (delta_seqs-delta_of rows)

  Delivers-event_of :
      (epoch : ℤ) (from : ℕ) (gs : List (Group V)) (tail : List (ChangeRow V)) (to : ℕ)
      → IsSeqRun from (seqs (flatten gs ++ tail)) to
      → Delivers from (map (event_of epoch) gs) tail to
  unfolding event_of
  Delivers-event_of epoch from [] tail to h = h
  Delivers-event_of epoch from (g ∷ gs) tail to h =
      let parts =
        run_split from g.0 g.1 (flatten gs ++ tail) to
          (subst (λ l. IsSeqRun from (seqs l) to) (append_assoc (rows_of g) (flatten gs) tail) h) in
      (
        subst (λ ns. IsSeqRun from ns (last_seq_of g.0 g.1)) (sym (delta_seqs-delta_of (rows_of g)))
            parts.0,
        Delivers-event_of epoch (last_seq_of g.0 g.1) gs tail to parts.1,
      )

  parse_rows-IsSeqRun :
      (from : ℕ) (rows : List (ServerRow V))
      → Holds
          (λ parsed. IsSeqRun from (seqs parsed) (from + length rows))
          (parse_rows (suc from) rows)
  unfolding parse_rows
  parse_rows-IsSeqRun from [] = omega arith
  parse_rows-IsSeqRun from (r ∷ rows) = elim (Bool-cases (r.seq == suc from)) [
    | inr e ↦ rw e tt
    | inl e ↦ rw e (
        Holds-then (Goal from (r ∷ rows)) (parse_op r.op) _ (λ op.
          Holds-bind (Goal (suc from) rows) (Goal from (r ∷ rows))
            (parse_rows (suc (suc from)) rows) _ (parse_rows-IsSeqRun (suc from) rows)
            (λ parsed h. (
              (==_iff r.seq (suc from)).0 e,
              subst (λ n. IsSeqRun (suc from) (seqs parsed) n) (omega arith) h,
            ))))
  ]
    where
      Goal : ℕ → List (ServerRow V) → List (ChangeRow V) → Type 0
      Goal start rs parsed = IsSeqRun start (seqs parsed) (start + length rs)

  IsSeqRun-append :
      (from : ℕ) (xs ys : List (ChangeRow V)) (mid to : ℕ)
      → IsSeqRun from (seqs xs) mid
      → IsSeqRun mid (seqs ys) to
      → IsSeqRun from (seqs (xs ++ ys)) to
  IsSeqRun-append from [] ys mid to e h = subst (λ n. IsSeqRun n (seqs ys) to) (sym e) h
  IsSeqRun-append from (x ∷ xs) ys mid to (e, rest) h =
      (e, IsSeqRun-append (suc from) xs ys mid to rest h)

  -- The last known row is where the unfinished rows end.
  run_ends :
      (from to : ℕ) (r : ChangeRow V) (rows : List (ChangeRow V))
      → IsSeqRun from (seqs (r ∷ rows)) to
      → (s : ChangeRow V) × (get_last? (r ∷ rows) ≡ some s) × (s.seq ≡ to)
  run_ends from to r [] (e, h) = (r, refl, e ∙ h)
  run_ends from to r (s ∷ rows) (e, h) = run_ends (suc from) to s rows h

  pub after-IsSeqRun :
      (sub : Subscription V) (to : ℕ) → IsSeqRun sub.cursor (seqs sub.tail) to → after sub ≡ to
  unfolding after
  after-IsSeqRun sub to h = go sub.tail h
    where
      go :
          (tail : List (ChangeRow V))
          → IsSeqRun sub.cursor (seqs tail) to
          → (elim (get_last? tail) as (λ o. ℕ) [ none ↦ sub.cursor | some r ↦ r.seq ]) ≡ to
      go [] e = e
      go (r ∷ rows) e = let (s, last, same) = run_ends sub.cursor to r rows e in rw last same

  -- The groups that are handed over, with the rows that are kept back.
  kept_groups : Bool → List (Group V) → List (Group V) × List (ChangeRow V)
  kept_groups full gs = if full then pop_group gs else (gs, [])

  flatten-kept_groups :
      (full : Bool) (gs : List (Group V))
      → flatten (kept_groups full gs).0 ++ (kept_groups full gs).1 ≡ flatten gs
  unfolding kept_groups
  flatten-kept_groups true gs = flatten-pop_group gs
  flatten-kept_groups false gs = append-nil (flatten gs)

  Delivers-kept_groups :
      (epoch : ℤ) (full : Bool) (from : ℕ) (gs : List (Group V)) (to : ℕ)
      → IsSeqRun from (seqs (flatten gs)) to
      → Delivers from (map (event_of epoch) (kept_groups full gs).0) (kept_groups full gs).1 to
  Delivers-kept_groups epoch full from gs to h =
      Delivers-event_of epoch from (kept_groups full gs).0 (kept_groups full gs).1 to
        (subst (λ l. IsSeqRun from (seqs l) to) (sym (flatten-kept_groups full gs)) h)

  Delivers-hand_over :
      (full : Bool) (all : List (ChangeRow V)) (sub : Subscription V) (to : ℕ)
      → sub.pending ≡ []
      → IsSeqRun sub.cursor (seqs all) to
      → Delivers
          (hand_over (group_rows [] all) full sub).cursor
          (hand_over (group_rows [] all) full sub).pending
          (hand_over (group_rows [] all) full sub).tail
          to
  unfolding hand_over kept_groups
  Delivers-hand_over full all sub to free h =
      subst
        (λ p.
          Delivers sub.cursor
            (p ++ map (event_of sub.epoch) (kept_groups full (group_rows [] all)).0)
            (kept_groups full (group_rows [] all)).1 to)
        (sym free)
        (Delivers-kept_groups sub.epoch full sub.cursor (group_rows [] all) to
          (subst (λ l. IsSeqRun sub.cursor (seqs l) to) (sym (flatten-group_rows [] all)) h))

  -- If nothing is pending and the unfinished rows continue the cursor, then an accepted batch
  -- leaves pending transactions that continue the cursor without a gap, followed by the unfinished
  -- rows, and all of the batch is in them.
  pub fetch-Delivers :
      (batch : ℕ) (rows : List (ServerRow V)) (sub sub' : Subscription V) (to : ℕ)
      → sub.pending ≡ []
      → IsSeqRun sub.cursor (seqs sub.tail) to
      → fetch batch rows sub ≡ ok sub'
      → Delivers sub'.cursor sub'.pending sub'.tail (to + length rows)
  unfolding fetch hand_over
  fetch-Delivers batch rows sub sub' to free run e =
      Holds-ok Good sub'
        (Holds-bind (λ parsed. IsSeqRun (after sub) (seqs parsed) (after sub + length rows)) Good
          (parse_rows (suc (after sub)) rows)
          (λ parsed.
            ok (hand_over (group_rows [] (sub.tail ++ parsed)) (leb batch (length rows)) sub))
          (parse_rows-IsSeqRun (after sub) rows) (λ parsed h. handed parsed h))
        e
    where
      Good : Subscription V → Type 0
      Good s = Delivers s.cursor s.pending s.tail (to + length rows)

      handed :
          (parsed : List (ChangeRow V))
          → IsSeqRun (after sub) (seqs parsed) (after sub + length rows)
          → Good (hand_over (group_rows [] (sub.tail ++ parsed)) (leb batch (length rows)) sub)
      handed parsed h =
          Delivers-hand_over (leb batch (length rows)) (sub.tail ++ parsed) sub (to + length rows)
            free
            (IsSeqRun-append sub.cursor sub.tail parsed to (to + length rows) run (
              subst (λ n. IsSeqRun n (seqs parsed) (n + length rows)) (after-IsSeqRun sub to run)
                h))

  -- What the caller sees of an event, from the cursor before to the one after.
  abbrev pub Starts : ℕ → Event V → ℕ → Type 0
  Starts from (Event.transaction xid lsn epoch deltas) c = IsSeqRun from (delta_seqs deltas) c
  Starts from (Event.snapshot epoch frontier cursor rows) c = Unit {0}
  Starts from (Event.resync reason) c = from ≡ c

  GoesOn : ℕ → ℕ → Event V × Subscription V → Type 0
  GoesOn from to r = Delivers r.1.cursor r.1.pending r.1.tail to × Starts from r.0 r.1.cursor

  first-GoesOn :
      (sub : Subscription V) (event : Event V) (cursor : Option ℕ)
      (rest : List (Event V × Option ℕ)) (to : ℕ)
      → Delivers sub.cursor ((event, cursor) ∷ rest) sub.tail to
      → GoesOn sub.cursor to (event, adopt cursor (record sub { pending = rest }))
  unfolding GoesOn adopt
  first-GoesOn sub (Event.transaction xid lsn epoch deltas) (some c) rest to h = (h.1, h.0)
  first-GoesOn sub (Event.transaction xid lsn epoch deltas) none rest to h = cc h
  first-GoesOn sub (Event.snapshot epoch frontier cursor rows) (some c) rest to h = (h, tt)
  first-GoesOn sub (Event.snapshot epoch frontier cursor rows) none rest to h = cc h
  first-GoesOn sub (Event.resync reason) (some c) rest to h = cc h
  first-GoesOn sub (Event.resync reason) none rest to h = (h, refl)

  -- If what is pending continues the cursor, then handing out an event moves the cursor to where it
  -- ends, and what is still pending continues there; a transaction covers all numbers from the old
  -- cursor to the new one, and a resync leaves the cursor.
  pub take_event-Delivers :
      (sub sub' : Subscription V) (event : Event V) (to : ℕ)
      → Delivers sub.cursor sub.pending sub.tail to
      → take_event sub ≡ some (event, sub')
      → Delivers sub'.cursor sub'.pending sub'.tail to × Starts sub.cursor event sub'.cursor
  unfolding take_event GoesOn
  take_event-Delivers sub sub' event to h e = go sub.pending h e
    where
      go :
          (pending : List (Event V × Option ℕ))
          → Delivers sub.cursor pending sub.tail to
          → (elim pending as (λ l. Option (Event V × Subscription V)) [
            | [] ↦ none
            | (ev, cursor) ∷ rest ↦ some (ev, adopt cursor (record sub { pending = rest }))
          ])
            ≡ some (event, sub')
          → GoesOn sub.cursor to (event, sub')
      go [] d q = cc q
      go ((ev, cursor) ∷ rest) d q =
          subst (GoesOn sub.cursor to) (some_inj.0 q) (first-GoesOn sub ev cursor rest to d)
