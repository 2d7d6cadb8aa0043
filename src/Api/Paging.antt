-- ===== src/Api/Paging.antt =====
-- The pages of `changes` in src/api.rs, on a log whose positions never go back.
use nabla.Base.{
  ℕ, suc, ◌≤◌, ◌<◌, ◌≡◌, refl, ap, sym, subst, ◌∙◌, inl, inr, ◌⊎◌, List, [], ◌∷◌, ◌++◌,
  append_assoc, append-nil, All, some, true, false, leb, Bool-cases, length, length-append,
  length-take, take, drop, take-append-drop, get_last?, arith,
}
use nabla.Base.Int.{pos}
use nabla.Worker.Types.{DeltaRow}
use nabla.Api.Changes.{rest_of, select_changes, same_transaction_after, order_by_seq}
use nabla.Api.Changes
use nabla.Api.Ordering.{
  of_view, later, IsLog, deltas_after-later, later-IsLog, order_by_seq-IsLog, same_after,
  same_transaction_after-of_view, same_after-later,
}
use nabla.Api.Cutting.{
  IsCut, cut, IsRest, rest, AreBefore, same_after-skip, IsLog-prefix, All-drop, take_short,
  All-later, All-take, All-get_last, AreBefore-append, before, eq_le,
}

-- A page and what it leaves: no transaction has rows in both, and what is short of the limit leaves nothing.
pub record IsPage (limit : ℕ) (history result : List DeltaRow) : Type 0 where
  pub more : List DeltaRow
  pub splits : history ≡ result ++ more
  pub whole : AreBefore result more
  pub drained : (limit ≤ length result) ⊎ (more ≡ [])

-- The rows of the page with the rest of the last transaction.
full-IsPage :
    (n : ℕ) (d : DeltaRow) (ds : List DeltaRow) (to : ℕ) (c : IsCut d n ds to)
    → length (take n ds) ≡ n
    → IsRest c.last c.last.seq (drop n ds) to
    → IsPage (suc n) (d ∷ ds) ((d ∷ take n ds) ++ same_after c.last (drop n ds))
full-IsPage n d ds to c size r = record {
  more = r.more;
  splits =
      ap (λ l. d ∷ l)
        (sym (take-append-drop n ds)
          ∙ (ap (λ l. take n ds ++ l) r.splits
              ∙ sym (append_assoc (take n ds) (same_after c.last (drop n ds)) r.more)));
  whole =
      AreBefore-append (d ∷ take n ds) (same_after c.last (drop n ds)) r.more
        (before c.last.lsn (d ∷ take n ds) r.more (c.above, c.below) r.apart)
        (before c.last.lsn (same_after c.last (drop n ds)) r.more (eq_le c.last.lsn _ r.same)
          r.apart);
  drained =
      inl (omega (arith, length-append (d ∷ take n ds) (same_after c.last (drop n ds)), size));
}

rest_of-full :
    (limit view_id : ℕ) (paged deltas : List DeltaRow) (last : DeltaRow)
    → get_last? paged ≡ some last
    → leb limit (length paged) ≡ true
    → rest_of limit view_id paged deltas ≡ same_transaction_after view_id last deltas
unfolding rest_of
rest_of-full limit view_id paged deltas last e t = rw (e, t, rest_of) refl

rest_of-short :
    (limit view_id : ℕ) (paged deltas : List DeltaRow) (last : DeltaRow)
    → get_last? paged ≡ some last
    → leb limit (length paged) ≡ false
    → rest_of limit view_id paged deltas ≡ []
unfolding rest_of
rest_of-short limit view_id paged deltas last e t = rw (e, t, rest_of) refl

-- A page of the whole history.
short-IsPage :
    (n : ℕ) (d : DeltaRow) (ds : List DeltaRow)
    → length (take n ds) < n
    → IsPage (suc n) (d ∷ ds) (d ∷ take n ds)
short-IsPage n d ds h = record {
  more = [];
  splits =
      ap (λ l. d ∷ l) (sym (take-append-drop n ds) ∙ ap (λ l. take n ds ++ l) (take_short n ds h));
  whole = none_after (d ∷ take n ds);
  drained = inr refl;
}
  where
    none_after : (es : List DeltaRow) → AreBefore es []
    none_after [] = tt
    none_after (e ∷ es) = (tt, none_after es)

-- A page is in order already.
ordered-IsPage :
    (limit a lo : ℕ) (history result : List DeltaRow) (to : ℕ)
    → IsLog a lo history to
    → IsPage limit history result
    → IsPage limit history (order_by_seq result)
ordered-IsPage limit a lo history result to r p =
    let (mid, q) = IsLog-prefix a lo result p.more to (subst (λ l. IsLog a lo l to) p.splits r) in
    subst (IsPage limit history) (sym (order_by_seq-IsLog a lo result mid q)) p

empty-IsPage : (limit : ℕ) → IsPage limit [] []
empty-IsPage limit = record { more = []; splits = refl; whole = tt; drained = inr refl }

module _ (xid_of : ℕ → ℕ) (view_id : ℕ) (deltas : List DeltaRow) where
  IsPage-of :
      (n a lo : ℕ) (history : List DeltaRow) (to : ℕ)
      → IsLog a lo history to
      → All (λ d. d.xid ≡ xid_of d.lsn) history
      → ((last : DeltaRow)
          → a ≤ last.seq
          → same_transaction_after view_id last deltas ≡ same_after last history)
      → IsPage (suc n) history (
          order_by_seq
            (take (suc n) history ++ rest_of (suc n) view_id (take (suc n) history) deltas))
  IsPage-of n a lo [] to r xs k = unfold rest_of order_by_seq in empty-IsPage (suc n)
  IsPage-of n a lo (d ∷ ds) to (e, h, r) (x, xs) k =
      let c = cut d n ds to (subst (λ s. IsLog s d.lsn ds to) (sym e) r) in
      let xlast : c.last.xid ≡ xid_of c.last.lsn =
        All-get_last (λ q. q.xid ≡ xid_of q.lsn) d (take n ds) c.last (x, All-take _ n ds xs)
          c.is_last in
      elim (Bool-cases (leb (suc n) (length (d ∷ take n ds)))) [
        | inl full ↦
            let rest_is =
              rest_of-full (suc n) view_id (d ∷ take n ds) deltas c.last c.is_last full
              ∙ (k c.last (omega (arith, c.ends))
                  ∙ (ap (λ l. same_after c.last (d ∷ l)) (sym (take-append-drop n ds))
                      ∙ same_after-skip c.last (d ∷ take n ds) (drop n ds)
                          (omega (arith, c.ends), c.upto))) in
            subst (λ l. IsPage (suc n) (d ∷ ds) (order_by_seq ((d ∷ take n ds) ++ l))) (sym rest_is)
              (ordered-IsPage (suc n) a lo (d ∷ ds) _ to (e, h, r)
                (full-IsPage n d ds to c (ground (arith, length-take n ds)) (
                  rest xid_of c.last c.last.seq (drop n ds) to xlast (All-drop _ n ds xs)
                    (omega arith) c.goes_on)))
        | inr short ↦
            subst (λ l. IsPage (suc n) (d ∷ ds) (order_by_seq ((d ∷ take n ds) ++ l)))
              (sym (rest_of-short (suc n) view_id (d ∷ take n ds) deltas c.last c.is_last short))
              (ordered-IsPage (suc n) a lo (d ∷ ds) _ to (e, h, r)
                (subst (IsPage (suc n) (d ∷ ds)) (sym (append-nil (d ∷ take n ds)))
                  (short-IsPage n d ds (ground arith))))
      ]

-- If the deltas of a view are numbered without a gap at positions that never go back, and each position belongs to
-- one source transaction, then what `changes` selects after a cursor within the log, up to a limit of at least one
-- row, is what follows the cursor, cut where a transaction ends: the rows that are left are all of later
-- transactions, and nothing is left unless at least as many rows as the limit come.
pub select_changes-IsPage :
    (xid_of : ℕ → ℕ) (n view_id a from lo to : ℕ) (deltas : List DeltaRow)
    → IsLog from lo (of_view view_id deltas) to
    → All (λ d. d.xid ≡ xid_of d.lsn) (of_view view_id deltas)
    → from ≤ a
    → a ≤ to
    → IsPage
        (suc n)
        (later a (of_view view_id deltas))
        (select_changes (suc n) view_id (pos a) deltas)
unfolding select_changes Changes.page
select_changes-IsPage xid_of n view_id a from lo to deltas r xs h k =
    let log = of_view view_id deltas in
    let r' = later-IsLog from lo a log to h k r in
    let found =
      ap order_by_seq (deltas_after-later view_id a deltas)
      ∙ order_by_seq-IsLog a lo (later a log) to r' in
    rw found (
      IsPage-of xid_of view_id deltas n a lo (later a log) to r' (All-later _ a log xs) (λ last le.
        same_transaction_after-of_view view_id last deltas ∙ sym (same_after-later last a log le)))
