-- ===== src/Api/Cutting.antt =====
-- A log cut at a row, and the rest of the transaction of that row (src/api.rs, `changes`).
use nabla.Base.{
  ℕ, zero, suc, ◌+◌, ◌≤◌, ◌<◌, ◌≡◌, refl, ap, sym, subst, inl, inr, List, [], ◌∷◌, ◌++◌, All, some,
  true, false, ◌&&◌, ltb, ◌==◌, ==_iff, Bool-cases, length, take, drop, get_last?, arith,
}
use mathlib.Core.Option.{some_inj}
use nabla.Worker.Types.{DeltaRow}
use nabla.Api.Ordering.{later, IsLog, same_after, same_after-none}

-- The first `n` rows of a log behind the row `d`, up to the row `last`.
pub record IsCut (d : DeltaRow) (n : ℕ) (ds : List DeltaRow) (to : ℕ) : Type 0 where
  pub last : DeltaRow
  pub is_last : get_last? (d ∷ take n ds) ≡ some last
  pub ends : last.seq ≡ d.seq + length (take n ds)
  pub above : d.lsn ≤ last.lsn
  pub below : All (λ e. e.lsn ≤ last.lsn) (take n ds)
  pub upto : All (λ e. e.seq ≤ last.seq) (take n ds)
  pub goes_on : IsLog last.seq last.lsn (drop n ds) to

pub cut :
    (d : DeltaRow) (n : ℕ) (ds : List DeltaRow) (to : ℕ) → IsLog d.seq d.lsn ds to → IsCut d n ds to
cut d zero ds to r = record {
  last = d;
  is_last = refl;
  ends = omega arith;
  above = omega arith;
  below = tt;
  upto = tt;
  goes_on = r;
}
cut d (suc n) [] to r = record {
  last = d;
  is_last = refl;
  ends = omega arith;
  above = omega arith;
  below = tt;
  upto = tt;
  goes_on = r;
}
cut d (suc n) (e ∷ ds) to (p, h, r) =
    let c = cut e n ds to (subst (λ s. IsLog s e.lsn ds to) (sym p) r) in
    record {
      last = c.last;
      is_last = c.is_last;
      ends = omega (arith, c.ends);
      above = omega (arith, c.above);
      below = (c.above, c.below);
      upto = (omega (arith, c.ends), c.upto);
      goes_on = c.goes_on;
    }

-- Every row stands before every row of the second list.
abbrev pub AreBefore : List DeltaRow → List DeltaRow → Type 0
AreBefore ds es = All (λ d. All (λ e. d.lsn < e.lsn) es) ds

-- The rows of the transaction of `last` that stand first in what follows it.
pub record IsRest (last : DeltaRow) (from : ℕ) (ds : List DeltaRow) (to : ℕ) : Type 0 where
  pub more : List DeltaRow
  pub splits : ds ≡ same_after last ds ++ more
  pub same : All (λ e. e.lsn ≡ last.lsn) (same_after last ds)
  pub apart : All (λ e. last.lsn < e.lsn) more

pub All-above :
    (lsn from lo : ℕ) (ds : List DeltaRow) (to : ℕ)
    → lsn < lo
    → IsLog from lo ds to
    → All (λ e. lsn < e.lsn) ds
All-above lsn from lo [] to h r = tt
All-above lsn from lo (d ∷ ds) to h (e, k, r) =
    (omega arith, All-above lsn (suc from) d.lsn ds to (omega arith) r)

no_rest :
    (last : DeltaRow) (from : ℕ) (ds : List DeltaRow) (to : ℕ)
    → same_after last ds ≡ []
    → All (λ e. last.lsn < e.lsn) ds
    → IsRest last from ds to
no_rest last from ds to e h = record {
  more = ds;
  splits = rw e refl;
  same = subst (All (λ d. d.lsn ≡ last.lsn)) (sym e) tt;
  apart = h;
}

module _ (xid_of : ℕ → ℕ) where
  pub rest :
      (last : DeltaRow) (from : ℕ) (ds : List DeltaRow) (to : ℕ)
      → last.xid ≡ xid_of last.lsn
      → All (λ d. d.xid ≡ xid_of d.lsn) ds
      → last.seq ≤ from
      → IsLog from last.lsn ds to
      → IsRest last from ds to
  unfolding same_after
  rest last from [] to x xs h r = record { more = []; splits = refl; same = tt; apart = tt }
  rest last from (d ∷ ds) to x (y, ys) h (e, k, r) = elim (Bool-cases (d.lsn == last.lsn)) [
    | inl t ↦
        let at : d.lsn ≡ last.lsn = (==_iff d.lsn last.lsn).0 t in
        let c =
          rest last (suc from) ds to x ys (omega arith)
            (subst (λ l. IsLog (suc from) l ds to) at r) in
        let u : (ltb last.seq d.seq && (d.lsn == last.lsn && d.xid == last.xid)) ≡ true =
          ground (arith, ap xid_of at) in
        record {
          more = c.more;
          splits = rw u (ap (λ l. d ∷ l) c.splits);
          same = rw u (at, c.same);
          apart = c.apart;
        }
    | inr t ↦
        let gap : last.lsn < d.lsn = ground arith in
        no_rest last from (d ∷ ds) to
          (same_after-none last from d.lsn (d ∷ ds) to gap (e, omega arith, r))
          (gap, All-above last.lsn (suc from) d.lsn ds to gap r)
  ]

-- The rows of the page itself are no later ones.
pub same_after-skip :
    (last : DeltaRow) (ds es : List DeltaRow)
    → All (λ d. d.seq ≤ last.seq) ds
    → same_after last (ds ++ es) ≡ same_after last es
unfolding same_after
same_after-skip last [] es h = refl
same_after-skip last (d ∷ ds) es (h, hs) =
    let t : ltb last.seq d.seq ≡ false = ground arith in rw t (same_after-skip last ds es hs)

pub IsLog-prefix :
    (from lo : ℕ) (xs ys : List DeltaRow) (to : ℕ)
    → IsLog from lo (xs ++ ys) to
    → (mid : ℕ) × IsLog from lo xs mid
IsLog-prefix from lo [] ys to r = (from, refl)
IsLog-prefix from lo (x ∷ xs) ys to (e, h, r) =
    let (mid, k) = IsLog-prefix (suc from) x.lsn xs ys to r in (mid, (e, h, k))

pub All-drop : (P : DeltaRow → Type 0) (n : ℕ) (ds : List DeltaRow) → All P ds → All P (drop n ds)
All-drop P zero ds h = h
All-drop P (suc n) [] h = tt
All-drop P (suc n) (d ∷ ds) (h, hs) = All-drop P n ds hs

pub take_short : (n : ℕ) (ds : List DeltaRow) → length (take n ds) < n → drop n ds ≡ []
take_short zero ds h = absurd (omega arith)
take_short (suc n) [] h = refl
take_short (suc n) (d ∷ ds) h = take_short n ds (omega arith)

pub All-later : (P : DeltaRow → Type 0) (a : ℕ) (ds : List DeltaRow) → All P ds → All P (later a ds)
unfolding later
All-later P a [] h = tt
All-later P a (d ∷ ds) (h, hs) = elim (Bool-cases (ltb a d.seq)) [
  | inl e ↦ rw e (h, All-later P a ds hs)
  | inr e ↦ rw e (All-later P a ds hs)
]

pub AreBefore-append :
    (ds es more : List DeltaRow) → AreBefore ds more → AreBefore es more → AreBefore (ds ++ es) more
AreBefore-append [] es more h k = k
AreBefore-append (d ∷ ds) es more (h, hs) k = (h, AreBefore-append ds es more hs k)

-- Rows up to a position stand before rows above it.
pub before :
    (lsn : ℕ) (ds more : List DeltaRow)
    → All (λ d. d.lsn ≤ lsn) ds
    → All (λ e. lsn < e.lsn) more
    → AreBefore ds more
before lsn [] more h k = tt
before lsn (d ∷ ds) more (h, hs) k = (lift more k, before lsn ds more hs k)
  where
    lift : (es : List DeltaRow) → All (λ e. lsn < e.lsn) es → All (λ e. d.lsn < e.lsn) es
    lift [] k' = tt
    lift (e ∷ es) (p, ps) = (omega arith, lift es ps)

pub eq_le : (lsn : ℕ) (ds : List DeltaRow) → All (λ d. d.lsn ≡ lsn) ds → All (λ d. d.lsn ≤ lsn) ds
eq_le lsn [] h = tt
eq_le lsn (d ∷ ds) (h, hs) = (omega arith, eq_le lsn ds hs)

pub All-take : (P : DeltaRow → Type 0) (n : ℕ) (ds : List DeltaRow) → All P ds → All P (take n ds)
All-take P zero ds h = tt
All-take P (suc n) [] h = tt
All-take P (suc n) (d ∷ ds) (h, hs) = (h, All-take P n ds hs)

pub All-get_last :
    (P : DeltaRow → Type 0) (d : DeltaRow) (ds : List DeltaRow) (last : DeltaRow)
    → All P (d ∷ ds)
    → get_last? (d ∷ ds) ≡ some last
    → P last
All-get_last P d [] last (h, hs) e = subst P (some_inj.0 e) h
All-get_last P d (d' ∷ ds) last (h, hs) e = All-get_last P d' ds last hs e
