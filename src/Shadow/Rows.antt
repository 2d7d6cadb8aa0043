-- ===== src/Shadow/Rows.antt =====
-- The rows of `nabla.shadows` that src/shadow.rs finds, updates and inserts.
use nabla.Base.{
  ℕ, ◌≡◌, ◌⊎◌, inl, inr, refl, sym, ◌∙◌, subst, List, [], ◌∷◌, ◌++◌, map, All, none, some,
  Bool-cases, true, false, length, if◌then◌else◌, ◌==◌,
}
use nabla.Worker.Types.{ShadowRow}
use nabla.Shadow.Tables.{existing}
use nabla.Shadow.Wanted.{}

-- The row has as many types as columns.
abbrev pub IsParallel : ShadowRow → Type 0
IsParallel r = length r.columns ≡ length r.column_types

-- Each row of the shadow has a property.
abbrev pub OfShadow : ℕ → (ShadowRow → Type 0) → List ShadowRow → Type 0
OfShadow oid P rows = All (λ r. ((r.relid == oid) ≡ false) ⊎ P r) rows

pub existing-OfShadow :
    (oid : ℕ) (P : ShadowRow → Type 0) (rows : List ShadowRow) (r : ShadowRow)
    → OfShadow oid P rows
    → existing oid rows ≡ some r
    → P r
unfolding existing
existing-OfShadow oid P [] r h e = cc
existing-OfShadow oid P (q ∷ rows) r (h, hs) e = elim (Bool-cases (q.relid == oid)) [
  | inl t ↦
      let k : existing oid (q ∷ rows) ≡ some q = rw (t, existing) refl in
      let same : q ≡ r = cc in elim h [ inl f ↦ absurd_test (sym t ∙ f) | inr p ↦ subst P same p ]
  | inr f ↦
      existing-OfShadow oid P rows r hs
        (let k : existing oid (q ∷ rows) ≡ existing oid rows = rw (f, existing) refl in sym k ∙ e)
]
  where
    absurd_test : true ≡ false → P r
    absurd_test k = cc

pub update-OfShadow :
    (oid : ℕ) (P : ShadowRow → Type 0) (f : ShadowRow → ShadowRow) (rows : List ShadowRow)
    → ((r : ShadowRow) → (f r).relid ≡ r.relid)
    → ((r : ShadowRow) → P r → P (f r))
    → OfShadow oid P rows
    → OfShadow oid P (map (λ r. if r.relid == oid then f r else r) rows)
update-OfShadow oid P f [] same good h = tt
update-OfShadow oid P f (r ∷ rows) same good (h, hs) =
    (one (Bool-cases (r.relid == oid)) h, update-OfShadow oid P f rows same good hs)
  where
    one :
        ((r.relid == oid) ≡ true) ⊎ ((r.relid == oid) ≡ false)
        → ((r.relid == oid) ≡ false) ⊎ P r
        → (((if r.relid == oid then f r else r).relid == oid) ≡ false)
          ⊎ P (if r.relid == oid then f r else r)
    one (inl t) (inl k) = rw t (inl (rw (same r) k))
    one (inl t) (inr k) = rw t (inr (good r k))
    one (inr e) k' = rw e k'

pub made-OfShadow :
    (oid : ℕ) (P : ShadowRow → Type 0) (f : ShadowRow → ShadowRow) (rows : List ShadowRow)
    → ((r : ShadowRow) → P (f r))
    → OfShadow oid P (map (λ r. if r.relid == oid then f r else r) rows)
made-OfShadow oid P f [] good = tt
made-OfShadow oid P f (r ∷ rows) good =
    (one (Bool-cases (r.relid == oid)), made-OfShadow oid P f rows good)
  where
    one :
        ((r.relid == oid) ≡ true) ⊎ ((r.relid == oid) ≡ false)
        → (((if r.relid == oid then f r else r).relid == oid) ≡ false)
          ⊎ P (if r.relid == oid then f r else r)
    one (inl t) = rw t (inr (good r))
    one (inr e) = rw e (inl e)

-- A shadow that has no row gets one.
pub inserted-OfShadow :
    (oid : ℕ) (P : ShadowRow → Type 0) (new : ShadowRow) (rows : List ShadowRow)
    → existing oid rows ≡ none
    → P new
    → OfShadow oid P (rows ++ new ∷ [])
unfolding existing
inserted-OfShadow oid P new [] e p = (inr p, tt)
inserted-OfShadow oid P new (r ∷ rows) e p = elim (Bool-cases (r.relid == oid)) [
  | inl t ↦ let k : existing oid (r ∷ rows) ≡ some r = rw (t, existing) refl in cc
  | inr f ↦ (
    inl f,
    inserted-OfShadow oid P new rows
        (let k : existing oid (r ∷ rows) ≡ existing oid rows = rw (f, existing) refl in sym k ∙ e)
        p,
  )
]
