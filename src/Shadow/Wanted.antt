-- ===== src/Shadow/Wanted.antt =====
-- The column sets of src/shadow.rs: which columns `active_set` and the sorting of `extend` hold.
use nabla.Base.{
  zip, suc, ◌≡◌, inl, inr, refl, sym, ap, ◌∙◌, subst, List, [], ◌∷◌, ◌++◌, map, All, Bool,
  Bool-cases, true, false, not, ◌||◌, Text, text_eq, text_eq_refl, length, position,
}
use nabla.Base.Sets.{member}
use nabla.Definition.Types.{BaseRelation}
use nabla.Shadow.Columns.{has, active_set, comes_before, place_pair, sort_pairs}

abbrev pub Columns : Type 0
Columns = List (Text × Text)

abbrev pub names_of : Columns → List Text
names_of pairs = map {A = Text × Text} (λ p. p.0) pairs

abbrev pub types_of : Columns → List Text
types_of pairs = map {A = Text × Text} (λ p. p.1) pairs

abbrev pub Has : Text → List Text → Type 0
Has name names = has name names ≡ true

-- The columns of the base that are needed, and those of the primary key, are among the names.
abbrev pub Covers : BaseRelation → List Text → Columns → List Text → Type 0
Covers rel needed base names =
    All (λ c. (has c.0 rel.pk_columns || has c.0 needed) ≡ true → Has c.0 names) base

pub or_right : (a b : Bool) → b ≡ true → (a || b) ≡ true
or_right true b e = refl
or_right false b e = e

pub or_swap : (a b : Bool) → (a || b) ≡ (b || a)
or_swap true true = refl
or_swap true false = refl
or_swap false true = refl
or_swap false false = refl

pub Has-cons : (name other : Text) (names : List Text) → Has name names → Has name (other ∷ names)
unfolding member
Has-cons name other names h = or_right (text_eq name other) (has name names) h

pub Has-first : (name : Text) (names : List Text) → Has name (name ∷ names)
unfolding member
Has-first name names = rw (text_eq_refl name) refl

pub Covers-map :
    (rel : BaseRelation) (needed : List Text) (base : Columns) (xs ys : List Text)
    → ((name : Text) → Has name xs → Has name ys)
    → Covers rel needed base xs
    → Covers rel needed base ys
Covers-map rel needed [] xs ys f h = tt
Covers-map rel needed (c ∷ base) xs ys f (h, hs) =
    (λ w. f c.0 (h w), Covers-map rel needed base xs ys f hs)

-- The active set covers what is wanted, with as many types as names.
pub active_set-Covers :
    (rel : BaseRelation) (needed : List Text) (base : Columns)
    → Covers rel needed base (active_set rel needed base).0
      × (length (active_set rel needed base).0 ≡ length (active_set rel needed base).1)
unfolding active_set
active_set-Covers rel needed [] = (tt, refl)
active_set-Covers rel needed ((name, ty) ∷ base) =
    let rest = active_set rel needed base in
    let (covers, size) = active_set-Covers rel needed base in
    let whole = active_set rel needed ((name, ty) ∷ base) in
    elim (Bool-cases (has name rel.pk_columns || has name needed)) [
      | inl t ↦
          let e : whole ≡ (name ∷ rest.0, ty ∷ rest.1) = rw (t, active_set) refl in
          subst
            (λ (a : List Text × List Text).
              Covers rel needed ((name, ty) ∷ base) a.0 × (length a.0 ≡ length a.1))
            (sym e)
            (
              (
                λ w. Has-first name rest.0,
                Covers-map rel needed base rest.0 (name ∷ rest.0) (λ n h. Has-cons n name rest.0 h)
                    covers,
              ),
              ap suc size,
            )
      | inr f ↦
          let e : whole ≡ rest = rw (f, active_set) refl in
          subst
            (λ (a : List Text × List Text).
              Covers rel needed ((name, ty) ∷ base) a.0 × (length a.0 ≡ length a.1))
            (sym e) ((λ w. cc, covers), size)
    ]

-- Sorting keeps the names.
Has-place_pair :
    (base : Columns) (p : Text × Text) (ps : Columns) (name : Text)
    → Has name (p.0 ∷ names_of ps)
    → Has name (names_of (place_pair base p ps))
unfolding place_pair member
Has-place_pair base p [] name h = h
Has-place_pair base p (q ∷ qs) name h =
    elim (Bool-cases (
      comes_before (position (λ (c : Text × Text). text_eq c.0 q.0) base)
        (position (λ (c : Text × Text). text_eq c.0 p.0) base))) [
          | inr f ↦ rw f h
          | inl t ↦ rw t (elim (Bool-cases (text_eq name q.0)) [
            | inl e ↦ rw e refl
            | inr e ↦ rw e (Has-place_pair base p qs name (rw e at h))
          ])
        ]

Has-sort_pairs :
    (base ps : Columns) (name : Text)
    → Has name (names_of ps)
    → Has name (names_of (sort_pairs base ps))
unfolding sort_pairs member
Has-sort_pairs base [] name h = h
Has-sort_pairs base (p ∷ ps) name h =
    Has-place_pair base p (sort_pairs base ps) name (elim (Bool-cases (text_eq name p.0)) [
      | inl t ↦ rw t refl
      | inr f ↦ rw f (Has-sort_pairs base ps name (rw f at h))
    ])

names_of-zip :
    (names types : List Text) → length names ≡ length types → names_of (zip names types) ≡ names
unfolding zip
names_of-zip [] types e = refl
names_of-zip (n ∷ names) [] e = cc
names_of-zip (n ∷ names) (t ∷ types) e =
    ap (λ l. n ∷ l) (names_of-zip names types (let k : length names ≡ length types = cc in k))

pub length-sides : (ps : Columns) → length (names_of ps) ≡ length (types_of ps)
length-sides [] = refl
length-sides (p ∷ ps) = ap suc (length-sides ps)

pub Has-sorted :
    (base : Columns) (names types : List Text) (name : Text)
    → length names ≡ length types
    → Has name names
    → Has name (names_of (sort_pairs base (zip names types)))
Has-sorted base names types name e h =
    Has-sort_pairs base (zip names types) name
      (subst (Has name) (sym (names_of-zip names types e)) h)

pub Has-last : (name : Text) (names : List Text) → Has name (names ++ name ∷ [])
unfolding member
Has-last name [] = Has-first name []
Has-last name (n ∷ names) = Has-cons name n (names ++ name ∷ []) (Has-last name names)

pub Has-append :
    (name other : Text) (names : List Text) → Has name names → Has name (names ++ other ∷ [])
unfolding member
Has-append name other [] h = cc
Has-append name other (n ∷ names) h = elim (Bool-cases (text_eq name n)) [
  | inl e ↦ rw e refl
  | inr e ↦ rw e (Has-append name other names (rw e at h))
]

-- What `extend` passes over is there already, or not wanted.
pub passed_over :
    (rel : BaseRelation) (needed : List Text) (name : Text) (names : List Text)
    → (has name names || not (has name needed || has name rel.pk_columns)) ≡ true
    → (has name rel.pk_columns || has name needed) ≡ true
    → Has name names
passed_over rel needed name names skip wanted = elim (Bool-cases (has name names)) [
  | inl h ↦ h
  | inr h ↦
      let w : (has name needed || has name rel.pk_columns) ≡ true =
        or_swap (has name needed) (has name rel.pk_columns) ∙ wanted in
      absurd_test (rw (h, w) at skip)
]
  where
    absurd_test : false ≡ true → Has name names
    absurd_test k = cc
