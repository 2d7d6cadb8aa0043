-- ===== src/Shadow/Columns.antt =====
-- The column sets of src/shadow.rs, and the texts of its statements.
use nabla.Base.{
  ℕ, zero, suc, List, [], ◌∷◌, map, Option, none, some, Bool, true, false, ◌||◌, Text, text_eq,
  codes, concat, decimal, join, length, position, ltb, if◌then◌else◌,
}
use nabla.Base.Sets.{member}
use nabla.Base.Utf8.{to_utf8}
use nabla.Definition.Types.{BaseRelation}

-- `contains` of a vector or a set of names.
abbrev pub has : Text → List Text → Bool
has name names = member text_eq name names

-- The names and the types of the columns in a set: the primary key and what is needed, of what the base has.
unfoldable pub active_set : BaseRelation → List Text → List (Text × Text) → List Text × List Text
active_set rel needed [] = ([], [])
active_set rel needed ((name, ty) ∷ base) =
    let rest = active_set rel needed base in
    if has name rel.pk_columns || has name needed then (name ∷ rest.0, ty ∷ rest.1) else rest

-- `iter().find(|(n, _)| n == name)`: the type of the column.
unfoldable pub find_type : Text → List (Text × Text) → Option Text
find_type name [] = none
find_type name ((n, ty) ∷ cols) =
    let rest = find_type name cols in if text_eq n name then some ty else rest

-- `pairs.sort_by_key(position in base)`, which is stable; a column that the base lacks comes last.
unfoldable pub comes_before : Option ℕ → Option ℕ → Bool
comes_before none b = false
comes_before (some a) none = true
comes_before (some a) (some b) = ltb a b

unfoldable pub place_pair :
    List (Text × Text) → Text × Text → List (Text × Text) → List (Text × Text)
place_pair base p [] = p ∷ []
place_pair base p (q ∷ qs) =
    let key = λ (r : Text × Text). position (λ c. text_eq c.0 r.0) base in
    if comes_before (key q) (key p) then q ∷ place_pair base p qs else p ∷ q ∷ qs

unfoldable pub sort_pairs : List (Text × Text) → List (Text × Text) → List (Text × Text)
sort_pairs base [] = []
sort_pairs base (p ∷ ps) = place_pair base p (sort_pairs base ps)

module _ (quote_identifier : Text → Text) where
  unfoldable pub quoted_list : List Text → Text
  quoted_list cols = join (codes ", ") (map quote_identifier cols)

  unfoldable pub pk_match : List Text → Text
  pk_match pk = join (codes " AND ") (
      map (λ c. concat (codes "s." ∷ quote_identifier c ∷ codes " = b." ∷ quote_identifier c ∷ []))
        pk)

-- `name.pop()`.
unfoldable pub pop : Text → Text
pop [] = []
pop (c ∷ []) = []
pop (c ∷ d ∷ cs) = c ∷ pop (d ∷ cs)

-- `while name.len() > 63 { name.pop(); }`, with the length in bytes.
unfoldable pub shorten : ℕ → Text → Text
shorten zero name = name
shorten (suc fuel) name =
    let rest = shorten fuel (pop name) in if ltb 63 (length (to_utf8 name)) then rest else name

-- Each round drops a character.
unfoldable pub index_name : ℕ → Text → Text
index_name oid key =
    let name = concat (codes "t" ∷ decimal oid ∷ codes "_" ∷ key ∷ codes "_idx" ∷ []) in
    shorten (length name) name
