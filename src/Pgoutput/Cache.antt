-- ===== src/Pgoutput/Cache.antt =====
-- The relation cache of the decoder of src/pgoutput.rs, and the states of its grouping.
use nabla.Base.{
  ℕ, suc, zero, ◌≡◌, ◌↔◌, refl, sym, ap, ◌∙◌, subst, List, [], ◌∷◌, map, Option, none, some, true,
  false, ◌==◌, text_eq_refl, text_eq→eq, ==_refl, get_elem?, ok, arith, Bool-cases, inl, inr,
  ==_iff, Text, text_eq, ◌&&◌, if◌then◌else◌,
}
use nabla.Base.Int.{ℤ, pos, negsuc}
use nabla.Pgoutput.Types.{RelationColumn, Relation, Message, SourceTransaction}
use nabla.Pgoutput.Decoder.{
  Relations, Decoder, int_eq, same_column, keep_types, learn, push, absorb, has_incomplete,
}

int_eq→eq : (a b : ℤ) → int_eq a b ≡ true → a ≡ b
unfolding int_eq
int_eq→eq (pos a) (pos b) h = ground arith
int_eq→eq (pos a) (negsuc b) h = cc
int_eq→eq (negsuc a) (pos b) h = cc
int_eq→eq (negsuc a) (negsuc b) h = ground arith

int_eq_refl : (a : ℤ) → int_eq a a ≡ true
unfolding int_eq
int_eq_refl (pos a) = ==_refl a
int_eq_refl (negsuc a) = ==_refl a

-- A column as a message announces it, with no type name.
abbrev pub strip : RelationColumn → RelationColumn
strip c = record c { type_name = none }

abbrev pub unresolved : Relation → Relation
unresolved r = record r { columns = map strip r.columns }

same_column-strip : (c : RelationColumn) → same_column (strip c) c ≡ true
unfolding same_column
same_column-strip c = rw (text_eq_refl c.name, ==_refl c.typid, int_eq_refl c.typmod)

keep_types-strip : (cs : List RelationColumn) → keep_types (map strip cs) cs ≡ cs
unfolding keep_types
keep_types-strip [] = refl
keep_types-strip (c ∷ cs) = rw (same_column-strip c, keep_types-strip cs)

-- A relation that is announced again, unchanged, leaves the cache as it was: every type name
-- that was resolved is kept.
pub learn-unresolved :
    (known : Relations) (r : Relation) (id : ℕ)
    → known r.id ≡ some r
    → learn known (unresolved r) id ≡ known id
unfolding learn
learn-unresolved known r id h = elim (Bool-cases (id == r.id)) [
  | inl same ↦ rw (same, h, keep_types-strip) (sym (ap known ((==_iff id r.id).0 same) ∙ h))
  | inr other ↦ rw other
]

-- Two columns with the same definition.
pub record IsSameColumn (c : RelationColumn) (old : RelationColumn) : Type 0 where
  pub name : c.name ≡ old.name
  pub typid : c.typid ≡ old.typid
  pub typmod : c.typmod ≡ old.typmod

same_column-IsSameColumn : (c old : RelationColumn) → same_column c old ≡ true → IsSameColumn c old
unfolding same_column
same_column-IsSameColumn c old h = record {
  name = text_eq→eq c.name old.name (ground arith);
  typid = ground arith;
  typmod = int_eq→eq c.typmod old.typmod (ground arith);
}

all_equal :
    (s s' : Text) (n n' : ℕ) (m m' : ℤ)
    → s ≡ s'
    → n ≡ n'
    → m ≡ m'
    → (text_eq s s' && (n == n' && int_eq m m')) ≡ true
all_equal s s' n n' m m' e f g = rw (e, f, g) (rw (text_eq_refl s', ==_refl n', int_eq_refl m'))

IsSameColumn-same_column : (c old : RelationColumn) → IsSameColumn c old → same_column c old ≡ true
unfolding same_column
IsSameColumn-same_column c old s =
    all_equal c.name old.name c.typid old.typid c.typmod old.typmod s.name s.typid s.typmod

-- An old column at the position with the same definition has the type name.
abbrev pub IsTypedBy : RelationColumn → Option RelationColumn → Text → Type 0
IsTypedBy k old t =
    (o : RelationColumn) × (old ≡ some o) × IsSameColumn k o × (o.type_name ≡ some t)

-- The column as it was announced, and its type name.
abbrev pub IsKeptColumn : RelationColumn → Option RelationColumn → RelationColumn → Type 0
IsKeptColumn k old c =
    (strip c ≡ strip k) × ((t : Text) → (c.type_name ≡ some t) ↔ IsTypedBy k old t)

keep_column :
    (k old : RelationColumn)
    → k.type_name ≡ none
    → IsKeptColumn k
        (some old)
        (if same_column k old then record k { type_name = old.type_name } else k)
keep_column k old untyped = elim (Bool-cases (same_column k old)) [
  | inl same ↦
      rw same
        (refl, λ t. (λ e. (old, refl, same_column-IsSameColumn k old same, e), λ b. typed t b))
  | inr other ↦ rw other (refl, λ t. (λ e. cc, λ b. cc (same_of t b)))
]
  where
    typed : (t : Text) → IsTypedBy k (some old) t → old.type_name ≡ some t
    typed t (o, e, s, h) = cc

    same_of : (t : Text) → IsTypedBy k (some old) t → same_column k old ≡ true
    same_of t (o, e, s, h) =
        let it : old ≡ o = cc in
        subst (λ x. same_column k x ≡ true) (sym it) (IsSameColumn-same_column k o s)

-- A freshly announced column stays as it is but for its type name, and it has a type name exactly if the old column at
-- its position has that type name and the same name, type oid and type modifier.
pub keep_types-IsKeptColumn :
    (cs olds : List RelationColumn) (i : ℕ) (k : RelationColumn)
    → get_elem? cs i ≡ some k
    → k.type_name ≡ none
    → (c : RelationColumn) × (get_elem? (keep_types cs olds) i ≡ some c)
      × IsKeptColumn k (get_elem? olds i) c
unfolding keep_types
keep_types-IsKeptColumn [] olds i k e untyped = cc
keep_types-IsKeptColumn (c ∷ cs) [] i k e untyped = (k, e, (refl, λ t. (λ h. cc, λ b. cc b.1)))
keep_types-IsKeptColumn (c ∷ cs) (old ∷ olds) zero k e untyped =
    let same : c ≡ k = cc in
    let column = λ (d : RelationColumn).
      if same_column d old then record d { type_name = old.type_name } else d in
    (column k, ap (λ d. some (column d)) same, keep_column k old untyped)
keep_types-IsKeptColumn (c ∷ cs) (old ∷ olds) (suc i) k e untyped =
    keep_types-IsKeptColumn cs olds i k e untyped

-- When a message is accepted: BEGIN outside a transaction, COMMIT and row changes inside one.
abbrev pub Accepts : Message → Decoder → Type 0
Accepts (Message.begin _ _) d = has_incomplete d ≡ false
Accepts (Message.commit _ _) d = has_incomplete d ≡ true
Accepts (Message.relation _) d = Unit
Accepts (Message.insert _ _) d = has_incomplete d ≡ true
Accepts (Message.update _ _ _) d = has_incomplete d ≡ true
Accepts (Message.delete _ _ _) d = has_incomplete d ≡ true
Accepts (Message.truncate _) d = has_incomplete d ≡ true
Accepts (Message.ignored _) d = Unit

module _ (known : Relations) (done : List SourceTransaction) where
  decoder : Option SourceTransaction → Decoder
  decoder current = record { relations = known; current = current; complete = done }

  Accepts-fields :
      (m : Message) (o : Option SourceTransaction)
      → ((d' : Decoder) × (absorb m (decoder o) ≡ ok d')) ↔ Accepts m (decoder o)
  unfolding decoder absorb push has_incomplete
  Accepts-fields (Message.begin lsn xid) none = (λ p. refl, λ h. (_, refl))
  Accepts-fields (Message.begin lsn xid) (some tx) = (λ p. cc p.1, λ h. cc)
  Accepts-fields (Message.relation r) o = (λ p. tt, λ h. (_, refl))
  Accepts-fields (Message.ignored kind) o = (λ p. tt, λ h. (_, refl))
  Accepts-fields (Message.commit lsn end_lsn) none = (λ p. cc p.1, λ h. cc)
  Accepts-fields (Message.commit lsn end_lsn) (some tx) = (λ p. refl, λ h. (_, refl))
  Accepts-fields (Message.insert relid new) none = (λ p. cc p.1, λ h. cc)
  Accepts-fields (Message.insert relid new) (some tx) = (λ p. refl, λ h. (_, refl))
  Accepts-fields (Message.update relid old new) none = (λ p. cc p.1, λ h. cc)
  Accepts-fields (Message.update relid old new) (some tx) = (λ p. refl, λ h. (_, refl))
  Accepts-fields (Message.delete relid kind old) none = (λ p. cc p.1, λ h. cc)
  Accepts-fields (Message.delete relid kind old) (some tx) = (λ p. refl, λ h. (_, refl))
  Accepts-fields (Message.truncate relids) none = (λ p. cc p.1, λ h. cc)
  Accepts-fields (Message.truncate relids) (some tx) = (λ p. refl, λ h. (_, refl))

-- BEGIN is accepted exactly outside a transaction, COMMIT and row changes exactly inside one, and
-- every other message always; what is not accepted is an error.
pub absorb-Accepts :
    (m : Message) (d : Decoder) → ((d' : Decoder) × (absorb m d ≡ ok d')) ↔ Accepts m d
absorb-Accepts m d = unfold decoder in Accepts-fields d.relations d.complete m d.current
