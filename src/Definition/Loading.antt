-- ===== src/Definition/Loading.antt =====
-- `load_relations` of src/definition.rs: every column of a base relation has a type.
use nabla.Base.{ℕ, suc, List, [], ◌∷◌, All, Bool, ok, Holds, Holds-then, Holds-bind}
use nabla.Definition.Tree.{RangeTblEntry}
use nabla.Definition.Walk.{refuse}
use nabla.Definition.Catalog.{
  Backend, check_relation_kind, lookup_base, load_relation, load_relations,
}
use nabla.Definition.Used.{IsTyped, length-map-map}

module _ {Raw : Type 0} (backend : Backend Raw) where
  load_relation-IsTyped :
      (is_join : Bool) (i : ℕ) (seen_oids : List ℕ) (e : ℕ × RangeTblEntry)
      → Holds IsTyped (load_relation backend is_join i seen_oids e)
  unfolding load_relation
  load_relation-IsTyped is_join i seen_oids (rt_index, rte) =
      Holds-then IsTyped (check_relation_kind backend rte _ _) _ (λ _.
        Holds-then IsTyped (refuse _ _) _ (λ _.
          Holds-then IsTyped (lookup_base backend rte.relid _ _) _
            (λ found. Holds-then IsTyped (refuse _ _) _ (λ _. length-map-map _ _ found.2))))

  pub load_relations-AreTyped :
      (is_join : Bool) (i : ℕ) (seen_oids : List ℕ) (entries : List (ℕ × RangeTblEntry))
      → Holds (All IsTyped) (load_relations backend is_join i seen_oids entries)
  unfolding load_relations
  load_relations-AreTyped is_join i seen_oids [] = tt
  load_relations-AreTyped is_join i seen_oids (e ∷ entries) =
      Holds-bind IsTyped (All IsTyped) (load_relation backend is_join i seen_oids e) _
        (load_relation-IsTyped is_join i seen_oids e)
        (λ l typed.
          Holds-bind (All IsTyped) (All IsTyped)
            (load_relations backend is_join (suc i) (e.1.relid ∷ seen_oids) entries)
            (λ rest. ok (l ∷ rest))
            (load_relations-AreTyped is_join (suc i) (e.1.relid ∷ seen_oids) entries)
            (λ rest all_typed. (typed, all_typed)))
