-- ===== src/Definition/Types.antt =====
-- The data types of src/definition.rs: the shape of a view and its specification.
use nabla.Base.{ℕ, List, Option, Bool, Text, ltb, length, codes}

pub data Shape : Type 0 where
  projection : Shape
  aggregate : Shape

pub record OutputColumn : Type 0 where
  pub expr : Text
  pub alias : Text

pub record SumSpec : Type 0 where
  pub expr : Text
  pub alias : Text
  pub counter : Text

pub record BaseRelation : Type 0 where
  pub oid : ℕ
  pub rti : ℕ
  pub alias : Text
  pub qualified : Text
  pub pk_columns : List Text
  pub columns : List Text
  pub column_types : List Text
  pub used_columns : List Text
  pub used_column_types : List Text
  pub join_keys : List Text

pub record ViewSpec : Type 0 where
  pub shape : Shape
  pub base_table : Text
  pub base_relname : Text
  pub predicate : Option Text
  pub columns : List OutputColumn
  pub pk_columns : List Text
  pub pk_view_columns : List Text
  pub count_alias : Option Text
  pub hidden_count : Bool
  pub counts : List OutputColumn
  pub sums : List SumSpec
  pub populate_sql : Text
  pub relations : List BaseRelation
  pub select_list : Text
  pub group_by : Option Text
  pub visible_columns : List Text
  pub hidden_columns : List Text

-- Facts of a base table in the catalog.
pub record BaseTable : Type 0 where
  pub oid : ℕ
  pub qualified : Text
  pub replident : Text
  pub pk_columns : List Text

abbrev pub hidden_count_column : Text
hidden_count_column = codes "_nabla_n"

abbrev pub hidden_sum_counter_prefix : Text
hidden_sum_counter_prefix = codes "_nabla_nn_"

abbrev pub hidden_pk_prefix : Text
hidden_pk_prefix = codes "_nabla_pk"

unfoldable pub is_join : ViewSpec → Bool
is_join spec = ltb 1 (length spec.relations)
