-- ===== src/Sql/Columns.antt =====
-- sql.go: the columns that a query selects and the variables that they are scanned into. A variable
-- that a call is given a pointer to is a field of the memory that the call gives back.
pub mod Scan
pub mod Read
pub mod Rows
use embedspicedb.Common.{
  ℕ, ◌+◌, ◌==◌, Bool, true, false, not, ◌&&◌, ◌||◌, Option, none, some, List, [], ◌∷◌, ◌++◌,
  if◌then◌else◌,
}
use embedspicedb.Common.Str.{Str, bytes}
use embedspicedb.Sql.{
  SchemaInformation, ColumnOptimizationOption, optimization_none, optimization_unknown,
  static_values, Condition, eq_null, col_after_now, or_of, ColumnTrackerMap, static_value,
  has_static_value, where_added, SelectBuilder, SchemaQueryFilterer,
}

pub record RelationshipsQueryBuilder (E : Type 0) : Type 0 where
  pub schema : SchemaInformation
  pub skip_caveats : Bool
  pub skip_expiration : Bool
  pub filtering_values : ColumnTrackerMap
  pub base_query_builder : SchemaQueryFilterer E

abbrev pub is_none_option : ColumnOptimizationOption → Bool
is_none_option optimization_none = true
is_none_option optimization_unknown = false
is_none_option static_values = false

-- The variables of the fields that each relationship has, and what else a column is scanned into.
pub data Field : Type 0 where
  resource_object_type resource_object_id resource_relation : Field
  subject_object_type subject_object_id subject_relation : Field

pub data Slot : Type 0 where
  field : Field → Slot
  caveat_name caveat_ctx expiration : Slot
  integrity_key_id integrity_hash timestamp unused : Slot

abbrev pub field_number : Field → ℕ
field_number resource_object_type = 0
field_number resource_object_id = 1
field_number resource_relation = 2
field_number subject_object_type = 3
field_number subject_object_id = 4
field_number subject_relation = 5

abbrev pub Vars : Type 0
Vars = Field → Str

abbrev pub set_field : Field → Str → Vars → Vars
set_field f v vars g = if field_number f == field_number g then v else vars g

abbrev pub column_of : SchemaInformation → Field → Str
column_of schema resource_object_type = schema.col_namespace
column_of schema resource_object_id = schema.col_object_id
column_of schema resource_relation = schema.col_relation
column_of schema subject_object_type = schema.col_userset_namespace
column_of schema subject_object_id = schema.col_userset_object_id
column_of schema subject_relation = schema.col_userset_relation

-- The calls for the six columns, in their order.
abbrev pub six_fields : List Field
six_fields =
    resource_object_type ∷ resource_object_id ∷ resource_relation ∷ subject_object_type
    ∷ subject_object_id ∷ subject_relation ∷ []

abbrev pub or_one : {A : Type 0} → A → List A → List A
or_one one [] = one ∷ []
or_one one (x ∷ xs) = x ∷ xs

abbrev pub add_column : Field → Vars × List Slot → Vars × List Slot
add_column f (vars, slots) = (vars, slots ++ field f ∷ [])

-- The parts for the caveats, the expiration and the integrity.
abbrev pub more_names : SchemaInformation → Bool → Bool → Bool → List Str
more_names si c e i =
    (if c then si.col_caveat_name ∷ si.col_caveat_context ∷ [] else [])
    ++ ((if e then si.col_expiration ∷ [] else [])
        ++ (if i
            then si.col_integrity_key_id ∷ si.col_integrity_hash ∷ si.col_integrity_timestamp ∷ []
            else []))

abbrev pub more_slots : Bool → Bool → Bool → List Slot
more_slots c e i =
    (if c then caveat_name ∷ caveat_ctx ∷ [] else [])
    ++ ((if e then expiration ∷ [] else [])
        ++ (if i then integrity_key_id ∷ integrity_hash ∷ timestamp ∷ [] else []))

module _ {E : Type 0} where
  -- queryBuilderWithMaybeExpirationFilter
  unfoldable pub with_maybe_expiration_filter : Bool → SchemaQueryFilterer E → SelectBuilder
  with_maybe_expiration_filter skip_expiration q =
      if q.schema.expiration_disabled || skip_expiration
      then q.query_builder
      else where_added
          (or_of (
            eq_null q.schema.col_expiration
            ∷ col_after_now q.schema.col_expiration q.schema.now_function
            ∷ []))
          q.query_builder

  abbrev pub with_caveats : RelationshipsQueryBuilder E → Bool
  with_caveats b = not b.skip_caveats || is_none_option b.schema.column_optimization

  abbrev pub with_expiration : RelationshipsQueryBuilder E → Bool
  with_expiration b = not b.skip_expiration && not b.schema.expiration_disabled

  unfoldable pub column_count : RelationshipsQueryBuilder E → ℕ
  column_count b =
      6
      + (if with_caveats b then 2 else 0)
      + (if with_expiration b then 1 else 0)
      + (if b.schema.integrity_enabled then 3 else 0)

  abbrev pub check_column : RelationshipsQueryBuilder E → List Str → Str → List Str
  check_column b columns name =
      if is_none_option b.schema.column_optimization
      then columns ++ name ∷ []
      else if not (has_static_value b.filtering_values name)
      then columns ++ name ∷ []
      else columns

  abbrev pub check_columns : RelationshipsQueryBuilder E → List Field → List Str → List Str
  check_columns b [] columns = columns
  check_columns b (f ∷ fs) columns =
      check_columns b fs (check_column b columns (column_of b.schema f))

  -- The names in the SELECT.
  unfoldable pub column_names_to_select : RelationshipsQueryBuilder E → List Str
  column_names_to_select b = or_one (bytes "1") (
      check_columns b six_fields []
      ++ more_names b.schema (with_caveats b) (with_expiration b) b.schema.integrity_enabled)

  -- SelectSQL, up to the text that squirrel makes of the query.
  unfoldable pub select_sql : RelationshipsQueryBuilder E → SelectBuilder
  select_sql b =
      let query = with_maybe_expiration_filter b.skip_expiration b.base_query_builder in
      record query { columns = query.columns ++ column_names_to_select b }

  abbrev pub static_value_or_add_column :
      RelationshipsQueryBuilder E → Vars × List Slot → Field → Vars × List Slot
  static_value_or_add_column b (vars, slots) f =
      if is_none_option b.schema.column_optimization
      then add_column f (vars, slots)
      else elim (static_value b.filtering_values (column_of b.schema f)) [
        | none ↦ add_column f (vars, slots)
        | some v ↦ (set_field f v vars, slots)
      ]

  abbrev pub static_values_or_add_columns :
      RelationshipsQueryBuilder E → List Field → Vars × List Slot → Vars × List Slot
  static_values_or_add_columns b [] s = s
  static_values_or_add_columns b (f ∷ fs) s =
      static_values_or_add_columns b fs (static_value_or_add_column b s f)

  -- ColumnsToSelect
  unfoldable pub columns_to_select : RelationshipsQueryBuilder E → Vars → Vars × List Slot
  columns_to_select b vars =
      let (after, slots) = static_values_or_add_columns b six_fields (vars, []) in
      (
        after,
        or_one unused
            (slots ++ more_slots (with_caveats b) (with_expiration b) b.schema.integrity_enabled),
      )
