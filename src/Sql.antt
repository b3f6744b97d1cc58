-- ===== src/Sql.antt =====
-- internal/datastore/common, sql.go and schema.go: the queries for relationships that the SQL
-- datastores build. A filterer is a squirrel query together with a map of the columns that have one
-- value in it. The map is shared by the copies of a filterer: the model is of a chain of calls, each
-- on the result of the one before.
pub mod Filters
pub mod Meaning
pub mod Static
pub mod Cursor
pub mod Columns
pub mod Like
pub mod Execute
use embedspicedb.Common.{
  ℕ, ◌≡◌, ◌==◌, Bool, true, false, Option, none, some, List, [], ◌∷◌, ◌++◌, if◌then◌else◌,
}
use embedspicedb.Common.Str.{Str, is_empty, str_eq, str_Eq}
use embedspicedb.Common.GoMap.{GoMap, lookup, insert}
use embedspicedb.Memdb.Filter.{SortOrder}

pub data PaginationFilterType : Type 0 where
  unknown_pagination tuple_comparison expanded_logic_comparison : PaginationFilterType

pub data ColumnOptimizationOption : Type 0 where
  optimization_unknown optimization_none static_values : ColumnOptimizationOption

pub record SchemaInformation : Type 0 where
  pub relationship_table_name : Str
  pub col_namespace : Str
  pub col_object_id : Str
  pub col_relation : Str
  pub col_userset_namespace : Str
  pub col_userset_object_id : Str
  pub col_userset_relation : Str
  pub col_caveat_name : Str
  pub col_caveat_context : Str
  pub col_expiration : Str
  pub col_integrity_key_id : Str
  pub col_integrity_hash : Str
  pub col_integrity_timestamp : Str
  pub pagination_filter_type : PaginationFilterType
  pub now_function : Str
  pub column_optimization : ColumnOptimizationOption
  pub integrity_enabled : Bool
  pub expiration_disabled : Bool
  pub sort_by_resource_column_order : List Str
  pub sort_by_subject_column_order : List Str

abbrev pub or_default : List Str → List Str → List Str
or_default [] default = default
or_default (c ∷ cs) default = c ∷ cs

abbrev pub sort_by_resource_column_order_columns : SchemaInformation → List Str
sort_by_resource_column_order_columns si = or_default si.sort_by_resource_column_order (
    si.col_namespace ∷ si.col_object_id ∷ si.col_relation ∷ si.col_userset_namespace
    ∷ si.col_userset_object_id ∷ si.col_userset_relation ∷ [])

abbrev pub sort_by_subject_column_order_columns : SchemaInformation → List Str
sort_by_subject_column_order_columns si = or_default si.sort_by_subject_column_order (
    si.col_userset_namespace ∷ si.col_userset_object_id ∷ si.col_userset_relation ∷ si.col_namespace
    ∷ si.col_object_id ∷ si.col_relation ∷ [])

-- The conditions that the code gives to squirrel: sq.Eq, sq.NotEq and sq.Gt with a value or nil, the
-- texts with IN and with a comparison of tuples and their arguments, sq.Like, the text of the test of
-- the expiration, and the lists sq.And and sq.Or, an element at a time.
pub data Condition : Type 0 where
  eq not_eq gt : Str → Str → Condition
  eq_null not_null : Str → Condition
  in_list : Str → List Str → Condition
  tuple_gt : List Str → List Str → Condition
  like : Str → Str → Condition
  col_after_now : Str → Str → Condition
  and_nil or_nil : Condition
  and_cons or_cons : Condition → Condition → Condition

abbrev pub and_of : List Condition → Condition
and_of [] = and_nil
and_of (c ∷ cs) = and_cons c (and_of cs)

abbrev pub or_of : List Condition → Condition
or_of [] = or_nil
or_of (c ∷ cs) = or_cons c (or_of cs)

-- columnTracker: the single value, or none where the column varies.
abbrev pub ColumnTrackerMap : Type 0
ColumnTrackerMap = GoMap Str (Option Str)

-- What the code sets of a squirrel SelectBuilder. Each Where adds to a conjunction.
pub record SelectBuilder : Type 0 where
  pub where_parts : List Condition
  pub order_bys : List Str
  pub limit : Option ℕ
  pub prefix : Option Str
  pub from_table : Str
  pub columns : List Str

abbrev pub where_added : Condition → SelectBuilder → SelectBuilder
where_added c b = record b { where_parts = b.where_parts ++ c ∷ [] }

-- IndexingHint: what its methods give.
pub record IndexingHint (E : Type 0) : Type 0 where
  pub sql_prefix : Option E × Str
  pub from_table : Str → Option E × Str
  pub from_sql_suffix : Option E × Str
  pub sort_order : SortOrder

pub record SchemaQueryFilterer (E : Type 0) : Type 0 where
  pub schema : SchemaInformation
  pub query_builder : SelectBuilder
  pub filtering_column_tracker : ColumnTrackerMap
  pub filter_maximum_id_count : ℕ
  pub is_custom_query : Bool
  pub extra_fields : List Str
  pub from_suffix : Str
  pub from_table : Str
  pub indexing_hint : Option (IndexingHint E)

abbrev pub static_value : ColumnTrackerMap → Str → Option Str
static_value m column = elim (lookup column m) [ none ↦ none | some v ↦ v ]

abbrev pub has_static_value : ColumnTrackerMap → Str → Bool
has_static_value m column = elim (static_value m column) [ none ↦ false | some v ↦ true ]

-- recordColumnValue
unfoldable pub record_column_value : Str → Str → ColumnTrackerMap → ColumnTrackerMap
record_column_value column value m = elim (lookup column m) [
  | none ↦ insert column (some value) m
  | some none ↦ m
  | some (some existing) ↦ if str_eq existing value then m else insert column none m
]

-- recordVaryingColumnValue
unfoldable pub record_varying_column_value : Str → ColumnTrackerMap → ColumnTrackerMap
record_varying_column_value column m = insert column none m

abbrev empty_builder : SelectBuilder
empty_builder = record {
  where_parts = [];
  order_bys = [];
  limit = none;
  prefix = none;
  from_table = [];
  columns = [];
}

abbrev or_hundred : ℕ → ℕ
or_hundred n = if n == 0 then 100 else n

module _ {E : Type 0} where
  -- WithAdditionalFilter
  unfoldable pub with_additional_filter :
      (SelectBuilder → SelectBuilder) → SchemaQueryFilterer E → SchemaQueryFilterer E
  with_additional_filter f q = record q { query_builder = f q.query_builder }

  unfoldable pub new_for_relationships_select :
      SchemaInformation → ℕ → List Str → SchemaQueryFilterer E
  new_for_relationships_select schema filter_maximum_id_count extra_fields = record {
    schema = schema;
    query_builder = empty_builder;
    filtering_column_tracker = [];
    filter_maximum_id_count = or_hundred filter_maximum_id_count;
    is_custom_query = false;
    extra_fields = extra_fields;
    from_suffix = [];
    from_table = [];
    indexing_hint = none;
  }

  unfoldable pub new_with_starting_query :
      SchemaInformation → SelectBuilder → ℕ → SchemaQueryFilterer E
  new_with_starting_query schema starting_query filter_maximum_id_count = record {
    schema = schema;
    query_builder = starting_query;
    filtering_column_tracker = [];
    filter_maximum_id_count = or_hundred filter_maximum_id_count;
    is_custom_query = true;
    extra_fields = [];
    from_suffix = [];
    from_table = [];
    indexing_hint = none;
  }
