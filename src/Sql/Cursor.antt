-- ===== src/Sql/Cursor.antt =====
-- sql.go: the order of a query and the condition that a cursor adds to it.
pub mod Parts
pub mod Sorted
pub mod Position
use embedspicedb.Common.{
  ◌≡◌, Bool, true, false, not, Option, none, some, List, [], ◌∷◌, ◌++◌, if◌then◌else◌, map, filter,
}
use embedspicedb.Common.Str.{Str, str_eq}
use embedspicedb.Common.Result.{Result, ok, err, ◌>>=◌}
use embedspicedb.Memdb.Filter.{
  RelationshipReference, SortOrder, unsorted, choose_efficient, by_resource, by_subject,
}
use embedspicedb.Sql.{
  SchemaInformation, sort_by_resource_column_order_columns, sort_by_subject_column_order_columns,
  unknown_pagination, tuple_comparison, expanded_logic_comparison, PaginationFilterType, Condition,
  eq, gt, tuple_gt, and_of, or_of, ColumnTrackerMap, has_static_value, where_added,
  SchemaQueryFilterer,
}
use embedspicedb.Sql.Filters.{SqlError, bug_invalid_sort_order, bug_invalid_column_name}

abbrev pub NameAndValue : Type 0
NameAndValue = Str × Str

abbrev pub column_value : SchemaInformation → RelationshipReference → Str → Result SqlError Str
column_value schema cursor name =
    if str_eq name schema.col_namespace
    then ok cursor.resource.object_type
    else if str_eq name schema.col_object_id
    then ok cursor.resource.object_id
    else if str_eq name schema.col_relation
    then ok cursor.resource.relation
    else if str_eq name schema.col_userset_namespace
    then ok cursor.subject.object_type
    else if str_eq name schema.col_userset_object_id
    then ok cursor.subject.object_id
    else if str_eq name schema.col_userset_relation
    then ok cursor.subject.relation
    else err bug_invalid_column_name

abbrev pub values_of :
    SchemaInformation → RelationshipReference → List Str → Result SqlError (List NameAndValue)
values_of schema cursor [] = ok []
values_of schema cursor (name ∷ names) = column_value schema cursor name >>= λ value.
    values_of schema cursor names >>= λ rest. ok ((name, value) ∷ rest)

unfoldable pub columns_and_values_for_sort :
    SortOrder → SchemaInformation → RelationshipReference → Result SqlError (List NameAndValue)
columns_and_values_for_sort by_resource schema cursor =
    values_of schema cursor (sort_by_resource_column_order_columns schema)
columns_and_values_for_sort by_subject schema cursor =
    values_of schema cursor (sort_by_subject_column_order_columns schema)
columns_and_values_for_sort unsorted schema cursor = err bug_invalid_sort_order
columns_and_values_for_sort choose_efficient schema cursor = err bug_invalid_sort_order

-- The columns that have no static value in the query.
abbrev pub varying : ColumnTrackerMap → List NameAndValue → List NameAndValue
varying m cavs = filter (λ cav. not (has_static_value m cav.0)) cavs

abbrev pub equal_to_previous : ColumnTrackerMap → List NameAndValue → List Condition
equal_to_previous m previous = map (λ cav. eq cav.0 cav.1) (varying m previous)

-- The loop that makes the parts of the Or, after the columns before.
abbrev pub or_clause : ColumnTrackerMap → List NameAndValue → List NameAndValue → List Condition
or_clause m previous [] = []
or_clause m previous (cav ∷ cavs) =
    let rest = or_clause m (previous ++ cav ∷ []) cavs in
    if has_static_value m cav.0
    then rest
    else and_of (equal_to_previous m previous ++ gt cav.0 cav.1 ∷ []) ∷ rest

module _ {E : Type 0} where
  -- TupleOrder
  unfoldable pub tuple_order : SortOrder → SchemaQueryFilterer E → SchemaQueryFilterer E
  tuple_order by_resource q = record q {
    query_builder = record q.query_builder {
      order_bys = q.query_builder.order_bys ++ sort_by_resource_column_order_columns q.schema;
    };
  }
  tuple_order by_subject q = record q {
    query_builder = record q.query_builder {
      order_bys = q.query_builder.order_bys ++ sort_by_subject_column_order_columns q.schema;
    };
  }
  tuple_order unsorted q = q
  tuple_order choose_efficient q = q

  abbrev pub restricted_by : Condition → SchemaQueryFilterer E → SchemaQueryFilterer E
  restricted_by c q = record q { query_builder = where_added c q.query_builder }

  -- `if comparisonSlotCount > 0`
  abbrev pub after_tuple : List NameAndValue → SchemaQueryFilterer E → SchemaQueryFilterer E
  after_tuple [] q = q
  after_tuple (cav ∷ cavs) q =
      restricted_by (tuple_gt (map (λ c. c.0) (cav ∷ cavs)) (map (λ c. c.1) (cav ∷ cavs))) q

  -- `if len(orClause) > 0`
  abbrev pub after_expanded : List Condition → SchemaQueryFilterer E → SchemaQueryFilterer E
  after_expanded [] q = q
  after_expanded (c ∷ cs) q = restricted_by (or_of (c ∷ cs)) q

  abbrev pub after_of :
      PaginationFilterType → List NameAndValue → SchemaQueryFilterer E → SchemaQueryFilterer E
  after_of tuple_comparison cavs q = after_tuple (varying q.filtering_column_tracker cavs) q
  after_of expanded_logic_comparison cavs q =
      after_expanded (or_clause q.filtering_column_tracker [] cavs) q
  after_of unknown_pagination cavs q = q

  unfoldable pub after :
      RelationshipReference
      → SortOrder
      → SchemaQueryFilterer E
      → Result SqlError (SchemaQueryFilterer E)
  after cursor order q = columns_and_values_for_sort order q.schema cursor >>= λ cavs.
      ok (after_of q.schema.pagination_filter_type cavs q)
