-- ===== src/Samples/Executions.antt =====
-- Queries with a cursor, and queries that are executed and read.
use embedspicedb.Common.{
  ◌++◌, All, ◌≡◌, ◌≢◌, refl, arith, true, false, ◌&&◌, none, some, List, [], ◌∷◌, map, length,
}
use embedspicedb.Common.Str.{Str, bytes, str_eq, str_Eq}
use embedspicedb.Common.GoMap.{lookup, insert}
use embedspicedb.Common.Result.{ok}
use embedspicedb.Memdb.Filter.{RelationshipReference, by_resource, by_subject}
use embedspicedb.Memdb.Filter.Cursor.{lex_lt}
use embedspicedb.Memdb.Query.{QueryOptions}
use embedspicedb.Sql.{
  unknown_pagination, tuple_comparison, SchemaQueryFilterer, new_for_relationships_select,
  record_column_value,
}
use embedspicedb.Sql.Filters.{filter_to_resource_type}
use embedspicedb.Sql.Meaning.{meets}
use embedspicedb.Sql.Static.Reachable.{Filtered-Tracked}
use embedspicedb.Sql.Cursor.{
  NameAndValue, after, after_of, columns_and_values_for_sort, varying, tuple_order,
}
use embedspicedb.Sql.Cursor.Parts.{values, names, Agrees}
use embedspicedb.Sql.Cursor.Sorted.{IsFieldOf}
use embedspicedb.Sql.Cursor.Position.{after-lex_lt}
use embedspicedb.Sql.Columns.{
  RelationshipsQueryBuilder, Field, resource_object_type, resource_object_id, resource_relation,
  subject_object_type, subject_object_id, subject_relation, Vars, column_of, column_names_to_select,
  columns_to_select,
}
use embedspicedb.Sql.Columns.Rows.{read_row}
use embedspicedb.Sql.Execute.{execute_query, chosen_sort, add_cursor}
use embedspicedb.Sql.Execute.Reads.{execute_query-read_row}
use embedspicedb.Samples.Statements.{holds, sql_laws, schema, of_docs, docs-Filtered, document}

abbrev opts : QueryOptions
opts = record {
  limit = some 2;
  after = none;
  sort = by_subject;
  skip_caveats = true;
  skip_expiration = false;
}

abbrev empty_vars : Vars
empty_vars f = []

abbrev handed : RelationshipsQueryBuilder Str
handed = record {
  schema = schema;
  skip_caveats = true;
  skip_expiration = false;
  filtering_values = of_docs.filtering_column_tracker;
  base_query_builder = record of_docs {
    query_builder = record of_docs.query_builder {
      limit = some 2;
      order_bys =
          bytes "userset_namespace"
          ∷ bytes "userset_object_id"
          ∷ bytes "userset_relation"
          ∷ bytes "namespace"
          ∷ bytes "object_id"
          ∷ bytes "relation"
          ∷ [];
      from_table = bytes "relation_tuple";
    };
  };
}

handed_run : execute_query of_docs opts ≡ ok handed
unfolding execute_query add_cursor chosen_sort tuple_order filter_to_resource_type
    new_for_relationships_select
handed_run = refl

handed_met : meets holds handed.base_query_builder document ≡ true
unfolding filter_to_resource_type new_for_relationships_select str_eq
handed_met = refl

document_values : (f : Field) → (v : Str) × (document (column_of schema f) ≡ some v)
unfolding str_eq
document_values resource_object_type = (bytes "doc", refl)
document_values resource_object_id = (bytes "x", refl)
document_values resource_relation = (bytes "x", refl)
document_values subject_object_type = (bytes "x", refl)
document_values subject_object_id = (bytes "x", refl)
document_values subject_relation = (bytes "member", refl)

execute_query-read_row_example :
    (length (column_names_to_select handed) ≡ length (columns_to_select handed empty_vars).1)
    × ((f : Field) → document (column_of schema f) ≡ some (read_row handed document empty_vars f))
execute_query-read_row_example =
    execute_query-read_row sql_laws of_docs opts handed document empty_vars docs-Filtered handed_run
      handed_met document_values

abbrev cursor : RelationshipReference
cursor = record {
  resource = record { object_type = bytes "doc"; object_id = bytes "w"; relation = bytes "x" };
  subject = record { object_type = bytes "x"; object_id = bytes "x"; relation = bytes "member" };
}

abbrev places : List NameAndValue
places =
    (bytes "namespace", bytes "doc")
    ∷ (bytes "object_id", bytes "w")
    ∷ (bytes "relation", bytes "x")
    ∷ (bytes "userset_namespace", bytes "x")
    ∷ (bytes "userset_object_id", bytes "x")
    ∷ (bytes "userset_relation", bytes "member")
    ∷ []

places_run : columns_and_values_for_sort by_resource schema cursor ≡ ok places
unfolding columns_and_values_for_sort str_eq
places_run = refl

abbrev document_row : List Str
document_row = bytes "doc" ∷ bytes "x" ∷ bytes "x" ∷ bytes "x" ∷ bytes "x" ∷ bytes "member" ∷ []

abbrev later_docs : SchemaQueryFilterer Str
later_docs = after_of tuple_comparison places of_docs

later_run : after cursor by_resource of_docs ≡ ok later_docs
unfolding after columns_and_values_for_sort str_eq filter_to_resource_type
    new_for_relationships_select
later_run = refl

places_agree : Agrees of_docs.filtering_column_tracker places
unfolding filter_to_resource_type new_for_relationships_select record_column_value lookup insert
    str_eq
places_agree = (
  λ v h. ground arith,
  (
    λ v h. ground arith,
    (λ v h. ground arith, (λ v h. ground arith, (λ v h. ground arith, (λ v h. ground arith, tt)))),
  ),
)

places_vary : varying of_docs.filtering_column_tracker places ≢ []
unfolding filter_to_resource_type new_for_relationships_select record_column_value lookup insert
    str_eq
places_vary h = ground arith

places_row : map document (names places) ≡ map some document_row
unfolding str_eq
places_row = refl

compares_tuples : of_docs.schema.pagination_filter_type ≢ unknown_pagination
unfolding filter_to_resource_type new_for_relationships_select
compares_tuples h = ground arith

after-lex_lt_example :
    ((tuple_order by_resource of_docs).query_builder.order_bys
      ≡ of_docs.query_builder.order_bys ++ names places)
    × All (IsFieldOf of_docs.schema cursor) places
    × (meets holds later_docs document
        ≡ (meets holds of_docs document && lex_lt (values places) document_row))
unfolding filter_to_resource_type new_for_relationships_select
after-lex_lt_example =
    after-lex_lt sql_laws cursor by_resource of_docs later_docs places document document_row
      (Filtered-Tracked sql_laws of_docs docs-Filtered) compares_tuples places_run places_agree
      places_vary places_row later_run
