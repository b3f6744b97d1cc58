-- ===== src/Sql/Execute.antt =====
-- sql.go: ExecuteQuery, up to the call of the executor, which is given the builder that is made here.
pub mod Reads
pub mod SubjectFilter
use embedspicedb.Common.{
  ℕ, ltb, ◌^◌, ◌-◌, Bool, true, false, not, Option, none, some, List, [], ◌∷◌, ◌++◌, if◌then◌else◌,
}
use embedspicedb.Common.Str.{Str, bytes, is_empty}
use embedspicedb.Common.Result.{Result, ok, err, ◌>>=◌, ◌>>◌, fail_if}
use embedspicedb.Memdb.Filter.{
  RelationshipReference, SortOrder, unsorted, choose_efficient, by_resource, by_subject,
}
use embedspicedb.Memdb.Query.{QueryOptions}
use embedspicedb.Sql.{SelectBuilder, SchemaQueryFilterer, IndexingHint}
use embedspicedb.Sql.Filters.{SqlError, bug_custom_query, cursors_without_sorting, hint_error}
use embedspicedb.Sql.Cursor.{tuple_order, after}
use embedspicedb.Sql.Columns.{RelationshipsQueryBuilder}

-- math.MaxInt64
abbrev pub max_int64 : ℕ
max_int64 = 2 ^ 63 - 1

-- `from += " " + suffix`
abbrev pub with_suffix : Str → Str → Str
with_suffix suffix from = if is_empty suffix then from else from ++ bytes " " ++ suffix

module _ {E : Type 0} where
  abbrev pub hint_sort : Option (IndexingHint E) → SortOrder
  hint_sort none = by_resource
  hint_sort (some hint) = elim hint.sort_order [
    | unsorted ↦ by_resource
    | choose_efficient ↦ by_resource
    | by_resource ↦ by_resource
    | by_subject ↦ by_subject
  ]

  unfoldable pub chosen_sort : SortOrder → Option (IndexingHint E) → SortOrder
  chosen_sort choose_efficient hint = hint_sort hint
  chosen_sort unsorted hint = unsorted
  chosen_sort by_resource hint = by_resource
  chosen_sort by_subject hint = by_subject

  unfoldable pub add_cursor :
      Option RelationshipReference
      → SortOrder
      → SchemaQueryFilterer E
      → Result SqlError (SchemaQueryFilterer E)
  add_cursor none sort q = ok q
  add_cursor (some cursor) unsorted q = err cursors_without_sorting
  add_cursor (some cursor) sort q = after cursor sort q

  abbrev pub add_limit : Option ℕ → SchemaQueryFilterer E → SchemaQueryFilterer E
  add_limit none q = q
  add_limit (some limit) q =
      if ltb limit max_int64
      then record q { query_builder = record q.query_builder { limit = some limit } }
      else q

  -- A text of the hint, or its error.
  abbrev pub hinted : Option E × Str → Result SqlError Str
  hinted (none, text) = ok text
  hinted (some e, text) = err hint_error

  abbrev pub add_prefix : Str → SchemaQueryFilterer E → SchemaQueryFilterer E
  add_prefix prefix q =
      if is_empty prefix
      then q
      else record q { query_builder = record q.query_builder { prefix = some prefix } }

  abbrev pub add_hints :
      Option (IndexingHint E)
      → Str
      → SchemaQueryFilterer E
      → Result SqlError (Str × SchemaQueryFilterer E)
  add_hints none from q = ok (from, q)
  add_hints (some hint) from q = do
    prefix ← hinted hint.sql_prefix
    table ← hinted (hint.from_table from)
    suffix ← hinted hint.from_sql_suffix
    ok (with_suffix suffix table, add_prefix prefix q)

  abbrev pub first_table : SchemaQueryFilterer E → Str
  first_table q = if is_empty q.from_table then q.schema.relationship_table_name else q.from_table

  abbrev pub add_from : Str → SchemaQueryFilterer E → SchemaQueryFilterer E
  add_from table q = record q { query_builder = record q.query_builder { from_table = table } }

  unfoldable pub execute_query :
      SchemaQueryFilterer E → QueryOptions → Result SqlError (RelationshipsQueryBuilder E)
  execute_query query opts = do
    fail_if query.is_custom_query bug_custom_query
    let sort = chosen_sort opts.sort query.indexing_hint
    positioned ← add_cursor opts.after sort (tuple_order sort query)
    let bounded = add_limit opts.limit positioned
    (table, prefixed) ← add_hints bounded.indexing_hint (first_table bounded) bounded
    let final = add_from (with_suffix prefixed.from_suffix table) prefixed
    ok (record {
      schema = final.schema;
      skip_caveats = opts.skip_caveats;
      skip_expiration = opts.skip_expiration;
      filtering_values = final.filtering_column_tracker;
      base_query_builder = final;
    })
