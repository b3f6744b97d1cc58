-- ===== src/Sql/Filters.antt =====
-- sql.go: the methods of a filterer that restrict its query. A method that fails gives its error alone.
mod Clauses
use embedspicedb.Common.{
  ℕ, Bool, true, false, not, ◌&&◌, Option, none, some, List, [], ◌∷◌, ◌++◌, if◌then◌else◌, any,
}
use embedspicedb.Common.Str.{Str, is_empty, str_eq}
use embedspicedb.Common.Result.{Result, ok, err, ◌>>=◌, ◌>>◌, fail_if}
use embedspicedb.Memdb.Filter.{
  SubjectsSelector, SubjectRelationFilter, RelationshipsFilter, ellipsis, selected_relations,
  CaveatNameFilter, caveat_none, has_matching_caveat, no_caveat, ExpirationFilterOption,
  expiration_none, has_expiration, no_expiration, is_empty_list,
}
use embedspicedb.Sql.{
  SchemaInformation, Condition, eq, not_eq, eq_null, not_null, in_list, like, ColumnTrackerMap,
  where_added, SchemaQueryFilterer, record_column_value, record_varying_column_value, and_of, or_of,
}
unfoldable pub use Clauses.*

module _ {E : Type 0} where
  -- A condition on a column that is equal to a value, or with another change of the map.
  abbrev pub restricted :
      Condition → ColumnTrackerMap → SchemaQueryFilterer E → SchemaQueryFilterer E
  restricted c m q = record q {
    query_builder = where_added c q.query_builder;
    filtering_column_tracker = m;
  }

  abbrev pub equal_to : Str → Str → SchemaQueryFilterer E → SchemaQueryFilterer E
  equal_to column value q =
      restricted (eq column value) (record_column_value column value q.filtering_column_tracker) q

  unfoldable pub filter_to_resource_type : Str → SchemaQueryFilterer E → SchemaQueryFilterer E
  filter_to_resource_type type q = equal_to q.schema.col_namespace type q

  unfoldable pub filter_to_resource_id : Str → SchemaQueryFilterer E → SchemaQueryFilterer E
  filter_to_resource_id id q = equal_to q.schema.col_object_id id q

  unfoldable pub filter_to_relation : Str → SchemaQueryFilterer E → SchemaQueryFilterer E
  filter_to_relation relation q = equal_to q.schema.col_relation relation q

  unfoldable pub filter_with_caveat_name : Str → SchemaQueryFilterer E → SchemaQueryFilterer E
  filter_with_caveat_name name q = equal_to q.schema.col_caveat_name name q

  unfoldable pub filter_with_no_caveat : SchemaQueryFilterer E → SchemaQueryFilterer E
  filter_with_no_caveat q =
      restricted (or_of (eq_null q.schema.col_caveat_name ∷ eq q.schema.col_caveat_name [] ∷ []))
        (record_varying_column_value q.schema.col_caveat_name q.filtering_column_tracker) q

  unfoldable pub filter_to_resource_ids :
      List Str → SchemaQueryFilterer E → Result SqlError (SchemaQueryFilterer E)
  filter_to_resource_ids ids q =
      record_values bug_empty_resource_id q.schema.col_object_id ids q.filtering_column_tracker
      >>= λ m. ok (restricted (in_list q.schema.col_object_id ids) m q)

  unfoldable pub filter_with_resource_id_prefix :
      Str → SchemaQueryFilterer E → Result SqlError (SchemaQueryFilterer E)
  filter_with_resource_id_prefix prefix q = build_like_prefix_clause prefix >>= λ pattern.
      ok (restricted (like q.schema.col_object_id pattern) q.filtering_column_tracker q)

  unfoldable pub filter_with_subjects_selectors :
      List SubjectsSelector → SchemaQueryFilterer E → Result SqlError (SchemaQueryFilterer E)
  filter_with_subjects_selectors selectors q =
      selectors_clause q.schema selectors []
        (vary_if_many q.schema selectors q.filtering_column_tracker)
      >>= λ (clause, m). ok (restricted (or_of clause) m q)

  -- v1.SubjectFilter: its type, its id, and its relation where it has one.
  abbrev pub subject_id_filtered : Str → SchemaQueryFilterer E → SchemaQueryFilterer E
  subject_id_filtered id q = if is_empty id then q else equal_to q.schema.col_userset_object_id id q

  abbrev pub subject_relation_filtered : Option Str → SchemaQueryFilterer E → SchemaQueryFilterer E
  subject_relation_filtered none q = q
  subject_relation_filtered (some relation) q =
      restricted (eq q.schema.col_userset_relation (or_ellipsis relation))
        (record_column_value q.schema.col_userset_relation ellipsis q.filtering_column_tracker) q

  unfoldable pub filter_to_subject_filter :
      Str → Str → Option Str → SchemaQueryFilterer E → SchemaQueryFilterer E
  filter_to_subject_filter type id relation q =
      subject_relation_filtered relation
        (subject_id_filtered id (equal_to q.schema.col_userset_namespace type q))

  -- `if test { csqf = ... }`
  abbrev pub when_so :
      Bool
      → (SchemaQueryFilterer E → Result SqlError (SchemaQueryFilterer E))
      → SchemaQueryFilterer E
      → Result SqlError (SchemaQueryFilterer E)
  when_so true f q = f q
  when_so false f q = ok q

  abbrev pub caveat_restricted : CaveatNameFilter → SchemaQueryFilterer E → SchemaQueryFilterer E
  caveat_restricted caveat_none q = q
  caveat_restricted (has_matching_caveat name) q = filter_with_caveat_name name q
  caveat_restricted no_caveat q = filter_with_no_caveat q

  abbrev pub expiration_restricted :
      ExpirationFilterOption → SchemaQueryFilterer E → SchemaQueryFilterer E
  expiration_restricted expiration_none q = q
  expiration_restricted has_expiration q =
      restricted (not_null q.schema.col_expiration) q.filtering_column_tracker q
  expiration_restricted no_expiration q =
      restricted (eq_null q.schema.col_expiration) q.filtering_column_tracker q

  abbrev pub filter_if_selectors :
      List SubjectsSelector → SchemaQueryFilterer E → Result SqlError (SchemaQueryFilterer E)
  filter_if_selectors [] c = ok c
  filter_if_selectors (s ∷ ss) c = filter_with_subjects_selectors (s ∷ ss) c

  unfoldable pub filter_with_relationships_filter :
      RelationshipsFilter → SchemaQueryFilterer E → Result SqlError (SchemaQueryFilterer E)
  filter_with_relationships_filter f q = do
    typed ←
        when_so (not (is_empty f.optional_resource_type))
          (λ c. ok (filter_to_resource_type f.optional_resource_type c)) q
    related ←
        when_so (not (is_empty f.optional_resource_relation))
          (λ c. ok (filter_to_relation f.optional_resource_relation c)) typed
    fail_if
        (not (is_empty_list f.optional_resource_ids)
          && not (is_empty f.optional_resource_id_prefix))
        bug_ids_and_prefix
    with_ids ←
        when_so (not (is_empty_list f.optional_resource_ids))
          (filter_to_resource_ids f.optional_resource_ids) related
    with_prefix ←
        when_so (not (is_empty f.optional_resource_id_prefix))
          (filter_with_resource_id_prefix f.optional_resource_id_prefix) with_ids
    selected ← filter_if_selectors f.optional_subjects_selectors with_prefix
    ok (
        expiration_restricted f.optional_expiration_option
          (caveat_restricted f.optional_caveat_name_filter selected))
