-- ===== src/Sql/Execute/SubjectFilter.antt =====
-- sql.go: FilterToSubjectFilter with a relation of the subject.
use embedspicedb.Common.{◌≡◌, ◌≢◌, arith, Bool, true, none, some, [], ◌∷◌, ◌∙◌}
use embedspicedb.Common.Str.{Str, str_Eq, str_eq_iff}
use embedspicedb.Common.GoMap.{lookup}
use embedspicedb.Memdb.Filter.{ellipsis}
use embedspicedb.Sql.{
  Condition, eq, ColumnTrackerMap, SchemaQueryFilterer, static_value, record_column_value,
}
use embedspicedb.Sql.Filters.{
  filter_to_subject_filter, subject_relation_filtered, equal_to, or_ellipsis,
}
use embedspicedb.Sql.Meaning.{Row, SqlLaws, meets, all_hold-append}
use embedspicedb.Sql.Static.{lookup-record}
use embedspicedb.Sql.Static.Selectors.{equal_value}

other_kept :
    (c d v : Str) (m : ColumnTrackerMap) → c ≢ d → lookup d (record_column_value c v m) ≡ lookup d m
other_kept c d v m n = ground (arith, lookup-record c d v m, str_eq_iff c d)

module _ {holds : Condition → Row → Bool} (laws : SqlLaws holds) {E : Type 0} where
  relation_recorded :
      (relation : Str) (q : SchemaQueryFilterer E) (r : Row)
      → lookup q.schema.col_userset_relation q.filtering_column_tracker ≡ none
      → meets holds (subject_relation_filtered (some relation) q) r ≡ true
      → (static_value
            (subject_relation_filtered (some relation) q).filtering_column_tracker
            q.schema.col_userset_relation
          ≡ some ellipsis)
        × (r q.schema.col_userset_relation ≡ some (or_ellipsis relation))
  relation_recorded relation q r h k =
      let column = q.schema.col_userset_relation in
      (
        ground (
          arith,
          h,
          lookup-record column column ellipsis q.filtering_column_tracker,
          str_eq_iff column column,
        ),
        equal_value laws (λ r. Unit {0}) column (or_ellipsis relation) r
            (ground (
              arith,
              k,
              all_hold-append holds q.query_builder.where_parts
                  (eq column (or_ellipsis relation) ∷ []) r,
            )),
      )

  -- A subject filter with a relation lets through only rows whose subject has that relation (the
  -- ellipsis where it is empty), but the map gives the column of the subject's relation the ellipsis
  -- as its one value, whatever the relation is: where the column was not in the map before, and is
  -- not the one of the subject's type or id.
  pub filter_to_subject_filter_relation :
      (type id relation : Str) (q : SchemaQueryFilterer E) (r : Row)
      → q.schema.col_userset_namespace ≢ q.schema.col_userset_relation
      → q.schema.col_userset_object_id ≢ q.schema.col_userset_relation
      → lookup q.schema.col_userset_relation q.filtering_column_tracker ≡ none
      → meets holds (filter_to_subject_filter type id (some relation) q) r ≡ true
      → (static_value
            (filter_to_subject_filter type id (some relation) q).filtering_column_tracker
            q.schema.col_userset_relation
          ≡ some ellipsis)
        × (r q.schema.col_userset_relation ≡ some (or_ellipsis relation))
  unfolding filter_to_subject_filter
  filter_to_subject_filter_relation type [] relation q r n m h k =
      relation_recorded relation (equal_to q.schema.col_userset_namespace type q) r
        (other_kept q.schema.col_userset_namespace q.schema.col_userset_relation type
            q.filtering_column_tracker n
          ∙ h)
        k
  filter_to_subject_filter_relation type (a ∷ id) relation q r n m h k =
      let typed = equal_to q.schema.col_userset_namespace type q in
      relation_recorded relation (equal_to q.schema.col_userset_object_id (a ∷ id) typed) r
        (other_kept q.schema.col_userset_object_id q.schema.col_userset_relation (a ∷ id)
            typed.filtering_column_tracker m
          ∙ other_kept q.schema.col_userset_namespace q.schema.col_userset_relation type
              q.filtering_column_tracker n
          ∙ h)
        k
