-- ===== src/Sql/Filters/Clauses.antt =====
-- sql.go: the clauses of the filters and the map after them, with the errors of spiceerrors.MustBugf and
-- of the prefix of a pattern.
use embedspicedb.Common.{ℕ, Bool, not, ◌&&◌, List, [], ◌∷◌, ◌++◌, if◌then◌else◌, any}
use embedspicedb.Common.Str.{Str, is_empty, str_eq}
use embedspicedb.Common.Result.{Result, ok, err, ◌>>=◌}
use embedspicedb.Memdb.Filter.{
  SubjectsSelector, SubjectRelationFilter, ellipsis, selected_relations,
}
use embedspicedb.Sql.{
  SchemaInformation, Condition, eq, not_eq, in_list, ColumnTrackerMap, record_column_value,
  record_varying_column_value, and_of, or_of,
}

pub data SqlError : Type 0 where
  bug_empty_resource_id bug_empty_subject_id bug_ids_and_prefix : SqlError
  bug_empty_prefix percent_in_prefix : SqlError
  bug_invalid_sort_order bug_invalid_column_name : SqlError
  bug_custom_query cursors_without_sorting hint_error : SqlError

-- strings.ReplaceAll of one byte.
abbrev pub replace_all : ℕ → Str → Str → Str
replace_all c new [] = []
replace_all c new (a ∷ s) =
    let rest = replace_all c new s in if str_eq (a ∷ []) (c ∷ []) then new ++ rest else a ∷ rest

abbrev pub contains_byte : ℕ → Str → Bool
contains_byte c s = any (λ a. str_eq (a ∷ []) (c ∷ [])) s

abbrev pub percent : ℕ
percent = 37

abbrev pub underscore : ℕ
underscore = 95

abbrev pub backslash : ℕ
backslash = 92

-- The pattern of the LIKE clause.
unfoldable pub build_like_prefix_clause : Str → Result SqlError Str
build_like_prefix_clause prefix =
    if is_empty prefix
    then err bug_empty_prefix
    else if contains_byte percent prefix
    then err percent_in_prefix
    else ok (
        replace_all underscore (backslash ∷ underscore ∷ [])
          (replace_all backslash (backslash ∷ backslash ∷ []) prefix)
        ++ percent ∷ [])

-- The loop over the values of an IN list, which refuses an empty one.
abbrev pub record_values :
    SqlError → Str → List Str → ColumnTrackerMap → Result SqlError ColumnTrackerMap
record_values e column [] m = ok m
record_values e column (v ∷ vs) m =
    if is_empty v then err e else record_values e column vs (record_column_value column v m)

-- cmp.Or(relation, datastore.Ellipsis)
abbrev pub or_ellipsis : Str → Str
or_ellipsis [] = ellipsis
or_ellipsis (c ∷ s) = c ∷ s

abbrev pub relation_filter_is_empty : SubjectRelationFilter → Bool
relation_filter_is_empty f =
    not f.include_ellipsis_relation
    && is_empty f.non_ellipsis_relation
    && not f.only_non_ellipsis_relations

-- The clause of a selector's part and the map after it.
abbrev pub Clause : Type 0
Clause = List Condition × ColumnTrackerMap

abbrev pub relations_clause : Str → List Str → List Condition → ColumnTrackerMap → Clause
relations_clause column [] c m = (c, m)
relations_clause column (r ∷ rs) c m =
    relations_clause column rs (c ++ eq column (or_ellipsis r) ∷ [])
      (record_column_value column (or_ellipsis r) m)

abbrev pub one_or_more : Str → List Str → Clause → Clause
one_or_more column (r ∷ []) (c, m) = (c ++ eq column r ∷ [], record_column_value column r m)
one_or_more column rs (c, m) =
    let (either, after) = relations_clause column rs [] m in (c ++ or_of either ∷ [], after)

abbrev pub relation_clause : Str → SubjectRelationFilter → Clause → Clause
relation_clause column f (c, m) =
    if relation_filter_is_empty f
    then (c, m)
    else if f.only_non_ellipsis_relations
    then (c ++ not_eq column ellipsis ∷ [], record_varying_column_value column m)
    else one_or_more column (selected_relations f) (c, m)

abbrev pub type_clause : Str → Str → Clause → Clause
type_clause column type (c, m) =
    if is_empty type then (c, m) else (c ++ eq column type ∷ [], record_column_value column type m)

abbrev pub ids_clause : Str → List Str → Clause → Result SqlError Clause
ids_clause column [] (c, m) = ok (c, m)
ids_clause column (v ∷ vs) (c, m) =
    record_values bug_empty_subject_id column (v ∷ vs) m >>= λ after.
    ok (c ++ in_list column (v ∷ vs) ∷ [], after)

unfoldable pub selector_clause :
    SchemaInformation → SubjectsSelector → ColumnTrackerMap → Result SqlError Clause
selector_clause schema s m =
    ids_clause schema.col_userset_object_id s.optional_subject_ids
      (type_clause schema.col_userset_namespace s.optional_subject_type ([], m))
    >>= λ clause. ok (relation_clause schema.col_userset_relation s.relation_filter clause)

abbrev pub selectors_clause :
    SchemaInformation
    → List SubjectsSelector
    → List Condition
    → ColumnTrackerMap
    → Result SqlError Clause
selectors_clause schema [] c m = ok (c, m)
selectors_clause schema (s ∷ ss) c m = selector_clause schema s m >>= λ (part, after).
    selectors_clause schema ss (c ++ and_of part ∷ []) after

abbrev pub vary_subject : SchemaInformation → ColumnTrackerMap → ColumnTrackerMap
vary_subject schema m = record_varying_column_value schema.col_userset_relation (
    record_varying_column_value schema.col_userset_object_id
      (record_varying_column_value schema.col_userset_namespace m))

-- `if len(selectors) > 1`
abbrev pub vary_if_many :
    SchemaInformation → List SubjectsSelector → ColumnTrackerMap → ColumnTrackerMap
vary_if_many schema (s ∷ t ∷ ss) m = vary_subject schema m
vary_if_many schema _ m = m
