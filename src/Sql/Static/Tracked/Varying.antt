-- ===== src/Sql/Static/Tracked/Varying.antt =====
-- Where the columns of the subject vary, the clauses of the selectors leave the map as it is.
use embedspicedb.Common.{◌≡◌, refl, sym, ap, ◌∙◌, arith, none, some, List, [], ◌∷◌, ◌++◌}
use embedspicedb.Common.Str.{Str, str_eq_iff, str_Eq}
use embedspicedb.Common.GoMap.{lookup, lookup-insert}
use embedspicedb.Common.Result.{ok, >>=-eq-ok, ok_inj}
use embedspicedb.Memdb.Filter.{SubjectsSelector, SubjectRelationFilter, selected_relations}
use embedspicedb.Sql.{
  SchemaInformation, Condition, eq, and_of, ColumnTrackerMap, record_column_value,
  record_varying_column_value,
}
use embedspicedb.Sql.Filters.{
  SqlError, bug_empty_subject_id, record_values, Clause, or_ellipsis, relations_clause, one_or_more,
  relation_clause, type_clause, ids_clause, selector_clause, selectors_clause, vary_subject,
}

abbrev pub Same : ColumnTrackerMap → ColumnTrackerMap → Type 0
Same m n = (d : Str) → lookup d n ≡ lookup d m

abbrev pub VariesAt : Str → ColumnTrackerMap → Type 0
VariesAt c m = lookup c m ≡ some none

pub record Varied (schema : SchemaInformation) (m : ColumnTrackerMap) : Type 0 where
  pub type_varies : VariesAt schema.col_userset_namespace m
  pub id_varies : VariesAt schema.col_userset_object_id m
  pub relation_varies : VariesAt schema.col_userset_relation m

record-same : (c v : Str) (m : ColumnTrackerMap) → VariesAt c m → record_column_value c v m ≡ m
unfolding record_column_value
record-same c v m h = ground arith

values-same :
    (e : SqlError) (c : Str) (vs : List Str) (m n : ColumnTrackerMap)
    → VariesAt c m
    → record_values e c vs m ≡ ok n
    → n ≡ m
values-same e c [] m n h k = ground arith
values-same e c (v ∷ vs) m n h k = ground (arith, record-same c v m h, values-same e c vs m n h)

relations-same :
    (c : Str) (rs : List Str) (cs : List Condition) (m : ColumnTrackerMap)
    → VariesAt c m
    → (relations_clause c rs cs m).1 ≡ m
relations-same c [] cs m h = refl
relations-same c (r ∷ rs) cs m h = ground (
  arith,
  record-same c (or_ellipsis r) m h,
  relations-same c rs (cs ++ eq c (or_ellipsis r) ∷ []) m h,
)

one_or_more-same :
    (c : Str) (rs : List Str) (cs : List Condition) (m : ColumnTrackerMap)
    → VariesAt c m
    → (one_or_more c rs (cs, m)).1 ≡ m
one_or_more-same c [] cs m h = refl
one_or_more-same c (r ∷ []) cs m h = record-same c r m h
one_or_more-same c (r ∷ u ∷ rs) cs m h = relations-same c (r ∷ u ∷ rs) [] m h

varying-Same :
    (c : Str) (m : ColumnTrackerMap) → VariesAt c m → Same m (record_varying_column_value c m)
unfolding record_varying_column_value
varying-Same c m h d = ground (arith, lookup-insert c d none m, str_eq_iff c d)

relation-Same :
    (c : Str) (f : SubjectRelationFilter) (cs : List Condition) (m : ColumnTrackerMap)
    → VariesAt c m
    → Same m (relation_clause c f (cs, m)).1
relation-Same c f cs m h d =
    ground (arith, varying-Same c m h d, one_or_more-same c (selected_relations f) cs m h)

type-same :
    (c type : Str) (cs : List Condition) (m : ColumnTrackerMap)
    → VariesAt c m
    → (type_clause c type (cs, m)).1 ≡ m
type-same c type cs m h = ground (arith, record-same c type m h)

ids-same :
    (c : Str) (ids : List Str) (k out : Clause)
    → VariesAt c k.1
    → ids_clause c ids k ≡ ok out
    → out.1 ≡ k.1
ids-same c [] k out h g = ap (λ x. x.1) (sym (ok_inj g))
ids-same c (v ∷ vs) (cs, m) out h g =
    let (n, e, h1) = >>=-eq-ok (record_values bug_empty_subject_id c (v ∷ vs) m) _ g in
    ap (λ x. x.1) (sym (ok_inj h1)) ∙ values-same bug_empty_subject_id c (v ∷ vs) m n h e

selector_clause-Same :
    (schema : SchemaInformation) (s : SubjectsSelector) (m : ColumnTrackerMap) (out : Clause)
    → Varied schema m
    → selector_clause schema s m ≡ ok out
    → Same m out.1
unfolding selector_clause
selector_clause-Same schema s m out v h =
    let typed = type_clause schema.col_userset_namespace s.optional_subject_type ([], m) in
    let t = type-same schema.col_userset_namespace s.optional_subject_type [] m v.type_varies in
    let (k, e, h1) =
      >>=-eq-ok (ids_clause schema.col_userset_object_id s.optional_subject_ids typed) _ h in
    let i =
      ids-same schema.col_userset_object_id s.optional_subject_ids typed k
        (ap (lookup schema.col_userset_object_id) t ∙ v.id_varies) e
      ∙ t in
    λ d. rw (← ok_inj h1) (
      relation-Same schema.col_userset_relation s.relation_filter k.0 k.1
        (ap (lookup schema.col_userset_relation) i ∙ v.relation_varies) d
      ∙ ap (lookup d) i)

pub selectors_clause-lookup :
    (schema : SchemaInformation) (ss : List SubjectsSelector) (cs : List Condition)
    (m : ColumnTrackerMap) (out : Clause)
    → Varied schema m
    → selectors_clause schema ss cs m ≡ ok out
    → Same m out.1
selectors_clause-lookup schema [] cs m out v h d = ap (λ x. lookup d x.1) (sym (ok_inj h))
selectors_clause-lookup schema (s ∷ ss) cs m out v h d =
    let (k, e, h1) = >>=-eq-ok (selector_clause schema s m) _ h in
    let same = selector_clause-Same schema s m k v e in
    selectors_clause-lookup schema ss (cs ++ and_of k.0 ∷ []) k.1 out
      (record {
        type_varies = same schema.col_userset_namespace ∙ v.type_varies;
        id_varies = same schema.col_userset_object_id ∙ v.id_varies;
        relation_varies = same schema.col_userset_relation ∙ v.relation_varies;
      })
      h1 d
    ∙ same d

varied_after :
    (c d : Str) (m : ColumnTrackerMap) → VariesAt d m → VariesAt d (record_varying_column_value c m)
unfolding record_varying_column_value
varied_after c d m h = ground (arith, lookup-insert c d none m)

varied_at : (c : Str) (m : ColumnTrackerMap) → VariesAt c (record_varying_column_value c m)
unfolding record_varying_column_value
varied_at c m = ground (arith, lookup-insert c c none m, str_eq_iff c c)

pub vary_subject-Varied :
    (schema : SchemaInformation) (m : ColumnTrackerMap) → Varied schema (vary_subject schema m)
vary_subject-Varied schema m =
    let one = record_varying_column_value schema.col_userset_namespace m in
    let two = record_varying_column_value schema.col_userset_object_id one in
    record {
      type_varies = varied_after schema.col_userset_relation schema.col_userset_namespace two (
          varied_after schema.col_userset_object_id schema.col_userset_namespace one
            (varied_at schema.col_userset_namespace m));
      id_varies =
          varied_after schema.col_userset_relation schema.col_userset_object_id two
            (varied_at schema.col_userset_object_id one);
      relation_varies = varied_at schema.col_userset_relation two;
    }
