-- ===== src/Sql/Static/Tracked.antt =====
-- The methods that filter a query keep what its map says true.
pub mod Varying
use embedspicedb.Common.{
  ℕ, ◌≡◌, refl, sym, ap, ◌∙◌, arith, Bool, true, false, ◌&&◌, not, Option, none, some, List, [],
  ◌∷◌, ◌++◌, if◌then◌else◌, inl, inr, Bool-cases,
}
use embedspicedb.Common.Str.{Str, is_empty}
use embedspicedb.Common.GoMap.{lookup}
use embedspicedb.Common.Result.{Result, ok, err, ◌>>=◌, >>=-eq-ok, ok_inj, fail_if}
use embedspicedb.Memdb.Filter.{
  SubjectsSelector, RelationshipsFilter, CaveatNameFilter, caveat_none, has_matching_caveat,
  no_caveat, ExpirationFilterOption, expiration_none, has_expiration, no_expiration, is_empty_list,
}
use embedspicedb.Sql.{
  SchemaInformation, Condition, eq, eq_null, not_null, in_list, like, and_of, or_of,
  ColumnTrackerMap, SchemaQueryFilterer, new_for_relationships_select, record_column_value,
  record_varying_column_value, static_value,
}
use embedspicedb.Sql.Filters.{
  SqlError, bug_empty_resource_id, record_values, Clause, restricted, equal_to,
  filter_to_resource_type, filter_to_resource_id, filter_to_relation, filter_with_caveat_name,
  filter_with_no_caveat, filter_to_resource_ids, filter_with_resource_id_prefix,
  build_like_prefix_clause, bug_ids_and_prefix, filter_with_subjects_selectors,
  filter_with_relationships_filter, when_so, caveat_restricted, expiration_restricted,
  filter_if_selectors, selectors_clause, selector_clause, vary_if_many, vary_subject,
}
use embedspicedb.Sql.Meaning.{
  Row, SqlLaws, meets, all_hold, all_hold-append, holds-or_of, holds-and_of,
}
use embedspicedb.Sql.Static.{Sound, Sound-weaken, record_varying-Sound}
use embedspicedb.Sql.Static.Selectors.{
  equal-Sound, varying-Sound, in_list-Sound, selector_clause-Sound, Kept,
}
use embedspicedb.Sql.Static.Tracked.Varying.{
  Same, Varied, selectors_clause-lookup, vary_subject-Varied,
}

-- The map after the selectors, on the rows that meet one of their clauses.
Same-Sound : (m n : ColumnTrackerMap) (P : Row → Type 0) → Same m n → Sound m P → Sound n P
Same-Sound m n P same s c v h r q = s c v (ground (arith, same c, h)) r q

vary_subject-Sound :
    (schema : SchemaInformation) (m : ColumnTrackerMap) (P : Row → Type 0)
    → Sound m P
    → Sound (vary_subject schema m) P
vary_subject-Sound schema m P s =
    let one = record_varying_column_value schema.col_userset_namespace m in
    let two = record_varying_column_value schema.col_userset_object_id one in
    record_varying-Sound schema.col_userset_relation two P (
      record_varying-Sound schema.col_userset_object_id one P
        (record_varying-Sound schema.col_userset_namespace m P s))

abbrev Rows : Row → Type 0
Rows r = Unit {0}

module _ {holds : Condition → Row → Bool} (laws : SqlLaws holds) {E : Type 0} where
  -- A column with one value in the map has that value in each row that the query gives.
  abbrev pub Tracked : SchemaQueryFilterer E → Type 0
  Tracked q = Sound q.filtering_column_tracker (λ r. meets holds q r ≡ true)

  Tracked-Kept :
      (q : SchemaQueryFilterer E)
      → Tracked q
      → Sound q.filtering_column_tracker (Kept laws Rows q.query_builder.where_parts)
  Tracked-Kept q t =
      Sound-weaken q.filtering_column_tracker (λ r. meets holds q r ≡ true)
        (Kept laws Rows q.query_builder.where_parts) t (λ r k. k.1)

  Kept-Tracked :
      (q : SchemaQueryFilterer E)
      → Sound q.filtering_column_tracker (Kept laws Rows q.query_builder.where_parts)
      → Tracked q
  Kept-Tracked q s =
      Sound-weaken q.filtering_column_tracker (Kept laws Rows q.query_builder.where_parts)
        (λ r. meets holds q r ≡ true) s (λ r h. (tt, h))

  pub equal_to-Tracked :
      (c v : Str) (q : SchemaQueryFilterer E) → Tracked q → Tracked (equal_to c v q)
  equal_to-Tracked c v q t = Kept-Tracked (equal_to c v q) (
      equal-Sound laws Rows q.query_builder.where_parts c v q.filtering_column_tracker
        (Tracked-Kept q t))

  -- A condition alone takes rows away.
  pub restricted-Tracked :
      (c : Condition) (q : SchemaQueryFilterer E)
      → Tracked q
      → Tracked (restricted c q.filtering_column_tracker q)
  restricted-Tracked c q t d v h r m =
      t d v h r (ground (arith, m, all_hold-append holds q.query_builder.where_parts (c ∷ []) r))

  pub no_caveat-Tracked :
      (q : SchemaQueryFilterer E) → Tracked q → Tracked (filter_with_no_caveat q)
  unfolding filter_with_no_caveat
  no_caveat-Tracked q t = Kept-Tracked (filter_with_no_caveat q) (
      varying-Sound laws Rows q.query_builder.where_parts
        (or_of (eq_null q.schema.col_caveat_name ∷ eq q.schema.col_caveat_name [] ∷ []))
        q.schema.col_caveat_name q.filtering_column_tracker (Tracked-Kept q t))

  pub resource_ids-Tracked :
      (ids : List Str) (q s : SchemaQueryFilterer E)
      → filter_to_resource_ids ids q ≡ ok s
      → Tracked q
      → Tracked s
  unfolding filter_to_resource_ids
  resource_ids-Tracked ids q s h t =
      let (m, e, h1) =
        >>=-eq-ok
          (record_values bug_empty_resource_id q.schema.col_object_id ids
            q.filtering_column_tracker)
          _ h in
      rw (← ok_inj h1) (
        Kept-Tracked (restricted (in_list q.schema.col_object_id ids) m q) (
          in_list-Sound laws Rows bug_empty_resource_id q.query_builder.where_parts
            q.schema.col_object_id ids q.filtering_column_tracker m e (Tracked-Kept q t)))

  pub prefix-Tracked :
      (prefix : Str) (q s : SchemaQueryFilterer E)
      → filter_with_resource_id_prefix prefix q ≡ ok s
      → Tracked q
      → Tracked s
  unfolding filter_with_resource_id_prefix
  prefix-Tracked prefix q s h t =
      let (pattern, e, h1) = >>=-eq-ok (build_like_prefix_clause prefix) _ h in
      rw (← ok_inj h1) (restricted-Tracked (like q.schema.col_object_id pattern) q t)

  clauses-Sound :
      (q : SchemaQueryFilterer E) (ss : List SubjectsSelector) (out : Clause)
      → selectors_clause q.schema ss [] (vary_if_many q.schema ss q.filtering_column_tracker)
        ≡ ok out
      → Tracked q
      → Sound out.1 (λ r. (meets holds q r ≡ true) × (holds (or_of out.0) r ≡ true))
  clauses-Sound q [] out h t = rw (← ok_inj h) (
      Sound-weaken q.filtering_column_tracker (λ r. meets holds q r ≡ true)
        (λ r. (meets holds q r ≡ true) × (holds (or_of []) r ≡ true)) t (λ r g. g.0))
  clauses-Sound q (s ∷ []) out h t =
      let (k, e, h1) = >>=-eq-ok (selector_clause q.schema s q.filtering_column_tracker) _ h in
      let sound =
        selector_clause-Sound laws (λ r. meets holds q r ≡ true) q.schema s
          q.filtering_column_tracker k e t in
      rw (← ok_inj h1) (
        Sound-weaken k.1 (Kept laws (λ r. meets holds q r ≡ true) k.0)
          (λ r. (meets holds q r ≡ true) × (holds (or_of (and_of k.0 ∷ [])) r ≡ true)) sound
          (λ r g. (
            g.0,
            ground (arith, g.1, holds-or_of laws (and_of k.0 ∷ []) r, holds-and_of laws k.0 r),
          )))
  clauses-Sound q (s ∷ u ∷ ss) out h t =
      let varied = vary_subject q.schema q.filtering_column_tracker in
      Sound-weaken out.1 (λ r. meets holds q r ≡ true)
        (λ r. (meets holds q r ≡ true) × (holds (or_of out.0) r ≡ true))
        (Same-Sound varied out.1 (λ r. meets holds q r ≡ true)
          (selectors_clause-lookup q.schema (s ∷ u ∷ ss) [] varied out
            (vary_subject-Varied q.schema q.filtering_column_tracker) h)
          (vary_subject-Sound q.schema q.filtering_column_tracker (λ r. meets holds q r ≡ true) t))
        (λ r g. g.0)

  pub selectors-Tracked :
      (ss : List SubjectsSelector) (q s : SchemaQueryFilterer E)
      → filter_with_subjects_selectors ss q ≡ ok s
      → Tracked q
      → Tracked s
  unfolding filter_with_subjects_selectors
  selectors-Tracked ss q s h t =
      let (out, e, h1) =
        >>=-eq-ok
          (selectors_clause q.schema ss [] (vary_if_many q.schema ss q.filtering_column_tracker)) _
          h in
      rw (← ok_inj h1) (λ c v k r m.
        clauses-Sound q ss out e t c v k r (
          ground
            (arith, m, all_hold-append holds q.query_builder.where_parts (or_of out.0 ∷ []) r)))
