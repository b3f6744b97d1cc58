-- ===== src/Sql/Execute/Reads.antt =====
-- From a filterer to the rows that are read: the methods that filter, ExecuteQuery, and the variables.
use embedspicedb.Common.{
  ◌≡◌, refl, ap, ◌∙◌, arith, Bool, true, Option, none, some, List, [], ◌∷◌, ℕ, length,
}
use embedspicedb.Common.Str.{Str}
use embedspicedb.Common.Result.{ok, >>=-eq-ok, ok_inj, fail_if}
use embedspicedb.Memdb.Filter.{
  RelationshipReference, SortOrder, unsorted, choose_efficient, by_resource, by_subject,
}
use embedspicedb.Memdb.Query.{QueryOptions}
use embedspicedb.Sql.{
  Condition, or_of, tuple_gt, static_value, SchemaQueryFilterer, IndexingHint, PaginationFilterType,
  unknown_pagination, tuple_comparison, expanded_logic_comparison,
}
use embedspicedb.Sql.Filters.{bug_custom_query}
use embedspicedb.Sql.Meaning.{Row, SqlLaws, meets, all_hold, all_hold-append}
use embedspicedb.Sql.Static.Tracked.{Tracked}
use embedspicedb.Sql.Static.Reachable.{Filtered, Filtered-Tracked}
use embedspicedb.Sql.Cursor.{
  NameAndValue, columns_and_values_for_sort, varying, or_clause, after, after_of, after_tuple,
  after_expanded, tuple_order, restricted_by,
}
use embedspicedb.Sql.Columns.{
  RelationshipsQueryBuilder, Field, Vars, column_of, column_names_to_select, columns_to_select,
}
use embedspicedb.Sql.Columns.Rows.{read_row, columns_to_select-column_names_to_select}
use embedspicedb.Sql.Execute.{
  execute_query, chosen_sort, add_cursor, add_limit, add_hints, hinted, first_table, add_prefix,
  add_from, with_suffix,
}

module _ {holds : Condition → Row → Bool} (laws : SqlLaws holds) {E : Type 0} where
  -- The same conditions, and the same map.
  abbrev Alike : SchemaQueryFilterer E → SchemaQueryFilterer E → Type 0
  Alike q s =
      (q.filtering_column_tracker ≡ s.filtering_column_tracker)
      × (q.query_builder.where_parts ≡ s.query_builder.where_parts)

  Alike-Tracked : (q s : SchemaQueryFilterer E) → Alike q s → Tracked laws q → Tracked laws s
  Alike-Tracked q s (same, parts) t c v h r m =
      t c v (ap (λ x. static_value x c) same ∙ h) r (ap (λ x. all_hold holds x r) parts ∙ m)

  tuple_order-Alike :
      (order : SortOrder) (q : SchemaQueryFilterer E) → Alike q (tuple_order order q)
  unfolding tuple_order
  tuple_order-Alike by_resource q = (refl, refl)
  tuple_order-Alike by_subject q = (refl, refl)
  tuple_order-Alike unsorted q = (refl, refl)
  tuple_order-Alike choose_efficient q = (refl, refl)

  restricted_by-Tracked :
      (c : Condition) (q : SchemaQueryFilterer E)
      → Tracked laws q
      → Tracked laws (restricted_by c q)
  restricted_by-Tracked c q t d v h r m =
      t d v h r (ground (arith, m, all_hold-append holds q.query_builder.where_parts (c ∷ []) r))

  after_tuple-Tracked :
      (cavs : List NameAndValue) (q : SchemaQueryFilterer E)
      → Tracked laws q
      → Tracked laws (after_tuple cavs q)
  after_tuple-Tracked [] q t = t
  after_tuple-Tracked (cav ∷ cavs) q t = restricted_by-Tracked (tuple_gt _ _) q t

  after_expanded-Tracked :
      (cs : List Condition) (q : SchemaQueryFilterer E)
      → Tracked laws q
      → Tracked laws (after_expanded cs q)
  after_expanded-Tracked [] q t = t
  after_expanded-Tracked (c ∷ cs) q t = restricted_by-Tracked (or_of (c ∷ cs)) q t

  after_of-Tracked :
      (pagination : PaginationFilterType) (cavs : List NameAndValue) (q : SchemaQueryFilterer E)
      → Tracked laws q
      → Tracked laws (after_of pagination cavs q)
  after_of-Tracked tuple_comparison cavs q t =
      after_tuple-Tracked (varying q.filtering_column_tracker cavs) q t
  after_of-Tracked expanded_logic_comparison cavs q t =
      after_expanded-Tracked (or_clause q.filtering_column_tracker [] cavs) q t
  after_of-Tracked unknown_pagination cavs q t = t

  after-Tracked :
      (cursor : RelationshipReference) (order : SortOrder) (q s : SchemaQueryFilterer E)
      → after cursor order q ≡ ok s
      → Tracked laws q
      → Tracked laws s
  unfolding after
  after-Tracked cursor order q s h t =
      let (cavs, e, h1) = >>=-eq-ok (columns_and_values_for_sort order q.schema cursor) _ h in
      rw (← ok_inj h1) (after_of-Tracked q.schema.pagination_filter_type cavs q t)

  add_cursor-Tracked :
      (cursor : Option RelationshipReference) (order : SortOrder) (q s : SchemaQueryFilterer E)
      → add_cursor cursor order q ≡ ok s
      → Tracked laws q
      → Tracked laws s
  unfolding add_cursor
  add_cursor-Tracked none order q s h t = rw (← ok_inj h) t
  add_cursor-Tracked (some c) unsorted q s h t = ground arith
  add_cursor-Tracked (some c) choose_efficient q s h t = after-Tracked c choose_efficient q s h t
  add_cursor-Tracked (some c) by_resource q s h t = after-Tracked c by_resource q s h t
  add_cursor-Tracked (some c) by_subject q s h t = after-Tracked c by_subject q s h t

  add_limit-Alike : (limit : Option ℕ) (q : SchemaQueryFilterer E) → Alike q (add_limit limit q)
  add_limit-Alike none q = (refl, refl)
  add_limit-Alike (some l) q = ground arith

  add_prefix-Alike : (prefix : Str) (q : SchemaQueryFilterer E) → Alike q (add_prefix prefix q)
  add_prefix-Alike [] q = (refl, refl)
  add_prefix-Alike (c ∷ prefix) q = (refl, refl)

  add_hints-Alike :
      (hint : Option (IndexingHint E)) (from table : Str) (q s : SchemaQueryFilterer E)
      → add_hints hint from q ≡ ok (table, s)
      → Alike q s
  add_hints-Alike none from table q s h = rw (← ap (λ x. x.1) (ok_inj h)) (refl, refl)
  add_hints-Alike (some hint) from table q s h =
      let (prefix, e1, h1) = >>=-eq-ok (hinted hint.sql_prefix) _ h in
      let (base, e2, h2) = >>=-eq-ok (hinted (hint.from_table from)) _ h1 in
      let (suffix, e3, h3) = >>=-eq-ok (hinted hint.from_sql_suffix) _ h2 in
      rw (← ap (λ x. x.1) (ok_inj h3)) (add_prefix-Alike prefix q)

  -- What ExecuteQuery hands to the executor.
  Handed : RelationshipsQueryBuilder E → Type 0
  Handed b =
      (b.filtering_values ≡ b.base_query_builder.filtering_column_tracker)
      × Tracked laws b.base_query_builder

  execute_query-Handed :
      (q : SchemaQueryFilterer E) (opts : QueryOptions) (b : RelationshipsQueryBuilder E)
      → execute_query q opts ≡ ok b
      → Tracked laws q
      → Handed b
  unfolding execute_query Handed
  execute_query-Handed q opts b h t =
      let sort = chosen_sort opts.sort q.indexing_hint in
      let (u, e0, h0) = >>=-eq-ok (fail_if q.is_custom_query bug_custom_query) _ h in
      let (positioned, e1, h1) = >>=-eq-ok (add_cursor opts.after sort (tuple_order sort q)) _ h0 in
      let bounded = add_limit opts.limit positioned in
      let ((table, prefixed), e2, h2) =
        >>=-eq-ok (add_hints bounded.indexing_hint (first_table bounded) bounded) _ h1 in
      let final = add_from (with_suffix prefixed.from_suffix table) prefixed in
      let ordered = Alike-Tracked q (tuple_order sort q) (tuple_order-Alike sort q) t in
      let put = add_cursor-Tracked opts.after sort (tuple_order sort q) positioned e1 ordered in
      let limited = Alike-Tracked positioned bounded (add_limit-Alike opts.limit positioned) put in
      let hinted_so =
        Alike-Tracked bounded prefixed
          (add_hints-Alike bounded.indexing_hint (first_table bounded) table bounded prefixed e2)
          limited in
      rw (← ok_inj h2) (refl, Alike-Tracked prefixed final (refl, refl) hinted_so)

  -- Whatever methods filtered a query, FilterToSubjectFilter aside, and with additional filters that
  -- only add conditions, when it is executed with whatever options, the columns that it selects are as many as the variables they are scanned into, and
  -- reading a row that meets the query's conditions gives the six fields of the relationship their
  -- values in that row, though the columns that have one value in the query may be left out; the
  -- conditions mean what SQL documents, and the row has a value in each of the six columns.
  pub execute_query-read_row :
      (q : SchemaQueryFilterer E) (opts : QueryOptions) (b : RelationshipsQueryBuilder E) (r : Row)
      (vars : Vars)
      → Filtered q
      → execute_query q opts ≡ ok b
      → meets holds b.base_query_builder r ≡ true
      → ((f : Field) → (v : Str) × (r (column_of b.schema f) ≡ some v))
      → (length (column_names_to_select b) ≡ length (columns_to_select b vars).1)
        × ((f : Field) → r (column_of b.schema f) ≡ some (read_row b r vars f))
  unfolding Handed
  execute_query-read_row q opts b r vars f h m values =
      let (same, tracked) = execute_query-Handed q opts b h (Filtered-Tracked laws q f) in
      columns_to_select-column_names_to_select laws b r vars same tracked m values
