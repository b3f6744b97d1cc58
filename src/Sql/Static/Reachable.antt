-- ===== src/Sql/Static/Reachable.antt =====
-- The filterers that the methods of sql.go make, one call after another.
use embedspicedb.Common.{ℕ, ◌≡◌, arith, Bool, true, false, ◌&&◌, not, some, List, [], ◌∷◌, ◌++◌}
use embedspicedb.Common.Str.{Str, is_empty}
use embedspicedb.Common.GoMap.{lookup}
use embedspicedb.Common.Result.{Result, ok, >>=-eq-ok, ok_inj, fail_if}
use embedspicedb.Memdb.Filter.{
  SubjectsSelector, RelationshipsFilter, CaveatNameFilter, caveat_none, has_matching_caveat,
  no_caveat, ExpirationFilterOption, expiration_none, has_expiration, no_expiration, is_empty_list,
}
use embedspicedb.Sql.{
  SchemaInformation, Condition, eq_null, not_null, SelectBuilder, SchemaQueryFilterer,
  with_additional_filter, new_for_relationships_select, static_value,
}
use embedspicedb.Sql.Filters.{
  SqlError, filter_to_resource_type, filter_to_resource_id, filter_to_relation,
  filter_with_caveat_name, filter_with_no_caveat, filter_to_resource_ids,
  filter_with_resource_id_prefix, bug_ids_and_prefix, filter_with_subjects_selectors,
  filter_with_relationships_filter, when_so, caveat_restricted, expiration_restricted,
  filter_if_selectors,
}
use embedspicedb.Sql.Meaning.{Row, SqlLaws, meets, all_hold-append}
use embedspicedb.Sql.Static.Tracked.{
  Tracked, selectors-Tracked, no_caveat-Tracked, resource_ids-Tracked, prefix-Tracked,
  equal_to-Tracked, restricted-Tracked,
}

-- A filter that a caller gives adds conditions to a query and takes none away.
abbrev pub Restricts : (SelectBuilder → SelectBuilder) → Type 0
Restricts f =
    (b : SelectBuilder) → (cs : List Condition) × ((f b).where_parts ≡ b.where_parts ++ cs)

module _ {E : Type 0} where
  -- The calls that a query is made of. FilterToSubjectFilter is not among them, since its map is wrong.
  pub data Filtered : SchemaQueryFilterer E → Type 0 where
    started :
        (schema : SchemaInformation) (n : ℕ) (fields : List Str)
        → Filtered (new_for_relationships_select schema n fields)
    by_resource_type :
        (t : Str) (q : SchemaQueryFilterer E) → Filtered q → Filtered (filter_to_resource_type t q)
    by_resource_id :
        (i : Str) (q : SchemaQueryFilterer E) → Filtered q → Filtered (filter_to_resource_id i q)
    by_relation :
        (r : Str) (q : SchemaQueryFilterer E) → Filtered q → Filtered (filter_to_relation r q)
    by_caveat_name :
        (n : Str) (q : SchemaQueryFilterer E) → Filtered q → Filtered (filter_with_caveat_name n q)
    by_no_caveat : (q : SchemaQueryFilterer E) → Filtered q → Filtered (filter_with_no_caveat q)
    by_resource_ids :
        (ids : List Str) (q s : SchemaQueryFilterer E)
        → Filtered q
        → filter_to_resource_ids ids q ≡ ok s
        → Filtered s
    by_resource_id_prefix :
        (prefix : Str) (q s : SchemaQueryFilterer E)
        → Filtered q
        → filter_with_resource_id_prefix prefix q ≡ ok s
        → Filtered s
    by_subjects_selectors :
        (ss : List SubjectsSelector) (q s : SchemaQueryFilterer E)
        → Filtered q
        → filter_with_subjects_selectors ss q ≡ ok s
        → Filtered s
    by_relationships_filter :
        (f : RelationshipsFilter) (q s : SchemaQueryFilterer E)
        → Filtered q
        → filter_with_relationships_filter f q ≡ ok s
        → Filtered s
    by_additional_filter :
        (f : SelectBuilder → SelectBuilder) (q : SchemaQueryFilterer E)
        → Restricts f
        → Filtered q
        → Filtered (with_additional_filter f q)

module _ {holds : Condition → Row → Bool} (laws : SqlLaws holds) {E : Type 0} where
  -- Each step of the filter keeps the invariant.
  abbrev Keeps : (SchemaQueryFilterer E → Result SqlError (SchemaQueryFilterer E)) → Type 0
  Keeps f = (q s : SchemaQueryFilterer E) → f q ≡ ok s → Tracked laws q → Tracked laws s

  when_so-Keeps :
      (test : Bool) (f : SchemaQueryFilterer E → Result SqlError (SchemaQueryFilterer E))
      → Keeps f
      → Keeps (when_so test f)
  when_so-Keeps true f k q s h t = k q s h t
  when_so-Keeps false f k q s h t = rw (← ok_inj h) t

  filter_if-Keeps : (ss : List SubjectsSelector) → Keeps (filter_if_selectors ss)
  filter_if-Keeps [] q s h t = rw (← ok_inj h) t
  filter_if-Keeps (u ∷ ss) q s h t = selectors-Tracked laws (u ∷ ss) q s h t

  type-Tracked :
      (v : Str) (q : SchemaQueryFilterer E)
      → Tracked laws q
      → Tracked laws (filter_to_resource_type v q)
  unfolding filter_to_resource_type
  type-Tracked v q t = equal_to-Tracked laws q.schema.col_namespace v q t

  relation-Tracked :
      (v : Str) (q : SchemaQueryFilterer E) → Tracked laws q → Tracked laws (filter_to_relation v q)
  unfolding filter_to_relation
  relation-Tracked v q t = equal_to-Tracked laws q.schema.col_relation v q t

  name-Tracked :
      (v : Str) (q : SchemaQueryFilterer E)
      → Tracked laws q
      → Tracked laws (filter_with_caveat_name v q)
  unfolding filter_with_caveat_name
  name-Tracked v q t = equal_to-Tracked laws q.schema.col_caveat_name v q t

  id-Tracked :
      (v : Str) (q : SchemaQueryFilterer E)
      → Tracked laws q
      → Tracked laws (filter_to_resource_id v q)
  unfolding filter_to_resource_id
  id-Tracked v q t = equal_to-Tracked laws q.schema.col_object_id v q t

  caveat-Tracked :
      (f : CaveatNameFilter) (q : SchemaQueryFilterer E)
      → Tracked laws q
      → Tracked laws (caveat_restricted f q)
  caveat-Tracked caveat_none q t = t
  caveat-Tracked (has_matching_caveat name) q t = name-Tracked name q t
  caveat-Tracked no_caveat q t = no_caveat-Tracked laws q t

  expiration-Tracked :
      (f : ExpirationFilterOption) (q : SchemaQueryFilterer E)
      → Tracked laws q
      → Tracked laws (expiration_restricted f q)
  expiration-Tracked expiration_none q t = t
  expiration-Tracked has_expiration q t =
      restricted-Tracked laws (not_null q.schema.col_expiration) q t
  expiration-Tracked no_expiration q t =
      restricted-Tracked laws (eq_null q.schema.col_expiration) q t

  filter-Tracked : (f : RelationshipsFilter) → Keeps (filter_with_relationships_filter f)
  unfolding filter_with_relationships_filter
  filter-Tracked f q s h t =
      let (a, ea, h1) =
        >>=-eq-ok
          (when_so (not (is_empty f.optional_resource_type))
            (λ c. ok (filter_to_resource_type f.optional_resource_type c)) q)
          _ h in
      let (b, eb, h2) =
        >>=-eq-ok
          (when_so (not (is_empty f.optional_resource_relation))
            (λ c. ok (filter_to_relation f.optional_resource_relation c)) a)
          _ h1 in
      let (u, eu, h3) =
        >>=-eq-ok
          (fail_if
            (not (is_empty_list f.optional_resource_ids)
              && not (is_empty f.optional_resource_id_prefix))
            bug_ids_and_prefix)
          _ h2 in
      let (c, ec, h4) =
        >>=-eq-ok
          (when_so (not (is_empty_list f.optional_resource_ids))
            (filter_to_resource_ids f.optional_resource_ids) b)
          _ h3 in
      let (d, ed, h5) =
        >>=-eq-ok
          (when_so (not (is_empty f.optional_resource_id_prefix))
            (filter_with_resource_id_prefix f.optional_resource_id_prefix) c)
          _ h4 in
      let (g, eg, h6) = >>=-eq-ok (filter_if_selectors f.optional_subjects_selectors d) _ h5 in
      rw (← ok_inj h6) (
        expiration-Tracked f.optional_expiration_option
          (caveat_restricted f.optional_caveat_name_filter g)
          (caveat-Tracked f.optional_caveat_name_filter g (
            filter_if-Keeps f.optional_subjects_selectors d g eg (
              when_so-Keeps (not (is_empty f.optional_resource_id_prefix))
                (filter_with_resource_id_prefix f.optional_resource_id_prefix)
                (prefix-Tracked laws f.optional_resource_id_prefix) c d ed
                (when_so-Keeps (not (is_empty_list f.optional_resource_ids))
                  (filter_to_resource_ids f.optional_resource_ids)
                  (resource_ids-Tracked laws f.optional_resource_ids) b c ec
                  (when_so-Keeps (not (is_empty f.optional_resource_relation))
                    (λ c. ok (filter_to_relation f.optional_resource_relation c))
                    (λ x y e k. rw (← ok_inj e) (relation-Tracked f.optional_resource_relation x k))
                    a b eb
                    (when_so-Keeps (not (is_empty f.optional_resource_type))
                      (λ c. ok (filter_to_resource_type f.optional_resource_type c))
                      (λ x y e k. rw (← ok_inj e) (type-Tracked f.optional_resource_type x k)) q a
                      ea t)))))))

  additional-Tracked :
      (f : SelectBuilder → SelectBuilder) (q : SchemaQueryFilterer E)
      → Restricts f
      → Tracked laws q
      → Tracked laws (with_additional_filter f q)
  unfolding with_additional_filter
  additional-Tracked f q k t c v h r m =
      let (cs, e) = k q.query_builder in
      t c v h r (ground (arith, m, e, all_hold-append holds q.query_builder.where_parts cs r))

  pub Filtered-Tracked : (q : SchemaQueryFilterer E) → Filtered q → Tracked laws q
  unfolding new_for_relationships_select lookup
  Filtered-Tracked q (started schema n fields) = λ c v h r m. ground arith
  Filtered-Tracked q (by_resource_type v s f) = type-Tracked v s (Filtered-Tracked s f)
  Filtered-Tracked q (by_resource_id v s f) = id-Tracked v s (Filtered-Tracked s f)
  Filtered-Tracked q (by_relation v s f) = relation-Tracked v s (Filtered-Tracked s f)
  Filtered-Tracked q (by_caveat_name v s f) = name-Tracked v s (Filtered-Tracked s f)
  Filtered-Tracked q (by_no_caveat s f) = no_caveat-Tracked laws s (Filtered-Tracked s f)
  Filtered-Tracked q (by_resource_ids ids s u f e) =
      resource_ids-Tracked laws ids s q e (Filtered-Tracked s f)
  Filtered-Tracked q (by_resource_id_prefix prefix s u f e) =
      prefix-Tracked laws prefix s q e (Filtered-Tracked s f)
  Filtered-Tracked q (by_subjects_selectors ss s u f e) =
      selectors-Tracked laws ss s q e (Filtered-Tracked s f)
  Filtered-Tracked q (by_relationships_filter g s u f e) =
      filter-Tracked g s q e (Filtered-Tracked s f)
  Filtered-Tracked q (by_additional_filter g s h f) =
      additional-Tracked g s h (Filtered-Tracked s f)

  -- Whichever of the methods that filter resources, subjects' selectors and caveats are called, or
  -- WithAdditionalFilter with a filter that only adds conditions (FilterToSubjectFilter is not one of
  -- them), and in whatever order, a column that the filterer's
  -- map gives one value has that value in each row that meets the query's conditions; the conditions
  -- mean what SQL documents.
  pub static_value-meets :
      (q : SchemaQueryFilterer E) (column value : Str) (r : Row)
      → Filtered q
      → static_value q.filtering_column_tracker column ≡ some value
      → meets holds q r ≡ true
      → r column ≡ some value
  static_value-meets q column value r f h m = Filtered-Tracked q f column value h r m
