-- ===== src/Sql/Cursor/Position.antt =====
-- The condition of a cursor against the lexicographic order of the columns that a query is sorted by.
use embedspicedb.Common.{
  ◌≡◌, ◌≢◌, refl, ◌∙◌, arith, Bool, true, false, ◌&&◌, List, [], ◌∷◌, ◌++◌, any, All,
}
use embedspicedb.Common.Str.{Str}
use embedspicedb.Common.Result.{ok}
use embedspicedb.Memdb.Filter.{RelationshipReference, SortOrder}
use embedspicedb.Memdb.Filter.Cursor.{lex_lt}
use embedspicedb.Sql.{
  unknown_pagination, tuple_comparison, expanded_logic_comparison, PaginationFilterType, Condition,
  tuple_gt, or_of, SchemaQueryFilterer,
}
use embedspicedb.Sql.Meaning.{Row, SqlLaws, meets, all_hold, all_hold-append, holds-or_of}
use embedspicedb.Sql.Static.Tracked.{Tracked}
use embedspicedb.Sql.Cursor.{
  tuple_order, NameAndValue, columns_and_values_for_sort, varying, or_clause, after, after_of,
  after_tuple, after_expanded,
}
use embedspicedb.Sql.Cursor.Sorted.{IsFieldOf, columns_and_values_for_sort-tuple_order}
use embedspicedb.Sql.Cursor.Parts.{
  names, values, varying_values, Agrees, HasValues, varying_lex, varying-HasValues, or_clause-lex,
  or_clause-empty,
}

module _ {holds : Condition → Row → Bool} (laws : SqlLaws holds) where
  module _ {E : Type 0} (q : SchemaQueryFilterer E) (r : Row) where
    restricted-meets :
        (c : Condition)
        → all_hold holds (q.query_builder.where_parts ++ c ∷ []) r ≡ (meets holds q r && holds c r)
    restricted-meets c =
        ground (arith, all_hold-append holds q.query_builder.where_parts (c ∷ []) r)

    after_tuple-meets :
        (cavs : List NameAndValue) (ws : List Str)
        → HasValues r cavs ws
        → cavs ≢ []
        → meets holds (after_tuple cavs q) r ≡ (meets holds q r && lex_lt (values cavs) ws)
    after_tuple-meets [] ws h n = ground arith
    after_tuple-meets (cav ∷ cavs) ws h n = ground (
      arith,
      restricted-meets (tuple_gt (names (cav ∷ cavs)) (values (cav ∷ cavs))),
      laws.holds-tuple_gt (names (cav ∷ cavs)) (values (cav ∷ cavs)) ws r h,
    )

    after_expanded-meets :
        (cs : List Condition)
        → cs ≢ []
        → meets holds (after_expanded cs q) r ≡ (meets holds q r && any (λ c. holds c r) cs)
    after_expanded-meets [] n = ground arith
    after_expanded-meets (c ∷ cs) n =
        ground (arith, restricted-meets (or_of (c ∷ cs)), holds-or_of laws (c ∷ cs) r)

    after_of-meets :
        (pagination : PaginationFilterType) (cavs : List NameAndValue) (ws : List Str)
        → pagination ≢ unknown_pagination
        → HasValues r cavs ws
        → varying q.filtering_column_tracker cavs ≢ []
        → meets holds (after_of pagination cavs q) r ≡ (
            meets holds q r
            && lex_lt
                (values (varying q.filtering_column_tracker cavs))
                (varying_values q.filtering_column_tracker cavs ws))
    after_of-meets unknown_pagination cavs ws u h n = ground arith
    after_of-meets tuple_comparison cavs ws u h n =
        after_tuple-meets (varying q.filtering_column_tracker cavs)
          (varying_values q.filtering_column_tracker cavs ws)
          (varying-HasValues q.filtering_column_tracker r cavs ws h) n
    after_of-meets expanded_logic_comparison cavs ws u h n = ground (
      arith,
      after_expanded-meets (or_clause q.filtering_column_tracker [] cavs)
          (λ e. n (or_clause-empty laws q.filtering_column_tracker [] cavs e)),
      or_clause-lex laws q.filtering_column_tracker r [] cavs ws h,
    )

  -- Of the rows that a query gives, a cursor keeps exactly those that come after it in the
  -- lexicographic order of the columns that the query is sorted by, where each has the cursor's field
  -- that it stands for, whether the datastore compares tuples or expands the comparison, though the
  -- columns with a static value are left out of it: where the map is right of the query's rows, the
  -- cursor has its static values, some column of the order varies, and the row has values there.
  pub after-lex_lt :
      {E : Type 0} (cursor : RelationshipReference) (order : SortOrder)
      (q s : SchemaQueryFilterer E) (cavs : List NameAndValue) (r : Row) (ws : List Str)
      → Tracked laws q
      → q.schema.pagination_filter_type ≢ unknown_pagination
      → columns_and_values_for_sort order q.schema cursor ≡ ok cavs
      → Agrees q.filtering_column_tracker cavs
      → varying q.filtering_column_tracker cavs ≢ []
      → HasValues r cavs ws
      → after cursor order q ≡ ok s
      → ((tuple_order order q).query_builder.order_bys ≡ q.query_builder.order_bys ++ names cavs)
        × All (IsFieldOf q.schema cursor) cavs
        × (meets holds s r ≡ (meets holds q r && lex_lt (values cavs) ws))
  unfolding after
  after-lex_lt cursor order q s cavs r ws t u k a n h g =
      let same : s ≡ after_of q.schema.pagination_filter_type cavs q = ground (arith, k, g) in
      let met = after_of-meets q r q.schema.pagination_filter_type cavs ws u h n in
      let (sorted, fields) = columns_and_values_for_sort-tuple_order order cursor q cavs k in
      (sorted, fields, rw same (met ∙ go (meets holds q r) refl))
    where
      go :
          (b : Bool)
          → meets holds q r ≡ b
          → (b
              && lex_lt
                  (values (varying q.filtering_column_tracker cavs))
                  (varying_values q.filtering_column_tracker cavs ws))
            ≡ (b && lex_lt (values cavs) ws)
      go true e = varying_lex q.filtering_column_tracker r cavs ws a h (λ c v f. t c v f r e)
      go false e = refl
