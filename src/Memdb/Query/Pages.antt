-- ===== src/Memdb/Query/Pages.antt =====
-- Paging: what a query gives after a cursor is the rest of what it gives without one.
use embedspicedb.Common.{
  ◌≡◌, ◌≢◌, refl, ap, sym, ◌∙◌, Bool, false, Option, none, some, List, [], ◌∷◌, ◌++◌, arith, map,
  filter,
}
use embedspicedb.Common.Int.{ℤ}
use embedspicedb.Common.Sort.{sort_slice, sort_slice-IsSorted, IsSorted}
use embedspicedb.Common.Sort.Filter.{sort_slice-Pairwise, filter-sort_slice}
use embedspicedb.Common.Result.{Result, ok, err, >>=-eq-ok}
use embedspicedb.Memdb.{Params, Relationship, TupleRelationship}
use embedspicedb.Memdb.Filter.{RelationshipsFilter, RelationshipReference, by_subject}
use embedspicedb.Memdb.Table.{Table, IndexQuery}
use embedspicedb.Memdb.Query.{
  MemdbReader, QueryOptions, coalesce, subject_less, limited, passing, query_relationships,
  subject_sorted_iterator, start, reader_result, iterator_for_filter, sorted_iterator,
  cursor_unsorted,
}
use embedspicedb.Memdb.Query.Order.{subject_key, reference, subject_less-IsStrictWeak}
use embedspicedb.Memdb.Query.Coalesce.{
  from, passing-from, coalesce-filter, rest_after, Distinct, DistinctRows, passing-DistinctRows,
  coalesce-Distinct,
}

map-ok_inj :
    {A : Type 0} (xs ys : List A)
    → Path (List (Result (Unit {0}) A)) (map ok xs) (map ok ys)
    → xs ≡ ys
map-ok_inj [] [] h = refl
map-ok_inj [] (y ∷ ys) h = ground arith
map-ok_inj (x ∷ xs) [] h = ground arith
map-ok_inj (x ∷ xs) (y ∷ ys) h = ground (arith, map-ok_inj xs ys)

-- The whole answer in the order of the subjects.
abbrev pub all_of : QueryOptions → QueryOptions
all_of opts = record opts { limit = none; after = none; sort = by_subject }

module _ {p : Params} {Txn E : Type 0} (db : Table p Txn E) where
  -- What paging asks of the table: an index lists a row once.
  pub record ListsOnce : Type 0 where
    pub get-DistinctRows :
        (q : IndexQuery) (tx : Txn) (rows : List (Relationship p))
        → db.get q tx ≡ ok rows
        → DistinctRows rows

  sorted_by_subject :
      (after : Option RelationshipReference) → cursor_unsorted after by_subject ≡ false
  sorted_by_subject none = refl
  sorted_by_subject (some after) = refl

  reader_inverse : {A : Type 0} (m : Result E A) (a : A) → reader_result m ≡ ok a → m ≡ ok a
  reader_inverse (ok b) a h = ground arith
  reader_inverse (err e) a h = ground arith

  coalesced :
      (now : ℤ) (sc se : Bool) (rows : List (Relationship p))
      (out : List (Result (Unit {0}) (TupleRelationship p)))
      → sorted_iterator {E = E} now
          (record {
            limit = none;
            after = none;
            sort = by_subject;
            skip_caveats = sc;
            skip_expiration = se;
          })
          by_subject
          rows
        ≡ ok out
      → (results : List (TupleRelationship p)) × (coalesce now sc se rows ≡ ok results)
        × (out ≡ map ok (sort_slice subject_less results))
  unfolding subject_sorted_iterator
  coalesced now sc se rows out h = go (coalesce now sc se rows) refl
    where
      go :
          (c : Result (Unit {0}) (List (TupleRelationship p)))
          → coalesce now sc se rows ≡ c
          → (results : List (TupleRelationship p)) × (c ≡ ok results)
            × (out ≡ map ok (sort_slice subject_less results))
      go (ok results) q = (results, refl, ground arith)
      go (err e) q = ground arith

  -- A query by subject in steps, and back.
  query_by_subject :
      (r : MemdbReader Txn E) (f : RelationshipsFilter) (opts : QueryOptions)
      (after : Option RelationshipReference) (tx : Txn) (rows : List (Relationship p))
      (results : List (TupleRelationship p))
      → start db r ≡ ok tx
      → db.get (iterator_for_filter f) tx ≡ ok rows
      → coalesce r.now opts.skip_caveats opts.skip_expiration (passing f (from after opts) rows)
        ≡ ok results
      → query_relationships db r f (from after opts)
        ≡ ok (map ok (limited opts.limit (sort_slice subject_less results)))
  unfolding query_relationships subject_sorted_iterator
  query_by_subject r f opts after tx rows results e1 e2 e3 = ground (arith, sorted_by_subject after)

  query_by_subject_inverse :
      (r : MemdbReader Txn E) (f : RelationshipsFilter) (opts : QueryOptions)
      (out : List (Result (Unit {0}) (TupleRelationship p)))
      → query_relationships db r f (all_of opts) ≡ ok out
      → (tx : Txn) × (rows : List (Relationship p)) × (results : List (TupleRelationship p))
        × (start db r ≡ ok tx)
        × (db.get (iterator_for_filter f) tx ≡ ok rows)
        × (coalesce r.now opts.skip_caveats opts.skip_expiration (passing f (all_of opts) rows)
            ≡ ok results)
        × (out ≡ map ok (sort_slice subject_less results))
  unfolding query_relationships subject_sorted_iterator
  query_by_subject_inverse r f opts out h =
      let (tx, e1, h1) = >>=-eq-ok (start db r) _ h in
      let (rows, e2, h2) = >>=-eq-ok (reader_result (db.get (iterator_for_filter f) tx)) _ h1 in
      let (results, e3, shown) =
        coalesced r.now opts.skip_caveats opts.skip_expiration (passing f (all_of opts) rows) out
          (ground arith) in
      (tx, rows, results, e1, reader_inverse (db.get (iterator_for_filter f) tx) rows e2, e3, shown)

  -- Where an index lists a row once, a query by subject from the start gives the first of all its
  -- answers, as many as the limit allows, and the query from any one of these answers on gives the
  -- first of those that follow it: no answer is given twice and none is left out.
  pub query_relationships_pages :
      (r : MemdbReader Txn E) (f : RelationshipsFilter) (opts : QueryOptions)
      (xs ys : List (TupleRelationship p)) (t : TupleRelationship p)
      → ListsOnce
      → query_relationships db r f (all_of opts) ≡ ok (map ok (xs ++ t ∷ ys))
      → (query_relationships db r f (from none opts)
          ≡ ok (map ok (limited opts.limit (xs ++ t ∷ ys))))
        × (query_relationships db r f (from (some (reference t)) opts)
            ≡ ok (map ok (limited opts.limit ys)))
  query_relationships_pages r f opts xs ys t once h =
      let (tx, rows, results, e1, e2, e3, same) = query_by_subject_inverse r f opts _ h in
      let listed = map-ok_inj (sort_slice subject_less results) (xs ++ t ∷ ys) (sym same) in
      let distinct : Distinct (xs ++ t ∷ ys) = rw (← listed) (
        sort_slice-Pairwise (λ a b. subject_key a ≢ subject_key b) (λ a b g k. g (sym k))
          subject_less results
          (coalesce-Distinct r.now opts.skip_caveats opts.skip_expiration
            (passing f (all_of opts) rows) results e3
            (passing-DistinctRows f (all_of opts) rows
              (once.get-DistinctRows (iterator_for_filter f) tx rows e2)))) in
      let sorted : IsSorted subject_less (xs ++ t ∷ ys) =
        rw (← listed) (sort_slice-IsSorted subject_less subject_less-IsStrictWeak results) in
      let cursor_rows =
        ap (coalesce r.now opts.skip_caveats opts.skip_expiration) (passing-from f opts t rows)
        ∙ coalesce-filter r.now opts.skip_caveats opts.skip_expiration t
            (passing f (from none opts) rows) results e3 in
      let after_t : filter (λ rt. subject_less t rt) (sort_slice subject_less results) ≡ ys =
        rw listed (rest_after xs ys t sorted distinct) in
      let rest =
        sym (
          filter-sort_slice subject_less subject_less-IsStrictWeak (λ rt. subject_less t rt)
            results)
        ∙ after_t in
      (
        rw (← listed) (query_by_subject r f opts none tx rows results e1 e2 e3),
        query_by_subject r f opts (some (reference t)) tx rows
              (filter (λ rt. subject_less t rt) results) e1 e2 cursor_rows
            ∙ ap (λ all. ok (map ok (limited opts.limit all))) rest,
      )
