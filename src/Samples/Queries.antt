-- ===== src/Samples/Queries.antt =====
-- Queries of a table that lists two rows.
use embedspicedb.Common.{
  ℕ, ◌≡◌, refl, List, [], ◌∷◌, ◌++◌, none, some, map, arith, if◌then◌else◌, true, false, Option,
}
use embedspicedb.Common.Int.{pos}
use embedspicedb.Common.Str.{Str, bytes}
use embedspicedb.Common.Sort.{sort_slice}
use embedspicedb.Common.Result.{ok}
use embedspicedb.Memdb.{Params, Relationship, TupleRelationship, relationship, row_of}
use embedspicedb.Memdb.Filter.{filter_func_for_filters, must_make_cursor_filter_fn, by_subject}
use embedspicedb.Memdb.Table.{Table}
use embedspicedb.Memdb.Query.{
  MemdbReader, QueryOptions, query_relationships, limited, visible, coalesce,
  subject_sorted_iterator, start,
}
use embedspicedb.Memdb.Query.Order.{reference}
use embedspicedb.Memdb.Query.Coalesce.{from}
use embedspicedb.Memdb.Query.Pages.{all_of, ListsOnce, query_relationships_pages}
use embedspicedb.Samples.Tables.{numbers, viewer, docs}

abbrev two : List (Relationship numbers)
two = row_of numbers (viewer (bytes "bob")) ∷ row_of numbers (viewer (bytes "ann")) ∷ []

abbrev listing : Table numbers (Unit {0}) Str
listing = record {
  first = λ k t. ok none;
  insert = λ r t. ok t;
  delete = λ r t. ok t;
  get = λ q t. ok two;
}

two-ListsOnce : ListsOnce listing
unfolding row_of
two-ListsOnce = record { get-DistinctRows = λ q tx rows h. ground arith }

abbrev reader : MemdbReader (Unit {0}) Str
reader = record { locked = false; tx_source = ok tt; init_err = none; now = pos 3 }

abbrev first_page : QueryOptions
first_page = record {
  limit = some 1;
  after = none;
  sort = by_subject;
  skip_caveats = false;
  skip_expiration = false;
}

all_run :
    query_relationships listing reader docs (all_of first_page)
    ≡ ok (map ok ([] ++ viewer (bytes "ann") ∷ viewer (bytes "bob") ∷ []))
unfolding query_relationships start embedspicedb.Common.Str.str_eq
    embedspicedb.Memdb.Filter.apply_subject_selector embedspicedb.Common.Sort.insert_sorted
    embedspicedb.Common.Str.str_lt subject_sorted_iterator coalesce visible relationship row_of
    filter_func_for_filters sort_slice must_make_cursor_filter_fn
all_run = refl

query_relationships_pages_example :
    (query_relationships listing reader docs (from none first_page)
      ≡ ok (map ok (limited (some 1) ([] ++ viewer (bytes "ann") ∷ viewer (bytes "bob") ∷ []))))
    × (query_relationships listing reader docs
          (from (some (reference (viewer (bytes "ann")))) first_page)
        ≡ ok (map ok (limited (some 1) (viewer (bytes "bob") ∷ []))))
query_relationships_pages_example =
    query_relationships_pages listing reader docs first_page [] (viewer (bytes "bob") ∷ [])
      (viewer (bytes "ann")) two-ListsOnce all_run
