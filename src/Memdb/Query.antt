-- ===== src/Memdb/Query.antt =====
-- readonly.go: the queries of relationships and their iterators. A query gives the values that its
-- iterator yields to a consumer that takes them all; a row whose caveat does not convert is an error
-- among them.
pub mod Order
pub mod Coalesce
pub mod Pages
use embedspicedb.Common.{
  ℕ, zero, suc, Bool, true, false, ◌&&◌, ◌||◌, not, Option, none, some, List, [], ◌∷◌, map, filter,
  take, leb, is_some, if◌then◌else◌,
}
use embedspicedb.Common.Int.{ℤ, ltb_ℤ}
use embedspicedb.Common.Str.{Str, is_empty}
use embedspicedb.Common.Sort.{sort_slice}
use embedspicedb.Common.Result.{Result, ok, err, ◌>>=◌, ◌>>◌, fail_if}
use embedspicedb.Memdb.{Params, Relationship, TupleRelationship, relationship}
use embedspicedb.Memdb.Table.{
  Table, IndexQuery, namespace_prefix, by_namespace, by_namespace_and_relation,
  by_subject_namespace,
}
use embedspicedb.Memdb.Filter.{
  RelationshipsFilter, RelationshipReference, SubjectsSelector, SortOrder, unsorted,
  choose_efficient, by_resource, by_subject, caveat_none, expiration_none, less, eq,
  filter_func_for_filters, must_make_cursor_filter_fn,
}

pub data QueryError (E : Type 0) : Type 0 where
  reader_error : E → QueryError E
  cursors_without_sorting caveat_context_invalid : QueryError E
  concurrent_use_panic : QueryError E

-- memdbReader: `locked` is whether another call holds its lock, `tx_source` what that gives.
pub record MemdbReader (Txn E : Type 0) : Type 0 where
  pub locked : Bool
  pub tx_source : Result E Txn
  pub init_err : Option E
  pub now : ℤ

-- options.QueryOptions, of the direction that is asked.
pub record QueryOptions : Type 0 where
  pub limit : Option ℕ
  pub after : Option RelationshipReference
  pub sort : SortOrder
  pub skip_caveats : Bool
  pub skip_expiration : Bool

-- `limit != nil && count >= *limit`
abbrev pub limit_reached : Option ℕ → ℕ → Bool
limit_reached none count = false
limit_reached (some limit) count = leb limit count

abbrev pub expired : Option ℤ → ℤ → Bool
expired none now = false
expired (some expiration) now = ltb_ℤ expiration now

-- iteratorForFilter: the index and its arguments.
unfoldable pub iterator_for_filter : RelationshipsFilter → IndexQuery
iterator_for_filter f =
    if is_empty f.optional_resource_type
    then namespace_prefix f.optional_resource_type
    else if is_empty f.optional_resource_relation
    then by_namespace f.optional_resource_type
    else by_namespace_and_relation f.optional_resource_type f.optional_resource_relation

-- `if limit != nil && uint64(len(results)) > *limit { results = results[0:*limit] }`
abbrev pub limited {ℓ} : {A : Type ℓ} → Option ℕ → List A → List A
limited none results = results
limited (some limit) results = take limit results

module _ {p : Params} where
  -- A relationship that the iterators do not leave out.
  unfoldable pub visible : ℤ → Bool → Bool → TupleRelationship p → Bool
  visible now skip_caveats skip_expiration rt =
      not (expired rt.optional_expiration now)
      && not (skip_caveats && is_some rt.optional_caveat)
      && not (skip_expiration && is_some rt.optional_expiration)

  unfoldable pub memdb_tuple_iterator :
      ℤ
      → Option ℕ
      → Bool
      → Bool
      → ℕ
      → List (Relationship p)
      → List (Result (Unit {0}) (TupleRelationship p))
  memdb_tuple_iterator now limit skip_caveats skip_expiration count [] = []
  memdb_tuple_iterator now limit skip_caveats skip_expiration count (row ∷ rows) =
      let yielded = memdb_tuple_iterator now limit skip_caveats skip_expiration (suc count) rows in
      let passed = memdb_tuple_iterator now limit skip_caveats skip_expiration count rows in
      if limit_reached limit count then [] else elim (relationship p row) [
        | err e ↦ err e ∷ passed
        | ok rt ↦ if visible now skip_caveats skip_expiration rt then ok rt ∷ yielded else passed
      ]

  -- The loop that coalesces the results into memory.
  unfoldable pub coalesce :
      ℤ → Bool → Bool → List (Relationship p) → Result (Unit {0}) (List (TupleRelationship p))
  coalesce now skip_caveats skip_expiration [] = ok []
  coalesce now skip_caveats skip_expiration (row ∷ rows) =
      let rest = coalesce now skip_caveats skip_expiration rows in
      relationship p row >>= λ rt. rest >>= λ results.
      ok (if visible now skip_caveats skip_expiration rt then rt ∷ results else results)

  abbrev pub subject_less : TupleRelationship p → TupleRelationship p → Bool
  subject_less lhs rhs =
      less lhs.subject.object_type lhs.subject.object_id lhs.subject.relation rhs.subject
      || (eq lhs.subject.object_type lhs.subject.object_id lhs.subject.relation rhs.subject
          && less lhs.resource.object_type lhs.resource.object_id lhs.resource.relation
              rhs.resource)

  unfoldable pub subject_sorted_iterator :
      ℤ
      → Option ℕ
      → Bool
      → Bool
      → List (Relationship p)
      → Result (Unit {0}) (List (TupleRelationship p))
  subject_sorted_iterator now limit skip_caveats skip_expiration rows =
      coalesce now skip_caveats skip_expiration rows >>= λ results.
      ok (limited limit (sort_slice subject_less results))

  abbrev pub tuple_iterator :
      {E : Type 0}
      → ℤ
      → QueryOptions
      → List (Relationship p)
      → Result (QueryError E) (List (Result (Unit {0}) (TupleRelationship p)))
  tuple_iterator now opts rows =
      ok (memdb_tuple_iterator now opts.limit opts.skip_caveats opts.skip_expiration 0 rows)

  -- The iterator of the sort order over the rows that pass the filter.
  abbrev pub sorted_iterator :
      {E : Type 0}
      → ℤ
      → QueryOptions
      → SortOrder
      → List (Relationship p)
      → Result (QueryError E) (List (Result (Unit {0}) (TupleRelationship p)))
  sorted_iterator now opts by_subject rows =
      elim (subject_sorted_iterator now opts.limit opts.skip_caveats opts.skip_expiration rows) [
        | err e ↦ err caveat_context_invalid
        | ok results ↦ ok (map ok results)
      ]
  sorted_iterator now opts unsorted rows = tuple_iterator now opts rows
  sorted_iterator now opts choose_efficient rows = tuple_iterator now opts rows
  sorted_iterator now opts by_resource rows = tuple_iterator now opts rows

  abbrev pub passing :
      RelationshipsFilter → QueryOptions → List (Relationship p) → List (Relationship p)
  passing f opts rows =
      filter
        (λ t. not (filter_func_for_filters f (must_make_cursor_filter_fn opts.after opts.sort) t))
        rows

abbrev pub reader_result {ℓ} : {E : Type 0} {A : Type ℓ} → Result E A → Result (QueryError E) A
reader_result (ok a) = ok a
reader_result (err e) = err (reader_error e)

abbrev pub check_init : {E : Type 0} → Option E → Result (QueryError E) (Unit {0})
check_init none = ok tt
check_init (some e) = err (reader_error e)

-- `options.Unsorted` with a cursor.
abbrev pub cursor_unsorted : Option RelationshipReference → SortOrder → Bool
cursor_unsorted (some after) unsorted = true
cursor_unsorted _ _ = false

module _ {p : Params} {Txn E : Type 0} (db : Table p Txn E) where
  -- The start of every method: the error of the reader, its lock and its transaction.
  unfoldable pub start : MemdbReader Txn E → Result (QueryError E) Txn
  start r = do
    check_init r.init_err
    fail_if r.locked concurrent_use_panic
    reader_result r.tx_source

  unfoldable pub query_relationships :
      MemdbReader Txn E
      → RelationshipsFilter
      → QueryOptions
      → Result (QueryError E) (List (Result (Unit {0}) (TupleRelationship p)))
  query_relationships r f opts = do
    tx ← start r
    rows ← reader_result (db.get (iterator_for_filter f) tx)
    fail_if (cursor_unsorted opts.after opts.sort) cursors_without_sorting
    sorted_iterator r.now opts opts.sort (passing f opts rows)

  -- The selector is that of the subjects' filter; a relation of the resource is its type and name.
  abbrev pub reverse_filter : SubjectsSelector → Option (Str × Str) → RelationshipsFilter
  reverse_filter selector res_relation = record {
    optional_resource_type = elim res_relation [
      | none ↦ []
      | some (namespace, relation) ↦ namespace
    ];
    optional_resource_ids = [];
    optional_resource_id_prefix = [];
    optional_resource_relation = elim res_relation [
      | none ↦ []
      | some (namespace, relation) ↦ relation
    ];
    optional_subjects_selectors = selector ∷ [];
    optional_caveat_name_filter = caveat_none;
    optional_expiration_option = expiration_none;
  }

  unfoldable pub reverse_query_relationships :
      MemdbReader Txn E
      → Str
      → SubjectsSelector
      → Option (Str × Str)
      → QueryOptions
      → Result (QueryError E) (List (Result (Unit {0}) (TupleRelationship p)))
  reverse_query_relationships r subject_type selector res_relation opts = do
    tx ← start r
    rows ← reader_result (db.get (by_subject_namespace subject_type) tx)
    sorted_iterator r.now opts opts.sort (passing (reverse_filter selector res_relation) opts rows)
