-- ===== src/Memdb/Delete.antt =====
-- readwrite.go: the deletion of the relationships that meet a filter of the API. The filter of the
-- datastore that stands for it, which only chooses the index, comes from another package.
pub mod Removes
use embedspicedb.Common.{
  ℕ, zero, suc, ltb, ◌==◌, Bool, true, false, not, ◌&&◌, ◌||◌, Option, none, some, List, [], ◌∷◌,
  filter, if◌then◌else◌,
}
use embedspicedb.Common.Str.{Str, str_eq, has_prefix, is_empty}
use embedspicedb.Common.Result.{Result, ok, err, ◌>>=◌}
use embedspicedb.Memdb.{Params, Relationship, TupleRelationship, relationship}
use embedspicedb.Changes.{delete}
use embedspicedb.Memdb.Filter.{RelationshipsFilter, ellipsis}
use embedspicedb.Memdb.Table.{Table}
use embedspicedb.Memdb.Write.{RelationshipUpdate, WriteError, write}
use embedspicedb.Memdb.Query.{iterator_for_filter}

-- v1.SubjectFilter, v1.RelationshipFilter
pub record SubjectFilter : Type 0 where
  pub subject_type : Str
  pub optional_subject_id : Str
  pub optional_relation : Option Str

pub record RelationshipFilter : Type 0 where
  pub resource_type : Str
  pub optional_resource_id : Str
  pub optional_resource_id_prefix : Str
  pub optional_relation : Str
  pub optional_subject_filter : Option SubjectFilter

-- cmp.Or(relation, datastore.Ellipsis)
abbrev pub or_ellipsis : Str → Str
or_ellipsis [] = ellipsis
or_ellipsis (c ∷ s) = c ∷ s

abbrev pub relation_differs : Option Str → Str → Bool
relation_differs none r = false
relation_differs (some relation) r = not (str_eq (or_ellipsis relation) r)

module _ {p : Params} where
  abbrev pub subject_filtered : Option SubjectFilter → Relationship p → Bool
  subject_filtered none t = false
  subject_filtered (some f) t =
      if not (str_eq f.subject_type t.subject_namespace)
      then true
      else if not (is_empty f.optional_subject_id)
          && not (str_eq f.optional_subject_id t.subject_object_id)
      then true
      else relation_differs f.optional_relation t.subject_relation

  -- relationshipFilterFilterFunc
  unfoldable pub relationship_filter_filter_func : RelationshipFilter → Relationship p → Bool
  relationship_filter_filter_func f t =
      if not (is_empty f.resource_type) && not (str_eq f.resource_type t.namespace)
      then true
      else if not (is_empty f.optional_resource_id)
          && not (str_eq f.optional_resource_id t.resource_id)
      then true
      else if not (is_empty f.optional_resource_id_prefix)
          && not (has_prefix t.resource_id f.optional_resource_id_prefix)
      then true
      else if not (is_empty f.optional_relation) && not (str_eq f.optional_relation t.relation)
      then true
      else subject_filtered f.optional_subject_filter t

  -- The loop that collects the mutations, with their number and whether it met the limit.
  abbrev pub collect :
      ℕ → ℕ → List (Relationship p) → Result (Unit {0}) (List (RelationshipUpdate p) × ℕ × Bool)
  collect limit counter [] = ok ([], counter, false)
  collect limit counter (row ∷ rows) =
      let rest = collect limit (suc counter) rows in
      relationship p row >>= λ rt.
      if ltb 0 limit && (suc counter == limit)
      then ok (record { operation = delete; relationship = rt } ∷ [], suc counter, true)
      else rest >>= λ (ms, n, met).
          ok (record { operation = delete; relationship = rt } ∷ ms, n, met)

pub data DeleteError (p : Params) (E F : Type 0) : Type 0 where
  filter_error : F → DeleteError p E F
  iterator_error : E → DeleteError p E F
  caveat_context_invalid : DeleteError p E F
  write_error : WriteError p E → DeleteError p E F

-- The values that a deletion returns, and the transaction after it.
pub record Deleted (p : Params) (Txn E F : Type 0) : Type 0 where
  pub count : ℕ
  pub met_limit : Bool
  pub error : Option (DeleteError p E F)
  pub txn : Txn

module _ {p : Params} {Txn E F : Type 0} (must_string : TupleRelationship p → Str)
    (db : Table p Txn E) (from_public : RelationshipFilter → Result F RelationshipsFilter) where
  abbrev failed : DeleteError p E F → Txn → Deleted p Txn E F
  failed e tx = record { count = 0; met_limit = false; error = some e; txn = tx }

  abbrev written : Option (WriteError p E) → Option (DeleteError p E F)
  written none = none
  written (some e) = some (write_error e)

  unfoldable pub delete_with_lock : RelationshipFilter → ℕ → Txn → Deleted p Txn E F
  delete_with_lock f limit tx = elim (from_public f) [
    | err e ↦ failed (filter_error e) tx
    | ok ds_filter ↦ elim (db.get (iterator_for_filter ds_filter) tx) [
      | err e ↦ failed (iterator_error e) tx
      | ok rows ↦
          elim (collect limit 0 (filter (λ t. not (relationship_filter_filter_func f t)) rows)) [
            | err e ↦ failed caveat_context_invalid tx
            | ok (mutations, counter, met) ↦
                let (e, after) = write must_string db mutations tx in
                record { count = counter; met_limit = met; error = written e; txn = after }
          ]
    ]
  ]

  -- DeleteRelationships: the limit of the options, none or zero where there is none.
  unfoldable pub delete_relationships : RelationshipFilter → Option ℕ → Txn → Deleted p Txn E F
  delete_relationships f none tx = delete_with_lock f 0 tx
  delete_relationships f (some limit) tx = delete_with_lock f limit tx
