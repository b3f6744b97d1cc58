-- ===== src/Memdb/Delete/Removes.antt =====
-- What a deletion leaves in the table.
use embedspicedb.Common.{
  ◌≡◌, refl, arith, Bool, true, false, not, ◌&&◌, Option, none, some, List, [], ◌∷◌, filter, any,
  All, ◌||◌, if◌then◌else◌,
}
use embedspicedb.Common.Str.{Str, str_eq, has_prefix, is_empty}
use embedspicedb.Common.Result.{Result}
use embedspicedb.Memdb.{Params, Relationship}
use embedspicedb.Memdb.Table.{Table, TableLaws, RelationshipKey, key_of, key_eq, key_eq_iff}
use embedspicedb.Memdb.Delete.{SubjectFilter, RelationshipFilter, relation_differs}

module _ {p : Params} where
  -- A row of the list has the key.
  abbrev pub listed : RelationshipKey → List (Relationship p) → Bool
  listed k rows = any (λ r. key_eq (key_of r) k) rows

module _ {p : Params} where
  -- The row has the subject's type, and its id and its relation where the filter names them.
  abbrev pub meets_subject : Option SubjectFilter → Relationship p → Bool
  meets_subject none r = true
  meets_subject (some f) r =
      str_eq f.subject_type r.subject_namespace
      && (is_empty f.optional_subject_id || str_eq f.optional_subject_id r.subject_object_id)
      && not (relation_differs f.optional_relation r.subject_relation)

  -- What the API says of a filter: the row has each of the fields that the filter names.
  abbrev pub meets_filter : RelationshipFilter → Relationship p → Bool
  meets_filter f r =
      (is_empty f.resource_type || str_eq f.resource_type r.namespace)
      && (is_empty f.optional_resource_id || str_eq f.optional_resource_id r.resource_id)
      && (is_empty f.optional_resource_id_prefix
          || has_prefix r.resource_id f.optional_resource_id_prefix)
      && (is_empty f.optional_relation || str_eq f.optional_relation r.relation)
      && meets_subject f.optional_subject_filter r

  abbrev pub accepted : RelationshipFilter → List (Relationship p) → List (Relationship p)
  accepted f rows = filter (λ t. meets_filter f t) rows

  -- What a deletion with the filter leaves of the row under a key.
  abbrev pub left_by : RelationshipFilter → Option (Relationship p) → Option (Relationship p)
  left_by f none = none
  left_by f (some r) = if meets_filter f r then none else some r

module _ {p : Params} {Txn E : Type 0} (db : Table p Txn E) (laws : TableLaws db) where
  -- Each row of the list is the one that the table has under its key.
  abbrev pub Held : Txn → List (Relationship p) → Type 0
  Held t rows = All (λ r. laws.at (key_of r) t ≡ some r) rows

  absent-listed :
      (f : RelationshipFilter) (t : Txn) (k : RelationshipKey) (rows : List (Relationship p))
      → Held t rows
      → laws.at k t ≡ none
      → listed k (accepted f rows) ≡ false
  absent-listed f t k [] h e = refl
  absent-listed f t k (row ∷ rows) h e =
      ground (arith, key_eq_iff (key_of row) k, h.0, e, absent-listed f t k rows h.1 e)
