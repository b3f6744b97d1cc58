-- ===== src/Memdb/Table.antt =====
-- The table of relationships as readwrite.go and readonly.go use it: the operations of a go-memdb
-- transaction, and what they document. A transaction is a value, and each operation gives a new one.
use embedspicedb.Common.{
  ◌≡◌, ◌↔◌, Bool, true, false, ◌&&◌, Option, none, some, List, arith, if◌then◌else◌,
}
use embedspicedb.Common.Str.{Str, str_eq, str_eq_iff, is_empty}
use embedspicedb.Common.Result.{Result, ok}
use embedspicedb.Memdb.{Params, Relationship}

-- The key of the table's id index: schema.go, tableRelationship.
pub record RelationshipKey : Type 0 where
  pub namespace : Str
  pub resource_id : Str
  pub relation : Str
  pub subject_namespace : Str
  pub subject_object_id : Str
  pub subject_relation : Str

abbrev pub key_eq : RelationshipKey → RelationshipKey → Bool
key_eq a b =
    str_eq a.namespace b.namespace
    && str_eq a.resource_id b.resource_id
    && str_eq a.relation b.relation
    && str_eq a.subject_namespace b.subject_namespace
    && str_eq a.subject_object_id b.subject_object_id
    && str_eq a.subject_relation b.subject_relation

pub key_eq_iff : (a b : RelationshipKey) → (key_eq a b ≡ true) ↔ (a ≡ b)
key_eq_iff a b = ground (
  arith,
  str_eq_iff a.namespace b.namespace,
  str_eq_iff a.resource_id b.resource_id,
  str_eq_iff a.relation b.relation,
  str_eq_iff a.subject_namespace b.subject_namespace,
  str_eq_iff a.subject_object_id b.subject_object_id,
  str_eq_iff a.subject_relation b.subject_relation,
)

-- An index of the table with its arguments, as `txn.Get` is given them.
pub data IndexQuery : Type 0 where
  namespace_prefix : Str → IndexQuery
  by_namespace : Str → IndexQuery
  by_namespace_and_relation : Str → Str → IndexQuery
  by_subject_namespace : Str → IndexQuery

module _ {p : Params} where
  abbrev pub key_of : Relationship p → RelationshipKey
  key_of r = record {
    namespace = r.namespace;
    resource_id = r.resource_id;
    relation = r.relation;
    subject_namespace = r.subject_namespace;
    subject_object_id = r.subject_object_id;
    subject_relation = r.subject_relation;
  }

  -- No field that an index reads is empty: go-memdb refuses a row whose index has no value.
  abbrev pub IsIndexed : Relationship p → Type 0
  IsIndexed r =
      (is_empty r.namespace ≡ false)
      × (is_empty r.resource_id ≡ false)
      × (is_empty r.relation ≡ false)
      × (is_empty r.subject_namespace ≡ false)
      × (is_empty r.subject_object_id ≡ false)
      × (is_empty r.subject_relation ≡ false)

module _ (p : Params) (Txn E : Type 0) where
  pub record Table : Type 0 where
    pub first : RelationshipKey → Txn → Result E (Option (Relationship p))
    pub insert : Relationship p → Txn → Result E Txn
    pub delete : Relationship p → Txn → Result E Txn
    pub get : IndexQuery → Txn → Result E (List (Relationship p))

module _ {p : Params} {Txn E : Type 0} where
  -- One row to a key, over the rows that a transaction sees: an insert of a row with all its indexed
  -- fields puts it under its key, a deletion of a row that is there takes it out, and neither
  -- touches another key.
  pub record TableLaws (db : Table p Txn E) : Type 0 where
    pub at : RelationshipKey → Txn → Option (Relationship p)
    pub first-at : (k : RelationshipKey) (t : Txn) → db.first k t ≡ ok (at k t)
    pub at-key :
        (k : RelationshipKey) (t : Txn) (r : Relationship p) → at k t ≡ some r → key_of r ≡ k
    pub insert-at :
        (r : Relationship p) (t : Txn)
        → IsIndexed r
        → (u : Txn) × (db.insert r t ≡ ok u)
          × ((k : RelationshipKey) → at k u ≡ (if key_eq (key_of r) k then some r else at k t))
    pub delete-at :
        (r : Relationship p) (t : Txn)
        → at (key_of r) t ≡ some r
        → (u : Txn) × (db.delete r t ≡ ok u)
          × ((k : RelationshipKey) → at k u ≡ (if key_eq (key_of r) k then none else at k t))
