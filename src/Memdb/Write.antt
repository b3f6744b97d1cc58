-- ===== src/Memdb/Write.antt =====
-- readwrite.go: `write`, which applies mutations to the table of relationships one after another. The
-- text of a relationship, tuple.MustString, is a parameter.
pub mod LastMutation
use embedspicedb.Common.{Bool, Option, none, some, List, [], ◌∷◌, if◌then◌else◌}
use embedspicedb.Common.Str.{Str, str_eq}
use embedspicedb.Common.Result.{Result, ok, err}
use embedspicedb.Memdb.{Params, Relationship, TupleRelationship, relationship, row_of}
use embedspicedb.Changes.{UpdateOperation, create, touch, delete}
use embedspicedb.Memdb.Table.{Table, key_of}

pub data WriteError (p : Params) (E : Type 0) : Type 0 where
  table_error : E → WriteError p E
  caveat_context_invalid : WriteError p E
  create_relationship_exists : TupleRelationship p → WriteError p E

pub record RelationshipUpdate (p : Params) : Type 0 where
  pub operation : UpdateOperation
  pub relationship : TupleRelationship p

module _ {p : Params} {Txn E : Type 0} (must_string : TupleRelationship p → Str)
    (db : Table p Txn E) where
  abbrev pub on_table : Result E Txn → Result (WriteError p E) Txn
  on_table (ok t) = ok t
  on_table (err e) = err (table_error e)

  -- One case of the switch, for the row that was found under the key.
  abbrev pub apply :
      UpdateOperation
      → TupleRelationship p
      → Option (Relationship p)
      → Txn
      → Result (WriteError p E) Txn
  apply create rel (some existing) t = elim (relationship p existing) [
    | err e ↦ err caveat_context_invalid
    | ok rt ↦ err (create_relationship_exists rt)
  ]
  apply create rel none t = on_table (db.insert (row_of p rel) t)
  apply touch rel (some existing) t = elim (relationship p existing) [
    | err e ↦ err caveat_context_invalid
    | ok rt ↦
        if str_eq (must_string rt) (must_string rel)
        then ok t
        else on_table (db.insert (row_of p rel) t)
  ]
  apply touch rel none t = on_table (db.insert (row_of p rel) t)
  apply delete rel (some existing) t = on_table (db.delete existing t)
  apply delete rel none t = ok t

  unfoldable pub write_one : RelationshipUpdate p → Txn → Result (WriteError p E) Txn
  write_one m t = elim (db.first (key_of (row_of p m.relationship)) t) [
    | err e ↦ err (table_error e)
    | ok found ↦ apply m.operation m.relationship found t
  ]

  -- The first error ends the loop and leaves what was applied before it.
  unfoldable pub write : List (RelationshipUpdate p) → Txn → Option (WriteError p E) × Txn
  unfolding write_one
  write [] t = (none, t)
  write (m ∷ ms) t = elim (write_one m t) [ err e ↦ (some e, t) | ok u ↦ write ms u ]
