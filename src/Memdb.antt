-- ===== src/Memdb.antt =====
-- internal/datastore/memdb: the rows of the in-memory datastore (schema.go) and the relationships that
-- they stand for. What comes from other packages is a parameter: protobuf structs and timestamps with
-- their conversions, and the text of a relationship.
pub mod Filter
pub mod Table
pub mod Write
pub mod Delete
pub mod Query
pub mod Datastore
use embedspicedb.Common.{
  ℕ, ◌≡◌, refl, ap, ◌∙◌, Bool, Option, none, some, List, arith, Option-cases, inl, inr,
}
use embedspicedb.Common.Int.{ℤ}
use embedspicedb.Common.Str.{Str}
use embedspicedb.Common.Result.{Result, ok, err}

pub record Params : Type 1 where
  -- structpb.Struct, map[string]any, timestamppb.Timestamp; a time is nanoseconds. The map of a nil
  -- struct is given too.
  pub Struct : Type 0
  pub Context : Type 0
  pub ProtoTime : Type 0
  pub as_map : Option Struct → Context
  pub new_struct : Context → Option Struct
  pub as_time : ProtoTime → ℤ
  pub new_timestamp : ℤ → ProtoTime

-- tuple.ObjectAndRelation
pub record ObjectAndRelation : Type 0 where
  pub object_type : Str
  pub object_id : Str
  pub relation : Str

module _ (p : Params) where
  -- core.ContextualizedCaveat, core.RelationshipIntegrity, tuple.Relationship
  pub record ProtoCaveat : Type 0 where
    pub caveat_name : Str
    pub context : Option p.Struct

  pub record ProtoIntegrity : Type 0 where
    pub key_id : Str
    pub hash : Str
    pub hashed_at : p.ProtoTime

  pub record TupleRelationship : Type 0 where
    pub resource : ObjectAndRelation
    pub subject : ObjectAndRelation
    pub optional_caveat : Option ProtoCaveat
    pub optional_integrity : Option ProtoIntegrity
    pub optional_expiration : Option ℤ

  -- schema.go
  pub record ContextualizedCaveat : Type 0 where
    pub caveat_name : Str
    pub context : p.Context

  pub record RelationshipIntegrity : Type 0 where
    pub key_id : Str
    pub hash : Str
    pub timestamp : ℤ

  pub record Relationship : Type 0 where
    pub namespace : Str
    pub resource_id : Str
    pub relation : Str
    pub subject_namespace : Str
    pub subject_object_id : Str
    pub subject_relation : Str
    pub caveat : Option ContextualizedCaveat
    pub integrity : Option RelationshipIntegrity
    pub expiration : Option ℤ

  -- `ContextualizedCaveat()`: the conversion of the context can fail.
  unfoldable pub to_proto_caveat :
      Option ContextualizedCaveat → Result (Unit {0}) (Option ProtoCaveat)
  to_proto_caveat none = ok none
  to_proto_caveat (some c) = elim (p.new_struct c.context) [
    | none ↦ err tt
    | some s ↦ ok (some (record { caveat_name = c.caveat_name; context = some s }))
  ]

  abbrev pub to_proto_integrity : Option RelationshipIntegrity → Option ProtoIntegrity
  to_proto_integrity none = none
  to_proto_integrity (some i) =
      some (record { key_id = i.key_id; hash = i.hash; hashed_at = p.new_timestamp i.timestamp })

  -- `Relationship()`
  unfoldable pub relationship : Relationship → Result (Unit {0}) TupleRelationship
  unfolding to_proto_caveat
  relationship r = elim (to_proto_caveat r.caveat) [
    | err e ↦ err e
    | ok cr ↦ ok (record {
      resource = record {
        object_type = r.namespace;
        object_id = r.resource_id;
        relation = r.relation;
      };
      subject = record {
        object_type = r.subject_namespace;
        object_id = r.subject_object_id;
        relation = r.subject_relation;
      };
      optional_caveat = cr;
      optional_integrity = to_proto_integrity r.integrity;
      optional_expiration = r.expiration;
    })
  ]

  -- readwrite.go: `toCaveatReference`, `toIntegrity`, and the row that `write` makes.
  abbrev pub to_caveat_reference : Option ProtoCaveat → Option ContextualizedCaveat
  to_caveat_reference none = none
  to_caveat_reference (some c) =
      some (record { caveat_name = c.caveat_name; context = p.as_map c.context })

  abbrev pub to_integrity : Option ProtoIntegrity → Option RelationshipIntegrity
  to_integrity none = none
  to_integrity (some i) =
      some (record { key_id = i.key_id; hash = i.hash; timestamp = p.as_time i.hashed_at })

  unfoldable pub row_of : TupleRelationship → Relationship
  row_of t = record {
    namespace = t.resource.object_type;
    resource_id = t.resource.object_id;
    relation = t.resource.relation;
    subject_namespace = t.subject.object_type;
    subject_object_id = t.subject.object_id;
    subject_relation = t.subject.relation;
    caveat = to_caveat_reference t.optional_caveat;
    integrity = to_integrity t.optional_integrity;
    expiration = t.optional_expiration;
  }

  -- The context is a struct that its map gives back: not nil, and without a value that structpb
  -- refuses.
  abbrev pub CaveatComesBack : Option ProtoCaveat → Type 0
  CaveatComesBack none = Unit
  CaveatComesBack (some c) =
      (s : p.Struct) × (c.context ≡ some s) × (p.new_struct (p.as_map (some s)) ≡ some s)

  -- The time is a timestamp that its time gives back: not nil, and a valid one.
  abbrev pub IntegrityComesBack : Option ProtoIntegrity → Type 0
  IntegrityComesBack none = Unit
  IntegrityComesBack (some i) = p.new_timestamp (p.as_time i.hashed_at) ≡ i.hashed_at

  abbrev pub ComesBack : TupleRelationship → Type 0
  ComesBack t = CaveatComesBack t.optional_caveat × IntegrityComesBack t.optional_integrity

  integrity_back :
      (i : Option ProtoIntegrity) → IntegrityComesBack i → to_proto_integrity (to_integrity i) ≡ i
  integrity_back none k = refl
  integrity_back (some i) k = ground arith

  caveat_back :
      (c : Option ProtoCaveat) → CaveatComesBack c → to_proto_caveat (to_caveat_reference c) ≡ ok c
  unfolding to_proto_caveat
  caveat_back none k = refl
  caveat_back (some c) (s, e, back) = ground arith

  -- Reading back the row that is written for a relationship gives the relationship, with its caveat,
  -- integrity and expiration, where the context of its caveat is a struct that its map gives back and
  -- the time of its integrity a timestamp that its time gives back, so that neither is nil.
  pub relationship-row_of : (t : TupleRelationship) → ComesBack t → relationship (row_of t) ≡ ok t
  unfolding relationship row_of
  relationship-row_of t (h, k) =
      ground (arith, caveat_back t.optional_caveat h, integrity_back t.optional_integrity k)
