-- ===== src/Changes.antt =====
-- internal/datastore/common/changes.go: the state of the change tracker. Its maps are association
-- lists. A `changeRecord` is a struct whose maps are shared with the one that the tracker stores, so
-- a write to a map of the record is a write to the tracker. The mutex makes each method one step.
pub mod Tracking
mod Records
pub mod Preserved
pub mod Sequences
pub mod Output
pub mod Consistent
pub mod LastWrite
pub mod Drain
use embedspicedb.Common.{ℕ, Bool, List}
use embedspicedb.Common.Int.{ℤ}
use embedspicedb.Common.Str.{Str}
use embedspicedb.Common.Eq.{Eq}
use embedspicedb.Common.GoMap.{GoMap}

-- The types and functions that the tracker takes from elsewhere: the revisions with `GreaterThan` and
-- the key function, the protobuf messages with their sizes, the text of a relationship, and metadata
-- with `reflect.DeepEqual` and its conversion, `none` where that fails.
pub record Params : Type 1 where
  pub R : Type 0
  pub K : Type 0
  pub Rel : Type 0
  pub Namespace : Type 0
  pub Caveat : Type 0
  pub Metadata : Type 0
  pub key_eq : Eq K
  pub metadata_eq : Eq Metadata
  pub greater_than : R → R → Bool
  pub key_func : R → K
  pub string_without_caveat_or_expiration : Rel → Str
  pub rel_size : Rel → ℕ
  pub namespace_name : Namespace → Str
  pub namespace_size : Namespace → ℕ
  pub caveat_name : Caveat → Str
  pub caveat_size : Caveat → ℕ
  pub metadata_len : Metadata → ℕ
  pub converts : Metadata → Bool
  pub Struct : Type 0
  pub must_struct : Metadata → Struct

-- datastore.SchemaDefinition, with a case for a type that the switch does not know.
pub data SchemaDefinition (p : Params) : Type 0 where
  namespace_definition : p.Namespace → SchemaDefinition p
  caveat_definition : p.Caveat → SchemaDefinition p
  unknown_definition : SchemaDefinition p

-- tuple.UpdateOperation
pub data UpdateOperation : Type 0 where
  create touch delete : UpdateOperation

-- The single bits of datastore.WatchContent
pub record WatchContent : Type 0 where
  pub watch_relationships : Bool
  pub watch_schema : Bool
  pub watch_checkpoints : Bool

pub data ChangesError : Type 0 where
  unknown_change_operation byte_size_underflow unknown_schema_definition_kind : ChangesError
  maximum_changes_size_exceeded : ℕ → ChangesError
  metadata_panic : ChangesError

pub record ChangeRecord (p : Params) : Type 0 where
  pub rev : p.R
  pub rel_touches : GoMap Str p.Rel
  pub rel_deletes : GoMap Str p.Rel
  pub definitions_changed : GoMap Str (SchemaDefinition p)
  pub namespaces_deleted : GoMap Str (Unit {0})
  pub caveats_deleted : GoMap Str (Unit {0})
  pub metadatas : List p.Metadata

pub record Changes (p : Params) : Type 0 where
  pub records : GoMap p.K (ChangeRecord p)
  pub content : WatchContent
  pub max_byte_size : ℕ
  pub current_byte_size : ℤ
