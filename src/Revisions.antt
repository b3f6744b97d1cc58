-- ===== src/Revisions.antt =====
-- The package internal/datastore/revisions: the values that a `datastore.Revision` holds.
pub mod Timestamp
pub mod TransactionId
pub mod Hlc
pub mod Decoder
pub mod Optimized
pub mod RemoteClock
use embedspicedb.Common.{ℕ}
use embedspicedb.Common.Int.{ℤ}

-- hlcrevision.go, the struct: nanoseconds, and the logical clock with its offset added.
pub record HlcRevision : Type 0 where
  pub time : ℤ
  pub logicalclock : ℕ

-- The dynamic types that the package gives to the interface, and the sentinel of no revision.
pub data Revision : Type 0 where
  no_revision : Revision
  timestamp : ℤ → Revision
  transaction_id : ℕ → Revision
  hlc : HlcRevision → Revision

-- The errors of parsing, by the message that they carry.
pub data RevisionError : Type 0 where
  invalid_integer_revision invalid_revision_string : RevisionError
  unexpected_logical_clock_size logical_clock_exceeds_max : RevisionError
  unknown_revision_kind : RevisionError
