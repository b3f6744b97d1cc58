-- ===== src/Revisions/Decoder.antt =====
-- commonrevision.go: the choice of the parser by the kind of revision.
use embedspicedb.Common.{ℕ, ◌≤◌, ◌<◌, ◌≡◌, refl, arith, if◌then◌else◌}
use embedspicedb.Common.Int.{IsInt64}
use embedspicedb.Common.Str.{Str, bytes, str_eq}
use embedspicedb.Common.Result.{Result, ok, err}
use embedspicedb.Common.Strconv.RoundTrip.{parse_int-format_int, parse_uint-format_uint}
use embedspicedb.Revisions.{
  Revision, no_revision, timestamp, transaction_id, hlc, RevisionError, unknown_revision_kind,
}
use embedspicedb.Revisions.Timestamp
use embedspicedb.Revisions.TransactionId
use embedspicedb.Revisions.Hlc
use embedspicedb.Revisions.Hlc.RoundTrip.{parse-string}

-- RevisionKind, a type of strings with three constants
abbrev pub timestamp_kind : Str
timestamp_kind = bytes "timestamp"

abbrev pub transaction_id_kind : Str
transaction_id_kind = bytes "txid"

abbrev pub hybrid_logical_clock_kind : Str
hybrid_logical_clock_kind = bytes "hlc"

pub record CommonDecoder : Type 0 where
  pub kind : Str
  pub datastore_unique_id : Str

module _ (logical_clock_offset : ℕ) where
  abbrev parse_hlc : Str → Result RevisionError Revision
  parse_hlc s = elim (Hlc.parse_hlc_revision_string logical_clock_offset s) [
    | ok h ↦ ok (hlc h)
    | err e ↦ err e
  ]

  unfoldable pub revision_parser : Str → Str → Result RevisionError Revision
  revision_parser kind s =
      if str_eq kind transaction_id_kind
      then TransactionId.parse_transaction_id_revision_string s
      else if str_eq kind timestamp_kind
      then Timestamp.parse_timestamp_revision_string s
      else if str_eq kind hybrid_logical_clock_kind
      then parse_hlc s
      else err unknown_revision_kind

  unfoldable pub revision_from_string : CommonDecoder → Str → Result RevisionError Revision
  revision_from_string cd s =
      if str_eq cd.kind transaction_id_kind
      then TransactionId.parse_transaction_id_revision_string s
      else if str_eq cd.kind timestamp_kind
      then Timestamp.parse_timestamp_revision_string s
      else if str_eq cd.kind hybrid_logical_clock_kind
      then parse_hlc s
      else err unknown_revision_kind

  -- The kind, the text and the range of a revision that the package can print.
  abbrev pub kind_of : Revision → Str
  kind_of no_revision = bytes "none"
  kind_of (timestamp t) = timestamp_kind
  kind_of (transaction_id t) = transaction_id_kind
  kind_of (hlc h) = hybrid_logical_clock_kind

  abbrev pub text_of : Revision → Str
  text_of no_revision = bytes ""
  text_of (timestamp t) = Timestamp.string t
  text_of (transaction_id t) = TransactionId.string t
  text_of (hlc h) = Hlc.string logical_clock_offset h

  abbrev pub InRange : Revision → Type 0
  InRange no_revision = ⊥
  InRange (timestamp t) = IsInt64 t
  InRange (transaction_id t) = t ≤ 18446744073709551615
  InRange (hlc h) =
      IsInt64 h.time × (logical_clock_offset ≤ h.logicalclock) × (h.logicalclock < 4294967296)

  -- A revision that is in the range of its type, and whose clock had not wrapped if it has one, is
  -- what the decoder of its kind reads from its text.
  pub revision_from_string-text_of :
      (id : Str) (r : Revision)
      → InRange r
      → revision_from_string (record { kind = kind_of r; datastore_unique_id = id }) (text_of r)
        ≡ ok r
  unfolding revision_from_string str_eq Timestamp.parse_timestamp_revision_string Timestamp.string
      TransactionId.parse_transaction_id_revision_string TransactionId.string
  revision_from_string-text_of id no_revision h = absurd h
  revision_from_string-text_of id (timestamp t) h = ground (arith, parse_int-format_int t h)
  revision_from_string-text_of id (transaction_id t) h = ground (arith, parse_uint-format_uint t h)
  revision_from_string-text_of id (hlc r) h =
      ground (arith, parse-string logical_clock_offset r h.0 h.1 h.2)

  -- The parser that is chosen for a kind and the decoder of that kind agree on every text.
  pub revision_parser-eq-decoder :
      (cd : CommonDecoder) (s : Str) → revision_parser cd.kind s ≡ revision_from_string cd s
  unfolding revision_parser revision_from_string
  revision_parser-eq-decoder cd s = refl
