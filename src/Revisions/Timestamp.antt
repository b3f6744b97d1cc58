-- ===== src/Revisions/Timestamp.antt =====
-- timestamprevision.go: a revision is an int64 of nanoseconds.
use mathlib.Core.Option
use embedspicedb.Common.{Bool, Option, none, some}
use embedspicedb.Common.Int.{ℤ, pos, ltb_ℤ, eqb_ℤ}
use embedspicedb.Common.Str.{Str}
use embedspicedb.Common.Strconv.{parse_int, format_int}
use embedspicedb.Common.Result.{Result, ok, err}
use embedspicedb.Revisions.{
  Revision, timestamp, no_revision, RevisionError, invalid_integer_revision,
}

abbrev pub TimestampRevision : Type 0
TimestampRevision = ℤ

-- The right side of a comparison: `NoRevision` stands for zero, another type is a panic.
abbrev pub rhs_timestamp : Revision → Option ℤ
rhs_timestamp no_revision = some (pos 0)
rhs_timestamp (timestamp t) = some t
rhs_timestamp _ = none

unfoldable pub equal : TimestampRevision → Revision → Option Bool
equal ir rhs = Option.map (λ t. eqb_ℤ ir t) (rhs_timestamp rhs)

unfoldable pub greater_than : TimestampRevision → Revision → Option Bool
greater_than ir rhs = Option.map (λ t. ltb_ℤ t ir) (rhs_timestamp rhs)

unfoldable pub less_than : TimestampRevision → Revision → Option Bool
less_than ir rhs = Option.map (λ t. ltb_ℤ ir t) (rhs_timestamp rhs)

unfoldable pub parse_timestamp_revision_string : Str → Result RevisionError Revision
parse_timestamp_revision_string s = elim (parse_int s) [
  | none ↦ err invalid_integer_revision
  | some t ↦ ok (timestamp t)
]

unfoldable pub string : TimestampRevision → Str
string ir = format_int ir

abbrev pub timestamp_id_key_less_than_func : ℤ → ℤ → Bool
timestamp_id_key_less_than_func l r = ltb_ℤ l r
