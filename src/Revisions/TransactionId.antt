-- ===== src/Revisions/TransactionId.antt =====
-- txidrevision.go: a revision is a uint64.
use mathlib.Core.Option
use embedspicedb.Common.{ℕ, Bool, Option, none, some, ltb, ◌==◌}
use embedspicedb.Common.Str.{Str}
use embedspicedb.Common.Strconv.{parse_uint, format_uint}
use embedspicedb.Common.Result.{Result, ok, err}
use embedspicedb.Revisions.{
  Revision, transaction_id, no_revision, RevisionError, invalid_integer_revision,
}

abbrev pub rhs_transaction_id : Revision → Option ℕ
rhs_transaction_id no_revision = some 0
rhs_transaction_id (transaction_id t) = some t
rhs_transaction_id _ = none

unfoldable pub equal : ℕ → Revision → Option Bool
equal ir rhs = Option.map (λ t. ir == t) (rhs_transaction_id rhs)

unfoldable pub greater_than : ℕ → Revision → Option Bool
greater_than ir rhs = Option.map (λ t. ltb t ir) (rhs_transaction_id rhs)

unfoldable pub less_than : ℕ → Revision → Option Bool
less_than ir rhs = Option.map (λ t. ltb ir t) (rhs_transaction_id rhs)

unfoldable pub parse_transaction_id_revision_string : Str → Result RevisionError Revision
parse_transaction_id_revision_string s = elim (parse_uint s) [
  | none ↦ err invalid_integer_revision
  | some t ↦ ok (transaction_id t)
]

unfoldable pub string : ℕ → Str
string ir = format_uint ir
