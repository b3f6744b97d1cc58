-- ===== src/Revisions/Hlc.antt =====
-- hlcrevision.go: a revision is a time and a logical clock. Go leaves open what the conversion of
-- 10 ^ 11 to uint32 gives, so the offset that the source computes by it is a parameter.
pub mod Order
pub mod RoundTrip
use mathlib.Core.Option
use embedspicedb.Common.{
  ℕ, ◌+◌, ◌-◌, ◌%◌, Bool, ◌&&◌, ◌||◌, Option, none, some, List, [], ◌∷◌, ◌++◌, length, ltb, ◌==◌,
  if◌then◌else◌,
}
use embedspicedb.Common.Int.{ℤ, pos, sub_ℕ, ltb_ℤ, eqb_ℤ}
use embedspicedb.Common.Str.{Str}
use embedspicedb.Common.Strconv.{parse_int, parse_uint, format_int, split_dot, zeros}
use embedspicedb.Common.Result.{Result, ok, err}
use embedspicedb.Revisions.{
  HlcRevision, Revision, hlc, no_revision, RevisionError, invalid_revision_string,
  unexpected_logical_clock_size, logical_clock_exceeds_max,
}

abbrev pub logical_clock_length : ℕ
logical_clock_length = 10

abbrev pub max_uint32 : ℕ
max_uint32 = 4294967295

abbrev pub zero_hlc : HlcRevision
zero_hlc = record { time = pos 0; logicalclock = 0 }

abbrev pub rhs_hlc : Revision → Option HlcRevision
rhs_hlc no_revision = some zero_hlc
rhs_hlc (hlc h) = some h
rhs_hlc _ = none

unfoldable pub equal : HlcRevision → Revision → Option Bool
equal h rhs =
    Option.map (λ r. eqb_ℤ h.time r.time && (h.logicalclock == r.logicalclock)) (rhs_hlc rhs)

unfoldable pub greater_than : HlcRevision → Revision → Option Bool
greater_than h rhs =
    Option.map
      (λ r. ltb_ℤ r.time h.time || (eqb_ℤ h.time r.time && ltb r.logicalclock h.logicalclock))
      (rhs_hlc rhs)

unfoldable pub less_than : HlcRevision → Revision → Option Bool
less_than h rhs =
    Option.map
      (λ r. ltb_ℤ h.time r.time || (eqb_ℤ h.time r.time && ltb h.logicalclock r.logicalclock))
      (rhs_hlc rhs)

unfoldable pub hlc_key_less_than_func : HlcRevision → HlcRevision → Bool
hlc_key_less_than_func lhs rhs =
    ltb_ℤ lhs.time rhs.time || (eqb_ℤ lhs.time rhs.time && ltb lhs.logicalclock rhs.logicalclock)

module _ (logical_clock_offset : ℕ) where
  -- The part after the dot, once it has been padded to ten digits and parsed. The cast to uint32
  -- cannot fail after the test, and the sum with the offset wraps around.
  unfoldable pub with_logical_clock : ℤ → Option ℕ → Result RevisionError HlcRevision
  with_logical_clock t none = err invalid_revision_string
  with_logical_clock t (some clock) =
      if ltb max_uint32 clock
      then err logical_clock_exceeds_max
      else ok (record { time = t; logicalclock = (clock + logical_clock_offset) % 4294967296 })

  abbrev parse_time : Str → Result RevisionError ℤ
  parse_time s = elim (parse_int s) [ none ↦ err invalid_revision_string | some t ↦ ok t ]

  abbrev parse_clock : Str → ℤ → Result RevisionError HlcRevision
  parse_clock fraction t =
      if ltb logical_clock_length (length fraction)
      then err unexpected_logical_clock_size
      else with_logical_clock t
          (parse_uint (fraction ++ zeros (logical_clock_length - length fraction)))

  unfoldable pub parse_pieces : List Str → Result RevisionError HlcRevision
  unfolding with_logical_clock
  parse_pieces [] = err invalid_revision_string
  parse_pieces (whole ∷ []) = elim (parse_time whole) [
    | err e ↦ err e
    | ok t ↦ ok (record { time = t; logicalclock = logical_clock_offset })
  ]
  parse_pieces (whole ∷ fraction ∷ []) = elim (parse_time whole) [
    | err e ↦ err e
    | ok t ↦ parse_clock fraction t
  ]
  parse_pieces (whole ∷ fraction ∷ more ∷ pieces) = err invalid_revision_string

  unfoldable pub parse_hlc_revision_string : Str → Result RevisionError HlcRevision
  unfolding parse_pieces
  parse_hlc_revision_string s = parse_pieces (split_dot s)

  unfoldable pub new_hlc_for_time : ℤ → HlcRevision
  new_hlc_for_time t = record { time = t; logicalclock = logical_clock_offset }

  -- `strings.Repeat` panics on a negative count, which a ten digit clock never gives.
  unfoldable pub string : HlcRevision → Str
  string h =
      let clock = format_int (sub_ℕ h.logicalclock logical_clock_offset) in
      format_int h.time ++ b'.' ∷ (zeros (logical_clock_length - length clock) ++ clock)
