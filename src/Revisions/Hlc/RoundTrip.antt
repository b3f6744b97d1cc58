-- ===== src/Revisions/Hlc/RoundTrip.antt =====
-- Printing a hybrid logical clock and parsing it again.
use mathlib.Core.List.{append-nil}
use embedspicedb.Common.{
  ℕ, ◌+◌, ◌-◌, ◌≤◌, ◌<◌, ◌≡◌, refl, some, [], ◌∷◌, ◌++◌, length, arith, ap, ◌∙◌,
}
use embedspicedb.Common.Int.{ℤ, pos, sub_ℕ, IsInt64}
use embedspicedb.Common.Str.{Str}
use embedspicedb.Common.Result.{ok}
use embedspicedb.Common.Strconv.{format_int, format_uint, parse_uint, split_dot, zeros}
use embedspicedb.Common.Strconv.RoundTrip.{
  NoDot-format_int, NoDot-zeros, split_dot-dot, split_dot-NoDot, parse_int-format_int,
  parse_uint-zeros, length-format_uint, length-zeros,
}
use embedspicedb.Revisions.{HlcRevision}
use embedspicedb.Revisions.Hlc.{string, parse_hlc_revision_string, parse_pieces}

-- The padded clock has ten digits and parses to the clock.
padded : (d : ℕ) → Str
padded d = zeros (10 - length (format_uint d)) ++ format_uint d

length-padded : (d : ℕ) → d < 4294967296 → length (padded d) ≡ 10
unfolding padded
length-padded d h = omega (
  arith,
  length-zeros (10 - length (format_uint d)) (format_uint d),
  length-format_uint d 9 (omega arith),
)

parse_uint-padded :
    (d : ℕ) → d < 4294967296 → parse_uint (padded d ++ zeros (10 - length (padded d))) ≡ some d
parse_uint-padded d h = rw (length-padded d h) (
    rw append-nil (unfold padded in parse_uint-zeros (10 - length (format_uint d)) d (omega arith)))

split_dot-string :
    (t : ℤ) (d : ℕ) → split_dot (format_int t ++ b'.' ∷ padded d) ≡ format_int t ∷ padded d ∷ []
unfolding padded
split_dot-string t d =
    split_dot-dot (format_int t) (padded d) (NoDot-format_int t)
    ∙ ap (λ r. format_int t ∷ r)
        (split_dot-NoDot (padded d) (
          NoDot-zeros (10 - length (format_uint d)) (format_uint d)
            (unfold format_int in NoDot-format_int (pos d))))

string-padded :
    (offset : ℕ) (h : HlcRevision)
    → offset ≤ h.logicalclock
    → string offset h ≡ format_int h.time ++ b'.' ∷ padded (h.logicalclock - offset)
unfolding string padded
string-padded offset h lo =
    let e : sub_ℕ h.logicalclock offset ≡ pos (h.logicalclock - offset) = ground arith in
    rw e (unfold format_int in refl)

parse_pieces-padded :
    (offset d : ℕ) (t : ℤ)
    → IsInt64 t
    → d + offset < 4294967296
    → parse_pieces offset (format_int t ∷ padded d ∷ [])
      ≡ ok (record { time = t; logicalclock = d + offset })
unfolding parse_pieces
parse_pieces-padded offset d t i h = ground (
  arith,
  parse_int-format_int t i,
  length-padded d (omega arith),
  parse_uint-padded d (omega arith),
)

-- Parsing the text of a clock revision gives it back, if its time is an int64, its clock a uint32,
-- and its clock is not below the offset, that is, its sum with the offset had not wrapped.
pub parse-string :
    (offset : ℕ) (h : HlcRevision)
    → IsInt64 h.time
    → offset ≤ h.logicalclock
    → h.logicalclock < 4294967296
    → parse_hlc_revision_string offset (string offset h) ≡ ok h
unfolding parse_hlc_revision_string
parse-string offset h t lo hi = rw (string-padded offset h lo) (
    rw (split_dot-string h.time (h.logicalclock - offset)) (
      parse_pieces-padded offset (h.logicalclock - offset) h.time t (omega arith)
      ∙ ap (λ c. ok (record { time = h.time; logicalclock = c })) (omega arith)))
