-- ===== src/Common/Strconv.antt =====
-- Go's strconv.ParseUint, ParseInt, FormatUint, FormatInt in base 10 with 64 bits, strings.Split on a
-- dot and strings.Repeat of the digit zero.
pub mod RoundTrip
use Prim.Native.Nat.{ℕ, zero, suc, ◌+◌, ◌-◌, ◌*◌, ◌/◌, ◌%◌}
use mathlib.Core.Bool.{Bool, true, false, ◌&&◌}
use mathlib.Core.Option.{Option, none, some}
use mathlib.Core.Option
use mathlib.Core.List.{List, [], ◌∷◌, ◌++◌}
use embedspicedb.Common.Tests.{ltb, leb, ◌==◌, if◌then◌else◌}
use embedspicedb.Common.Lists.{replicate}
use embedspicedb.Common.Str.{Str}
use embedspicedb.Common.Int.{ℤ, pos, negsuc}

abbrev pub is_digit : ℕ → Bool
is_digit c = leb b'0' c && leb c b'9'

-- The value of the digits after `acc`; `none` at a byte that is no digit.
unfoldable pub parse_digits : ℕ → Str → Option ℕ
parse_digits acc [] = some acc
parse_digits acc (c ∷ s) =
    let rest = parse_digits (acc * 10 + (c - 48)) s in if is_digit c then rest else none

abbrev in_range : ℕ → Option ℕ → Option ℕ
in_range limit none = none
in_range limit (some n) = if leb n limit then some n else none

-- The empty string is a syntax error, a value past `limit` a range error.
unfoldable pub parse_bounded : ℕ → Str → Option ℕ
parse_bounded limit [] = none
parse_bounded limit (c ∷ s) = in_range limit (parse_digits 0 (c ∷ s))

unfoldable pub parse_uint : Str → Option ℕ
parse_uint s = parse_bounded 18446744073709551615 s

abbrev pub negate : ℕ → ℤ
negate zero = pos 0
negate (suc n) = negsuc n

unfoldable pub parse_int : Str → Option ℤ
parse_int [] = none
parse_int (c ∷ s) =
    if c == b'-'
    then Option.map negate (parse_bounded 9223372036854775808 s)
    else if c == b'+'
    then Option.map pos (parse_bounded 9223372036854775807 s)
    else Option.map pos (parse_bounded 9223372036854775807 (c ∷ s))

-- The digits of `n` before `rest`; as many rounds as `n` are more than enough.
unfoldable pub digits : ℕ → ℕ → Str → Str
digits zero n rest = (48 + n % 10) ∷ rest
digits (suc f) n rest =
    let more = digits f (n / 10) ((48 + n % 10) ∷ rest) in
    if ltb n 10 then (48 + n) ∷ rest else more

unfoldable pub format_uint : ℕ → Str
unfolding digits
format_uint n = digits n n []

unfoldable pub format_int : ℤ → Str
unfolding format_uint
format_int (pos n) = format_uint n
format_int (negsuc n) = b'-' ∷ format_uint (suc n)

abbrev pub cons_head : ℕ → List Str → List Str
cons_head c [] = (c ∷ []) ∷ []
cons_head c (p ∷ ps) = (c ∷ p) ∷ ps

-- strings.Split(s, ".")
unfoldable pub split_dot : Str → List Str
split_dot [] = [] ∷ []
split_dot (c ∷ s) = let rest = split_dot s in if c == b'.' then [] ∷ rest else cons_head c rest

-- strings.Repeat("0", n)
abbrev pub zeros : ℕ → Str
zeros n = replicate n b'0'
