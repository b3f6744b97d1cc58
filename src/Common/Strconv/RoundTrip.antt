-- ===== src/Common/Strconv/RoundTrip.antt =====
-- Printing a number and parsing it again.
use Prim.Native.Nat.{ℕ, zero, suc, ◌+◌, ◌/◌, ◌%◌, ◌^◌, ◌≤◌, ◌<◌}
use mathlib.Core.Path.{◌≡◌, refl, sym, subst, ◌∙◌}
use mathlib.Core.Option.{some}
use mathlib.Core.List.{[], ◌∷◌, ◌++◌}
use native.Mathlib.Omega.{arith}
use native.Mathlib.Nat.{pow-suc}
use embedspicedb.Common.Tests.{ltb, Bool-cases}
use embedspicedb.Common.Lists.{length, All}
use mathlib.Core.Logic.{◌≢◌, inl, inr}
use embedspicedb.Common.Str.{Str}
use embedspicedb.Common.Int.{ℤ, pos, negsuc, IsInt64}
use embedspicedb.Common.Strconv.{
  parse_digits, parse_bounded, parse_uint, parse_int, digits, format_uint, format_int, zeros,
  split_dot,
}

pub parse_digits-digits :
    (f n : ℕ) (rest : Str) → n ≤ f → parse_digits 0 (digits f n rest) ≡ parse_digits n rest
unfolding parse_digits digits
parse_digits-digits zero n rest h = ground arith
parse_digits-digits (suc f) n rest h =
    ground (arith, parse_digits-digits f (n / 10) ((48 + n % 10) ∷ rest))

pub parse_digits-zeros :
    (k : ℕ) (rest : Str) → parse_digits 0 (zeros k ++ rest) ≡ parse_digits 0 rest
unfolding parse_digits
parse_digits-zeros zero rest = refl
parse_digits-zeros (suc k) rest = parse_digits-zeros k rest

-- The shape of a printed number: a digit, and then digits.
pub digits_head :
    (f n : ℕ) (rest : Str)
    → n ≤ f
    → (c : ℕ) × (s : Str) × (digits f n rest ≡ c ∷ s) × (48 ≤ c) × (c ≤ 57)
unfolding digits
digits_head zero n rest h = (48 + n % 10, rest, refl, omega arith, omega arith)
digits_head (suc f) n rest h = elim (Bool-cases (ltb n 10)) [
  | inl small ↦ (48 + n, rest, rw small, ground arith, ground arith)
  | inr large ↦ rw large (digits_head f (n / 10) ((48 + n % 10) ∷ rest) (ground arith))
]

pub length-digits :
    (f n k : ℕ) (rest : Str)
    → n ≤ f
    → n < 10 ^ suc k
    → length (digits f n rest) ≤ suc k + length rest
unfolding digits
length-digits zero n k rest h b = omega arith
length-digits (suc f) n zero rest h b = ground (arith, pow-suc 10 0)
length-digits (suc f) n (suc k) rest h b =
    ground (arith, pow-suc 10 (suc k), length-digits f (n / 10) k ((48 + n % 10) ∷ rest))

abbrev pub NoDot : Str → Type 0
NoDot s = All (λ c. c ≢ b'.') s

pub NoDot-digits : (f n : ℕ) (rest : Str) → NoDot rest → NoDot (digits f n rest)
unfolding digits
NoDot-digits zero n rest h = (omega arith, h)
NoDot-digits (suc f) n rest h = elim (Bool-cases (ltb n 10)) [
  | inl small ↦ rw small (omega arith, h)
  | inr large ↦ rw large (NoDot-digits f (n / 10) ((48 + n % 10) ∷ rest) (omega arith, h))
]

pub split_dot-NoDot : (s : Str) → NoDot s → split_dot s ≡ s ∷ []
unfolding split_dot
split_dot-NoDot [] h = refl
split_dot-NoDot (c ∷ s) h = ground (arith, split_dot-NoDot s h.1, h.0)

pub split_dot-dot : (s t : Str) → NoDot s → split_dot (s ++ b'.' ∷ t) ≡ s ∷ split_dot t
unfolding split_dot
split_dot-dot [] t h = refl
split_dot-dot (c ∷ s) t h = ground (arith, split_dot-dot s t h.1, h.0)

-- A string that begins with a digit.
abbrev StartsWithDigit : Str → Type 0
StartsWithDigit [] = ⊥
StartsWithDigit (c ∷ s) = (48 ≤ c) × (c ≤ 57)

format_uint-StartsWithDigit : (n : ℕ) → StartsWithDigit (format_uint n)
unfolding format_uint
format_uint-StartsWithDigit n =
    let (c, s, e, lo, hi) = digits_head n n [] (omega arith) in
    subst StartsWithDigit (sym e) (lo, hi)

parse_bounded-number :
    (limit n : ℕ) (s : Str)
    → StartsWithDigit s
    → parse_digits 0 s ≡ some n
    → n ≤ limit
    → parse_bounded limit s ≡ some n
unfolding parse_bounded
parse_bounded-number limit n [] d p h = absurd d
parse_bounded-number limit n (c ∷ s) d p h = ground arith

pub parse_bounded-format : (limit n : ℕ) → n ≤ limit → parse_bounded limit (format_uint n) ≡ some n
unfolding format_uint parse_digits
parse_bounded-format limit n h =
    parse_bounded-number limit n (format_uint n) (format_uint-StartsWithDigit n)
      (parse_digits-digits n n [] (omega arith)) h

pub parse_uint-format_uint :
    (n : ℕ) → n ≤ 18446744073709551615 → parse_uint (format_uint n) ≡ some n
unfolding parse_uint
parse_uint-format_uint n h = parse_bounded-format 18446744073709551615 n h

parse_int-number :
    (n : ℕ) (s : Str)
    → StartsWithDigit s
    → parse_bounded 9223372036854775807 s ≡ some n
    → parse_int s ≡ some (pos n)
unfolding parse_int
parse_int-number n [] d p = absurd d
parse_int-number n (c ∷ s) d p = ground arith

pub parse_int-format_int : (x : ℤ) → IsInt64 x → parse_int (format_int x) ≡ some x
unfolding parse_int format_int
parse_int-format_int (pos n) h =
    parse_int-number n (format_uint n) (format_uint-StartsWithDigit n)
      (parse_bounded-format 9223372036854775807 n (omega arith))
parse_int-format_int (negsuc n) h = ground (arith, parse_bounded-format 9223372036854775808 (suc n))

pub NoDot-format_int : (x : ℤ) → NoDot (format_int x)
unfolding format_int format_uint
NoDot-format_int (pos n) = NoDot-digits n n [] tt
NoDot-format_int (negsuc n) = (omega arith, NoDot-digits (suc n) (suc n) [] tt)

zeros-StartsWithDigit : (k : ℕ) (s : Str) → StartsWithDigit s → StartsWithDigit (zeros k ++ s)
zeros-StartsWithDigit zero s h = h
zeros-StartsWithDigit (suc k) s h = (omega arith, omega arith)

pub parse_uint-zeros :
    (k n : ℕ) → n ≤ 18446744073709551615 → parse_uint (zeros k ++ format_uint n) ≡ some n
unfolding parse_uint format_uint parse_digits
parse_uint-zeros k n h =
    parse_bounded-number 18446744073709551615 n (zeros k ++ format_uint n)
      (zeros-StartsWithDigit k (format_uint n) (format_uint-StartsWithDigit n))
      (parse_digits-zeros k (format_uint n) ∙ parse_digits-digits n n [] (omega arith)) h

pub length-format_uint : (n k : ℕ) → n < 10 ^ suc k → length (format_uint n) ≤ suc k
unfolding format_uint
length-format_uint n k h = omega (arith, length-digits n n k [] (omega arith))

pub NoDot-zeros : (k : ℕ) (s : Str) → NoDot s → NoDot (zeros k ++ s)
NoDot-zeros zero s h = h
NoDot-zeros (suc k) s h = (omega arith, NoDot-zeros k s h)

pub length-zeros : (k : ℕ) (s : Str) → length (zeros k ++ s) ≡ k + length s
length-zeros zero s = omega arith
length-zeros (suc k) s = omega (arith, length-zeros k s)
