-- ===== src/Sql/Cursor/Parts.antt =====
-- The parts of a cursor's condition against the order of the columns that vary.
use embedspicedb.Common.{
  ◌≡◌, refl, arith, Bool, true, ◌&&◌, some, List, [], ◌∷◌, ◌++◌, if◌then◌else◌, map, any, All, inl,
  inr, Bool-cases, Option-cases,
}
use embedspicedb.Common.Str.{Str, str_eq_iff, str_lt_irrefl}
use embedspicedb.Memdb.Filter.Cursor.{lex_lt, str_trichotomy}
use embedspicedb.Sql.{Condition, gt, and_of, ColumnTrackerMap, has_static_value, static_value}
use embedspicedb.Sql.Meaning.{
  Row, SqlLaws, all_hold, all_hold-append, holds-and_of, equals, above_value,
}
use embedspicedb.Sql.Cursor.{NameAndValue, varying, equal_to_previous, or_clause}

abbrev pub names : List NameAndValue → List Str
names cavs = map (λ c. c.0) cavs

abbrev pub values : List NameAndValue → List Str
values cavs = map (λ c. c.1) cavs

-- The row's values at the columns that have no static value.
abbrev pub varying_values : ColumnTrackerMap → List NameAndValue → List Str → List Str
varying_values m [] ws = []
varying_values m (cav ∷ cavs) [] = []
varying_values m (cav ∷ cavs) (w ∷ ws) =
    let rest = varying_values m cavs ws in if has_static_value m cav.0 then rest else w ∷ rest

-- A cursor of the query's rows has the static values.
abbrev pub Agrees : ColumnTrackerMap → List NameAndValue → Type 0
Agrees m cavs = All (λ cav. (v : Str) → static_value m cav.0 ≡ some v → cav.1 ≡ v) cavs

-- The row's values at the columns, none of which is NULL.
abbrev pub HasValues : Row → List NameAndValue → List Str → Type 0
HasValues r cavs ws = map r (names cavs) ≡ map some ws

head_value :
    (r : Row) (cav : NameAndValue) (cavs : List NameAndValue) (w : Str) (ws : List Str)
    → HasValues r (cav ∷ cavs) (w ∷ ws)
    → (r cav.0 ≡ some w) × HasValues r cavs ws
head_value r cav cavs w ws h = (cc, cc)

lex_lt_same : (v w : Str) (vs ws : List Str) → v ≡ w → lex_lt (v ∷ vs) (w ∷ ws) ≡ lex_lt vs ws
unfolding lex_lt
lex_lt_same v w vs ws h = ground (arith, str_lt_irrefl v, str_eq_iff v w)

pub varying_lex :
    (m : ColumnTrackerMap) (r : Row) (cavs : List NameAndValue) (ws : List Str)
    → Agrees m cavs
    → HasValues r cavs ws
    → ((c v : Str) → static_value m c ≡ some v → r c ≡ some v)
    → lex_lt (values (varying m cavs)) (varying_values m cavs ws) ≡ lex_lt (values cavs) ws
unfolding lex_lt
varying_lex m r [] [] a h s = refl
varying_lex m r [] (w ∷ ws) a h s = ground arith
varying_lex m r (cav ∷ cavs) [] a h s = ground arith
varying_lex m r (cav ∷ cavs) (w ∷ ws) a h s =
    let (here, rest) = head_value r cav cavs w ws h in
    let ih = varying_lex m r cavs ws a.1 rest s in
    elim (Option-cases (static_value m cav.0)) [
      | inl none_there ↦ ground (arith, ih)
      | inr (v, e) ↦
          ground (arith, ih, here, s cav.0 v e, a.0 v e, lex_lt_same cav.1 w (values cavs) ws)
    ]

pub varying-HasValues :
    (m : ColumnTrackerMap) (r : Row) (cavs : List NameAndValue) (ws : List Str)
    → HasValues r cavs ws
    → HasValues r (varying m cavs) (varying_values m cavs ws)
varying-HasValues m r [] [] h = refl
varying-HasValues m r [] (w ∷ ws) h = ground arith
varying-HasValues m r (cav ∷ cavs) [] h = ground arith
varying-HasValues m r (cav ∷ cavs) (w ∷ ws) h =
    let (e, rest) = head_value r cav cavs w ws h in
    elim (Bool-cases (has_static_value m cav.0)) [
      | inl static ↦ rw static (varying-HasValues m r cavs ws rest)
      | inr varies ↦ ground (arith, varying-HasValues m r cavs ws rest, e, varies)
    ]

module _ {holds : Condition → Row → Bool} (laws : SqlLaws holds) where
  abbrev pub holds_previous : ColumnTrackerMap → List NameAndValue → Row → Bool
  holds_previous m previous r = all_hold holds (equal_to_previous m previous) r

  previous-snoc :
      (m : ColumnTrackerMap) (r : Row) (previous : List NameAndValue) (cav : NameAndValue)
      → holds_previous m (previous ++ cav ∷ []) r ≡ (
          holds_previous m previous r
          && (if has_static_value m cav.0 then true else equals (r cav.0) cav.1))
  previous-snoc m r [] cav = ground (arith, laws.holds-eq cav.0 cav.1 r)
  previous-snoc m r (before ∷ previous) cav = ground (arith, previous-snoc m r previous cav)

  part-holds :
      (m : ColumnTrackerMap) (r : Row) (previous : List NameAndValue) (cav : NameAndValue)
      → holds (and_of (equal_to_previous m previous ++ gt cav.0 cav.1 ∷ [])) r
        ≡ (holds_previous m previous r && above_value (r cav.0) cav.1)
  part-holds m r previous cav = ground (
    arith,
    holds-and_of laws (equal_to_previous m previous ++ gt cav.0 cav.1 ∷ []) r,
    all_hold-append holds (equal_to_previous m previous) (gt cav.0 cav.1 ∷ []) r,
    laws.holds-gt cav.0 cav.1 r,
  )

  pub or_clause-lex :
      (m : ColumnTrackerMap) (r : Row) (previous cavs : List NameAndValue) (ws : List Str)
      → HasValues r cavs ws
      → any (λ c. holds c r) (or_clause m previous cavs) ≡ (
          holds_previous m previous r
          && lex_lt (values (varying m cavs)) (varying_values m cavs ws))
  unfolding lex_lt
  or_clause-lex m r previous [] [] h = ground arith
  or_clause-lex m r previous [] (w ∷ ws) h = ground arith
  or_clause-lex m r previous (cav ∷ cavs) [] h = ground arith
  or_clause-lex m r previous (cav ∷ cavs) (w ∷ ws) h =
      let (e, rest) = head_value r cav cavs w ws h in
      ground (
        arith,
        e,
        or_clause-lex m r (previous ++ cav ∷ []) cavs ws rest,
        previous-snoc m r previous cav,
        part-holds m r previous cav,
        str_trichotomy cav.1 w,
      )

  -- The parts are none where every column has a static value.
  pub or_clause-empty :
      (m : ColumnTrackerMap) (previous cavs : List NameAndValue)
      → or_clause m previous cavs ≡ []
      → varying m cavs ≡ []
  or_clause-empty m previous [] h = refl
  or_clause-empty m previous (cav ∷ cavs) h =
      ground (arith, or_clause-empty m (previous ++ cav ∷ []) cavs)
