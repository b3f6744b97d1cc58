-- ===== src/Sql/Static.antt =====
-- The columns with one value: what the map of a filterer says of the rows that its query gives.
pub mod Selectors
pub mod Tracked
pub mod Reachable
use embedspicedb.Common.{
  ◌⊎◌, ◌≡◌, ◌≢◌, refl, sym, arith, Bool, true, false, ◌&&◌, Option, none, some, List, [], ◌∷◌, ◌++◌,
  if◌then◌else◌, inl, inr, Bool-cases, Option-cases, All,
}
use embedspicedb.Common.Str.{Str, is_empty, str_eq, str_Eq, str_eq_iff}
use embedspicedb.Common.GoMap.{lookup, insert, lookup-insert}
use embedspicedb.Common.Result.{Result, ok, err}
use embedspicedb.Memdb.Filter.{contains}
use embedspicedb.Sql.{
  ColumnTrackerMap, static_value, record_column_value, record_varying_column_value,
}
use embedspicedb.Sql.Filters.{SqlError, record_values}
use embedspicedb.Sql.Meaning.{Row, one_of}

-- A column with one value has it in each of the rows.
abbrev pub Sound : ColumnTrackerMap → (Row → Type 0) → Type 0
Sound m P = (c v : Str) → static_value m c ≡ some v → (r : Row) → P r → r c ≡ some v

pub Sound-weaken :
    (m : ColumnTrackerMap) (P Q : Row → Type 0) → Sound m P → ((r : Row) → Q r → P r) → Sound m Q
Sound-weaken m P Q s f c v h r q = s c v h r (f r q)

-- What a recorded value makes of the entry of its column.
abbrev merged : Option (Option Str) → Str → Option Str
merged none v = some v
merged (some none) v = none
merged (some (some w)) v = if str_eq w v then some w else none

pub lookup-record :
    (c d v : Str) (m : ColumnTrackerMap)
    → lookup d (record_column_value c v m)
      ≡ (if str_eq c d then some (merged (lookup c m) v) else lookup d m)
unfolding record_column_value
lookup-record c d v m = go (lookup c m) refl
  where
    go :
        (x : Option (Option Str))
        → lookup c m ≡ x
        → lookup d (record_column_value c v m)
          ≡ (if str_eq c d then some (merged (lookup c m) v) else lookup d m)
    go none e = ground (arith, lookup-insert c d (some v) m)
    go (some none) e = ground (arith, str_eq_iff c d)
    go (some (some w)) e = ground (arith, lookup-insert c d none m, str_eq_iff c d)

lookup-record_varying :
    (c d : Str) (m : ColumnTrackerMap)
    → lookup d (record_varying_column_value c m) ≡ (if str_eq c d then some none else lookup d m)
unfolding record_varying_column_value
lookup-record_varying c d m = lookup-insert c d none m

static_after_varying :
    (c d v : Str) (m : ColumnTrackerMap)
    → static_value (record_varying_column_value c m) d ≡ some v
    → static_value m d ≡ some v
static_after_varying c d v m h = ground (arith, lookup-record_varying c d m)

pub record_varying-Sound :
    (c : Str) (m : ColumnTrackerMap) (P : Row → Type 0)
    → Sound m P
    → Sound (record_varying_column_value c m) P
record_varying-Sound c m P s d v h r q = s d v (static_after_varying c d v m h) r q

static_after_record :
    (c d v w : Str) (m : ColumnTrackerMap)
    → static_value (record_column_value c v m) d ≡ some w
    → ((c ≡ d) × (v ≡ w)) ⊎ (static_value m d ≡ some w)
static_after_record c d v w m h = elim (Bool-cases (str_eq c d)) [
  | inl same ↦ go (lookup c m) refl same
  | inr other ↦ inr (ground (arith, lookup-record c d v m))
]
  where
    go :
        (x : Option (Option Str))
        → lookup c m ≡ x
        → str_eq c d ≡ true
        → ((c ≡ d) × (v ≡ w)) ⊎ (static_value m d ≡ some w)
    go none e same = inl (ground (arith, lookup-record c d v m, str_eq_iff c d))
    go (some none) e same = ground (arith, lookup-record c d v m)
    go (some (some x)) e same =
        inl (ground (arith, lookup-record c d v m, str_eq_iff c d, str_eq_iff x v))

-- A value that is recorded for a column is that of the column in each row.
pub record-Sound :
    (c v : Str) (m : ColumnTrackerMap) (P : Row → Type 0)
    → Sound m P
    → ((r : Row) → P r → r c ≡ some v)
    → Sound (record_column_value c v m) P
record-Sound c v m P s f d w h r q = elim (static_after_record c d v w m h) [
  | inl (same, equal) ↦ ground (arith, f r q)
  | inr before ↦ s d w before r q
]

-- Once a column is in the map, its value can only be lost.
kept :
    (e : SqlError) (c d : Str) (vs : List Str) (m n : ColumnTrackerMap) (o : Option Str) (w : Str)
    → record_values e c vs m ≡ ok n
    → lookup d m ≡ some o
    → static_value n d ≡ some w
    → o ≡ some w
kept e c d [] m n o w h l k = ground arith
kept e c d (v ∷ vs) m n o w h l k = elim (Bool-cases (str_eq c d)) [
  | inl same ↦ ground (
    arith,
    lookup-record c d v m,
    str_eq_iff c d,
    kept e c d vs (record_column_value c v m) n (merged (some o) v) w,
  )
  | inr other ↦
      ground (arith, lookup-record c d v m, kept e c d vs (record_column_value c v m) n o w)
]

-- The values of an IN list: a column that has one value after it has no other in the list.
only_value :
    (e : SqlError) (c w : Str) (vs : List Str) (m n : ColumnTrackerMap)
    → record_values e c vs m ≡ ok n
    → static_value n c ≡ some w
    → All (λ v. v ≡ w) vs
only_value e c w [] m n h k = tt
only_value e c w (v ∷ vs) m n h k = elim (Bool-cases (is_empty v)) [
  | inl empty ↦ ground arith
  | inr full ↦ (
    merged_value (lookup c m) v w (
        kept e c c vs (record_column_value c v m) n (merged (lookup c m) v) w (ground arith)
          (ground (arith, lookup-record c c v m, str_eq_iff c c)) k),
    only_value e c w vs (record_column_value c v m) n (ground arith) k,
  )
]
  where
    merged_value : (x : Option (Option Str)) (u z : Str) → merged x u ≡ some z → u ≡ z
    merged_value none u z q = ground arith
    merged_value (some none) u z q = ground arith
    merged_value (some (some y)) u z q = ground (arith, str_eq_iff y u)

other_column :
    (e : SqlError) (c d : Str) (vs : List Str) (m n : ColumnTrackerMap)
    → record_values e c vs m ≡ ok n
    → str_eq c d ≡ false
    → lookup d n ≡ lookup d m
other_column e c d [] m n h k = ground arith
other_column e c d (v ∷ vs) m n h k =
    ground (arith, lookup-record c d v m, other_column e c d vs (record_column_value c v m) n)

contains_only : (vs : List Str) (u w : Str) → All (λ v. v ≡ w) vs → contains vs u ≡ true → u ≡ w
contains_only [] u w a h = ground arith
contains_only (v ∷ vs) u w a h = ground (arith, contains_only vs u w a.1, str_eq_iff v u, a.0)

pub record_values-Sound :
    (e : SqlError) (c : Str) (vs : List Str) (m n : ColumnTrackerMap) (P : Row → Type 0)
    → record_values e c vs m ≡ ok n
    → Sound m P
    → ((r : Row) → P r → one_of (r c) vs ≡ true)
    → Sound n P
record_values-Sound e c vs m n P h s f d w k r q = elim (Bool-cases (str_eq c d)) [
  | inl same ↦ column (r c) refl ((str_eq_iff c d).0 same)
  | inr other ↦ s d w (ground (arith, other_column e c d vs m n h other)) r q
]
  where
    column : (x : Option Str) → r c ≡ x → c ≡ d → r d ≡ some w
    column none g same = ground (arith, f r q)
    column (some u) g same =
        ground (arith, f r q, contains_only vs u w (only_value e c w vs m n h (ground arith)))
