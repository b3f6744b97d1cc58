-- ===== src/Sql/Meaning.antt =====
-- What a condition of a query says of a row, as SQL documents it. A row gives each column its value,
-- none for NULL. Only a condition that is true keeps a row.
use embedspicedb.Common.{
  ◌≡◌, arith, Bool, true, false, ◌&&◌, ◌||◌, Option, none, some, List, [], ◌∷◌, ◌++◌, all, any, map,
}
use embedspicedb.Common.Str.{Str, str_eq, str_lt}
use embedspicedb.Memdb.Filter.{contains}
use embedspicedb.Memdb.Filter.Cursor.{lex_lt}
use embedspicedb.Sql.{
  Condition, eq, gt, in_list, tuple_gt, and_nil, and_cons, or_nil, or_cons, and_of, or_of,
  SchemaQueryFilterer,
}

abbrev pub Row : Type 0
Row = Str → Option Str

abbrev pub equals : Option Str → Str → Bool
equals none v = false
equals (some w) v = str_eq w v

abbrev pub above_value : Option Str → Str → Bool
above_value none v = false
above_value (some w) v = str_lt v w

abbrev pub one_of : Option Str → List Str → Bool
one_of none vs = false
one_of (some w) vs = contains vs w

-- Values are compared as strings of bytes.
pub record SqlLaws (holds : Condition → Row → Bool) : Type 0 where
  pub holds-eq : (c v : Str) (r : Row) → holds (eq c v) r ≡ equals (r c) v
  pub holds-gt : (c v : Str) (r : Row) → holds (gt c v) r ≡ above_value (r c) v
  pub holds-in_list : (c : Str) (vs : List Str) (r : Row) → holds (in_list c vs) r ≡ one_of (r c) vs
  pub holds-tuple_gt :
      (cs vs ws : List Str) (r : Row)
      → map r cs ≡ map some ws
      → holds (tuple_gt cs vs) r ≡ lex_lt vs ws
  pub holds-and_nil : (r : Row) → holds and_nil r ≡ true
  pub holds-and_cons :
      (a b : Condition) (r : Row) → holds (and_cons a b) r ≡ (holds a r && holds b r)
  pub holds-or_nil : (r : Row) → holds or_nil r ≡ false
  pub holds-or_cons : (a b : Condition) (r : Row) → holds (or_cons a b) r ≡ (holds a r || holds b r)

module _ (holds : Condition → Row → Bool) where
  abbrev pub all_hold : List Condition → Row → Bool
  all_hold cs r = all (λ c. holds c r) cs

  -- The rows that a query's conditions let through.
  abbrev pub meets : {E : Type 0} → SchemaQueryFilterer E → Row → Bool
  meets q r = all_hold q.query_builder.where_parts r

  pub all_hold-append :
      (cs ds : List Condition) (r : Row) → all_hold (cs ++ ds) r ≡ (all_hold cs r && all_hold ds r)
  all_hold-append [] ds r = ground arith
  all_hold-append (c ∷ cs) ds r = ground (arith, all_hold-append cs ds r)

module _ {holds : Condition → Row → Bool} (laws : SqlLaws holds) where
  pub holds-and_of : (cs : List Condition) (r : Row) → holds (and_of cs) r ≡ all_hold holds cs r
  holds-and_of [] r = laws.holds-and_nil r
  holds-and_of (c ∷ cs) r = ground (arith, laws.holds-and_cons c (and_of cs) r, holds-and_of cs r)

  pub holds-or_of : (cs : List Condition) (r : Row) → holds (or_of cs) r ≡ any (λ c. holds c r) cs
  holds-or_of [] r = laws.holds-or_nil r
  holds-or_of (c ∷ cs) r = ground (arith, laws.holds-or_cons c (or_of cs) r, holds-or_of cs r)
