-- ===== src/Samples/Statements.antt =====
-- Queries with conditions that are evaluated on rows, and rows that are functions.
use embedspicedb.Common.{
  ◌≡◌, refl, ap, arith, Bool, true, false, not, ◌&&◌, ◌||◌, Option, none, some, List, [], ◌∷◌,
  if◌then◌else◌, map, ◌==◌, is_some,
}
use embedspicedb.Common.Str.{Str, bytes, str_eq, str_Eq, is_empty, has_prefix}
use embedspicedb.Common.GoMap.{lookup, insert}
use embedspicedb.Common.Result.{ok}
use embedspicedb.Memdb.Filter.{ellipsis}
use embedspicedb.Memdb.Filter.Cursor.{lex_lt}
use embedspicedb.Sql.{
  SchemaInformation, tuple_comparison, static_values, Condition, eq, not_eq, gt, eq_null, not_null,
  in_list, tuple_gt, like, col_after_now, and_nil, or_nil, and_cons, or_cons, SchemaQueryFilterer,
  static_value, new_for_relationships_select, record_column_value,
}
use embedspicedb.Sql.Filters.{
  percent, underscore, backslash, contains_byte, build_like_prefix_clause, filter_to_subject_filter,
  or_ellipsis, filter_to_resource_type,
}
use embedspicedb.Sql.Meaning.{Row, SqlLaws, equals, above_value, one_of, meets}
use embedspicedb.Sql.Static.Reachable.{Filtered, started, by_resource_type, static_value-meets}
use embedspicedb.Sql.Like.{LikeLaws, build_like_prefix_clause-has_prefix}
use embedspicedb.Sql.Execute.SubjectFilter.{filter_to_subject_filter_relation}

-- A pattern, after an escape or not.
abbrev pub matches_from : Bool → Str → Str → Bool
matches_from escape [] s = is_empty s
matches_from true (c ∷ pattern) [] = false
matches_from true (c ∷ pattern) (a ∷ s) =
    let rest = matches_from false pattern s in if a == c then rest else false
matches_from false (c ∷ pattern) [] = if c == percent then true else false
matches_from false (c ∷ pattern) (a ∷ s) =
    let escaped = matches_from true pattern (a ∷ s) in
    let rest = matches_from false pattern s in
    if c == percent
    then true
    else if c == backslash
    then escaped
    else if c == underscore
    then rest
    else if a == c
    then rest
    else false

abbrev pub matches : Str → Str → Bool
matches pattern s = matches_from false pattern s

like_laws : LikeLaws matches
like_laws = record {
  matches-percent = λ s. at_end s;
  matches-escaped = λ c a pattern s. refl;
  matches-escaped_end = λ c pattern. refl;
  matches-plain = λ c a pattern s p u b. ground arith;
  matches-plain_end = λ c pattern p u b. ground arith;
}
  where
    at_end : (s : Str) → matches (percent ∷ []) s ≡ true
    at_end [] = refl
    at_end (a ∷ s) = refl

no_percent : contains_byte percent (bytes "a_b") ≡ false
unfolding str_eq
no_percent = refl

build_like_prefix_clause-has_prefix_example :
    (pattern : Str) × (build_like_prefix_clause (bytes "a_b") ≡ ok pattern)
    × (matches pattern (bytes "a_bc") ≡ has_prefix (bytes "a_bc") (bytes "a_b"))
build_like_prefix_clause-has_prefix_example =
    build_like_prefix_clause-has_prefix matches like_laws (bytes "a_b") (bytes "a_bc")
      (λ h. ground arith) no_percent

abbrev pub or_empty : Option Str → Str
or_empty none = []
or_empty (some v) = v

abbrev pub differs : Option Str → Str → Bool
differs none v = false
differs (some w) v = not (str_eq w v)

abbrev pub holds : Condition → Row → Bool
holds (eq c v) r = equals (r c) v
holds (not_eq c v) r = differs (r c) v
holds (gt c v) r = above_value (r c) v
holds (eq_null c) r = not (is_some (r c))
holds (not_null c) r = is_some (r c)
holds (in_list c vs) r = one_of (r c) vs
holds (tuple_gt cs vs) r = lex_lt vs (map (λ c. or_empty (r c)) cs)
holds (like c pattern) r = matches pattern (or_empty (r c))
holds (col_after_now c now) r = is_some (r c)
holds and_nil r = true
holds or_nil r = false
holds (and_cons a b) r = holds a r && holds b r
holds (or_cons a b) r = holds a r || holds b r

present : (r : Row) (cs ws : List Str) → map r cs ≡ map some ws → map (λ c. or_empty (r c)) cs ≡ ws
present r [] [] h = refl
present r [] (w ∷ ws) h = ground arith
present r (c ∷ cs) [] h = ground arith
present r (c ∷ cs) (w ∷ ws) h = ground (arith, present r cs ws)

pub sql_laws : SqlLaws holds
sql_laws = record {
  holds-eq = λ c v r. refl;
  holds-gt = λ c v r. refl;
  holds-in_list = λ c vs r. refl;
  holds-tuple_gt = λ cs vs ws r h. ap (lex_lt vs) (present r cs ws h);
  holds-and_nil = λ r. refl;
  holds-and_cons = λ a b r. refl;
  holds-or_nil = λ r. refl;
  holds-or_cons = λ a b r. refl;
}

abbrev pub schema : SchemaInformation
schema = record {
  relationship_table_name = bytes "relation_tuple";
  col_namespace = bytes "namespace";
  col_object_id = bytes "object_id";
  col_relation = bytes "relation";
  col_userset_namespace = bytes "userset_namespace";
  col_userset_object_id = bytes "userset_object_id";
  col_userset_relation = bytes "userset_relation";
  col_caveat_name = bytes "caveat_name";
  col_caveat_context = bytes "caveat_context";
  col_expiration = bytes "expiration";
  col_integrity_key_id = bytes "key_id";
  col_integrity_hash = bytes "hash";
  col_integrity_timestamp = bytes "timestamp";
  pagination_filter_type = tuple_comparison;
  now_function = bytes "NOW";
  column_optimization = static_values;
  integrity_enabled = false;
  expiration_disabled = false;
  sort_by_resource_column_order = [];
  sort_by_subject_column_order = [];
}

abbrev pub fresh : SchemaQueryFilterer Str
fresh = new_for_relationships_select schema 0 []

abbrev pub of_docs : SchemaQueryFilterer Str
of_docs = filter_to_resource_type (bytes "doc") fresh

pub docs-Filtered : Filtered of_docs
docs-Filtered = by_resource_type (bytes "doc") fresh (started schema 0 [])

-- A document that users view.
abbrev pub document : Row
document column =
    if str_eq column (bytes "namespace")
    then some (bytes "doc")
    else if str_eq column (bytes "userset_relation")
    then some (bytes "member")
    else some (bytes "x")

docs_static : static_value of_docs.filtering_column_tracker (bytes "namespace") ≡ some (bytes "doc")
unfolding filter_to_resource_type new_for_relationships_select record_column_value lookup insert
    str_eq
docs_static = refl

pub docs_met : meets holds of_docs document ≡ true
unfolding filter_to_resource_type new_for_relationships_select str_eq
docs_met = refl

static_value-meets_example : document (bytes "namespace") ≡ some (bytes "doc")
static_value-meets_example =
    static_value-meets sql_laws of_docs (bytes "namespace") (bytes "doc") document docs-Filtered
      docs_static docs_met

members_met :
    meets holds (filter_to_subject_filter (bytes "x") [] (some (bytes "member")) fresh) document
    ≡ true
unfolding filter_to_subject_filter new_for_relationships_select str_eq
members_met = refl

fresh_map : lookup (bytes "userset_relation") fresh.filtering_column_tracker ≡ none
unfolding new_for_relationships_select lookup
fresh_map = refl

filter_to_subject_filter_relation_example :
    (static_value
        (filter_to_subject_filter
          (bytes "x")
          []
          (some (bytes "member"))
          fresh).filtering_column_tracker
        (bytes "userset_relation")
      ≡ some ellipsis)
    × (document (bytes "userset_relation") ≡ some (or_ellipsis (bytes "member")))
unfolding new_for_relationships_select
filter_to_subject_filter_relation_example =
    filter_to_subject_filter_relation sql_laws (bytes "x") [] (bytes "member") fresh document
      (λ h. ground arith) (λ h. ground arith) fresh_map members_met
