-- ===== src/Memdb/Filter/Cursor.antt =====
-- The cursor test against the lexicographic order of the six fields.
use embedspicedb.Common.{
  ◌≡◌, refl, Bool, true, false, not, ◌⊎◌, some, List, ◌&&◌, ◌||◌, [], ◌∷◌, arith, if◌then◌else◌,
}
use embedspicedb.Common.Str.{
  Str, str_eq, str_lt, str_eq_iff, str_lt_total, str_lt_irrefl, str_lt_trans,
}
use embedspicedb.Memdb.{Params, ObjectAndRelation, Relationship}
use embedspicedb.Memdb.Filter.{
  RelationshipReference, choose_efficient, by_resource, by_subject, less, eq,
  must_make_cursor_filter_fn,
}

-- The lexicographic order of two lists of strings.
unfoldable pub lex_lt : List Str → List Str → Bool
lex_lt xs [] = false
lex_lt [] (y ∷ ys) = true
lex_lt (x ∷ xs) (y ∷ ys) = if str_lt x y then true else if str_eq x y then lex_lt xs ys else false

abbrev pub object_fields : ObjectAndRelation → List Str → List Str
object_fields o rest = o.object_type ∷ o.object_id ∷ o.relation ∷ rest

module _ {p : Params} where
  abbrev pub resource_fields : Relationship p → List Str → List Str
  resource_fields t rest = t.namespace ∷ t.resource_id ∷ t.relation ∷ rest

  abbrev pub subject_fields : Relationship p → List Str → List Str
  subject_fields t rest = t.subject_namespace ∷ t.subject_object_id ∷ t.subject_relation ∷ rest

-- Two strings are in exactly one of the three relations, as the tests see it.
abbrev pub Tested : Str → Str → Bool → Bool → Bool → Type 0
Tested s t below same above =
    (str_lt s t ≡ below) × (str_eq s t ≡ same) × (str_eq t s ≡ same) × (str_lt t s ≡ above)

pub str_trichotomy :
    (s t : Str)
    → (Tested s t true false false ⊎ Tested s t false true false ⊎ Tested s t false false true)
str_trichotomy s t = ground (
  arith,
  str_lt_total s t,
  str_lt_irrefl s,
  str_lt_irrefl t,
  str_lt_trans s t s,
  str_lt_trans t s t,
  str_eq_iff t s,
  str_eq_iff s t,
)

-- The test of one object, and then of the rest.
object_step :
    (a b c : Str) (o : ObjectAndRelation) (rest : Bool) (xs ys : List Str)
    → rest ≡ not (lex_lt ys xs)
    → (less a b c o || (eq a b c o && rest)) ≡ not (lex_lt (object_fields o ys) (a ∷ b ∷ c ∷ xs))
unfolding less eq lex_lt
object_step a b c o rest xs ys h = ground (
  arith,
  str_trichotomy a o.object_type,
  str_trichotomy b o.object_id,
  str_trichotomy c o.relation,
)

last_step :
    (a b c : Str) (o : ObjectAndRelation)
    → (less a b c o || eq a b c o) ≡ not (lex_lt (object_fields o []) (a ∷ b ∷ c ∷ []))
unfolding less eq lex_lt
last_step a b c o = ground (
  arith,
  str_trichotomy a o.object_type,
  str_trichotomy b o.object_id,
  str_trichotomy c o.relation,
)

-- With a cursor and a sort order the test keeps exactly the rows that lie strictly after the cursor:
-- by resource, and where the choice is left open, in the lexicographic order of the resource's three
-- fields and then the subject's, and by subject the other way round.
pub cursor_filter_lex :
    {p : Params} (after : RelationshipReference) (t : Relationship p)
    → (must_make_cursor_filter_fn (some after) by_resource t
        ≡ not (
            lex_lt
              (object_fields after.resource (object_fields after.subject []))
              (resource_fields t (subject_fields t []))))
      × (must_make_cursor_filter_fn (some after) choose_efficient t
          ≡ must_make_cursor_filter_fn (some after) by_resource t)
      × (must_make_cursor_filter_fn (some after) by_subject t
          ≡ not (
              lex_lt
                (object_fields after.subject (object_fields after.resource []))
                (subject_fields t (resource_fields t []))))
unfolding must_make_cursor_filter_fn
cursor_filter_lex after t = (
  object_step t.namespace t.resource_id t.relation after.resource _ (subject_fields t [])
      (object_fields after.subject [])
      (last_step t.subject_namespace t.subject_object_id t.subject_relation after.subject),
  refl,
  object_step t.subject_namespace t.subject_object_id t.subject_relation after.subject _
      (resource_fields t []) (object_fields after.resource [])
      (last_step t.namespace t.resource_id t.relation after.resource),
)
