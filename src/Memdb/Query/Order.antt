-- ===== src/Memdb/Query/Order.antt =====
-- The order in which the subject-sorted iterator sorts relationships, and what the cursor's test on a
-- row says of the relationship that the row stands for.
use embedspicedb.Common.{
  ◌≡◌, refl, Bool, true, false, not, ◌&&◌, ◌||◌, ◌⊎◌, some, List, [], ◌∷◌, arith, Option-cases,
}
use embedspicedb.Common.Str.{Str, str_eq_iff, str_lt_irrefl, str_lt_trans}
use embedspicedb.Common.Sort.{IsStrictWeak}
use embedspicedb.Common.Result.{ok}
use embedspicedb.Memdb.{
  Params, ObjectAndRelation, Relationship, TupleRelationship, relationship, to_proto_caveat,
}
use embedspicedb.Memdb.Filter.{
  RelationshipReference, by_subject, less, eq, must_make_cursor_filter_fn,
}
use embedspicedb.Memdb.Filter.Cursor.{
  lex_lt, object_fields, str_trichotomy, cursor_filter_lex, resource_fields, subject_fields,
}
use embedspicedb.Memdb.Query.{subject_less}

pub lex_lt_irrefl : (xs : List Str) → lex_lt xs xs ≡ false
unfolding lex_lt
lex_lt_irrefl [] = refl
lex_lt_irrefl (x ∷ xs) = ground (arith, str_lt_irrefl x, lex_lt_irrefl xs, str_eq_iff x x)

pub lex_lt_trans :
    (xs ys zs : List Str) → lex_lt xs ys ≡ true → lex_lt ys zs ≡ true → lex_lt xs zs ≡ true
unfolding lex_lt
lex_lt_trans xs ys [] h k = ground arith
lex_lt_trans xs [] (z ∷ zs) h k = ground arith
lex_lt_trans [] (y ∷ ys) (z ∷ zs) h k = refl
lex_lt_trans (x ∷ xs) (y ∷ ys) (z ∷ zs) h k = ground (
  arith,
  lex_lt_trans xs ys zs,
  str_lt_trans x y z,
  str_eq_iff x y,
  str_eq_iff y z,
  str_eq_iff x z,
)

pub lex_lt_total : (xs ys : List Str) → (lex_lt xs ys ≡ true) ⊎ (xs ≡ ys) ⊎ (lex_lt ys xs ≡ true)
unfolding lex_lt
lex_lt_total [] [] = ground arith
lex_lt_total [] (y ∷ ys) = ground arith
lex_lt_total (x ∷ xs) [] = ground arith
lex_lt_total (x ∷ xs) (y ∷ ys) =
    ground (arith, lex_lt_total xs ys, str_trichotomy x y, str_eq_iff x y)

lex_lt_asym : (xs ys : List Str) → lex_lt xs ys ≡ true → lex_lt ys xs ≡ false
lex_lt_asym xs ys h = ground (arith, lex_lt_trans xs ys xs, lex_lt_irrefl xs)

lex_lt_neg_trans :
    (xs ys zs : List Str) → lex_lt xs ys ≡ false → lex_lt ys zs ≡ false → lex_lt xs zs ≡ false
lex_lt_neg_trans xs ys zs h k = ground (
  arith,
  lex_lt_total ys zs,
  lex_lt_total xs ys,
  lex_lt_trans zs ys xs,
  lex_lt_trans xs zs ys,
  lex_lt_trans ys xs zs,
  lex_lt_irrefl xs,
  lex_lt_irrefl zs,
)

-- One object against another, and then the rest.
object_lt :
    (a b c : Str) (o : ObjectAndRelation) (rest : Bool) (xs ys : List Str)
    → rest ≡ lex_lt xs ys
    → (less a b c o || (eq a b c o && rest)) ≡ lex_lt (a ∷ b ∷ c ∷ xs) (object_fields o ys)
unfolding less eq lex_lt
object_lt a b c o rest xs ys h = ground (
  arith,
  str_trichotomy a o.object_type,
  str_trichotomy b o.object_id,
  str_trichotomy c o.relation,
)

last_lt :
    (a b c : Str) (o : ObjectAndRelation)
    → less a b c o ≡ lex_lt (a ∷ b ∷ c ∷ []) (object_fields o [])
unfolding less lex_lt
last_lt a b c o = ground (
  arith,
  str_trichotomy a o.object_type,
  str_trichotomy b o.object_id,
  str_trichotomy c o.relation,
)

module _ {p : Params} where
  -- The six fields of a relationship, the subject's first or the resource's first.
  abbrev pub subject_key : TupleRelationship p → List Str
  subject_key rt = object_fields rt.subject (object_fields rt.resource [])

  abbrev pub resource_key : TupleRelationship p → List Str
  resource_key rt = object_fields rt.resource (object_fields rt.subject [])

  abbrev pub reference : TupleRelationship p → RelationshipReference
  reference rt = record { resource = rt.resource; subject = rt.subject }

  pub subject_less-eq-lex_lt :
      (a b : TupleRelationship p) → subject_less a b ≡ lex_lt (subject_key a) (subject_key b)
  subject_less-eq-lex_lt a b =
      object_lt a.subject.object_type a.subject.object_id a.subject.relation b.subject _
        (object_fields a.resource []) (object_fields b.resource [])
        (last_lt a.resource.object_type a.resource.object_id a.resource.relation b.resource)

  pub subject_less-IsStrictWeak : IsStrictWeak (subject_less {p = p})
  subject_less-IsStrictWeak = record {
    asym = λ a b h. ground (
      arith,
      subject_less-eq-lex_lt a b,
      subject_less-eq-lex_lt b a,
      lex_lt_asym (subject_key a) (subject_key b),
    );
    neg_trans = λ a b c h k. ground (
      arith,
      subject_less-eq-lex_lt a b,
      subject_less-eq-lex_lt b c,
      subject_less-eq-lex_lt a c,
      lex_lt_neg_trans (subject_key a) (subject_key b) (subject_key c),
    );
  }

  pub fields_of_row :
      (row : Relationship p) (rt : TupleRelationship p)
      → relationship p row ≡ ok rt
      → (subject_fields row (resource_fields row []) ≡ subject_key rt)
        × (resource_fields row (subject_fields row []) ≡ resource_key rt)
  unfolding relationship to_proto_caveat
  fields_of_row row rt h = ground (arith, Option-cases row.caveat)

  -- The test of the cursor on a row is whether the row's relationship is not after it.
  pub cursor-subject :
      (row : Relationship p) (rt after : TupleRelationship p)
      → relationship p row ≡ ok rt
      → must_make_cursor_filter_fn (some (reference after)) by_subject row
        ≡ not (subject_less after rt)
  cursor-subject row rt after h = ground (
    arith,
    (cursor_filter_lex (reference after) row).2,
    fields_of_row row rt h,
    subject_less-eq-lex_lt after rt,
  )
