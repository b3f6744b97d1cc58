-- ===== src/Memdb/Query/Coalesce.antt =====
-- readonly.go: the loop that coalesces the results of a query, against the filter of its cursor.
use embedspicedb.Common.{
  ◌≡◌, ◌≢◌, refl, Bool, false, not, ◌||◌, Option, none, some, List, [], ◌∷◌, ◌++◌, arith, All,
  All-weaken, filter, if◌then◌else◌, inl, inr, Bool-cases,
}
use embedspicedb.Common.Int.{ℤ}
use embedspicedb.Common.Str.{Str}
use embedspicedb.Common.Sort.{IsSorted}
use embedspicedb.Common.Sort.Filter.{Pairwise, Pairwise-filter}
use embedspicedb.Common.Result.{ok, >>=-eq-ok}
use embedspicedb.Memdb.{Params, Relationship, TupleRelationship, relationship}
use embedspicedb.Memdb.Filter.{
  RelationshipsFilter, RelationshipReference, by_subject, filter_func_for_filters,
  must_make_cursor_filter_fn,
}
use embedspicedb.Memdb.Filter.Cursor.{subject_fields, resource_fields}
use embedspicedb.Memdb.Query.{QueryOptions, visible, coalesce, subject_less, passing}
use embedspicedb.Memdb.Query.Order.{
  subject_key, reference, fields_of_row, subject_less-eq-lex_lt, cursor-subject, lex_lt_total,
  lex_lt_irrefl,
}

-- The same query from a cursor on, or from the start.
abbrev pub from : Option RelationshipReference → QueryOptions → QueryOptions
from after opts = record opts { after = after; sort = by_subject }

module _ {p : Params} where
  filter_with_cursor :
      (f : RelationshipsFilter) (cursor : Relationship p → Bool) (t : Relationship p)
      → filter_func_for_filters f cursor t ≡ (filter_func_for_filters f (λ r. false) t || cursor t)
  unfolding filter_func_for_filters
  filter_with_cursor f cursor t = ground arith

  abbrev after_cursor : TupleRelationship p → Relationship p → Bool
  after_cursor after t = not (must_make_cursor_filter_fn (some (reference after)) by_subject t)

  no_cursor : (t : Relationship p) → must_make_cursor_filter_fn none by_subject t ≡ false
  unfolding must_make_cursor_filter_fn
  no_cursor t = refl

  -- The cursor only takes rows away from those that pass without one.
  pub passing-from :
      (f : RelationshipsFilter) (opts : QueryOptions) (after : TupleRelationship p)
      (rows : List (Relationship p))
      → passing f (from (some (reference after)) opts) rows
        ≡ filter (after_cursor after) (passing f (from none opts) rows)
  passing-from f opts after [] = refl
  passing-from f opts after (row ∷ rows) = ground (
    arith,
    passing-from f opts after rows,
    filter_with_cursor f (must_make_cursor_filter_fn (some (reference after)) by_subject) row,
    filter_with_cursor f (must_make_cursor_filter_fn none by_subject) row,
    no_cursor row,
  )

  abbrev kept :
      ℤ
      → Bool
      → Bool
      → TupleRelationship p
      → List (TupleRelationship p)
      → List (TupleRelationship p)
  kept now sc se rt rest = if visible now sc se rt then rt ∷ rest else rest

  -- The loop that coalesces, one row at a time, and back.
  coalesce-cons :
      (now : ℤ) (sc se : Bool) (row : Relationship p) (rows : List (Relationship p))
      (rt : TupleRelationship p) (rest : List (TupleRelationship p))
      → relationship p row ≡ ok rt
      → coalesce now sc se rows ≡ ok rest
      → coalesce now sc se (row ∷ rows) ≡ ok (kept now sc se rt rest)
  unfolding coalesce
  coalesce-cons now sc se row rows rt rest e h = ground arith

  coalesce_inverse :
      (now : ℤ) (sc se : Bool) (row : Relationship p) (rows : List (Relationship p))
      (results : List (TupleRelationship p))
      → coalesce now sc se (row ∷ rows) ≡ ok results
      → (rt : TupleRelationship p) × (rest : List (TupleRelationship p)) × (relationship p row
          ≡ ok rt)
        × (coalesce now sc se rows ≡ ok rest)
        × (results ≡ kept now sc se rt rest)
  unfolding coalesce
  coalesce_inverse now sc se row rows results h =
      let (rt, e, h1) = >>=-eq-ok (relationship p row) _ h in
      let (rest, e1, h2) = >>=-eq-ok (coalesce now sc se rows) _ h1 in
      (rt, rest, e, e1, ground arith)

  coalesce-empty :
      (now : ℤ) (sc se : Bool) (results : List (TupleRelationship p))
      → coalesce now sc se [] ≡ ok results
      → results ≡ []
  unfolding coalesce
  coalesce-empty now sc se results h = ground arith

  pub coalesce-filter :
      (now : ℤ) (sc se : Bool) (after : TupleRelationship p) (rows : List (Relationship p))
      (results : List (TupleRelationship p))
      → coalesce now sc se rows ≡ ok results
      → coalesce now sc se (filter (after_cursor after) rows)
        ≡ ok (filter (λ rt. subject_less after rt) results)
  coalesce-filter now sc se after [] results h = ground (arith, coalesce-empty now sc se results h)
  coalesce-filter now sc se after (row ∷ rows) results h =
      let (rt, rest, e, e1, same) = coalesce_inverse now sc se row rows results h in
      let ih = coalesce-filter now sc se after rows rest e1 in
      ground (
        arith,
        ih,
        same,
        cursor-subject row rt after e,
        coalesce-cons now sc se row (filter (after_cursor after) rows) rt
            (filter (λ u. subject_less after u) rest) e ih,
      )

  -- In a sorted list of relationships with distinct keys, those above one of them come after it.
  abbrev pub Distinct : List (TupleRelationship p) → Type 0
  Distinct = Pairwise (λ a b. subject_key a ≢ subject_key b)

  above :
      (ys : List (TupleRelationship p)) (t : TupleRelationship p)
      → All (λ y. subject_less y t ≡ false) ys
      → All (λ y. subject_key t ≢ subject_key y) ys
      → filter (λ rt. subject_less t rt) ys ≡ ys
  above [] t s d = refl
  above (y ∷ ys) t s d = ground (
    arith,
    above ys t,
    subject_less-eq-lex_lt y t,
    subject_less-eq-lex_lt t y,
    lex_lt_total (subject_key t) (subject_key y),
  )

  All-middle :
      (P : TupleRelationship p → Type 0) (xs ys : List (TupleRelationship p))
      (t : TupleRelationship p)
      → All P (xs ++ t ∷ ys)
      → P t
  All-middle P [] ys t h = h.0
  All-middle P (x ∷ xs) ys t h = All-middle P xs ys t h.1

  pub rest_after :
      (xs ys : List (TupleRelationship p)) (t : TupleRelationship p)
      → IsSorted subject_less (xs ++ t ∷ ys)
      → Distinct (xs ++ t ∷ ys)
      → filter (λ rt. subject_less t rt) (xs ++ t ∷ ys) ≡ ys
  rest_after [] ys t s d =
      ground (arith, subject_less-eq-lex_lt t t, lex_lt_irrefl (subject_key t), above ys t s.0 d.0)
  rest_after (x ∷ xs) ys t s d = ground (
    arith,
    rest_after xs ys t s.1 d.1,
    subject_less-eq-lex_lt t x,
    All-middle (λ y. subject_less y x ≡ false) xs ys t s.0,
  )

  -- Rows with distinct keys give relationships with distinct keys.
  abbrev pub row_key : Relationship p → List Str
  row_key t = subject_fields t (resource_fields t [])

  abbrev pub DistinctRows : List (Relationship p) → Type 0
  DistinctRows = Pairwise (λ a b. row_key a ≢ row_key b)

  coalesce-All :
      (k : List Str) (now : ℤ) (sc se : Bool) (rows : List (Relationship p))
      (results : List (TupleRelationship p))
      → coalesce now sc se rows ≡ ok results
      → All (λ b. k ≢ row_key b) rows
      → All (λ b. k ≢ subject_key b) results
  coalesce-All k now sc se [] results h a = ground (arith, coalesce-empty now sc se results h)
  coalesce-All k now sc se (row ∷ rows) results h a =
      let (rt, rest, e, e1, same) = coalesce_inverse now sc se row rows results h in
      ground (arith, coalesce-All k now sc se rows rest e1, fields_of_row row rt e, same)

  kept-Distinct :
      (now : ℤ) (sc se : Bool) (rt : TupleRelationship p) (rest : List (TupleRelationship p))
      → All (λ b. subject_key rt ≢ subject_key b) rest
      → Distinct rest
      → Distinct (kept now sc se rt rest)
  kept-Distinct now sc se rt rest a d = elim (Bool-cases (visible now sc se rt)) [
    | inl shown ↦ rw shown (a, d)
    | inr hidden ↦ rw hidden d
  ]

  pub passing-DistinctRows :
      (f : RelationshipsFilter) (opts : QueryOptions) (rows : List (Relationship p))
      → DistinctRows rows
      → DistinctRows (passing f opts rows)
  passing-DistinctRows f opts rows d =
      Pairwise-filter (λ a b. row_key a ≢ row_key b)
        (λ t. not (filter_func_for_filters f (must_make_cursor_filter_fn opts.after opts.sort) t))
        rows d

  pub coalesce-Distinct :
      (now : ℤ) (sc se : Bool) (rows : List (Relationship p)) (results : List (TupleRelationship p))
      → coalesce now sc se rows ≡ ok results
      → DistinctRows rows
      → Distinct results
  coalesce-Distinct now sc se [] results h a = ground (arith, coalesce-empty now sc se results h)
  coalesce-Distinct now sc se (row ∷ rows) results h a =
      let (rt, rest, e, e1, same) = coalesce_inverse now sc se row rows results h in
      let apart =
        coalesce-All (subject_key rt) now sc se rows rest e1
          (All-weaken rows (λ b g. ground (arith, g, fields_of_row row rt e)) a.0) in
      rw same (kept-Distinct now sc se rt rest apart (coalesce-Distinct now sc se rows rest e1 a.1))
