-- ===== src/Sql/Static/Selectors.antt =====
-- The clauses of the subjects' selectors keep what the map says true.
use embedspicedb.Common.{
  ◌≡◌, refl, sym, ◌∙◌, arith, Bool, true, ◌&&◌, ◌||◌, Option, none, some, List, [], ◌∷◌, ◌++◌, any,
  map, inl, inr, Bool-cases,
}
use embedspicedb.Common.Str.{Str, is_empty, str_Eq, str_eq_iff}
use embedspicedb.Common.Result.{ok, >>=-eq-ok, ok_inj}
use embedspicedb.Memdb.Filter.{
  ellipsis, SubjectRelationFilter, SubjectsSelector, selected_relations,
}
use embedspicedb.Sql.{
  SchemaInformation, Condition, eq, not_eq, in_list, or_of, ColumnTrackerMap, record_column_value,
  record_varying_column_value,
}
use embedspicedb.Sql.Filters.{
  SqlError, bug_empty_subject_id, record_values, Clause, or_ellipsis, relations_clause, one_or_more,
  relation_clause, type_clause, ids_clause, selector_clause, relation_filter_is_empty,
}
use embedspicedb.Sql.Meaning.{Row, SqlLaws, all_hold, all_hold-append, holds-or_of, one_of, equals}
use embedspicedb.Sql.Static.{
  Sound, Sound-weaken, record-Sound, record_varying-Sound, record_values-Sound,
}

all_snoc : (a b c : Bool) → (a && (b && true)) ≡ true → (a ≡ true) × (b ≡ true)
all_snoc a b c h = ground arith

module _ {holds : Condition → Row → Bool} (laws : SqlLaws holds) (P : Row → Type 0) where
  -- The rows that a clause lets through, and what its map says of them.
  abbrev pub Kept : List Condition → Row → Type 0
  Kept cs r = P r × (all_hold holds cs r ≡ true)

  abbrev pub ClauseSound : Clause → Type 0
  ClauseSound (cs, m) = Sound m (Kept cs)

  added :
      (cs : List Condition) (c : Condition) (r : Row)
      → Kept (cs ++ c ∷ []) r
      → Kept cs r × (holds c r ≡ true)
  added cs c r (q, h) = ground (arith, q, h, all_hold-append holds cs (c ∷ []) r)

  weaker :
      (cs : List Condition) (c : Condition) (m : ColumnTrackerMap)
      → Sound m (Kept cs)
      → Sound m (Kept (cs ++ c ∷ []))
  weaker cs c m s = Sound-weaken m (Kept cs) (Kept (cs ++ c ∷ [])) s (λ r k. (added cs c r k).0)

  pub equal_value : (c v : Str) (r : Row) → holds (eq c v) r ≡ true → r c ≡ some v
  equal_value c v r h = go (r c) refl
    where
      go : (x : Option Str) → r c ≡ x → x ≡ some v
      go none e = ground (arith, laws.holds-eq c v r)
      go (some w) e = ground (arith, laws.holds-eq c v r, str_eq_iff w v)

  pub equal-Sound :
      (cs : List Condition) (c v : Str) (m : ColumnTrackerMap)
      → Sound m (Kept cs)
      → Sound (record_column_value c v m) (Kept (cs ++ eq c v ∷ []))
  equal-Sound cs c v m s =
      record-Sound c v m (Kept (cs ++ eq c v ∷ [])) (weaker cs (eq c v) m s)
        (λ r k. equal_value c v r (added cs (eq c v) r k).1)

  pub varying-Sound :
      (cs : List Condition) (c : Condition) (d : Str) (m : ColumnTrackerMap)
      → Sound m (Kept cs)
      → Sound (record_varying_column_value d m) (Kept (cs ++ c ∷ []))
  varying-Sound cs c d m s = record_varying-Sound d m (Kept (cs ++ c ∷ [])) (weaker cs c m s)

  pub in_list-Sound :
      (e : SqlError) (cs : List Condition) (c : Str) (vs : List Str) (m n : ColumnTrackerMap)
      → record_values e c vs m ≡ ok n
      → Sound m (Kept cs)
      → Sound n (Kept (cs ++ in_list c vs ∷ []))
  in_list-Sound e cs c vs m n h s =
      record_values-Sound e c vs m n (Kept (cs ++ in_list c vs ∷ [])) h
        (weaker cs (in_list c vs) m s)
        (λ r k. sym (laws.holds-in_list c vs r) ∙ (added cs (in_list c vs) r k).1)

  type_clause-Sound :
      (column type : Str) (k : Clause) → ClauseSound k → ClauseSound (type_clause column type k)
  type_clause-Sound column type (cs, m) s = elim (Bool-cases (is_empty type)) [
    | inl empty ↦ rw empty s
    | inr full ↦ rw full (equal-Sound cs column type m s)
  ]

  ids_clause-Sound :
      (column : Str) (ids : List Str) (k out : Clause)
      → ids_clause column ids k ≡ ok out
      → ClauseSound k
      → ClauseSound out
  ids_clause-Sound column [] k out h s = rw (← ok_inj h) s
  ids_clause-Sound column (v ∷ vs) (cs, m) out h s =
      let (n, e, h1) = >>=-eq-ok (record_values bug_empty_subject_id column (v ∷ vs) m) _ h in
      rw (← ok_inj h1) (in_list-Sound bug_empty_subject_id cs column (v ∷ vs) m n e s)

  any_snoc :
      (cs : List Condition) (c : Condition) (r : Row)
      → any (λ d. holds d r) (cs ++ c ∷ []) ≡ (any (λ d. holds d r) cs || holds c r)
  any_snoc [] c r = ground arith
  any_snoc (d ∷ cs) c r = ground (arith, any_snoc cs c r)

  -- The relations that a row's column may have, as an IN list of them would say it.
  one_of_more :
      (x : Option Str) (v : Str) (vs : List Str) → one_of x (v ∷ vs) ≡ (equals x v || one_of x vs)
  one_of_more none v vs = refl
  one_of_more (some w) v vs = ground (arith, str_eq_iff v w, str_eq_iff w v)

  relations_any :
      (column : Str) (rs : List Str) (cs : List Condition) (m : ColumnTrackerMap) (r : Row)
      → any (λ c. holds c r) (relations_clause column rs cs m).0
        ≡ (any (λ c. holds c r) cs || one_of (r column) (map or_ellipsis rs))
  relations_any column [] cs m r = nothing (r column)
    where
      nothing :
          (x : Option Str) → any (λ c. holds c r) cs ≡ (any (λ c. holds c r) cs || one_of x [])
      nothing none = ground arith
      nothing (some w) = ground arith
  relations_any column (u ∷ rs) cs m r = ground (
    arith,
    relations_any column rs (cs ++ eq column (or_ellipsis u) ∷ [])
        (record_column_value column (or_ellipsis u) m) r,
    any_snoc cs (eq column (or_ellipsis u)) r,
    laws.holds-eq column (or_ellipsis u) r,
    one_of_more (r column) (or_ellipsis u) (map or_ellipsis rs),
  )

  relations_values :
      (e : SqlError) (column : Str) (rs : List Str) (cs : List Condition) (m : ColumnTrackerMap)
      → record_values e column (map or_ellipsis rs) m ≡ ok ((relations_clause column rs cs m).1)
  relations_values e column [] cs m = refl
  relations_values e column ([] ∷ rs) cs m =
      relations_values e column rs (cs ++ eq column ellipsis ∷ [])
        (record_column_value column ellipsis m)
  relations_values e column ((a ∷ u) ∷ rs) cs m =
      relations_values e column rs (cs ++ eq column (a ∷ u) ∷ [])
        (record_column_value column (a ∷ u) m)

  relations-Sound :
      (column : Str) (rs : List Str) (cs : List Condition) (m : ColumnTrackerMap)
      → Sound m (Kept cs)
      → Sound
          (relations_clause column rs [] m).1
          (Kept (cs ++ or_of (relations_clause column rs [] m).0 ∷ []))
  relations-Sound column rs cs m s =
      let either = (relations_clause column rs [] m).0 in
      record_values-Sound bug_empty_subject_id column (map or_ellipsis rs) m
        (relations_clause column rs [] m).1 (Kept (cs ++ or_of either ∷ []))
        (relations_values bug_empty_subject_id column rs [] m) (weaker cs (or_of either) m s)
        (λ r k. ground (
          arith,
          (added cs (or_of either) r k).1,
          holds-or_of laws either r,
          relations_any column rs [] m r,
        ))

  one_or_more-Sound :
      (column : Str) (rs : List Str) (k : Clause)
      → ClauseSound k
      → ClauseSound (one_or_more column rs k)
  one_or_more-Sound column [] (cs, m) s = relations-Sound column [] cs m s
  one_or_more-Sound column (r ∷ []) (cs, m) s = equal-Sound cs column r m s
  one_or_more-Sound column (r ∷ u ∷ rs) (cs, m) s = relations-Sound column (r ∷ u ∷ rs) cs m s

  relation_clause-Sound :
      (column : Str) (f : SubjectRelationFilter) (k : Clause)
      → ClauseSound k
      → ClauseSound (relation_clause column f k)
  relation_clause-Sound column f (cs, m) s = elim (Bool-cases (relation_filter_is_empty f)) [
    | inl empty ↦ rw empty s
    | inr full ↦ rw full (elim (Bool-cases f.only_non_ellipsis_relations) [
      | inl only ↦ rw only (varying-Sound cs (not_eq column ellipsis) column m s)
      | inr any ↦ rw any (one_or_more-Sound column (selected_relations f) (cs, m) s)
    ])
  ]

  pub selector_clause-Sound :
      (schema : SchemaInformation) (s : SubjectsSelector) (m : ColumnTrackerMap) (out : Clause)
      → selector_clause schema s m ≡ ok out
      → Sound m P
      → ClauseSound out
  unfolding selector_clause
  selector_clause-Sound schema s m out h sound =
      let typed = type_clause schema.col_userset_namespace s.optional_subject_type ([], m) in
      let (k, e, h1) =
        >>=-eq-ok (ids_clause schema.col_userset_object_id s.optional_subject_ids typed) _ h in
      rw (← ok_inj h1) (
        relation_clause-Sound schema.col_userset_relation s.relation_filter k (
          ids_clause-Sound schema.col_userset_object_id s.optional_subject_ids typed k e (
            type_clause-Sound schema.col_userset_namespace s.optional_subject_type ([], m)
              (Sound-weaken m P (Kept []) sound (λ r q. q.0)))))
