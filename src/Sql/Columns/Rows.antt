-- ===== src/Sql/Columns/Rows.antt =====
-- Reading a whole row of a query into the variables.
use embedspicedb.Common.{
  ◌+◌, ◌≡◌, ◌==◌, refl, sym, ap, ◌∙◌, arith, Bool, true, false, some, List, [], ◌∷◌, ◌++◌, map, any,
  length, length-append,
}
use embedspicedb.Common.Str.{Str, bytes}
use embedspicedb.Sql.{SchemaInformation, static_value, Condition}
use embedspicedb.Sql.Meaning.{Row, SqlLaws, meets}
use embedspicedb.Sql.Static.Tracked.{Tracked}
use embedspicedb.Sql.Columns.{
  more_names, more_slots, RelationshipsQueryBuilder, Field, Slot, unused, field_number, Vars,
  column_of, six_fields, or_one, with_caveats, with_expiration, column_names_to_select,
  columns_to_select,
}
use embedspicedb.Sql.Columns.Scan.{
  scan, map-append, Right, names_of, slots_of, assigned, static_values-slots, columns-slots,
  check_columns-names,
}
use embedspicedb.Sql.Columns.Read.{scan-scanned, scanned, all-Right, Meant}

more-length :
    (si : SchemaInformation) (c e i : Bool)
    → length (more_names si c e i) ≡ length (more_slots c e i)
more-length si true true true = refl
more-length si true true false = refl
more-length si true false true = refl
more-length si true false false = refl
more-length si false true true = refl
more-length si false true false = refl
more-length si false false true = refl
more-length si false false false = refl

-- Scanning into them leaves the six fields alone.
more-scan :
    (r : Row) (vars : Vars) (si : SchemaInformation) (c e i : Bool)
    → scan (more_slots c e i) (map r (more_names si c e i)) vars ≡ vars
more-scan r vars si true true true = refl
more-scan r vars si true true false = refl
more-scan r vars si true false true = refl
more-scan r vars si true false false = refl
more-scan r vars si false true true = refl
more-scan r vars si false true false = refl
more-scan r vars si false false true = refl
more-scan r vars si false false false = refl

scan-or_one :
    (r : Row) (vars : Vars) (slots : List Slot) (ns : List Str) (n : Str)
    → length ns ≡ length slots
    → scan (or_one unused slots) (map r (or_one n ns)) vars ≡ scan slots (map r ns) vars
scan-or_one r vars [] [] n h = refl
scan-or_one r vars [] (m ∷ ns) n h = ground arith
scan-or_one r vars (s ∷ slots) [] n h = ground arith
scan-or_one r vars (s ∷ slots) (m ∷ ns) n h = refl

or_one-length :
    (slots : List Slot) (ns : List Str) (n : Str)
    → length ns ≡ length slots
    → length (or_one n ns) ≡ length (or_one unused slots)
or_one-length [] [] n h = refl
or_one-length [] (m ∷ ns) n h = ground arith
or_one-length (s ∷ slots) [] n h = ground arith
or_one-length (s ∷ slots) (m ∷ ns) n h = h

module _ {E : Type 0} (b : RelationshipsQueryBuilder E) where
  abbrev further_names : List Str
  further_names =
      more_names b.schema (with_caveats b) (with_expiration b) b.schema.integrity_enabled

  abbrev further_slots : List Slot
  further_slots = more_slots (with_caveats b) (with_expiration b) b.schema.integrity_enabled

  all_names-length :
      (fs : List Field)
      → length (names_of b fs ++ further_names) ≡ length (slots_of b fs ++ further_slots)
  all_names-length fs =
      length-append (names_of b fs) further_names
      ∙ ap (λ n. n + length further_names) (columns-slots b fs)
      ∙ ap (λ n. length (slots_of b fs) + n)
          (more-length b.schema (with_caveats b) (with_expiration b) b.schema.integrity_enabled)
      ∙ sym (length-append (slots_of b fs) further_slots)

  scan_all :
      (r : Row) (vars : Vars) (fs : List Field)
      → scan
          (or_one unused (slots_of b fs ++ further_slots))
          (map r (or_one (bytes "1") (names_of b fs ++ further_names)))
          vars
        ≡ scanned b r fs vars
  scan_all r vars fs =
      scan-or_one r vars (slots_of b fs ++ further_slots) (names_of b fs ++ further_names)
        (bytes "1") (all_names-length fs)
      ∙ ap (λ vs. scan (slots_of b fs ++ further_slots) vs vars)
          (map-append r (names_of b fs) further_names)
      ∙ scan-scanned b r fs vars further_slots (map r further_names)
      ∙ more-scan r (scanned b r fs vars) b.schema (with_caveats b) (with_expiration b)
          b.schema.integrity_enabled

  names-are : column_names_to_select b ≡ or_one (bytes "1") (names_of b six_fields ++ further_names)
  unfolding column_names_to_select
  names-are =
      ap (λ l. or_one (bytes "1") (l ++ further_names)) (check_columns-names b six_fields [])

  slots-are :
      (vars : Vars)
      → columns_to_select b vars
        ≡ (assigned b six_fields vars, or_one unused (slots_of b six_fields ++ further_slots))
  unfolding columns_to_select
  slots-are vars =
      ap (λ s. (s.0, or_one unused (s.1 ++ further_slots)))
        (static_values-slots b six_fields vars [])

  -- The variables after a row is scanned into them.
  abbrev pub read_row : Row → Vars → Vars
  read_row r vars =
      scan (columns_to_select b vars).1 (map r (column_names_to_select b))
        (columns_to_select b vars).0

  is_a_field : (f : Field) → any (λ g. field_number g == field_number f) six_fields ≡ true
  is_a_field f = ground arith

  read_row-Right : (r : Row) (vars : Vars) (f : Field) → Meant b r → Right b r (read_row r vars) f
  read_row-Right r vars f m = rw (slots-are vars) (
      rw names-are (
        rw (scan_all r (assigned b six_fields vars) six_fields)
          (all-Right b r six_fields f vars m (is_a_field f))))

module _ {holds : Condition → Row → Bool} (laws : SqlLaws holds) {E : Type 0} where
  -- The query selects as many columns as there are variables to scan them into, and for each row that
  -- meets the query's conditions the six variables of the relationship get the row's own values,
  -- whether their columns are selected or left out as static ones: where the builder has the map of
  -- its query, the map is right of the query's rows, and the row has values in the six columns.
  pub columns_to_select-column_names_to_select :
      (b : RelationshipsQueryBuilder E) (r : Row) (vars : Vars)
      → b.filtering_values ≡ b.base_query_builder.filtering_column_tracker
      → Tracked laws b.base_query_builder
      → meets holds b.base_query_builder r ≡ true
      → ((f : Field) → (v : Str) × (r (column_of b.schema f) ≡ some v))
      → (length (column_names_to_select b) ≡ length (columns_to_select b vars).1)
        × ((f : Field) → r (column_of b.schema f) ≡ some (read_row b r vars f))
  columns_to_select-column_names_to_select b r vars same t m h = (
    rw (slots-are b vars) (
        rw (names-are b) (
          or_one-length (slots_of b six_fields ++ further_slots b)
            (names_of b six_fields ++ further_names b) (bytes "1")
            (all_names-length b six_fields))),
    λ f.
        read_row-Right b r vars f
          (λ c v e. t c v (sym (ap (λ x. static_value x c) same) ∙ e) r m, h),
  )
