-- ===== src/Sql/Cursor/Sorted.antt =====
-- The columns and the values of a cursor: those that the query is sorted by, and the cursor's fields.
use embedspicedb.Common.{
  ◌≡◌, refl, ap, arith, List, [], ◌∷◌, ◌++◌, map, All, inl, inr, Bool-cases, if◌then◌else◌, sym,
}
use embedspicedb.Common.Str.{Str, str_eq, str_eq_iff}
use embedspicedb.Common.Result.{Result, ok, >>=-eq-ok, ok_inj}
use embedspicedb.Memdb.Filter.{
  RelationshipReference, SortOrder, unsorted, choose_efficient, by_resource, by_subject,
}
use embedspicedb.Sql.{SchemaInformation, SchemaQueryFilterer}
use embedspicedb.Sql.Filters.{SqlError}
use embedspicedb.Sql.Columns.{
  Field, resource_object_type, resource_object_id, resource_relation, subject_object_type,
  subject_object_id, subject_relation, column_of,
}
use embedspicedb.Sql.Cursor.{
  NameAndValue, column_value, values_of, columns_and_values_for_sort, tuple_order,
}

-- The field of the relationship that the cursor stands at.
abbrev pub cursor_field : RelationshipReference → Field → Str
cursor_field cursor resource_object_type = cursor.resource.object_type
cursor_field cursor resource_object_id = cursor.resource.object_id
cursor_field cursor resource_relation = cursor.resource.relation
cursor_field cursor subject_object_type = cursor.subject.object_type
cursor_field cursor subject_object_id = cursor.subject.object_id
cursor_field cursor subject_relation = cursor.subject.relation

-- The value is that of the cursor in the field whose column this is.
abbrev pub IsFieldOf : SchemaInformation → RelationshipReference → NameAndValue → Type 0
IsFieldOf schema cursor cav =
    (f : Field) × (cav.0 ≡ column_of schema f) × (cav.1 ≡ cursor_field cursor f)

module _ (schema : SchemaInformation) (cursor : RelationshipReference) where
  -- One case of the switch.
  case_field :
      (f : Field) (name v : Str) (rest : Result SqlError Str)
      → (if str_eq name (column_of schema f) then ok (cursor_field cursor f) else rest) ≡ ok v
      → (rest ≡ ok v → IsFieldOf schema cursor (name, v))
      → IsFieldOf schema cursor (name, v)
  case_field f name v rest h k = elim (Bool-cases (str_eq name (column_of schema f))) [
    | inl here ↦
        (f, ground (arith, here, str_eq_iff name (column_of schema f)), ground (arith, here, h))
    | inr there ↦ k (ground (arith, there, h))
  ]

  column_value-IsFieldOf :
      (name v : Str) → column_value schema cursor name ≡ ok v → IsFieldOf schema cursor (name, v)
  column_value-IsFieldOf name v h = case_field resource_object_type name v _ h (λ a.
      case_field resource_object_id name v _ a (λ b. case_field resource_relation name v _ b (λ c.
        case_field subject_object_type name v _ c (λ d.
          case_field subject_object_id name v _ d
            (λ e. case_field subject_relation name v _ e (λ g. ground arith))))))

  values_of-columns :
      (names : List Str) (cavs : List NameAndValue)
      → values_of schema cursor names ≡ ok cavs
      → (map (λ (c : NameAndValue). c.0) cavs ≡ names) × All (IsFieldOf schema cursor) cavs
  values_of-columns [] cavs h = rw (← ok_inj h) (refl, tt)
  values_of-columns (name ∷ names) cavs h =
      let (v, e, h1) = >>=-eq-ok (column_value schema cursor name) _ h in
      let (rest, e2, h2) = >>=-eq-ok (values_of schema cursor names) _ h1 in
      let (a, b) = values_of-columns names rest e2 in
      rw (← ok_inj h2) (ap (λ ns. name ∷ ns) a, (column_value-IsFieldOf name v e, b))

module _ {E : Type 0} where
  -- A query is sorted by the columns of its cursor, in their order, and each has its field of it.
  pub columns_and_values_for_sort-tuple_order :
      (order : SortOrder) (cursor : RelationshipReference) (q : SchemaQueryFilterer E)
      (cavs : List NameAndValue)
      → columns_and_values_for_sort order q.schema cursor ≡ ok cavs
      → ((tuple_order order q).query_builder.order_bys
          ≡ q.query_builder.order_bys ++ map (λ (c : NameAndValue). c.0) cavs)
        × All (IsFieldOf q.schema cursor) cavs
  unfolding columns_and_values_for_sort tuple_order
  columns_and_values_for_sort-tuple_order by_resource cursor q cavs h =
      let (a, b) = values_of-columns q.schema cursor _ cavs h in
      (ap (λ ns. q.query_builder.order_bys ++ ns) (sym a), b)
  columns_and_values_for_sort-tuple_order by_subject cursor q cavs h =
      let (a, b) = values_of-columns q.schema cursor _ cavs h in
      (ap (λ ns. q.query_builder.order_bys ++ ns) (sym a), b)
  columns_and_values_for_sort-tuple_order unsorted cursor q cavs h = ground arith
  columns_and_values_for_sort-tuple_order choose_efficient cursor q cavs h = ground arith
