-- ===== src/Sql/Columns/Scan.antt =====
-- The columns of a query against the variables that they are scanned into.
use embedspicedb.Common.{
  ◌≡◌, refl, sym, ap, ◌∙◌, arith, Bool, true, false, not, ◌||◌, Option, none, some, List, [], ◌∷◌,
  ◌++◌, if◌then◌else◌, map, length,
}
use embedspicedb.Common.Str.{Str}
use embedspicedb.Sql.{static_value, has_static_value}
use embedspicedb.Sql.Meaning.{Row}
use embedspicedb.Sql.Columns.{
  RelationshipsQueryBuilder, Field, Slot, field, field_number, Vars, set_field, column_of,
  check_columns, check_column, static_values_or_add_columns, static_value_or_add_column,
  is_none_option,
}

-- rows.Scan: each value goes to the variable in its place; a NULL is none of the six fields'.
abbrev pub scan_one : Slot → Option Str → Vars → Vars
scan_one (field f) (some v) vars = set_field f v vars
scan_one _ _ vars = vars

abbrev pub scan : List Slot → List (Option Str) → Vars → Vars
scan [] values vars = vars
scan (s ∷ slots) [] vars = vars
scan (s ∷ slots) (v ∷ values) vars = scan slots values (scan_one s v vars)

pub field_number_inj : (f g : Field) → field_number f ≡ field_number g → f ≡ g
field_number_inj f g h = ground arith

module _ {E : Type 0} (b : RelationshipsQueryBuilder E) (r : Row) where
  -- A variable that holds the row's value.
  abbrev pub Right : Vars → Field → Type 0
  Right vars f = r (column_of b.schema f) ≡ some (vars f)

  pub set-Right :
      (f g : Field) (v : Str) (vars : Vars)
      → r (column_of b.schema f) ≡ some v
      → Right vars g
      → Right (set_field f v vars) g
  set-Right f g v vars h k = ground (arith, h, k, field_number_inj f g)

  pub set-Right-self :
      (f : Field) (v : Str) (vars : Vars)
      → r (column_of b.schema f) ≡ some v
      → Right (set_field f v vars) f
  set-Right-self f v vars h = ground (arith, h)

pub append_snoc :
    {A : Type 0} (xs : List A) (x : A) (ys : List A) → (xs ++ x ∷ []) ++ ys ≡ xs ++ x ∷ ys
append_snoc [] x ys = refl
append_snoc (y ∷ xs) x ys = ap (λ l. y ∷ l) (append_snoc xs x ys)

pub map-append :
    {A B : Type 0} (f : A → B) (xs ys : List A) → map f (xs ++ ys) ≡ map f xs ++ map f ys
map-append f [] ys = refl
map-append f (x ∷ xs) ys = ap (λ l. f x ∷ l) (map-append f xs ys)

append_empty : {A : Type 0} (xs : List A) → xs ++ [] ≡ xs
append_empty [] = refl
append_empty (x ∷ xs) = ap (λ l. x ∷ l) (append_empty xs)

module _ {E : Type 0} (b : RelationshipsQueryBuilder E) where
  -- A field whose column is selected.
  abbrev pub needed : Field → Bool
  needed f =
      is_none_option b.schema.column_optimization
      || not (has_static_value b.filtering_values (column_of b.schema f))

  abbrev pub names_of : List Field → List Str
  names_of [] = []
  names_of (f ∷ fs) =
      let rest = names_of fs in if needed f then column_of b.schema f ∷ rest else rest

  abbrev pub slots_of : List Field → List Slot
  slots_of [] = []
  slots_of (f ∷ fs) = let rest = slots_of fs in if needed f then field f ∷ rest else rest

  abbrev pub assign : Field → Vars → Vars
  assign f vars =
      if needed f then vars else elim (static_value b.filtering_values (column_of b.schema f)) [
        | none ↦ vars
        | some v ↦ set_field f v vars
      ]

  abbrev pub assigned : List Field → Vars → Vars
  assigned [] vars = vars
  assigned (f ∷ fs) vars = assigned fs (assign f vars)

  pub check_columns-names :
      (fs : List Field) (columns : List Str) → check_columns b fs columns ≡ columns ++ names_of fs
  check_columns-names [] columns = sym (append_empty columns)
  check_columns-names (f ∷ fs) columns = ground (
    arith,
    check_columns-names fs (check_column b columns (column_of b.schema f)),
    append_snoc columns (column_of b.schema f) (names_of fs),
  )

  column-slot :
      (f : Field) (vars : Vars) (slots : List Slot)
      → static_value_or_add_column b (vars, slots) f
        ≡ (assign f vars, (if needed f then slots ++ field f ∷ [] else slots))
  column-slot f vars slots =
      go (is_none_option b.schema.column_optimization) refl
        (static_value b.filtering_values (column_of b.schema f)) refl
    where
      go :
          (o : Bool)
          → is_none_option b.schema.column_optimization ≡ o
          → (x : Option Str) → static_value b.filtering_values (column_of b.schema f) ≡ x
          → static_value_or_add_column b (vars, slots) f
            ≡ (assign f vars, (if needed f then slots ++ field f ∷ [] else slots))
      go true d x e = rw d refl
      go false d none e = ground (arith, d, e)
      go false d (some v) e = ground (arith, d, e)

  pub static_values-slots :
      (fs : List Field) (vars : Vars) (slots : List Slot)
      → static_values_or_add_columns b fs (vars, slots) ≡ (assigned fs vars, slots ++ slots_of fs)
  static_values-slots [] vars slots = ap (λ l. (vars, l)) (sym (append_empty slots))
  static_values-slots (f ∷ fs) vars slots =
      ap (static_values_or_add_columns b fs) (column-slot f vars slots)
      ∙ static_values-slots fs (assign f vars) (if needed f then slots ++ field f ∷ [] else slots)
      ∙ ap (λ l. (assigned (f ∷ fs) vars, l)) (joined (needed f))
    where
      joined :
          (n : Bool)
          → (if n then slots ++ field f ∷ [] else slots) ++ slots_of fs
            ≡ slots ++ (if n then field f ∷ slots_of fs else slots_of fs)
      joined true = append_snoc slots (field f) (slots_of fs)
      joined false = refl

  pub columns-slots : (fs : List Field) → length (names_of fs) ≡ length (slots_of fs)
  columns-slots [] = refl
  columns-slots (f ∷ fs) = ground (arith, columns-slots fs)
