-- ===== src/Sql/Columns/Read.antt =====
-- Reading a row: each variable of the six fields gets the value that the row has.
use embedspicedb.Common.{
  ◌≡◌, ◌==◌, ==_iff, refl, sym, ap, ◌∙◌, arith, true, false, Option, none, some, List, [], ◌∷◌,
  ◌++◌, ◌⊎◌, if◌then◌else◌, map, any, inl, inr, Bool-cases,
}
use embedspicedb.Common.Str.{Str}
use embedspicedb.Sql.{static_value}
use embedspicedb.Sql.Meaning.{Row}
use embedspicedb.Sql.Columns.{
  RelationshipsQueryBuilder, Field, Slot, field, field_number, Vars, set_field, column_of,
}
use embedspicedb.Sql.Columns.Scan.{
  scan, scan_one, field_number_inj, Right, set-Right, set-Right-self, needed, names_of, slots_of,
  assign, assigned,
}

module _ {E : Type 0} (b : RelationshipsQueryBuilder E) (r : Row) where
  abbrev pub scan_needed : Field → Vars → Vars
  scan_needed f vars =
      if needed b f then scan_one (field f) (r (column_of b.schema f)) vars else vars

  abbrev pub scanned : List Field → Vars → Vars
  scanned [] vars = vars
  scanned (f ∷ fs) vars = scanned fs (scan_needed f vars)

  pub scan-scanned :
      (fs : List Field) (vars : Vars) (slots : List Slot) (vs : List (Option Str))
      → scan (slots_of b fs ++ slots) (map r (names_of b fs) ++ vs) vars
        ≡ scan slots vs (scanned fs vars)
  scan-scanned [] vars slots vs = refl
  scan-scanned (f ∷ fs) vars slots vs = elim (Bool-cases (needed b f)) [
    | inl selected ↦
        rw selected (scan-scanned fs (scan_one (field f) (r (column_of b.schema f)) vars) slots vs)
    | inr static ↦ rw static (scan-scanned fs vars slots vs)
  ]

  -- What is asked of the row: the static values are its own, and it has a value in each column.
  abbrev pub Meant : Type 0
  Meant =
      ((c v : Str) → static_value b.filtering_values c ≡ some v → r c ≡ some v)
      × ((f : Field) → (v : Str) × (r (column_of b.schema f) ≡ some v))

  assign-Right :
      (f g : Field) (vars : Vars) → Meant → Right b r vars g → Right b r (assign b f vars) g
  assign-Right f g vars m h = elim (Bool-cases (needed b f)) [
    | inl selected ↦ rw selected h
    | inr static ↦ rw static (go (static_value b.filtering_values (column_of b.schema f)) refl)
  ]
    where
      go :
          (x : Option Str)
          → static_value b.filtering_values (column_of b.schema f) ≡ x
          → Right b r (elim x [ none ↦ vars | some v ↦ set_field f v vars ]) g
      go none e = h
      go (some v) e = set-Right b r f g v vars (m.0 (column_of b.schema f) v e) h

  assign-Right-self :
      (f : Field) (vars : Vars) → Meant → needed b f ≡ false → Right b r (assign b f vars) f
  assign-Right-self f vars m n =
      rw n (go (static_value b.filtering_values (column_of b.schema f)) refl)
    where
      go :
          (x : Option Str)
          → static_value b.filtering_values (column_of b.schema f) ≡ x
          → Right b r (elim x [ none ↦ vars | some v ↦ set_field f v vars ]) f
      go none e = ground (arith, n, e)
      go (some v) e = set-Right-self b r f v vars (m.0 (column_of b.schema f) v e)

  abbrev pub Member : Field → List Field → Type 0
  Member f fs = any (λ g. field_number g == field_number f) fs ≡ true

  assigned-Right :
      (fs : List Field) (f : Field) (vars : Vars)
      → Meant
      → Right b r vars f ⊎ ((needed b f ≡ false) × Member f fs)
      → Right b r (assigned b fs vars) f
  assigned-Right [] f vars m (inl h) = h
  assigned-Right [] f vars m (inr h) = ground (arith, h)
  assigned-Right (g ∷ fs) f vars m (inl h) =
      assigned-Right fs f (assign b g vars) m (inl (assign-Right g f vars m h))
  assigned-Right (g ∷ fs) f vars m (inr (n, h)) =
      elim (Bool-cases (field_number g == field_number f)) [
        | inl same ↦ assigned-Right fs f (assign b g vars) m (
            inl (
              assign-Right-self f vars m n
              ∙ ap (λ h. some (assign b h vars f))
                  (sym (field_number_inj g f ((==_iff (field_number g) (field_number f)).0 same)))))
        | inr other ↦ assigned-Right fs f (assign b g vars) m (inr (n, ground arith))
      ]

  scan_one-Right :
      (f g : Field) (vars : Vars)
      → Meant
      → Right b r vars g
      → Right b r (scan_one (field f) (r (column_of b.schema f)) vars) g
  scan_one-Right f g vars m h = let (v, e) = m.1 f in rw e (set-Right b r f g v vars e h)

  scan_one-Right-self :
      (f : Field) (vars : Vars)
      → Meant
      → Right b r (scan_one (field f) (r (column_of b.schema f)) vars) f
  scan_one-Right-self f vars m =
      let (v, e) = m.1 f in rw e (rw (← e) (set-Right-self b r f v vars e))

  scan_needed-Right :
      (f g : Field) (vars : Vars) → Meant → Right b r vars g → Right b r (scan_needed f vars) g
  scan_needed-Right f g vars m h = elim (Bool-cases (needed b f)) [
    | inl selected ↦ rw selected (scan_one-Right f g vars m h)
    | inr static ↦ rw static h
  ]

  scan_needed-Right-self :
      (f : Field) (vars : Vars) → Meant → needed b f ≡ true → Right b r (scan_needed f vars) f
  scan_needed-Right-self f vars m n = rw n (scan_one-Right-self f vars m)

  scanned-Right :
      (fs : List Field) (f : Field) (vars : Vars)
      → Meant
      → Right b r vars f ⊎ ((needed b f ≡ true) × Member f fs)
      → Right b r (scanned fs vars) f
  scanned-Right [] f vars m (inl h) = h
  scanned-Right [] f vars m (inr h) = ground (arith, h)
  scanned-Right (g ∷ fs) f vars m (inl h) =
      scanned-Right fs f (scan_needed g vars) m (inl (scan_needed-Right g f vars m h))
  scanned-Right (g ∷ fs) f vars m (inr (n, h)) =
      elim (Bool-cases (field_number g == field_number f)) [
        | inl same ↦ scanned-Right fs f (scan_needed g vars) m (
            inl (
              scan_needed-Right-self f vars m n
              ∙ ap (λ h. some (scan_needed h vars f))
                  (sym (field_number_inj g f ((==_iff (field_number g) (field_number f)).0 same)))))
        | inr other ↦ scanned-Right fs f (scan_needed g vars) m (inr (n, ground arith))
      ]

  pub all-Right :
      (fs : List Field) (f : Field) (vars : Vars)
      → Meant
      → Member f fs
      → Right b r (scanned fs (assigned b fs vars)) f
  all-Right fs f vars m h = elim (Bool-cases (needed b f)) [
    | inl selected ↦ scanned-Right fs f (assigned b fs vars) m (inr (selected, h))
    | inr static ↦
        scanned-Right fs f (assigned b fs vars) m
          (inl (assigned-Right fs f vars m (inr (static, h))))
  ]
