-- ===== src/Samples/Tables.antt =====
-- Rows of relationships, with a list of rows as the table.
use embedspicedb.Common.{
  ℕ, ◌≡◌, ◌↔◌, refl, List, [], ◌∷◌, Bool, true, false, Option, none, some, arith, not,
  if◌then◌else◌, Bool-cases, inl, inr, filter,
}
use embedspicedb.Common.Int.{ℤ, pos}
use embedspicedb.Common.Str.{Str, bytes, is_empty}
use embedspicedb.Common.Result.{ok}
use embedspicedb.Changes.{touch, delete}
use embedspicedb.Memdb.{
  Params, TupleRelationship, Relationship, relationship, row_of, relationship-row_of,
}
use embedspicedb.Memdb.Filter.{
  RelationshipsFilter, RelationshipReference, caveat_none, expiration_none, filter_func_for_filters,
  must_make_cursor_filter_fn, by_resource, by_subject, choose_efficient,
}
use embedspicedb.Memdb.Filter.Accepts.{Accepts, filter_func_for_filters-Accepts}
use embedspicedb.Memdb.Filter.Cursor.{
  cursor_filter_lex, lex_lt, object_fields, resource_fields, subject_fields,
}
use embedspicedb.Memdb.Table.{Table, TableLaws, RelationshipKey, key_of, key_eq, key_eq_iff}
use embedspicedb.Memdb.Write.{RelationshipUpdate, write}
use embedspicedb.Memdb.Write.LastMutation.{IsWritable, held, last_mutation, write-last_mutation}

abbrev pub numbers : Params
numbers = record {
  Struct = ℕ;
  Context = ℕ;
  ProtoTime = ℤ;
  as_map = λ s. elim s [ none ↦ 0 | some n ↦ n ];
  new_struct = λ c. some c;
  as_time = λ t. t;
  new_timestamp = λ t. t;
}

abbrev pub viewer : Str → TupleRelationship numbers
viewer name = record {
  resource = record { object_type = bytes "doc"; object_id = bytes "1"; relation = bytes "viewer" };
  subject = record { object_type = bytes "user"; object_id = name; relation = bytes "..." };
  optional_caveat = some (record { caveat_name = bytes "c"; context = some 4 });
  optional_integrity = none;
  optional_expiration = some (pos 9);
}

relationship-row_of_example :
    relationship numbers (row_of numbers (viewer (bytes "ann"))) ≡ ok (viewer (bytes "ann"))
relationship-row_of_example =
    relationship-row_of numbers (viewer (bytes "ann")) ((4, refl, refl), tt)

abbrev pub docs : RelationshipsFilter
docs = record {
  optional_resource_type = bytes "doc";
  optional_resource_ids = bytes "1" ∷ bytes "2" ∷ [];
  optional_resource_id_prefix = [];
  optional_resource_relation = [];
  optional_subjects_selectors =
      record {
        optional_subject_type = bytes "user";
        optional_subject_ids = [];
        relation_filter = record {
          non_ellipsis_relation = [];
          include_ellipsis_relation = true;
          only_non_ellipsis_relations = false;
        };
      }
      ∷ [];
  optional_caveat_name_filter = caveat_none;
  optional_expiration_option = expiration_none;
}

abbrev pub ann : Relationship numbers
ann = row_of numbers (viewer (bytes "ann"))

filter_func_for_filters-Accepts_example :
    (filter_func_for_filters docs (λ r. false) ann ≡ false)
    ↔ (Accepts docs ann × (Path Bool false false))
filter_func_for_filters-Accepts_example = filter_func_for_filters-Accepts docs (λ r. false) ann

abbrev after_bob : RelationshipReference
after_bob = record {
  resource = (viewer (bytes "bob")).resource;
  subject = (viewer (bytes "bob")).subject;
}

cursor_filter_lex_example :
    (must_make_cursor_filter_fn (some after_bob) by_resource ann
      ≡ not (
          lex_lt
            (object_fields after_bob.resource (object_fields after_bob.subject []))
            (resource_fields ann (subject_fields ann []))))
    × (must_make_cursor_filter_fn (some after_bob) choose_efficient ann
        ≡ must_make_cursor_filter_fn (some after_bob) by_resource ann)
    × (must_make_cursor_filter_fn (some after_bob) by_subject ann
        ≡ not (
            lex_lt
              (object_fields after_bob.subject (object_fields after_bob.resource []))
              (subject_fields ann (resource_fields ann []))))
cursor_filter_lex_example = cursor_filter_lex after_bob ann

-- The table: the first row of a key is the one that it holds.
abbrev pub Rows : Type 0
Rows = List (Relationship numbers)

abbrev pub find : RelationshipKey → Rows → Option (Relationship numbers)
find k [] = none
find k (r ∷ rs) = let rest = find k rs in if key_eq (key_of r) k then some r else rest

abbrev without : RelationshipKey → Rows → Rows
without k rs = filter (λ r. not (key_eq (key_of r) k)) rs

abbrev pub rows : Table numbers Rows Str
rows = record {
  first = λ k t. ok (find k t);
  insert = λ r t. ok (r ∷ t);
  delete = λ r t. ok (without (key_of r) t);
  get = λ q t. ok t;
}

pub find-key :
    (k : RelationshipKey) (t : Rows) (r : Relationship numbers) → find k t ≡ some r → key_of r ≡ k
find-key k [] r h = ground arith
find-key k (x ∷ t) r h = elim (Bool-cases (key_eq (key_of x) k)) [
  | inl here ↦ ground (arith, key_eq_iff (key_of x) k)
  | inr there ↦ ground (arith, find-key k t r)
]

pub find-without :
    (j k : RelationshipKey) (t : Rows)
    → find k (without j t) ≡ (if key_eq j k then none else find k t)
find-without j k [] = ground arith
find-without j k (x ∷ t) =
    ground
      (arith, find-without j k t, key_eq_iff (key_of x) j, key_eq_iff (key_of x) k, key_eq_iff j k)

abbrev pub rows_laws : TableLaws rows
rows_laws = record {
  at = find;
  first-at = λ k t. refl;
  at-key = find-key;
  insert-at = λ r t h. (r ∷ t, refl, λ k. refl);
  delete-at = λ r t h. (without (key_of r) t, refl, λ k. find-without (key_of r) k t);
}

abbrev pub by_subject_id : TupleRelationship numbers → Str
by_subject_id t = t.subject.object_id

abbrev mutations : List (RelationshipUpdate numbers)
mutations =
    record { operation = touch; relationship = viewer (bytes "ann") }
    ∷ record { operation = touch; relationship = viewer (bytes "bob") }
    ∷ record { operation = delete; relationship = viewer (bytes "ann") }
    ∷ []

viewer-IsWritable : (name : Str) → is_empty name ≡ false → IsWritable numbers (viewer name)
unfolding row_of
viewer-IsWritable name h = ((refl, refl, refl, refl, h, refl), ((4, refl, refl), tt))

write-last_mutation_example :
    (u : Rows) × (write by_subject_id rows mutations [] ≡ (none, u))
    × ((k : RelationshipKey)
        → held by_subject_id rows rows_laws k u
          ≡ last_mutation by_subject_id rows rows_laws mutations k
              (held by_subject_id rows rows_laws k []))
write-last_mutation_example =
    write-last_mutation by_subject_id rows rows_laws mutations []
      (
        (λ h. ground arith, viewer-IsWritable (bytes "ann") refl),
        (
          (λ h. ground arith, viewer-IsWritable (bytes "bob") refl),
          ((λ h. ground arith, viewer-IsWritable (bytes "ann") refl), tt),
        ),
      )
      (λ k r h. ground arith)

pub found : find (key_of ann) (ann ∷ []) ≡ some ann
found = ground (arith, key_eq_iff (key_of ann) (key_of ann))
