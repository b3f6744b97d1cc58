-- ===== src/Memdb/Write/LastMutation.antt =====
-- The mutations of one write: the last one of a key decides what the table holds under it.
use embedspicedb.Common.{
  ◌≡◌, ◌≢◌, refl, Option, none, some, List, [], ◌∷◌, arith, All, if◌then◌else◌, inl, inr,
  Bool-cases, ap, ◌∙◌,
}
use embedspicedb.Common.Str.{Str, str_eq, str_eq_iff}
use embedspicedb.Common.Result.{ok, err}
use embedspicedb.Changes.{UpdateOperation, create, touch, delete}
use embedspicedb.Memdb.{
  Params, Relationship, TupleRelationship, relationship, row_of, relationship-row_of, ComesBack,
}
use embedspicedb.Memdb.Table.{
  Table, TableLaws, IsIndexed, RelationshipKey, key_of, key_eq, key_eq_iff,
}
use embedspicedb.Memdb.Write.{RelationshipUpdate, write, write_one, apply, on_table}

-- A relationship that can be written: its row has the fields that the indexes read, and its context
-- and time come back from what is stored of them.
abbrev pub IsWritable : (p : Params) → TupleRelationship p → Type 0
IsWritable p rel = IsIndexed (row_of p rel) × ComesBack p rel

-- The row is read as a relationship.
abbrev pub IsReadable : {p : Params} → Relationship p → Type 0
IsReadable {p = p} r = (rt : TupleRelationship p) × (relationship p r ≡ ok rt)

-- What a mutation that touches or deletes leaves under its key.
abbrev pub settled : UpdateOperation → Str → Option Str
settled create s = some s
settled touch s = some s
settled delete s = none

module _ {p : Params} {Txn E : Type 0} (must_string : TupleRelationship p → Str)
    (db : Table p Txn E) (laws : TableLaws db) where
  abbrev pub text_of : Relationship p → Option Str
  text_of r = elim (relationship p r) [ err e ↦ none | ok rt ↦ some (must_string rt) ]

  -- The text of the relationship that is held under a key.
  abbrev pub held : RelationshipKey → Txn → Option Str
  held k t = elim (laws.at k t) [ none ↦ none | some r ↦ text_of r ]

  abbrev pub mutation_key : RelationshipUpdate p → RelationshipKey
  mutation_key m = key_of (row_of p m.relationship)

  abbrev pub last_mutation : List (RelationshipUpdate p) → RelationshipKey → Option Str → Option Str
  last_mutation [] k h = h
  last_mutation (m ∷ ms) k h =
      last_mutation ms k
        (if key_eq (mutation_key m) k then settled m.operation (must_string m.relationship) else h)

  -- Every row of the table is read as a relationship.
  abbrev pub AllReadable : Txn → Type 0
  AllReadable t = (k : RelationshipKey) (r : Relationship p) → laws.at k t ≡ some r → IsReadable r

  text-row_of :
      (rel : TupleRelationship p)
      → ComesBack p rel
      → text_of (row_of p rel) ≡ some (must_string rel)
  text-row_of rel c = ground (arith, relationship-row_of p rel c)

  -- After a step, the table holds under a key what the mutation leaves, and elsewhere what it held.
  abbrev Settles : UpdateOperation → TupleRelationship p → Txn → Txn → Type 0
  Settles op rel t u =
      ((k : RelationshipKey)
        → held k u
          ≡ (if key_eq (key_of (row_of p rel)) k then settled op (must_string rel) else held k t))
      × AllReadable u

  put-AllReadable :
      (j : RelationshipKey) (x : Option (Relationship p)) (t u : Txn)
      → ((r : Relationship p) → x ≡ some r → IsReadable r)
      → AllReadable t
      → ((k : RelationshipKey) → laws.at k u ≡ (if key_eq j k then x else laws.at k t))
      → AllReadable u
  put-AllReadable j x t u h a e k r g = elim (Bool-cases (key_eq j k)) [
    | inl here ↦ h r (ground (arith, e k))
    | inr there ↦ a k r (ground (arith, e k))
  ]

  insert-Settles :
      (rel : TupleRelationship p) (t : Txn)
      → IsWritable p rel
      → AllReadable t
      → (u : Txn) × (on_table must_string db (db.insert (row_of p rel) t) ≡ ok u)
        × Settles touch rel t u
  insert-Settles rel t (w, c) a =
      let (u, e, h) = laws.insert-at (row_of p rel) t w in
      (
        u,
        ground arith,
        (
          λ k. ground (arith, h k, text-row_of rel c),
          put-AllReadable (key_of (row_of p rel)) (some (row_of p rel)) t u
              (λ r q. (rel, ground (arith, relationship-row_of p rel c))) a h,
        ),
      )

  apply-Settles :
      (op : UpdateOperation) (rel : TupleRelationship p) (t : Txn) (found : Option (Relationship p))
      → IsWritable p rel
      → AllReadable t
      → op ≢ create
      → laws.at (key_of (row_of p rel)) t ≡ found
      → (u : Txn) × (apply must_string db op rel found t ≡ ok u) × Settles op rel t u
  apply-Settles create rel t found c a n h = ground arith
  apply-Settles touch rel t none c a n h = insert-Settles rel t c a
  apply-Settles touch rel t (some existing) c a n h =
      let (rt, e) = a (key_of (row_of p rel)) existing h in
      let (u, f, g) = insert-Settles rel t c a in
      elim (Bool-cases (str_eq (must_string rt) (must_string rel))) [
        | inl same ↦ (
          t,
          ground arith,
          (
            λ k. ground (
              arith,
              h,
              e,
              key_eq_iff (key_of (row_of p rel)) k,
              str_eq_iff (must_string rt) (must_string rel),
            ),
            a,
          ),
        )
        | inr other ↦ (u, ground arith, g)
      ]
  apply-Settles delete rel t none c a n h =
      (t, refl, (λ k. ground (arith, h, key_eq_iff (key_of (row_of p rel)) k), a))
  apply-Settles delete rel t (some existing) c a n h =
      let same = laws.at-key (key_of (row_of p rel)) t existing h in
      let (u, e, g) = laws.delete-at existing t (rw same h) in
      (
        u,
        ground arith,
        (
          λ k. ground (arith, g k, same),
          put-AllReadable (key_of existing) none t u (λ r q. ground arith) a g,
        ),
      )

  write_one-Settles :
      (m : RelationshipUpdate p) (t : Txn)
      → IsWritable p m.relationship
      → AllReadable t
      → m.operation ≢ create
      → (u : Txn) × (write_one must_string db m t ≡ ok u) × Settles m.operation m.relationship t u
  unfolding write_one
  write_one-Settles m t c a n =
      let (u, e, h) =
        apply-Settles m.operation m.relationship t (laws.at (mutation_key m) t) c a n refl in
      (u, ground (arith, laws.first-at (mutation_key m) t), h)

  -- A write of mutations that touch or delete relationships succeeds, and under each key the table
  -- then holds a relationship of the text that the last mutation of the key touched, none if that
  -- deleted it, and what it held where no mutation has the key: where each relationship has the
  -- fields that the indexes read, and a context and time that come back from what is stored, every
  -- row of the table is read as a relationship, and the table's operations do what they document.
  pub write-last_mutation :
      (ms : List (RelationshipUpdate p)) (t : Txn)
      → All (λ m. (m.operation ≢ create) × IsWritable p m.relationship) ms
      → AllReadable t
      → (u : Txn) × (write must_string db ms t ≡ (none, u))
        × ((k : RelationshipKey) → held k u ≡ last_mutation ms k (held k t))
  unfolding write
  write-last_mutation [] t n a = (t, refl, λ k. refl)
  write-last_mutation (m ∷ ms) t ((n, c), ns) a =
      let (u, e, (h, b)) = write_one-Settles m t c a n in
      let (v, f, i) = write-last_mutation ms u ns b in
      (v, ground arith, λ k. i k ∙ ap (last_mutation ms k) (h k))
