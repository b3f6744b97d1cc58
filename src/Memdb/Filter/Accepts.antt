-- ===== src/Memdb/Filter/Accepts.antt =====
-- The filter of a query against a description of the rows that it accepts.
use embedspicedb.Common.{
  ◌≡◌, ◌≢◌, ◌↔◌, refl, Bool, true, false, ◌⊎◌, inl, inr, Option, none, some, List, [], ◌∷◌, ◌++◌,
  arith, any, Option-cases, not, ◌&&◌,
}
use embedspicedb.Common.Int.{ℤ}
use embedspicedb.Common.Str.{Str, str_eq_iff, has_prefix, is_empty}
use embedspicedb.Memdb.{Params, Relationship, ContextualizedCaveat}
use embedspicedb.Memdb.Filter.{
  ellipsis, contains, RelationshipsFilter, CaveatNameFilter, caveat_none, has_matching_caveat,
  no_caveat, ExpirationFilterOption, expiration_none, has_expiration, no_expiration,
  SubjectsSelector, SubjectRelationFilter, relation_allowed, apply_subject_selector,
  selectors_filtered, caveat_filtered, expiration_filtered, filter_func_for_filters,
}

abbrev pub Among : Str → List Str → Type 0
Among s [] = ⊥
Among s (x ∷ xs) = (x ≡ s) ⊎ Among s xs

pub contains_iff : (xs : List Str) (s : Str) → (contains xs s ≡ true) ↔ Among s xs
contains_iff [] s = ground arith
contains_iff (x ∷ xs) s = ground (arith, contains_iff xs s, str_eq_iff x s)

has_prefix_splits : (s q : Str) → has_prefix s q ≡ true → (rest : Str) × (s ≡ q ++ rest)
unfolding has_prefix
has_prefix_splits s [] h = (s, refl)
has_prefix_splits [] (b ∷ q) h = cc
has_prefix_splits (a ∷ s) (b ∷ q) h =
    let (rest, e) = has_prefix_splits s q (ground arith) in (rest, ground arith)

has_prefix-append : (q rest : Str) → has_prefix (q ++ rest) q ≡ true
unfolding has_prefix
has_prefix-append [] [] = refl
has_prefix-append [] (a ∷ rest) = refl
has_prefix-append (b ∷ q) rest = ground (arith, has_prefix-append q rest)

has_prefix_iff : (s q : Str) → (has_prefix s q ≡ true) ↔ ((rest : Str) × (s ≡ q ++ rest))
has_prefix_iff s q = (has_prefix_splits s q, λ h. rw h.1 (has_prefix-append q h.0))

abbrev pub ExpirationAccepted : ExpirationFilterOption → Option ℤ → Type 0
ExpirationAccepted expiration_none e = Unit
ExpirationAccepted has_expiration e = e ≢ none
ExpirationAccepted no_expiration e = e ≡ none

has_prefix_rest :
    (q s : Str)
    → (not (is_empty q) && not (has_prefix s q)) ≡ false
    → (rest : Str) × (s ≡ q ++ rest)
has_prefix_rest [] s h = (s, refl)
has_prefix_rest (b ∷ q) s h = (has_prefix_iff s (b ∷ q)).0 (ground arith)

-- The relation of a subject is one of those that the selector allows: none named, the ellipsis if it
-- is included, the named one; or, where only the others are wanted, any but the ellipsis.
abbrev pub RelationSelected : SubjectRelationFilter → Str → Type 0
RelationSelected f r =
    ((f.only_non_ellipsis_relations ≡ true) × (r ≢ ellipsis))
    ⊎ ((f.only_non_ellipsis_relations ≡ false)
        × (((f.include_ellipsis_relation ≡ false) × (f.non_ellipsis_relation ≡ []))
            ⊎ ((f.include_ellipsis_relation ≡ true) × (r ≡ ellipsis))
            ⊎ ((f.non_ellipsis_relation ≢ []) × (r ≡ f.non_ellipsis_relation))))

RelationSelected-iff :
    (f : SubjectRelationFilter) (r : Str) → (relation_allowed f r ≡ true) ↔ RelationSelected f r
RelationSelected-iff f r =
    ground
      (arith, str_eq_iff r ellipsis, str_eq_iff ellipsis r, str_eq_iff f.non_ellipsis_relation r)

module _ {p : Params} where
  pub record Selects (s : SubjectsSelector) (t : Relationship p) : Type 0 where
    pub subject_type : s.optional_subject_type ≢ [] → s.optional_subject_type ≡ t.subject_namespace
    pub subject_ids : s.optional_subject_ids ≢ [] → Among t.subject_object_id s.optional_subject_ids
    pub relation : RelationSelected s.relation_filter t.subject_relation

  Selects-iff :
      (t : Relationship p) (s : SubjectsSelector)
      → (apply_subject_selector t s ≡ true) ↔ Selects s t
  unfolding apply_subject_selector
  Selects-iff t s = (
    λ h. record {
      subject_type = λ e. ground (arith, str_eq_iff s.optional_subject_type t.subject_namespace);
      subject_ids = λ e. (contains_iff s.optional_subject_ids t.subject_object_id).0 (ground arith);
      relation = (RelationSelected-iff s.relation_filter t.subject_relation).0 (ground arith);
    },
    λ h. ground (
      arith,
      h.subject_type,
      h.subject_ids,
      h.relation,
      str_eq_iff s.optional_subject_type t.subject_namespace,
      contains_iff s.optional_subject_ids t.subject_object_id,
      RelationSelected-iff s.relation_filter t.subject_relation,
    ),
  )

  -- A caveat of the name that is asked for; or no caveat, which a nameless one counts as.
  abbrev pub CaveatAccepted : CaveatNameFilter → Option (ContextualizedCaveat p) → Type 0
  CaveatAccepted caveat_none c = Unit
  CaveatAccepted (has_matching_caveat name) c =
      (held : ContextualizedCaveat p) × (c ≡ some held) × (held.caveat_name ≡ name)
  CaveatAccepted no_caveat c =
      (held : ContextualizedCaveat p) → c ≡ some held → held.caveat_name ≡ []

  abbrev pub SomeSelects : List SubjectsSelector → Relationship p → Type 0
  SomeSelects [] t = ⊥
  SomeSelects (s ∷ ss) t = Selects s t ⊎ SomeSelects ss t

  -- The rows that a filter asks for, apart from where its cursor points.
  pub record Accepts (f : RelationshipsFilter) (t : Relationship p) : Type 0 where
    pub resource_type : f.optional_resource_type ≢ [] → f.optional_resource_type ≡ t.namespace
    pub resource_ids : f.optional_resource_ids ≢ [] → Among t.resource_id f.optional_resource_ids
    pub resource_id_prefix : (rest : Str) × (t.resource_id ≡ f.optional_resource_id_prefix ++ rest)
    pub relation : f.optional_resource_relation ≢ [] → f.optional_resource_relation ≡ t.relation
    pub caveat : CaveatAccepted f.optional_caveat_name_filter t.caveat
    pub expiration : ExpirationAccepted f.optional_expiration_option t.expiration
    pub subjects : f.optional_subjects_selectors ≢ [] → SomeSelects f.optional_subjects_selectors t

  caveat_iff :
      (c : CaveatNameFilter) (t : Relationship p)
      → (caveat_filtered c t ≡ false) ↔ CaveatAccepted c t.caveat
  caveat_iff caveat_none t = ground arith
  caveat_iff (has_matching_caveat name) t = elim (Option-cases t.caveat) [
    | inl free ↦ ground arith
    | inr (c, held) ↦ (
      λ h. (c, held, ground (arith, str_eq_iff c.caveat_name name)),
      λ (d, e, h). ground (arith, str_eq_iff c.caveat_name name),
    )
  ]
  caveat_iff no_caveat t = elim (Option-cases t.caveat) [
    | inl free ↦ (λ h d e. ground arith, λ h. ground arith)
    | inr (c, held) ↦ (λ h d e. ground arith, λ h. ground (arith, h c held))
  ]

  expiration_iff :
      (o : ExpirationFilterOption) (t : Relationship p)
      → (expiration_filtered o t ≡ false) ↔ ExpirationAccepted o t.expiration
  expiration_iff expiration_none t = ground arith
  expiration_iff has_expiration t = elim (Option-cases t.expiration) [
    | inl free ↦ ground arith
    | inr (c, held) ↦ ground arith
  ]
  expiration_iff no_expiration t = elim (Option-cases t.expiration) [
    | inl free ↦ ground arith
    | inr (c, held) ↦ ground arith
  ]

  SomeSelects-iff :
      (ss : List SubjectsSelector) (t : Relationship p)
      → (any (λ x. apply_subject_selector t x) ss ≡ true) ↔ SomeSelects ss t
  SomeSelects-iff [] t = ground arith
  SomeSelects-iff (s ∷ ss) t = ground (arith, SomeSelects-iff ss t, Selects-iff t s)

  selectors_iff :
      (ss : List SubjectsSelector) (t : Relationship p)
      → (selectors_filtered ss t ≡ false) ↔ (ss ≢ [] → SomeSelects ss t)
  selectors_iff [] t = ground arith
  selectors_iff (s ∷ ss) t = ground (arith, SomeSelects-iff (s ∷ ss) t)

  -- A row passes the filter of a query just when it is one that the filter asks for and the
  -- cursor does not take it out.
  pub filter_func_for_filters-Accepts :
      (f : RelationshipsFilter) (cursor_filter : Relationship p → Bool) (t : Relationship p)
      → (filter_func_for_filters f cursor_filter t ≡ false)
        ↔ (Accepts f t × (cursor_filter t ≡ false))
  unfolding filter_func_for_filters
  filter_func_for_filters-Accepts f cursor_filter t = (
    λ h. (
      record {
        resource_type = λ e. ground (arith, str_eq_iff f.optional_resource_type t.namespace);
        resource_ids = λ e. (contains_iff f.optional_resource_ids t.resource_id).0 (ground arith);
        resource_id_prefix =
            has_prefix_rest f.optional_resource_id_prefix t.resource_id (ground arith);
        relation = λ e. ground (arith, str_eq_iff f.optional_resource_relation t.relation);
        caveat = (caveat_iff f.optional_caveat_name_filter t).0 (ground arith);
        expiration = (expiration_iff f.optional_expiration_option t).0 (ground arith);
        subjects = (selectors_iff f.optional_subjects_selectors t).0 (ground arith);
      },
      ground arith,
    ),
    λ (h, c). ground (
      arith,
      h.resource_type,
      h.resource_ids,
      h.relation,
      (caveat_iff f.optional_caveat_name_filter t).1 h.caveat,
      (expiration_iff f.optional_expiration_option t).1 h.expiration,
      (selectors_iff f.optional_subjects_selectors t).1 h.subjects,
      (has_prefix_iff t.resource_id f.optional_resource_id_prefix).1 h.resource_id_prefix,
      contains_iff f.optional_resource_ids t.resource_id,
      str_eq_iff f.optional_resource_type t.namespace,
      str_eq_iff f.optional_resource_relation t.relation,
    ),
  )
