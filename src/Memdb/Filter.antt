-- ===== src/Memdb/Filter.antt =====
-- The tests on rows of readonly.go and readwrite.go. A test that is `true` takes the row out.
pub mod Cursor
pub mod Accepts
use embedspicedb.Common.{
  ℕ, Bool, true, false, not, ◌&&◌, ◌||◌, Option, none, some, List, [], ◌∷◌, ◌++◌, if◌then◌else◌,
  any, is_some,
}
use embedspicedb.Common.Str.{Str, str_eq, str_lt, has_prefix, is_empty, bytes}
use embedspicedb.Memdb.{Params, ObjectAndRelation, Relationship}

abbrev pub ellipsis : Str
ellipsis = bytes "..."

-- slices.Contains
abbrev pub contains : List Str → Str → Bool
contains xs s = any (λ x. str_eq x s) xs

abbrev pub is_empty_list : List Str → Bool
is_empty_list [] = true
is_empty_list (x ∷ xs) = false

-- datastore.SubjectRelationFilter, SubjectsSelector
pub record SubjectRelationFilter : Type 0 where
  pub non_ellipsis_relation : Str
  pub include_ellipsis_relation : Bool
  pub only_non_ellipsis_relations : Bool

pub record SubjectsSelector : Type 0 where
  pub optional_subject_type : Str
  pub optional_subject_ids : List Str
  pub relation_filter : SubjectRelationFilter

-- datastore.CaveatNameFilter, ExpirationFilterOption
pub data CaveatNameFilter : Type 0 where
  caveat_none : CaveatNameFilter
  has_matching_caveat : Str → CaveatNameFilter
  no_caveat : CaveatNameFilter

pub data ExpirationFilterOption : Type 0 where
  expiration_none has_expiration no_expiration : ExpirationFilterOption

pub record RelationshipsFilter : Type 0 where
  pub optional_resource_type : Str
  pub optional_resource_ids : List Str
  pub optional_resource_id_prefix : Str
  pub optional_resource_relation : Str
  pub optional_subjects_selectors : List SubjectsSelector
  pub optional_caveat_name_filter : CaveatNameFilter
  pub optional_expiration_option : ExpirationFilterOption

-- options.SortOrder
pub data SortOrder : Type 0 where
  unsorted choose_efficient by_resource by_subject : SortOrder

-- tuple.RelationshipReference, which a cursor points to.
pub record RelationshipReference : Type 0 where
  pub resource : ObjectAndRelation
  pub subject : ObjectAndRelation

unfoldable pub less : Str → Str → Str → ObjectAndRelation → Bool
less lhs_namespace lhs_object_id lhs_relation rhs =
    str_lt lhs_namespace rhs.object_type
    || (str_eq lhs_namespace rhs.object_type && str_lt lhs_object_id rhs.object_id)
    || (str_eq lhs_namespace rhs.object_type
        && str_eq lhs_object_id rhs.object_id
        && str_lt lhs_relation rhs.relation)

unfoldable pub eq : Str → Str → Str → ObjectAndRelation → Bool
eq lhs_namespace lhs_object_id lhs_relation rhs =
    str_eq lhs_namespace rhs.object_type
    && str_eq lhs_object_id rhs.object_id
    && str_eq lhs_relation rhs.relation

-- The selector's relations: the list of the allowed ones, empty where every one is.
abbrev pub selected_relations : SubjectRelationFilter → List Str
selected_relations f =
    (if f.include_ellipsis_relation then ellipsis ∷ [] else [])
    ++ (if is_empty f.non_ellipsis_relation then [] else f.non_ellipsis_relation ∷ [])

abbrev pub relation_allowed : SubjectRelationFilter → Str → Bool
relation_allowed f r =
    if f.only_non_ellipsis_relations
    then not (str_eq r ellipsis)
    else is_empty_list (selected_relations f) || contains (selected_relations f) r

module _ {p : Params} where
  unfoldable pub apply_subject_selector : Relationship p → SubjectsSelector → Bool
  apply_subject_selector t s =
      if not (is_empty s.optional_subject_type)
        && not (str_eq s.optional_subject_type t.subject_namespace)
      then false
      else if not (is_empty_list s.optional_subject_ids)
          && not (contains s.optional_subject_ids t.subject_object_id)
      then false
      else relation_allowed s.relation_filter t.subject_relation

  -- A pointer to a caveat that is nil, or whose name is another one, or whose name is not empty.
  abbrev pub caveat_filtered : CaveatNameFilter → Relationship p → Bool
  caveat_filtered caveat_none t = false
  caveat_filtered (has_matching_caveat name) t = elim t.caveat [
    | none ↦ true
    | some c ↦ not (str_eq c.caveat_name name)
  ]
  caveat_filtered no_caveat t = elim t.caveat [
    | none ↦ false
    | some c ↦ not (is_empty c.caveat_name)
  ]

  abbrev pub expiration_filtered : ExpirationFilterOption → Relationship p → Bool
  expiration_filtered expiration_none t = false
  expiration_filtered has_expiration t = not (is_some t.expiration)
  expiration_filtered no_expiration t = is_some t.expiration

  abbrev pub selectors_filtered : List SubjectsSelector → Relationship p → Bool
  selectors_filtered [] t = false
  selectors_filtered (s ∷ ss) t = not (any (λ x. apply_subject_selector t x) (s ∷ ss))

  unfoldable pub filter_func_for_filters :
      RelationshipsFilter → (Relationship p → Bool) → Relationship p → Bool
  filter_func_for_filters f cursor_filter t =
      if not (is_empty f.optional_resource_type)
        && not (str_eq f.optional_resource_type t.namespace)
      then true
      else if not (is_empty_list f.optional_resource_ids)
          && not (contains f.optional_resource_ids t.resource_id)
      then true
      else if not (is_empty f.optional_resource_id_prefix)
          && not (has_prefix t.resource_id f.optional_resource_id_prefix)
      then true
      else if not (is_empty f.optional_resource_relation)
          && not (str_eq f.optional_resource_relation t.relation)
      then true
      else if caveat_filtered f.optional_caveat_name_filter t
      then true
      else if expiration_filtered f.optional_expiration_option t
      then true
      else if selectors_filtered f.optional_subjects_selectors t
      then true
      else cursor_filter t

  abbrev pub not_after_resource : RelationshipReference → Relationship p → Bool
  not_after_resource after t =
      less t.namespace t.resource_id t.relation after.resource
      || (eq t.namespace t.resource_id t.relation after.resource
          && (less t.subject_namespace t.subject_object_id t.subject_relation after.subject
              || eq t.subject_namespace t.subject_object_id t.subject_relation after.subject))

  abbrev pub not_after_subject : RelationshipReference → Relationship p → Bool
  not_after_subject after t =
      less t.subject_namespace t.subject_object_id t.subject_relation after.subject
      || (eq t.subject_namespace t.subject_object_id t.subject_relation after.subject
          && (less t.namespace t.resource_id t.relation after.resource
              || eq t.namespace t.resource_id t.relation after.resource))

  -- The four sort orders are all there are, so the panic of the last case is never met.
  unfoldable pub must_make_cursor_filter_fn :
      Option RelationshipReference → SortOrder → Relationship p → Bool
  unfolding less eq
  must_make_cursor_filter_fn none order t = false
  must_make_cursor_filter_fn (some after) unsorted t = false
  must_make_cursor_filter_fn (some after) choose_efficient t = not_after_resource after t
  must_make_cursor_filter_fn (some after) by_resource t = not_after_resource after t
  must_make_cursor_filter_fn (some after) by_subject t = not_after_subject after t
