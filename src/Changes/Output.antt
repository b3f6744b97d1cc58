-- ===== src/Changes/Output.antt =====
-- The methods of changes.go that read the tracker out: ordered changes, up to a bound or all. The two
-- read locks of `revisionChanges` are one step here; what other calls do between the reading and the
-- removal of `FilterAndRemoveRevisionChanges`, which locks each for itself, is an argument.
use embedspicedb.Common.{
  Bool, true, false, Option, none, some, List, [], ◌∷◌, ◌++◌, map, filter, all, not,
}
use embedspicedb.Common.Str.{Str}
use embedspicedb.Common.GoMap
use embedspicedb.Common.Result.{Result, ok, err}
use embedspicedb.Common.Sort.{sort_slice}
use embedspicedb.Changes.{
  Params, SchemaDefinition, UpdateOperation, touch, delete, ChangesError, metadata_panic,
  ChangeRecord, Changes,
}

-- datastore.RevisionChanges
pub record RevisionChanges (p : Params) : Type 0 where
  pub revision : p.R
  pub relationship_changes : List (UpdateOperation × p.Rel)
  pub changed_definitions : List (SchemaDefinition p)
  pub deleted_namespaces : List Str
  pub deleted_caveats : List Str
  pub metadatas : List p.Struct

module _ (p : Params) where
  abbrev pub record_changes : ChangeRecord p → RevisionChanges p
  record_changes r = record {
    revision = r.rev;
    relationship_changes =
        map (λ (x : Str × p.Rel). (touch, x.1)) r.rel_touches
        ++ map (λ (x : Str × p.Rel). (delete, x.1)) r.rel_deletes;
    changed_definitions = map (λ (x : Str × SchemaDefinition p). x.1) r.definitions_changed;
    deleted_namespaces = map (λ (x : Str × Unit {0}). x.0) r.namespaces_deleted;
    deleted_caveats = map (λ (x : Str × Unit {0}). x.0) r.caveats_deleted;
    metadatas = map p.must_struct r.metadatas;
  }

  -- The bound, if there is one: `!withBound || boundRev.GreaterThan(cr.rev)`
  abbrev pub within : Option p.R → ChangeRecord p → Bool
  within none r = true
  within (some bound) r = p.greater_than bound r.rev

  unfoldable pub revisions_with_changes : Option p.R → Changes p → List p.K
  revisions_with_changes bound ch =
      map (λ (x : p.K × ChangeRecord p). x.0)
        (filter (λ (x : p.K × ChangeRecord p). within bound x.1) ch.records)

  -- One more change in front; a metadata that does not convert is a panic.
  abbrev pub prepend_changes :
      Bool
      → ChangeRecord p
      → Result ChangesError (List (RevisionChanges p))
      → Result ChangesError (List (RevisionChanges p))
  prepend_changes false r rest = err metadata_panic
  prepend_changes true r (ok rest) = ok (record_changes r ∷ rest)
  prepend_changes true r (err e) = err e

  -- `changes[i]` for each key in turn. The keys are those of the map.
  unfoldable pub collect_changes :
      List p.K → Changes p → Result ChangesError (List (RevisionChanges p))
  collect_changes [] ch = ok []
  collect_changes (k ∷ ks) ch =
      let rest = collect_changes ks ch in
      elim (GoMap.lookup ⦃e = p.key_eq⦄ k ch.records) [
        | none ↦ rest
        | some r ↦ prepend_changes (all p.converts r.metadatas) r rest
      ]

  unfoldable pub revision_changes :
      (p.K → p.K → Bool) → Option p.R → Changes p → Result ChangesError (List (RevisionChanges p))
  revision_changes less bound ch =
      collect_changes (sort_slice less (revisions_with_changes bound ch)) ch

  unfoldable pub as_revision_changes :
      (p.K → p.K → Bool) → Changes p → Result ChangesError (List (RevisionChanges p))
  as_revision_changes less ch = revision_changes less none ch

  unfoldable pub remove_all_changes_before : p.R → Changes p → Changes p
  remove_all_changes_before bound ch = record ch {
    records = filter (λ (x : p.K × ChangeRecord p). not (p.greater_than bound x.1.rev)) ch.records;
  }

  abbrev pub drained :
      Result ChangesError (List (RevisionChanges p))
      → p.R
      → (Changes p → Changes p)
      → Changes p
      → Result ChangesError (List (RevisionChanges p)) × Changes p
  drained (err e) bound between ch = (err e, ch)
  drained (ok changes) bound between ch = (ok changes, remove_all_changes_before bound (between ch))

  unfoldable pub filter_and_remove_revision_changes :
      (p.K → p.K → Bool)
      → p.R
      → (Changes p → Changes p)
      → Changes p
      → Result ChangesError (List (RevisionChanges p)) × Changes p
  filter_and_remove_revision_changes less bound between ch =
      drained (revision_changes less (some bound) ch) bound between ch
