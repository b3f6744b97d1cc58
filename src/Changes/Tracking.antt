-- ===== src/Changes/Tracking.antt =====
-- The methods of changes.go that add to the tracker. A method that fails has kept what it wrote
-- before, so the tracker comes back beside the error.
use embedspicedb.Common.{
  ℕ, ◌∷◌, ◌++◌, [], Bool, true, false, Option, none, some, if◌then◌else◌, ltb, ◌==◌, any,
}
use embedspicedb.Common.Int.{ℤ, pos, ◌+ℤ◌, ◌-ℤ◌, wrap64, ltb_ℤ, pos_part}
use embedspicedb.Common.Str.{Str, bytes, str_Eq}
use embedspicedb.Common.GoMap
use embedspicedb.Common.GoMap.{GoMap}
use embedspicedb.Changes.{
  Params, SchemaDefinition, namespace_definition, caveat_definition, unknown_definition,
  UpdateOperation, create, touch, delete, WatchContent, ChangesError, unknown_change_operation,
  byte_size_underflow, unknown_schema_definition_kind, maximum_changes_size_exceeded, ChangeRecord,
  Changes,
}

abbrev pub ns_prefix : Str
ns_prefix = bytes "n$"

abbrev pub caveat_prefix : Str
caveat_prefix = bytes "c$"

module _ (p : Params) where
  abbrev pub Outcome : Type 0
  Outcome = Option ChangesError × Changes p

  -- `if err := m; err != nil { return err }`, and then the rest.
  abbrev pub and_then : Outcome → (Changes p → Outcome) → Outcome
  and_then (some e, ch) k = (some e, ch)
  and_then (none, ch) k = k ch

  unfoldable pub new_changes : WatchContent → ℕ → Changes p
  new_changes content max_byte_size = record {
    records = [];
    content = content;
    max_byte_size = max_byte_size;
    current_byte_size = pos 0;
  }

  unfoldable pub is_empty : Changes p → Bool
  is_empty ch = elim ch.records [ [] ↦ true | _ ∷ _ ↦ false ]

  -- `delta` is 1 (`true`) or -1.
  abbrev pub signed : ℕ → Bool → ℤ
  signed size true = pos size
  signed size false = pos 0 -ℤ pos size

  unfoldable pub adjust_byte_size : ℕ → Bool → Changes p → Outcome
  adjust_byte_size size delta ch =
      if ch.max_byte_size == 0
      then (none, ch)
      else let current = wrap64 (ch.current_byte_size +ℤ signed size delta) in
        let ch' = record ch { current_byte_size = current } in
        if ltb_ℤ current (pos 0)
        then (some byte_size_underflow, ch')
        else if ltb ch.max_byte_size (pos_part current)
        then (some (maximum_changes_size_exceeded ch.max_byte_size), ch')
        else (none, ch')

  abbrev pub empty_record : p.R → ChangeRecord p
  empty_record rev = record {
    rev = rev;
    rel_touches = [];
    rel_deletes = [];
    definitions_changed = [];
    namespaces_deleted = [];
    caveats_deleted = [];
    metadatas = [];
  }

  -- The record of the revision's key, new if there is none; `store` writes it back.
  unfoldable pub record_for_revision : p.R → Changes p → ChangeRecord p
  record_for_revision rev ch = elim (GoMap.lookup ⦃e = p.key_eq⦄ (p.key_func rev) ch.records) [
    | none ↦ empty_record rev
    | some r ↦ r
  ]

  unfoldable pub store : p.R → ChangeRecord p → Changes p → Changes p
  store rev r ch = record ch { records = GoMap.insert ⦃e = p.key_eq⦄ (p.key_func rev) r ch.records }

  -- The touch drops a delete of the same relationship.
  unfoldable pub drop_delete : p.R → Str → Changes p → Outcome
  drop_delete rev key ch =
      let r = record_for_revision rev ch in
      elim (GoMap.lookup key r.rel_deletes) [
        | none ↦ (none, store rev r ch)
        | some existing ↦
            adjust_byte_size (p.rel_size existing) false
              (store rev (record r { rel_deletes = GoMap.delete key r.rel_deletes }) ch)
      ]

  unfoldable pub put_touch : p.R → Str → p.Rel → Changes p → Outcome
  put_touch rev key rel ch =
      let r = record_for_revision rev ch in
      adjust_byte_size (p.rel_size rel) true
        (store rev (record r { rel_touches = GoMap.insert key rel r.rel_touches }) ch)

  unfoldable pub put_delete : p.R → Str → p.Rel → Changes p → Outcome
  put_delete rev key rel ch =
      let r = record_for_revision rev ch in
      elim (GoMap.lookup key r.rel_touches) [
        | some touched ↦ (none, store rev r ch)
        | none ↦
            adjust_byte_size (p.rel_size rel) true
              (store rev (record r { rel_deletes = GoMap.insert key rel r.rel_deletes }) ch)
      ]

  abbrev pub apply_operation : p.R → p.Rel → UpdateOperation → Changes p → Outcome
  apply_operation rev rel touch ch =
      let key = p.string_without_caveat_or_expiration rel in
      and_then (drop_delete rev key ch) (λ ch'. put_touch rev key rel ch')
  apply_operation rev rel delete ch =
      put_delete rev (p.string_without_caveat_or_expiration rel) rel ch
  apply_operation rev rel create ch =
      (some unknown_change_operation, store rev (record_for_revision rev ch) ch)

  unfoldable pub add_relationship_change : p.R → p.Rel → UpdateOperation → Changes p → Outcome
  add_relationship_change rev rel op ch =
      if ch.content.watch_relationships then apply_operation rev rel op ch else (none, ch)

  unfoldable pub add_revision_metadata : p.R → p.Metadata → Changes p → Outcome
  add_revision_metadata rev metadata ch =
      if p.metadata_len metadata == 0
      then (none, ch)
      else let r = record_for_revision rev ch in
        if any (λ m. p.metadata_eq.beq m metadata) r.metadatas
        then (none, store rev r ch)
        else (none, store rev (record r { metadatas = r.metadatas ++ metadata ∷ [] }) ch)

  unfoldable pub mark_namespace_deleted : p.R → Str → Changes p → Outcome
  mark_namespace_deleted rev name ch =
      let r = record_for_revision rev ch in
      elim (GoMap.lookup (ns_prefix ++ name) r.definitions_changed) [
        | some d ↦ (none, store rev r ch)
        | none ↦ (
          none,
          store rev
              (record r {
                definitions_changed = GoMap.delete (ns_prefix ++ name) r.definitions_changed;
                namespaces_deleted = GoMap.insert name tt r.namespaces_deleted;
              })
              ch,
        )
      ]

  unfoldable pub add_deleted_namespace : p.R → Str → Changes p → Outcome
  add_deleted_namespace rev name ch =
      if ch.content.watch_schema then mark_namespace_deleted rev name ch else (none, ch)

  unfoldable pub mark_caveat_deleted : p.R → Str → Changes p → Outcome
  mark_caveat_deleted rev name ch =
      let r = record_for_revision rev ch in
      elim (GoMap.lookup (caveat_prefix ++ name) r.definitions_changed) [
        | some d ↦ (none, store rev r ch)
        | none ↦ (
          none,
          store rev
              (record r {
                definitions_changed = GoMap.delete (caveat_prefix ++ name) r.definitions_changed;
                caveats_deleted = GoMap.insert name tt r.caveats_deleted;
              })
              ch,
        )
      ]

  unfoldable pub add_deleted_caveat : p.R → Str → Changes p → Outcome
  add_deleted_caveat rev name ch =
      if ch.content.watch_schema then mark_caveat_deleted rev name ch else (none, ch)

  abbrev pub definition_size : SchemaDefinition p → ℕ
  definition_size (namespace_definition d) = p.namespace_size d
  definition_size (caveat_definition d) = p.caveat_size d
  definition_size unknown_definition = 0

  -- The size of what stands under the key that the source looks up is taken off.
  unfoldable pub release_existing : p.R → Str → Changes p → Outcome
  release_existing rev key ch =
      elim (GoMap.lookup key (record_for_revision rev ch).definitions_changed) [
        | none ↦ (none, ch)
        | some existing ↦ adjust_byte_size (definition_size existing) false ch
      ]

  unfoldable pub put_definition : p.R → Str → SchemaDefinition p → Changes p → Outcome
  put_definition rev key d ch =
      let r = record_for_revision rev ch in
      adjust_byte_size (definition_size d) true
        (store rev (record r { definitions_changed = GoMap.insert key d r.definitions_changed }) ch)

  unfoldable pub undelete_namespace : p.R → Str → Changes p → Changes p
  undelete_namespace rev name ch =
      let r = record_for_revision rev ch in
      store rev (record r { namespaces_deleted = GoMap.delete name r.namespaces_deleted }) ch

  unfoldable pub undelete_caveat : p.R → Str → Changes p → Changes p
  undelete_caveat rev name ch =
      let r = record_for_revision rev ch in
      store rev (record r { caveats_deleted = GoMap.delete name r.caveats_deleted }) ch

  -- The case of a caveat looks for an existing definition under the prefix of namespaces.
  abbrev pub change_definition : p.R → SchemaDefinition p → Changes p → Outcome
  change_definition rev (namespace_definition d) ch =
      let name = p.namespace_name d in
      and_then (release_existing rev (ns_prefix ++ name) (undelete_namespace rev name ch))
        (λ ch'. put_definition rev (ns_prefix ++ name) (namespace_definition d) ch')
  change_definition rev (caveat_definition d) ch =
      let name = p.caveat_name d in
      and_then (release_existing rev (ns_prefix ++ name) (undelete_caveat rev name ch))
        (λ ch'. put_definition rev (caveat_prefix ++ name) (caveat_definition d) ch')
  change_definition rev unknown_definition ch =
      (some unknown_schema_definition_kind, store rev (record_for_revision rev ch) ch)

  unfoldable pub add_changed_definition : p.R → SchemaDefinition p → Changes p → Outcome
  add_changed_definition rev d ch =
      if ch.content.watch_schema then change_definition rev d ch else (none, ch)
