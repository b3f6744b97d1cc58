-- ===== src/Changes/Sequences.antt =====
-- Sequences of calls of the tracker's methods, and the invariant over all of them.
use embedspicedb.Common.{
  ℕ, ◌≡◌, List, [], ◌∷◌, ◌++◌, Bool, true, false, Option, none, some, arith, if◌then◌else◌, not,
}
use embedspicedb.Common.Str.{Str}
use embedspicedb.Common.GoMap
use embedspicedb.Common.GoMap.Distinct.{Distinct, keep, lookup-filter, Distinct-filter}
use embedspicedb.Common.Result.{Result, ok, err}
use embedspicedb.Changes.{
  Params, SchemaDefinition, namespace_definition, caveat_definition, unknown_definition,
  UpdateOperation, create, touch, delete, WatchContent, ChangesError, ChangeRecord, Changes,
}
use embedspicedb.Changes.Tracking.{
  ns_prefix, Outcome, and_then, new_changes, record_for_revision, drop_delete, put_touch,
  add_relationship_change, add_revision_metadata, add_deleted_namespace, add_deleted_caveat,
  mark_namespace_deleted, mark_caveat_deleted, release_existing, undelete_namespace,
  undelete_caveat, add_changed_definition, apply_operation, change_definition,
}
use embedspicedb.Changes.Output.{
  RevisionChanges, revision_changes, remove_all_changes_before, drained,
  filter_and_remove_revision_changes,
}
use embedspicedb.Changes.Records.{
  rel_deletes-drop_delete, namespaces_deleted-release, caveats_deleted-release,
}
use embedspicedb.Changes.Consistent.{IsConsistent, record_for_revision-Fits, store-IsConsistent}
use embedspicedb.Changes.Preserved.{
  new_changes-IsConsistent, drop_delete-IsConsistent, put_touch-IsConsistent,
  put_delete-IsConsistent, add_revision_metadata-IsConsistent, mark_namespace_deleted-IsConsistent,
  mark_caveat_deleted-IsConsistent, undelete_namespace-IsConsistent, undelete_caveat-IsConsistent,
  release_existing-IsConsistent, put_namespace-IsConsistent, put_caveat-IsConsistent,
}

-- One call of a method that changes the tracker. A drain that other calls interrupt reads before
-- them, which changes nothing, and removes after them: the latter is a step of its own.
pub data Call (p : Params) : Type 0 where
  relationship_change : p.R → p.Rel → UpdateOperation → Call p
  revision_metadata : p.R → p.Metadata → Call p
  deleted_namespace : p.R → Str → Call p
  deleted_caveat : p.R → Str → Call p
  changed_definition : p.R → SchemaDefinition p → Call p
  filter_and_remove : p.R → Call p
  remove_before : p.R → Call p

module _ (p : Params) (less : p.K → p.K → Bool) where
  unfoldable pub perform : Call p → Changes p → Changes p
  perform (relationship_change rev rel op) ch = (add_relationship_change p rev rel op ch).1
  perform (revision_metadata rev m) ch = (add_revision_metadata p rev m ch).1
  perform (deleted_namespace rev name) ch = (add_deleted_namespace p rev name ch).1
  perform (deleted_caveat rev name) ch = (add_deleted_caveat p rev name ch).1
  perform (changed_definition rev d) ch = (add_changed_definition p rev d ch).1
  perform (filter_and_remove bound) ch =
      (filter_and_remove_revision_changes p less bound (λ c. c) ch).1
  perform (remove_before bound) ch = remove_all_changes_before p bound ch

  unfoldable pub perform_all : List (Call p) → Changes p → Changes p
  perform_all [] ch = ch
  perform_all (c ∷ cs) ch = perform_all cs (perform c ch)

  and_then-IsConsistent :
      (m : Outcome p) (f : Changes p → Outcome p)
      → IsConsistent p m.1
      → IsConsistent p (f m.1).1
      → IsConsistent p (and_then p m f).1
  and_then-IsConsistent (none, ch) f h k = k
  and_then-IsConsistent (some e, ch) f h k = h

  guarded-IsConsistent :
      (b : Bool) (m : Outcome p) (ch : Changes p)
      → IsConsistent p m.1
      → IsConsistent p ch
      → IsConsistent p (let r : Outcome p = if b then m else (none, ch) in r.1)
  guarded-IsConsistent true m ch h k = h
  guarded-IsConsistent false m ch h k = k

  apply_operation-IsConsistent :
      (rev : p.R) (rel : p.Rel) (op : UpdateOperation) (ch : Changes p)
      → IsConsistent p ch
      → IsConsistent p (apply_operation p rev rel op ch).1
  apply_operation-IsConsistent rev rel touch ch h =
      let key = p.string_without_caveat_or_expiration rel in
      let m = drop_delete p rev key ch in
      let dropped = drop_delete-IsConsistent p rev ch h key in
      and_then-IsConsistent m (λ ch'. put_touch p rev key rel ch') dropped
        (put_touch-IsConsistent p rev m.1 dropped rel (rel_deletes-drop_delete p rev key ch))
  apply_operation-IsConsistent rev rel delete ch h = put_delete-IsConsistent p rev ch h rel
  apply_operation-IsConsistent rev rel create ch h =
      store-IsConsistent p rev (record_for_revision p rev ch) ch
        (record_for_revision-Fits p rev ch h) h

  change_definition-IsConsistent :
      (rev : p.R) (d : SchemaDefinition p) (ch : Changes p)
      → IsConsistent p ch
      → IsConsistent p (change_definition p rev d ch).1
  change_definition-IsConsistent rev (namespace_definition d) ch h =
      let name = p.namespace_name d in
      let ch' = undelete_namespace p rev name ch in
      let undeleted = undelete_namespace-IsConsistent p rev ch h name in
      let released = release_existing-IsConsistent p rev ch' undeleted (ns_prefix ++ name) in
      and_then-IsConsistent (release_existing p rev (ns_prefix ++ name) ch') _ released (
        put_namespace-IsConsistent p rev _ released (namespace_definition d) name
          (namespaces_deleted-release p rev name (ns_prefix ++ name) ch))
  change_definition-IsConsistent rev (caveat_definition d) ch h =
      let name = p.caveat_name d in
      let ch' = undelete_caveat p rev name ch in
      let undeleted = undelete_caveat-IsConsistent p rev ch h name in
      let released = release_existing-IsConsistent p rev ch' undeleted (ns_prefix ++ name) in
      and_then-IsConsistent (release_existing p rev (ns_prefix ++ name) ch') _ released (
        put_caveat-IsConsistent p rev _ released (caveat_definition d) name
          (caveats_deleted-release p rev name (ns_prefix ++ name) ch))
  change_definition-IsConsistent rev unknown_definition ch h =
      store-IsConsistent p rev (record_for_revision p rev ch) ch
        (record_for_revision-Fits p rev ch h) h

  pub lookup-remove :
      (bound : p.R) (ch : Changes p) (k : p.K)
      → Distinct ⦃e = p.key_eq⦄ ch.records
      → GoMap.lookup ⦃e = p.key_eq⦄ k (remove_all_changes_before p bound ch).records
        ≡ keep
            (λ (r : ChangeRecord p). not (p.greater_than bound r.rev))
            (GoMap.lookup ⦃e = p.key_eq⦄ k ch.records)
  unfolding remove_all_changes_before
  lookup-remove bound ch k d =
      lookup-filter ⦃e = p.key_eq⦄ (λ r. not (p.greater_than bound r.rev)) k ch.records d

  keep-eq-some {ℓ} :
      {A : Type ℓ} (q : A → Bool) (o : Option A) (a : A) → keep q o ≡ some a → o ≡ some a
  keep-eq-some q none a h = cc
  keep-eq-some q (some x) a h = ground arith

  pub remove-IsConsistent :
      (bound : p.R) (ch : Changes p)
      → IsConsistent p ch
      → IsConsistent p (remove_all_changes_before p bound ch)
  remove-IsConsistent bound ch h = record {
    distinct =
        unfold remove_all_changes_before in
        Distinct-filter ⦃e = p.key_eq⦄ (λ (r : ChangeRecord p). not (p.greater_than bound r.rev))
          ch.records h.distinct;
    at = λ k r e. h.at k r (
        keep-eq-some _ (GoMap.lookup ⦃e = p.key_eq⦄ k ch.records) r
          (rw (lookup-remove bound ch k h.distinct) at e));
  }

  drained-IsConsistent :
      (r : Result ChangesError (List (RevisionChanges p))) (bound : p.R) (ch : Changes p)
      → IsConsistent p ch
      → IsConsistent p (drained p r bound (λ c. c) ch).1
  drained-IsConsistent (err e) bound ch h = h
  drained-IsConsistent (ok changes) bound ch h = remove-IsConsistent bound ch h

  perform-IsConsistent :
      (c : Call p) (ch : Changes p) → IsConsistent p ch → IsConsistent p (perform c ch)
  unfolding perform add_relationship_change add_deleted_namespace add_deleted_caveat
      add_changed_definition filter_and_remove_revision_changes
  perform-IsConsistent (relationship_change rev rel op) ch h =
      guarded-IsConsistent ch.content.watch_relationships (apply_operation p rev rel op ch) ch
        (apply_operation-IsConsistent rev rel op ch h) h
  perform-IsConsistent (revision_metadata rev m) ch h =
      add_revision_metadata-IsConsistent p rev ch h m
  perform-IsConsistent (deleted_namespace rev name) ch h =
      guarded-IsConsistent ch.content.watch_schema (mark_namespace_deleted p rev name ch) ch
        (mark_namespace_deleted-IsConsistent p rev ch h name) h
  perform-IsConsistent (deleted_caveat rev name) ch h =
      guarded-IsConsistent ch.content.watch_schema (mark_caveat_deleted p rev name ch) ch
        (mark_caveat_deleted-IsConsistent p rev ch h name) h
  perform-IsConsistent (changed_definition rev d) ch h =
      guarded-IsConsistent ch.content.watch_schema (change_definition p rev d ch) ch
        (change_definition-IsConsistent rev d ch h) h
  perform-IsConsistent (filter_and_remove bound) ch h =
      drained-IsConsistent (revision_changes p less (some bound) ch) bound ch h
  perform-IsConsistent (remove_before bound) ch h = remove-IsConsistent bound ch h

  perform_all-IsConsistent :
      (cs : List (Call p)) (ch : Changes p) → IsConsistent p ch → IsConsistent p (perform_all cs ch)
  unfolding perform_all
  perform_all-IsConsistent [] ch h = h
  perform_all-IsConsistent (c ∷ cs) ch h =
      perform_all-IsConsistent cs (perform c ch) (perform-IsConsistent c ch h)

  -- After any calls on a new tracker, those that fail included, it holds at each revision's key one
  -- record of that revision, in which no relationship is both touched and deleted, no namespace or
  -- caveat both changed and deleted, and each relationship stands under its own text.
  pub tracker-IsConsistent :
      (content : WatchContent) (max_byte_size : ℕ) (cs : List (Call p))
      → IsConsistent p (perform_all cs (new_changes p content max_byte_size))
  tracker-IsConsistent content max_byte_size cs =
      perform_all-IsConsistent cs (new_changes p content max_byte_size)
        (new_changes-IsConsistent p content max_byte_size)
