-- ===== src/Samples/Tracker.antt =====
-- The change tracker over numbers as revisions and texts as relationships.
use mathlib.Core.List.{Perm}
use embedspicedb.Common.{ℕ, ◌≡◌, refl, List, [], ◌∷◌, true, false, some, arith, ltb, map, not}
use embedspicedb.Common.Eq.{nat_Eq}
use embedspicedb.Common.Str.{Str, bytes}
use embedspicedb.Common.GoMap
use embedspicedb.Common.GoMap.Distinct.{keep}
use embedspicedb.Common.Result.{ok}
use embedspicedb.Common.Sort.{IsStrictWeak, IsSorted, sort_slice, insert_sorted}
use embedspicedb.Changes.{
  Params, Changes, ChangeRecord, WatchContent, touch, delete, namespace_definition,
}
use embedspicedb.Changes.Consistent.{IsConsistent}
use embedspicedb.Changes.Tracking.{
  new_changes, record_for_revision, store, adjust_byte_size, drop_delete, put_touch, put_delete,
  add_relationship_change,
}
use embedspicedb.Changes.Sequences.{
  Call, relationship_change, revision_metadata, deleted_namespace, deleted_caveat,
  changed_definition, perform, perform_all, tracker-IsConsistent,
}
use embedspicedb.Changes.LastWrite.{
  RelationshipUpdate, add_all, observed, effect_of, untouched, add_all_refines,
}
use embedspicedb.Changes.Output.{
  record_changes, filter_and_remove_revision_changes, revision_changes, remove_all_changes_before,
  collect_changes, revisions_with_changes,
}
use embedspicedb.Changes.Drain.{told, passing, key_less, filter_and_remove_drains}

abbrev numbers : Params
numbers = record {
  R = ℕ;
  K = ℕ;
  Rel = Str;
  Namespace = Str;
  Caveat = Str;
  Metadata = ℕ;
  key_eq = nat_Eq;
  metadata_eq = nat_Eq;
  greater_than = λ a b. ltb b a;
  key_func = λ r. r;
  string_without_caveat_or_expiration = λ r. r;
  rel_size = λ r. 1;
  namespace_name = λ n. n;
  namespace_size = λ n. 2;
  caveat_name = λ c. c;
  caveat_size = λ c. 3;
  metadata_len = λ m. m;
  converts = λ m. true;
  Struct = ℕ;
  must_struct = λ m. m;
}

abbrev everything : WatchContent
everything = record { watch_relationships = true; watch_schema = true; watch_checkpoints = false }

abbrev calls : List (Call numbers)
calls =
    relationship_change 7 (bytes "doc:1") delete
    ∷ relationship_change 7 (bytes "doc:1") touch
    ∷ deleted_namespace 7 (bytes "doc")
    ∷ changed_definition 7 (namespace_definition (bytes "doc"))
    ∷ revision_metadata 5 4
    ∷ deleted_caveat 5 (bytes "c")
    ∷ relationship_change 3 (bytes "doc:2") delete
    ∷ []

abbrev tracker : Changes numbers
tracker = perform_all numbers ltb calls (new_changes numbers everything 0)

tracker-IsConsistent_example : IsConsistent numbers tracker
tracker-IsConsistent_example = tracker-IsConsistent numbers ltb everything 0 calls

abbrev updates : List (RelationshipUpdate numbers)
updates =
    record { rev = 7; relationship = bytes "doc:1"; operation = touch }
    ∷ record { rev = 7; relationship = bytes "doc:1"; operation = delete }
    ∷ record { rev = 9; relationship = bytes "doc:1"; operation = delete }
    ∷ []

add_all_refines_example :
    observed numbers 7 (bytes "doc:1") (add_all numbers updates (new_changes numbers everything 0))
    ≡ effect_of numbers 7 (bytes "doc:1") updates untouched
add_all_refines_example = add_all_refines numbers everything updates 7 (bytes "doc:1") refl

ltb-IsStrictWeak : IsStrictWeak ltb
ltb-IsStrictWeak = record { asym = λ a b h. ground arith; neg_trans = λ a b c h k. ground arith }

-- Two records, out of order.
abbrev older : ChangeRecord numbers
older = record {
  rev = 3;
  rel_touches = [];
  rel_deletes = (bytes "doc:2", bytes "doc:2") ∷ [];
  definitions_changed = [];
  namespaces_deleted = [];
  caveats_deleted = [];
  metadatas = [];
}

abbrev newer : ChangeRecord numbers
newer = record {
  rev = 7;
  rel_touches = (bytes "doc:1", bytes "doc:1") ∷ [];
  rel_deletes = [];
  definitions_changed = [];
  namespaces_deleted = [];
  caveats_deleted = [];
  metadatas = [];
}

abbrev two_calls : List (Call numbers)
two_calls =
    relationship_change 7 (bytes "doc:1") touch ∷ relationship_change 3 (bytes "doc:2") delete ∷ []

abbrev both_held : Changes numbers
both_held = perform_all numbers ltb two_calls (new_changes numbers everything 0)

abbrev newer_held : Changes numbers
newer_held = remove_all_changes_before numbers 5 both_held

drain_run :
    filter_and_remove_revision_changes numbers ltb 5 (λ c. c) both_held
    ≡ (ok (record_changes numbers older ∷ []), newer_held)
unfolding filter_and_remove_revision_changes perform_all perform new_changes add_relationship_change
    put_touch put_delete drop_delete adjust_byte_size store record_for_revision revision_changes
    collect_changes revisions_with_changes remove_all_changes_before GoMap.lookup GoMap.insert
    sort_slice insert_sorted
drain_run = refl

filter_and_remove_drains_example :
    (es : List (ℕ × ChangeRecord numbers)) × (told numbers ltb older ∷ []
      ≡ map (λ (x : ℕ × ChangeRecord numbers). told numbers ltb x.1) es)
    × Perm es (passing numbers ltb (some 5) both_held)
    × IsSorted (key_less numbers ltb) es
    × ((k : ℕ)
        → GoMap.lookup ⦃e = nat_Eq⦄ k newer_held.records
          ≡ keep
              (λ (r : ChangeRecord numbers). not (ltb r.rev 5))
              (GoMap.lookup ⦃e = nat_Eq⦄ k both_held.records))
filter_and_remove_drains_example =
    filter_and_remove_drains numbers ltb 5 (λ c. c) both_held newer_held
      (told numbers ltb older ∷ []) ltb-IsStrictWeak
      (tracker-IsConsistent numbers ltb everything 0 two_calls)
      (tracker-IsConsistent numbers ltb everything 0 two_calls) drain_run
