-- ===== src/Samples/Collection.antt =====
-- A worker of the garbage collection whose backoff doubles, and a deletion from a list of rows.
use embedspicedb.Common.{ℕ, ◌≡◌, ◌↔◌, true, false, none, some, [], ◌∷◌, any}
use embedspicedb.Common.Int.{ℤ, pos, ◌+ℤ◌}
use embedspicedb.Common.Str.{Str, bytes}
use embedspicedb.Common.Result.{Result, ok}
use embedspicedb.Gc.{
  Backoff, start_worker, run_on_interval_with_backoff, GarbageCollector,
  GarbageCollectableDatastore, run_garbage_collection,
}
use embedspicedb.Gc.Waits.{run_on_interval_with_backoff_after_success}
use embedspicedb.Gc.Completed.{Completes, run_garbage_collection-is_marked}
use embedspicedb.Gc.Runs.{LeftBehind, run_garbage_collection-phase_after, is_marked}
use embedspicedb.Memdb.Filter.{RelationshipsFilter}
use embedspicedb.Memdb.Delete.{RelationshipFilter}
use embedspicedb.Samples.Tables.{docs}

abbrev doubling : Backoff ℤ
doubling = record { reset = λ b. pos 5; next_back_off = λ b. (b, b +ℤ b) }

run_on_interval_with_backoff_after_success_example :
    (run_on_interval_with_backoff doubling
      (pos 5)
      (false ∷ true ∷ true ∷ [])
      (start_worker doubling (pos 5) (pos 7))).next_interval
    ≡ pos 10
unfolding ◌+ℤ◌
run_on_interval_with_backoff_after_success_example =
    run_on_interval_with_backoff_after_success doubling (pos 5)
      (start_worker doubling (pos 5) (pos 7)) 2

abbrev collector : GarbageCollector ℕ Str
collector = record {
  lock_for_gc_run = ok true;
  unlock_after_gc_run = some (bytes "lost");
  now = ok (pos 100);
  tx_id_before = λ t. ok 8;
  delete_before_tx =
      λ r. (record { relationships = pos 3; transactions = pos 1; namespaces = pos 0 }, none);
  delete_expired_rels = (pos 2, some (bytes "timeout"));
}

abbrev collectable : GarbageCollectableDatastore ℕ Str
collectable = record { ready_state = ok true; build_garbage_collector = ok collector }

run_garbage_collection-phase_after_example :
    LeftBehind collectable (run_garbage_collection collectable (pos 10))
run_garbage_collection-phase_after_example = run_garbage_collection-phase_after collectable (pos 10)

run_garbage_collection-is_marked_example :
    (any is_marked (run_garbage_collection collectable (pos 10)).1 ≡ true)
    ↔ Completes collectable (pos 10)
run_garbage_collection-is_marked_example = run_garbage_collection-is_marked collectable (pos 10)

-- The filter of all documents.
abbrev of_documents : RelationshipFilter
of_documents = record {
  resource_type = bytes "doc";
  optional_resource_id = [];
  optional_resource_id_prefix = [];
  optional_relation = [];
  optional_subject_filter = none;
}

abbrev public_filter : RelationshipFilter → Result Str RelationshipsFilter
public_filter f = ok docs
