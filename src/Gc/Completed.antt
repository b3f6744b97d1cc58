-- ===== src/Gc/Completed.antt =====
-- When a run of the garbage collection marks itself completed.
use embedspicedb.Common.{◌≡◌, ◌↔◌, refl, arith, Bool, true, false, Option, none, some, [], ◌∷◌, any}
use embedspicedb.Common.Int.{ℤ, ◌-ℤ◌, wrap64}
use embedspicedb.Common.Result.{Result, ok, err}
use embedspicedb.Gc.{
  GarbageCollector, GarbageCollectableDatastore, Outcome, finish, from_watermark, from_now,
  from_lock, from_built, from_ready, unlock_event, closed, run_garbage_collection,
}
use embedspicedb.Gc.Runs.{is_marked, any-append}

module _ (Rev : Type 0) {E : Type 0} where
  finish-Marked :
      (c d : Option E) → any is_marked (finish {Rev = Rev} c d).1 ≡ true → (c ≡ none) × (d ≡ none)
  finish-Marked (some e) d h = ground arith
  finish-Marked none (some e) h = ground arith
  finish-Marked none none h = (refl, refl)

  not_unlock : (u : Option E) → is_marked (unlock_event {Rev = Rev} u) ≡ false
  not_unlock none = refl
  not_unlock (some e) = refl

module _ {Rev E : Type 0} where
  -- Every step of the collection is answered without an error, both deletions too, by a datastore
  -- that is ready and a collector that gets the lock.
  pub record IsAnswered (collectable : GarbageCollectableDatastore Rev E) (window : ℤ)
      (gc : GarbageCollector Rev E) (now : ℤ) (watermark : Rev) : Type 0 where
    pub ready : collectable.ready_state ≡ ok true
    pub collector : collectable.build_garbage_collector ≡ ok gc
    pub lock : gc.lock_for_gc_run ≡ ok true
    pub time : gc.now ≡ ok now
    pub transaction : gc.tx_id_before (wrap64 (now -ℤ window)) ≡ ok watermark
    pub deleted : (gc.delete_before_tx watermark).1 ≡ none
    pub expired : gc.delete_expired_rels.1 ≡ none

  abbrev pub Completes : GarbageCollectableDatastore Rev E → ℤ → Type 0
  Completes collectable window =
      (gc : GarbageCollector Rev E) × (now : ℤ) × (watermark : Rev) × IsAnswered collectable window
        gc now watermark

  abbrev Marked : Outcome Rev E → Type 0
  Marked o = any is_marked o.1 ≡ true

  -- The events of the lock and of the collector around those of a run mark nothing.
  lock-Marked :
      (window : ℤ) (gc : GarbageCollector Rev E) (l : Result E Bool)
      → any is_marked (from_lock window gc l).1
        ≡ any is_marked (elim l [
          | err e ↦ []
          | ok b ↦ elim b [ true ↦ (from_now window gc gc.now).1 | false ↦ [] ]
        ])
  lock-Marked window gc (err e) = refl
  lock-Marked window gc (ok false) = refl
  lock-Marked window gc (ok true) = ground (
    arith,
    not_unlock Rev gc.unlock_after_gc_run,
    any-append is_marked (from_now window gc gc.now).1 (unlock_event gc.unlock_after_gc_run ∷ []),
  )

  built-Marked :
      (window : ℤ) (gc : GarbageCollector Rev E)
      → any is_marked (from_built window (ok gc)).1
        ≡ any is_marked (from_lock window gc gc.lock_for_gc_run).1
  built-Marked window gc =
      ground (arith, any-append is_marked (from_lock window gc gc.lock_for_gc_run).1 (closed ∷ []))

  module _ (collectable : GarbageCollectableDatastore Rev E) (window : ℤ) where
    watermark-Completes :
        (gc : GarbageCollector Rev E) (now : ℤ) (w : Result E Rev)
        → collectable.ready_state ≡ ok true
        → collectable.build_garbage_collector ≡ ok gc
        → gc.lock_for_gc_run ≡ ok true
        → gc.now ≡ ok now
        → gc.tx_id_before (wrap64 (now -ℤ window)) ≡ w
        → Marked (from_watermark gc w)
        → Completes collectable window
    watermark-Completes gc now (err e) a b c d q h = ground arith
    watermark-Completes gc now (ok w) a b c d q h =
        let (x, y) = finish-Marked Rev (gc.delete_before_tx w).1 gc.delete_expired_rels.1 h in
        (
          gc,
          now,
          w,
          record {
            ready = a;
            collector = b;
            lock = c;
            time = d;
            transaction = q;
            deleted = x;
            expired = y;
          },
        )

    now-Completes :
        (gc : GarbageCollector Rev E) (n : Result E ℤ)
        → collectable.ready_state ≡ ok true
        → collectable.build_garbage_collector ≡ ok gc
        → gc.lock_for_gc_run ≡ ok true
        → gc.now ≡ n
        → Marked (from_now window gc n)
        → Completes collectable window
    now-Completes gc (err e) a b c q h = ground arith
    now-Completes gc (ok n) a b c q h =
        watermark-Completes gc n (gc.tx_id_before (wrap64 (n -ℤ window))) a b c q refl h

    lock-Completes :
        (gc : GarbageCollector Rev E) (l : Result E Bool)
        → collectable.ready_state ≡ ok true
        → collectable.build_garbage_collector ≡ ok gc
        → gc.lock_for_gc_run ≡ l
        → Marked (from_lock window gc l)
        → Completes collectable window
    lock-Completes gc (err e) a b q h = ground arith
    lock-Completes gc (ok false) a b q h = ground arith
    lock-Completes gc (ok true) a b q h =
        now-Completes gc gc.now a b q refl (ground (arith, lock-Marked window gc (ok true)))

    built-Completes :
        (b : Result E (GarbageCollector Rev E))
        → collectable.ready_state ≡ ok true
        → collectable.build_garbage_collector ≡ b
        → Marked (from_built window b)
        → Completes collectable window
    built-Completes (err e) a q h = ground arith
    built-Completes (ok gc) a q h =
        lock-Completes gc gc.lock_for_gc_run a q refl (ground (arith, built-Marked window gc))

    ready-Completes :
        (r : Result E Bool)
        → collectable.ready_state ≡ r
        → Marked (from_ready window collectable r)
        → Completes collectable window
    ready-Completes (err e) q h = ground arith
    ready-Completes (ok false) q h = ground arith
    ready-Completes (ok true) q h = built-Completes collectable.build_garbage_collector q refl h

    answered-Marked :
        (gc : GarbageCollector Rev E) (now : ℤ) (watermark : Rev)
        → IsAnswered collectable window gc now watermark
        → Marked (from_lock window gc gc.lock_for_gc_run)
    answered-Marked gc now watermark h = ground (
      arith,
      h.lock,
      h.time,
      h.transaction,
      h.deleted,
      h.expired,
      lock-Marked window gc (ok true),
    )

    -- A run marks itself completed exactly where the datastore is ready, gives a collector that gets
    -- the lock, tells the time and the transaction of the window's beginning, and both deletions end
    -- without an error; not where another node holds the lock, and not where either deletion fails.
    pub run_garbage_collection-is_marked :
        (any is_marked (run_garbage_collection collectable window).1 ≡ true)
        ↔ Completes collectable window
    unfolding run_garbage_collection
    run_garbage_collection-is_marked = (
      λ h. ready-Completes collectable.ready_state refl h,
      λ (gc, now, watermark, h).
          ground (
            arith,
            h.ready,
            h.collector,
            built-Marked window gc,
            answered-Marked gc now watermark h,
          ),
    )
