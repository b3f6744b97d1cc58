-- ===== src/Gc.antt =====
-- internal/datastore/common/gc.go: a run of the garbage collection and the worker that repeats it. The
-- datastore and its collector are interfaces: what their methods give is an argument. A run gives its
-- error and the events that others see, in their order; deferred calls come last.
pub mod Runs
pub mod Completed
pub mod Waits
use embedspicedb.Common.{
  ℕ, zero, suc, ◌+◌, Bool, true, false, Option, none, some, List, [], ◌∷◌, ◌++◌, if◌then◌else◌,
}
use embedspicedb.Common.Int.{ℤ, pos, ◌+ℤ◌, ◌-ℤ◌, wrap64}
use embedspicedb.Common.Result.{Result, ok, err}

pub record DeletionCounts : Type 0 where
  pub relationships : ℤ
  pub transactions : ℤ
  pub namespaces : ℤ

-- GarbageCollector; a time is nanoseconds.
pub record GarbageCollector (Rev E : Type 0) : Type 0 where
  pub lock_for_gc_run : Result E Bool
  pub unlock_after_gc_run : Option E
  pub now : Result E ℤ
  pub tx_id_before : ℤ → Result E Rev
  pub delete_before_tx : Rev → DeletionCounts × Option E
  pub delete_expired_rels : ℤ × Option E

-- GarbageCollectableDatastore, as far as a run asks it: whether it is ready, and a collector.
pub record GarbageCollectableDatastore (Rev E : Type 0) : Type 0 where
  pub ready_state : Result E Bool
  pub build_garbage_collector : Result E (GarbageCollector Rev E)

pub data GcError (E : Type 0) : Type 0 where
  ready_error build_error lock_error now_error watermark_error : E → GcError E
  deleting_error deleting_expired_error : E → GcError E

-- `counted` is the addition to the metrics, `unlock_failed` the logged error of the unlocking.
pub data GcEvent (Rev : Type 0) : Type 0 where
  built closed locked unlocked unlock_failed marked_completed deleted_expired : GcEvent Rev
  deleted_before : Rev → GcEvent Rev
  counted : DeletionCounts → ℤ → GcEvent Rev

abbrev pub Outcome : Type 0 → Type 0 → Type 0
Outcome Rev E = Option (GcError E) × List (GcEvent Rev)

module _ {Rev E : Type 0} where
  -- The errors of the two deletions, in the order in which they are looked at.
  abbrev pub finish : Option E → Option E → Outcome Rev E
  finish (some e) expired = (some (deleting_error e), [])
  finish none (some e) = (some (deleting_expired_error e), [])
  finish none none = (none, marked_completed ∷ [])

  abbrev pub delete_garbage : GarbageCollector Rev E → Rev → Outcome Rev E
  delete_garbage gc watermark =
      let (collected, e) = gc.delete_before_tx watermark in
      let (count, expired) = gc.delete_expired_rels in
      let (result, events) = finish e expired in
      (result, deleted_before watermark ∷ deleted_expired ∷ counted collected count ∷ events)

  -- What a run does while it holds the lock.
  abbrev pub from_watermark : GarbageCollector Rev E → Result E Rev → Outcome Rev E
  from_watermark gc (err e) = (some (watermark_error e), [])
  from_watermark gc (ok watermark) = delete_garbage gc watermark

  abbrev pub from_now : ℤ → GarbageCollector Rev E → Result E ℤ → Outcome Rev E
  from_now window gc (err e) = (some (now_error e), [])
  from_now window gc (ok now) = from_watermark gc (gc.tx_id_before (wrap64 (now -ℤ window)))

  -- The deferred unlocking, whose error is logged and not returned.
  abbrev pub unlock_event : Option E → GcEvent Rev
  unlock_event none = unlocked
  unlock_event (some e) = unlock_failed

  abbrev pub from_lock : ℤ → GarbageCollector Rev E → Result E Bool → Outcome Rev E
  from_lock window gc (err e) = (some (lock_error e), [])
  from_lock window gc (ok false) = (none, [])
  from_lock window gc (ok true) =
      let (result, events) = from_now window gc gc.now in
      (result, locked ∷ events ++ unlock_event gc.unlock_after_gc_run ∷ [])

  abbrev pub from_built : ℤ → Result E (GarbageCollector Rev E) → Outcome Rev E
  from_built window (err e) = (some (build_error e), [])
  from_built window (ok gc) =
      let (result, events) = from_lock window gc gc.lock_for_gc_run in
      (result, built ∷ events ++ closed ∷ [])

  abbrev pub from_ready : ℤ → GarbageCollectableDatastore Rev E → Result E Bool → Outcome Rev E
  from_ready window collectable (err e) = (some (ready_error e), [])
  from_ready window collectable (ok false) = (none, [])
  from_ready window collectable (ok true) = from_built window collectable.build_garbage_collector

  unfoldable pub run_garbage_collection : GarbageCollectableDatastore Rev E → ℤ → Outcome Rev E
  run_garbage_collection collectable window = from_ready window collectable collectable.ready_state

-- The exponential backoff, which comes from another package: its state once its intervals are set,
-- with the random source that it draws from.
pub record Backoff (B : Type 0) : Type 0 where
  pub reset : B → B
  pub next_back_off : B → ℤ × B

pub record Worker (B : Type 0) : Type 0 where
  pub backoff_interval : B
  pub next_interval : ℤ
  pub failures : ℕ

module _ {B : Type 0} (backoff : Backoff B) (interval : ℤ) where
  unfoldable pub start_worker : B → Worker B
  start_worker b = record {
    backoff_interval = backoff.reset b;
    next_interval = interval;
    failures = 0;
  }

  -- One turn of the loop, after the wait: whether the task gave an error.
  unfoldable pub turn : Bool → Worker B → Worker B
  turn failed w =
      if failed
      then (let (next, b) = backoff.next_back_off w.backoff_interval in
          record { backoff_interval = b; next_interval = next; failures = suc w.failures })
      else record w {
        backoff_interval = backoff.reset w.backoff_interval;
        next_interval = interval;
      }

  -- runOnIntervalWithBackoff until the context is done: the outcomes of the tasks, in their order.
  unfoldable pub run_on_interval_with_backoff : List Bool → Worker B → Worker B
  run_on_interval_with_backoff [] w = w
  run_on_interval_with_backoff (failed ∷ rest) w = run_on_interval_with_backoff rest (turn failed w)
