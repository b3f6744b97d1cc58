-- ===== src/Gc/Runs.antt =====
-- What a run of the garbage collection does, whatever the datastore answers.
use embedspicedb.Common.{
  ◌≡◌, ◌⊎◌, refl, arith, Bool, true, false, Option, none, some, List, [], ◌∷◌, ◌++◌, any, ◌||◌,
  Option-cases, inl, inr,
}
use embedspicedb.Common.Int.{ℤ, ◌-ℤ◌, wrap64}
use embedspicedb.Common.Result.{Result, ok, err}
use embedspicedb.Gc.{
  GarbageCollector, GarbageCollectableDatastore, GcEvent, built, closed, locked, unlocked,
  unlock_failed, marked_completed, deleted_expired, deleted_before, counted, Outcome, finish,
  from_watermark, from_now, from_built, from_ready, unlock_event, run_garbage_collection,
}

-- The datastore as others see it: no collector, a collector, a collector that holds the lock, no
-- collector but the lock of one that was closed.
pub data Phase : Type 0 where
  idle collecting holding left_locked : Phase

module _ {Rev : Type 0} where
  -- The events that a phase allows.
  abbrev pub allowed : GcEvent Rev → Phase → Option Phase
  allowed built idle = some collecting
  allowed closed collecting = some idle
  allowed closed holding = some left_locked
  allowed locked collecting = some holding
  allowed unlocked holding = some collecting
  allowed unlock_failed holding = some holding
  allowed marked_completed holding = some holding
  allowed deleted_expired holding = some holding
  allowed (deleted_before r) holding = some holding
  allowed (counted c n) holding = some holding
  allowed _ _ = none

  abbrev pub phase_after : List (GcEvent Rev) → Phase → Option Phase
  phase_after [] phase = some phase
  phase_after (e ∷ es) phase = elim (allowed e phase) [
    | none ↦ none
    | some next ↦ phase_after es next
  ]

  abbrev pub is_marked : GcEvent Rev → Bool
  is_marked marked_completed = true
  is_marked _ = false

  phase_after-append :
      (es fs : List (GcEvent Rev)) (phase next : Phase)
      → phase_after es phase ≡ some next
      → phase_after (es ++ fs) phase ≡ phase_after fs next
  phase_after-append [] fs phase next h = ground arith
  phase_after-append (e ∷ es) fs phase next h = elim (Option-cases (allowed e phase)) [
    | inl refused ↦ ground (arith, h, refused)
    | inr (p, e1) ↦ ground (arith, h, e1, phase_after-append es fs p next)
  ]

  pub any-append :
      (q : GcEvent Rev → Bool) (es fs : List (GcEvent Rev))
      → any q (es ++ fs) ≡ (any q es || any q fs)
  any-append q [] fs = ground arith
  any-append q (e ∷ es) fs = ground (arith, any-append q es fs)

module _ {Rev E : Type 0} where
  abbrev Stays : Phase → Outcome Rev E → Type 0
  Stays phase (result, events) = phase_after events phase ≡ some phase

  finish-phase : (w : Rev) (c d : Option E) → Stays holding (finish {Rev = Rev} c d)
  finish-phase w (some e) d = refl
  finish-phase w none (some e) = refl
  finish-phase w none none = refl

  watermark-phase :
      (gc : GarbageCollector Rev E) (w : Result E Rev) → Stays holding (from_watermark gc w)
  watermark-phase gc (err e) = refl
  watermark-phase gc (ok w) = finish-phase w (gc.delete_before_tx w).1 gc.delete_expired_rels.1

  now-phase :
      (window : ℤ) (gc : GarbageCollector Rev E) (n : Result E ℤ)
      → Stays holding (from_now window gc n)
  now-phase window gc (err e) = refl
  now-phase window gc (ok n) = watermark-phase gc (gc.tx_id_before (wrap64 (n -ℤ window)))

  -- No collector is open, and no lock is held but one that the collector failed to unlock.
  abbrev pub LeftBehind : GarbageCollectableDatastore Rev E → Outcome Rev E → Type 0
  LeftBehind collectable o =
      (phase_after o.1 idle ≡ some idle)
      ⊎ ((phase_after o.1 idle ≡ some left_locked)
          × ((gc : GarbageCollector Rev E) × (e : E) × (collectable.build_garbage_collector ≡ ok gc)
              × (gc.unlock_after_gc_run ≡ some e)))

  locked_run-phase :
      (window : ℤ) (gc : GarbageCollector Rev E) (u : Option E) (next last : Phase)
      → allowed (unlock_event {Rev = Rev} u) holding ≡ some next
      → allowed {Rev = Rev} closed next ≡ some last
      → phase_after
          (built ∷ (locked ∷ (from_now window gc gc.now).1 ++ unlock_event u ∷ []) ++ closed ∷ [])
          idle
        ≡ some last
  locked_run-phase window gc u next last h k = ground (
    arith,
    h,
    k,
    phase_after-append ((from_now window gc gc.now).1 ++ unlock_event u ∷ []) (closed ∷ []) holding
        next,
    phase_after-append (from_now window gc gc.now).1 (unlock_event u ∷ []) holding holding,
    now-phase window gc gc.now,
  )

  lock-LeftBehind :
      (collectable : GarbageCollectableDatastore Rev E) (window : ℤ) (gc : GarbageCollector Rev E)
      (l : Result E Bool)
      → collectable.build_garbage_collector ≡ ok gc
      → gc.lock_for_gc_run ≡ l
      → LeftBehind collectable (from_built window (ok gc))
  lock-LeftBehind collectable window gc (err e) h k = inl (ground arith)
  lock-LeftBehind collectable window gc (ok false) h k = inl (ground arith)
  lock-LeftBehind collectable window gc (ok true) h k = elim (Option-cases gc.unlock_after_gc_run) [
    | inl free ↦
        inl (ground (arith, locked_run-phase window gc gc.unlock_after_gc_run collecting idle))
    | inr (e, failed) ↦ inr (
      ground (arith, locked_run-phase window gc gc.unlock_after_gc_run holding left_locked),
      (gc, e, h, failed),
    )
  ]

  ready-LeftBehind :
      (window : ℤ) (collectable : GarbageCollectableDatastore Rev E) (r : Result E Bool)
      → LeftBehind collectable (from_ready window collectable r)
  ready-LeftBehind window collectable (err e) = inl refl
  ready-LeftBehind window collectable (ok false) = inl refl
  ready-LeftBehind window collectable (ok true) = go collectable.build_garbage_collector refl
    where
      go :
          (b : Result E (GarbageCollector Rev E))
          → collectable.build_garbage_collector ≡ b
          → LeftBehind collectable (from_built window b)
      go (err e) q = inl refl
      go (ok gc) q = lock-LeftBehind collectable window gc gc.lock_for_gc_run q refl

  -- Whatever the datastore and its collector answer, a run of the garbage collection deletes, counts
  -- and marks itself completed only while it holds the lock of a collector, and leaves no collector
  -- open and no lock held, except that the lock stays held where the collector fails to unlock it.
  pub run_garbage_collection-phase_after :
      (collectable : GarbageCollectableDatastore Rev E) (window : ℤ)
      → LeftBehind collectable (run_garbage_collection collectable window)
  unfolding run_garbage_collection
  run_garbage_collection-phase_after collectable window =
      ready-LeftBehind window collectable collectable.ready_state
