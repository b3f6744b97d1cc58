-- ===== src/Revisions/RemoteClock.antt =====
-- remoteclock.go: revisions of a datastore with a clock of its own, quantized, and checked against
-- the window of the garbage collector. Durations are nanoseconds in int64, with its wrap-around. The
-- function that asks for the remote time is an argument, as its result.
pub mod Window
use embedspicedb.Common.{ℕ, ◌-◌, Bool, Option, none, some, ltb, if◌then◌else◌}
use embedspicedb.Common.Int.{ℤ, pos, ◌-ℤ◌, ltb_ℤ, wrap64, rem_ℤ}
use embedspicedb.Common.Result.{Result, ok, err}
use embedspicedb.Revisions.{Revision, no_revision, timestamp, transaction_id, hlc, HlcRevision}

-- The reasons of `datastore.NewInvalidRevisionErr`, the failed type test, and the error of the clock.
pub data ClockError (E : Type 0) : Type 0 where
  revision_stale could_not_determine_revision not_with_timestamp : ClockError E
  now_failed : E → ClockError E

pub record RemoteClockRevisions : Type 0 where
  pub max_revision_staleness : ℤ
  pub gc_window_nanos : ℤ
  pub follower_read_delay_nanos : ℤ
  pub quantization_nanos : ℕ

unfoldable pub new_remote_clock_revisions : ℤ → ℤ → ℤ → ℕ → RemoteClockRevisions
new_remote_clock_revisions gc_window max_revision_staleness follower_read_delay quantization =
    record {
      max_revision_staleness =
          if ltb_ℤ gc_window max_revision_staleness
          then wrap64 (gc_window -ℤ pos 1)
          else max_revision_staleness;
      gc_window_nanos = gc_window;
      follower_read_delay_nanos = follower_read_delay;
      quantization_nanos = quantization;
    }

-- The type test for `WithTimestampRevision` and `TimestampNanoSec`
abbrev pub timestamp_nano_sec : Revision → Option ℤ
timestamp_nano_sec (timestamp t) = some t
timestamp_nano_sec (hlc h) = some h.time
timestamp_nano_sec _ = none

module _ (logical_clock_offset : ℕ) where
  -- `ConstructForTimestamp`, of the dynamic type of the receiver
  abbrev pub construct_for_timestamp : Revision → ℤ → Revision
  construct_for_timestamp (hlc h) t = hlc (record { time = t; logicalclock = logical_clock_offset })
  construct_for_timestamp r t = timestamp t

  abbrev pub quantized : RemoteClockRevisions → ℤ → ℤ × ℤ
  quantized rcr delayed_now =
      if ltb 0 rcr.quantization_nanos
      then (let after_last = rem_ℤ delayed_now rcr.quantization_nanos in
          (wrap64 (delayed_now -ℤ after_last), wrap64 (pos rcr.quantization_nanos -ℤ after_last)))
      else (delayed_now, pos 0)

  abbrev pub optimize : RemoteClockRevisions → Revision → ℤ → Revision × ℤ
  optimize rcr now_rev now_ts =
      let (q, valid_for) = quantized rcr (wrap64 (now_ts -ℤ rcr.follower_read_delay_nanos)) in
      (construct_for_timestamp now_rev q, valid_for)

  abbrev pub optimize_now :
      {E : Type 0} → RemoteClockRevisions → Revision → Result (ClockError E) (Revision × ℤ)
  optimize_now rcr no_revision = err could_not_determine_revision
  optimize_now rcr (transaction_id t) = err not_with_timestamp
  optimize_now rcr (timestamp t) = ok (optimize rcr (timestamp t) t)
  optimize_now rcr (hlc h) = ok (optimize rcr (hlc h) h.time)

  unfoldable pub optimized_revision_func :
      {E : Type 0} → RemoteClockRevisions → Result E Revision → Result (ClockError E) (Revision × ℤ)
  optimized_revision_func rcr (err e) = err (now_failed e)
  optimized_revision_func rcr (ok now_rev) = optimize_now rcr now_rev

abbrev pub check_window :
    {E : Type 0} → RemoteClockRevisions → ℤ → ℤ → Result (ClockError E) (Unit {0})
check_window rcr revision_nanos now_nanos =
    if ltb_ℤ revision_nanos (wrap64 (now_nanos -ℤ rcr.gc_window_nanos))
    then err revision_stale
    else if ltb_ℤ now_nanos revision_nanos
    then err could_not_determine_revision
    else ok tt

-- `none` is the panic of the type assertion on the revision that is checked.
unfoldable pub check_revision :
    {E : Type 0}
    → RemoteClockRevisions
    → Revision
    → Result E Revision
    → Option (Result (ClockError E) (Unit {0}))
check_revision rcr no_revision now = some (err could_not_determine_revision)
check_revision rcr (transaction_id t) now = none
check_revision rcr rev (err e) = some (err (now_failed e))
check_revision rcr rev (ok now) = elim (timestamp_nano_sec rev) [
  | none ↦ none
  | some revision_nanos ↦ elim (timestamp_nano_sec now) [
    | none ↦ some (err not_with_timestamp)
    | some now_nanos ↦ some (check_window rcr revision_nanos now_nanos)
  ]
]
