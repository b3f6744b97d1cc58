-- ===== src/Revisions/RemoteClock/Window.antt =====
-- What the quantization and the window guarantee.
use embedspicedb.Common.{ℕ, ◌+◌, ◌-◌, ◌%◌, ◌≤◌, ◌<◌, ◌≡◌, ◌↔◌, ap, ◌∙◌, some, arith}
use embedspicedb.Common.Int.{
  ℤ, pos, neg_part, ◌-ℤ◌, ◌≤ℤ◌, ◌<ℤ◌, wrap64, rem_ℤ, IsInt64, wrap64-IsInt64,
}
use embedspicedb.Common.Result.{ok, err}
use embedspicedb.Revisions.{Revision, no_revision, timestamp, transaction_id, hlc}
use embedspicedb.Revisions.RemoteClock.{
  RemoteClockRevisions, revision_stale, could_not_determine_revision, check_window,
  timestamp_nano_sec, quantized, check_revision, optimized_revision_func, construct_for_timestamp,
  new_remote_clock_revisions,
}

mod-sub-mod : (t q : ℕ) → 0 < q → (t - t % q) % q ≡ 0
mod-sub-mod t q h = grind arith

quantized_pos :
    (rcr : RemoteClockRevisions) (t : ℕ)
    → t < 9223372036854775808
    → 0 < rcr.quantization_nanos
    → rcr.quantization_nanos < 9223372036854775808
    → quantized 0 rcr (wrap64 (pos t)) ≡ (
      pos (t - t % rcr.quantization_nanos),
      pos (rcr.quantization_nanos - t % rcr.quantization_nanos),
    )
unfolding wrap64 rem_ℤ ◌-ℤ◌
quantized_pos rcr t b p c = ground arith

optimized_revision_func_pos :
    (offset : ℕ) (rcr : RemoteClockRevisions) {E : Type 0} (now_rev : Revision) (now_ts : ℤ) (t : ℕ)
    → timestamp_nano_sec now_rev ≡ some now_ts
    → now_ts -ℤ rcr.follower_read_delay_nanos ≡ pos t
    → optimized_revision_func offset {E = E} rcr (ok now_rev) ≡ (
        let (n, v) = quantized offset rcr (wrap64 (pos t)) in
        ok (construct_for_timestamp offset now_rev n, v))
unfolding optimized_revision_func
optimized_revision_func_pos offset rcr no_revision now_ts t i d = cc
optimized_revision_func_pos offset rcr (transaction_id x) now_ts t i d = cc
optimized_revision_func_pos offset rcr (timestamp x) now_ts t i d = cc
optimized_revision_func_pos offset rcr (hlc x) now_ts t i d = cc

-- With a non-negative delayed time t and a positive quantum q, the answer n is the last multiple of q
-- that is not after t, and the validity v reaches exactly to the next multiple.
pub optimized_revision_func_quantum :
    (offset : ℕ) (rcr : RemoteClockRevisions) {E : Type 0} (now_rev : Revision) (now_ts : ℤ) (t : ℕ)
    → timestamp_nano_sec now_rev ≡ some now_ts
    → now_ts -ℤ rcr.follower_read_delay_nanos ≡ pos t
    → t < 9223372036854775808
    → 0 < rcr.quantization_nanos
    → rcr.quantization_nanos < 9223372036854775808
    → (n v : ℕ) × (optimized_revision_func offset {E = E} rcr (ok now_rev)
        ≡ ok (construct_for_timestamp offset now_rev (pos n), pos v))
      × (n % rcr.quantization_nanos ≡ 0)
      × (n ≤ t)
      × (t + v ≡ n + rcr.quantization_nanos)
optimized_revision_func_quantum offset rcr {E} now_rev now_ts t i d b p c =
    let q = rcr.quantization_nanos in
    (
      t - t % q,
      q - t % q,
      optimized_revision_func_pos offset rcr now_rev now_ts t i d
          ∙ ap (λ (x : ℤ × ℤ). ok (construct_for_timestamp offset now_rev x.0, x.1))
              (quantized_pos rcr t b p c),
      mod-sub-mod t q p,
      omega arith,
      grind arith,
    )

check_revision-eq-check_window :
    {E : Type 0} (rcr : RemoteClockRevisions) (rev now : Revision) (r n : ℤ)
    → timestamp_nano_sec rev ≡ some r
    → timestamp_nano_sec now ≡ some n
    → check_revision {E = E} rcr rev (ok now) ≡ some (check_window rcr r n)
unfolding check_revision
check_revision-eq-check_window rcr no_revision now r n i j = cc
check_revision-eq-check_window rcr (transaction_id x) now r n i j = cc
check_revision-eq-check_window rcr (timestamp x) now r n i j = ground arith
check_revision-eq-check_window rcr (hlc x) now r n i j = ground arith

-- Where the start of the window is an int64, a revision with a timestamp passes the check exactly
-- when it lies in the window, is stale exactly when it lies before it, and cannot be determined
-- exactly when it lies after the remote time and not before the window.
pub check_revision_window :
    {E : Type 0} (rcr : RemoteClockRevisions) (rev now : Revision) (r n : ℤ)
    → timestamp_nano_sec rev ≡ some r
    → timestamp_nano_sec now ≡ some n
    → IsInt64 (n -ℤ rcr.gc_window_nanos)
    → let start = n -ℤ rcr.gc_window_nanos in
      let result = check_revision {E = E} rcr rev (ok now) in
      ((result ≡ some (ok tt)) ↔ ((start ≤ℤ r) × (r ≤ℤ n)))
      × ((result ≡ some (err revision_stale)) ↔ (r <ℤ start))
      × ((result ≡ some (err could_not_determine_revision)) ↔ ((start ≤ℤ r) × (n <ℤ r)))
check_revision_window rcr rev now r n i j w =
    rw (check_revision-eq-check_window rcr rev now r n i j)
      (rw (wrap64-IsInt64 (n -ℤ rcr.gc_window_nanos) w) (ground arith))

-- The staleness of a new value never passes the window of the collector, if that is an int64 above
-- the least one.
pub new_remote_clock_revisions_capped :
    (gc_window staleness delay : ℤ) (q : ℕ)
    → IsInt64 gc_window
    → neg_part gc_window < 9223372036854775808
    → (new_remote_clock_revisions gc_window staleness delay q).max_revision_staleness ≤ℤ gc_window
unfolding new_remote_clock_revisions wrap64 ◌-ℤ◌
new_remote_clock_revisions_capped gc_window staleness delay q i h = ground arith
