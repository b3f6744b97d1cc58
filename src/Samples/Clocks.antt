-- ===== src/Samples/Clocks.antt =====
-- Revisions, cached and remote ones.
use embedspicedb.Common.{
  Option, none, ℕ, ◌+◌, ◌%◌, ◌≤◌, ◌≡◌, ◌↔◌, ◌⊎◌, refl, [], ◌∷◌, true, some, arith,
}
use embedspicedb.Common.Int.{ℤ, pos, ◌-ℤ◌, ◌≤ℤ◌, ◌<ℤ◌, IsInt64}
use embedspicedb.Common.Str.{Str, bytes}
use embedspicedb.Common.Result.{Result, ok, err}
use embedspicedb.Revisions.{HlcRevision, timestamp, hlc}
use embedspicedb.Revisions.Hlc.{less_than, with_logical_clock}
use embedspicedb.Revisions.Hlc.Order.{wrapped_clock_less}
use embedspicedb.Revisions.Decoder.{
  revision_from_string, text_of, kind_of, revision_from_string-text_of,
}
use embedspicedb.Revisions.Optimized.{CachedOptimizedRevisions, optimized_revision, find_candidate}
use embedspicedb.Revisions.Optimized.Bounds.{Holds, optimized_revision_staleness}
use embedspicedb.Revisions.RemoteClock.{
  RemoteClockRevisions, revision_stale, could_not_determine_revision, check_revision,
  optimized_revision_func, construct_for_timestamp,
}
use embedspicedb.Revisions.RemoteClock.Window.{
  optimized_revision_func_quantum, check_revision_window,
}

abbrev clock : HlcRevision
clock = record { time = pos 1700; logicalclock = 105 }

revision_from_string-text_of_example :
    revision_from_string 100
      (record { kind = kind_of 100 (hlc clock); datastore_unique_id = bytes "d" })
      (text_of 100 (hlc clock))
    ≡ ok (hlc clock)
revision_from_string-text_of_example =
    revision_from_string-text_of 100 (bytes "d") (hlc clock)
      (record { below = omega arith; above = omega arith }, omega arith, omega arith)

abbrev earlier : HlcRevision
earlier = record { time = pos 1700; logicalclock = 103 }

abbrev later : HlcRevision
later = record { time = pos 1800; logicalclock = 100 }

abbrev low_clock : HlcRevision
low_clock = record { time = pos 1700; logicalclock = 4294967295 }

abbrev wrapped_clock : HlcRevision
wrapped_clock = record { time = pos 1700; logicalclock = 0 }

low_run : with_logical_clock 100 (pos 1700) (some 4294967195) ≡ ok low_clock
unfolding with_logical_clock
low_run = refl

wrapped_run : with_logical_clock 100 (pos 1700) (some 4294967196) ≡ ok wrapped_clock
unfolding with_logical_clock
wrapped_run = refl

wrapped_clock_less_example : less_than wrapped_clock (hlc low_clock) ≡ some true
wrapped_clock_less_example =
    wrapped_clock_less 100 4294967195 4294967196 (pos 1700) low_clock wrapped_clock (omega arith)
      (omega arith) (omega arith) (omega arith) (omega arith) low_run wrapped_run

abbrev cache : CachedOptimizedRevisions ℕ
cache = record {
  max_revision_staleness = 10;
  candidates = record { revision = 3; valid_through = pos 95 } ∷ [];
}

cache_run : optimized_revision {E = Str} cache (pos 100) 7 none (ok (4, pos 20)) ≡ (ok 3, cache)
unfolding optimized_revision find_candidate ◌-ℤ◌
cache_run = refl

optimized_revision_staleness_example :
    (Holds 3 (pos 100 -ℤ pos 10) cache.candidates × (cache ≡ cache))
    ⊎ (((Path (Option (Result Str ℕ)) none (some (ok 3))) × (cache ≡ cache))
        ⊎ ((v : ℤ) × (Path (Option (Result Str ℕ)) none none)
            × (Path (Result Str (ℕ × ℤ)) (ok (4, pos 20)) (ok (3, v)))
            × (pos 0 <ℤ v → Holds 3 (pos 100) cache.candidates)
            × ((q : ℕ)
                → Holds q (pos 100 -ℤ pos 10) cache.candidates
                → Holds q (pos 100 -ℤ pos 10) cache.candidates)))
optimized_revision_staleness_example =
    optimized_revision_staleness cache cache (pos 100) 7 none (ok (4, pos 20)) 3 (λ h. omega arith)
      cache_run

abbrev remote : RemoteClockRevisions
remote = record {
  max_revision_staleness = pos 5;
  gc_window_nanos = pos 60;
  follower_read_delay_nanos = pos 5;
  quantization_nanos = 10;
}

difference : pos 128 -ℤ pos 5 ≡ pos 123
unfolding ◌-ℤ◌
difference = refl

optimized_revision_func_quantum_example :
    (n v : ℕ) × (optimized_revision_func 100 {E = Str} remote (ok (timestamp (pos 128)))
      ≡ ok (construct_for_timestamp 100 (timestamp (pos 128)) (pos n), pos v))
    × (n % 10 ≡ 0)
    × (n ≤ 123)
    × (123 + v ≡ n + 10)
optimized_revision_func_quantum_example =
    optimized_revision_func_quantum 100 remote (timestamp (pos 128)) (pos 128) 123 refl difference
      (omega arith) (omega arith) (omega arith)

start_fits : IsInt64 (pos 128 -ℤ pos 60)
unfolding ◌-ℤ◌
start_fits = record { below = omega arith; above = omega arith }

check_revision_window_example :
    let result = check_revision {E = Str} remote (timestamp (pos 90)) (ok (timestamp (pos 128))) in
    ((result ≡ some (ok tt)) ↔ ((pos 128 -ℤ pos 60 ≤ℤ pos 90) × (pos 90 ≤ℤ pos 128)))
    × ((result ≡ some (err revision_stale)) ↔ (pos 90 <ℤ pos 128 -ℤ pos 60))
    × ((result ≡ some (err could_not_determine_revision))
        ↔ ((pos 128 -ℤ pos 60 ≤ℤ pos 90) × (pos 128 <ℤ pos 90)))
check_revision_window_example =
    check_revision_window remote (timestamp (pos 90)) (timestamp (pos 128)) (pos 90) (pos 128) refl
      refl start_fits
