-- ===== src/Gc/Waits.antt =====
-- How long the worker waits before a task.
use embedspicedb.Common.{ℕ, zero, suc, ◌≡◌, refl, Bool, true, false, List, [], ◌∷◌}
use embedspicedb.Common.Int.{ℤ}
use embedspicedb.Gc.{Backoff, Worker, turn, run_on_interval_with_backoff}

module _ {B : Type 0} (backoff : Backoff B) (interval : ℤ) where
  -- So many failures in a row.
  abbrev pub failing : ℕ → List Bool
  failing zero = []
  failing (suc n) = true ∷ failing n

  -- The interval that the backoff gives at a call, after the calls before it.
  abbrev pub back_off : ℕ → B → ℤ
  back_off zero b = (backoff.next_back_off b).0
  back_off (suc n) b = back_off n (backoff.next_back_off b).1

  -- The wait after so many failures that follow a success.
  abbrev pub wait_after : ℕ → B → ℤ
  wait_after zero b = interval
  wait_after (suc n) b = back_off n b

  run_failing :
      (n : ℕ) (w : Worker B)
      → (run_on_interval_with_backoff backoff interval (failing (suc n)) w).next_interval
        ≡ back_off n w.backoff_interval
  unfolding run_on_interval_with_backoff turn
  run_failing zero w = refl
  run_failing (suc n) w = run_failing n (turn backoff interval true w)

  -- After a task that succeeds, whatever ran before it, the worker waits its interval; and after so
  -- many failures in a row that follow, it waits the interval that the backoff gives at that many
  -- calls from its reset.
  pub run_on_interval_with_backoff_after_success :
      (w : Worker B) (n : ℕ)
      → (run_on_interval_with_backoff backoff interval (false ∷ failing n) w).next_interval
        ≡ wait_after n (backoff.reset w.backoff_interval)
  unfolding run_on_interval_with_backoff turn
  run_on_interval_with_backoff_after_success w zero = refl
  run_on_interval_with_backoff_after_success w (suc n) =
      run_failing n (turn backoff interval false w)
