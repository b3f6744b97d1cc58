-- ===== src/Server/Lifecycle/Dial.antt =====
-- How often the dial tries, how long it waits, and when it gives a connection.
use embedspicedb.Common.{
  ℕ, zero, suc, ◌+◌, ◌≤◌, ◌≡◌, refl, arith, Bool, ap, some, Option, none, List, [], ◌∷◌, length,
}
use embedspicedb.Common.Result.{Result, ok, err}
use embedspicedb.Server.Lifecycle.{
  Waited, caller_done, server_done, time_passed, next_backoff, Dialled, after_try, error_of,
  dial_from, dial_with_retry, waiting, LifecycleError, caller_cancelled, server_cancelled,
  retries_failed,
}

abbrev pub sum : List ℕ → ℕ
sum [] = 0
sum (x ∷ xs) = x + sum xs

-- The longest that so many waits can be, from a backoff on.
abbrev longest : ℕ → ℕ → ℕ
longest zero backoff = 0
longest (suc n) backoff = backoff + longest n (next_backoff backoff)

module _ {Conn E : Type 0} where
  after_try-waits :
      (x : Result E Conn) (w : Waited) (n backoff rest_sum : ℕ) (rest : Dialled Conn E)
      → length rest.1 ≤ n
      → sum rest.1 ≤ rest_sum
      → (length (after_try x w backoff rest).1 ≤ suc n)
        × (sum (after_try x w backoff rest).1 ≤ backoff + rest_sum)
  after_try-waits (ok conn) w n backoff rest_sum rest h k = (omega arith, omega arith)
  after_try-waits (err e) caller_done n backoff rest_sum rest h k = (omega arith, omega arith)
  after_try-waits (err e) server_done n backoff rest_sum rest h k = (omega arith, omega arith)
  after_try-waits (err e) time_passed n backoff rest_sum rest h k = (omega arith, omega arith)

  dial_from-waits :
      (retries i backoff : ℕ) (last_err : Option E) (attempts : ℕ → Result E Conn × Waited)
      → (length (dial_from retries i backoff last_err attempts).1 ≤ retries)
        × (sum (dial_from retries i backoff last_err attempts).1 ≤ longest retries backoff)
  dial_from-waits zero i backoff last_err attempts = (omega arith, omega arith)
  dial_from-waits (suc n) i backoff last_err attempts =
      let rest = dial_from n (suc i) (next_backoff backoff) (error_of (attempts i).0) attempts in
      let (h, k) =
        dial_from-waits n (suc i) (next_backoff backoff) (error_of (attempts i).0) attempts in
      after_try-waits (attempts i).0 (attempts i).1 n backoff (longest n (next_backoff backoff))
        rest h k

  -- How a dial of so many attempts from the i-th on ends: with the connection of the first attempt
  -- that gives one, with the error of the context that ends a wait first, or, where every attempt
  -- failed, with the error of the last one.
  pub data Ends (attempts : ℕ → Result E Conn × Waited)
      : ℕ → ℕ → Option E → Result (LifecycleError E) Conn → Type 0 where
    connected :
        (n i : ℕ) (last : Option E) (conn : Conn)
        → (attempts i).0 ≡ ok conn
        → Ends attempts (suc n) i last (ok conn)
    caller_ended :
        (n i : ℕ) (last : Option E) (e : E)
        → attempts i ≡ (err e, caller_done)
        → Ends attempts (suc n) i last (err caller_cancelled)
    server_ended :
        (n i : ℕ) (last : Option E) (e : E)
        → attempts i ≡ (err e, server_done)
        → Ends attempts (suc n) i last (err server_cancelled)
    goes_on :
        (n i : ℕ) (last : Option E) (e : E) (r : Result (LifecycleError E) Conn)
        → attempts i ≡ (err e, time_passed)
        → Ends attempts n (suc i) (some e) r
        → Ends attempts (suc n) i last r
    all_failed : (i : ℕ) (last : Option E) → Ends attempts zero i last (err (retries_failed last))

  dial_from-Ends :
      (n i backoff : ℕ) (last : Option E) (attempts : ℕ → Result E Conn × Waited)
      → Ends attempts n i last (dial_from n i backoff last attempts).0
  dial_from-Ends zero i backoff last attempts = all_failed i last
  dial_from-Ends (suc n) i backoff last attempts =
      go (attempts i) refl (λ e. dial_from-Ends n (suc i) (next_backoff backoff) (some e) attempts)
    where
      go :
          (x : Result E Conn × Waited)
          → attempts i ≡ x
          → ((e : E)
              → Ends attempts n
                  (suc i)
                  (some e)
                  (dial_from n (suc i) (next_backoff backoff) (some e) attempts).0)
          → Ends attempts (suc n) i last (dial_from (suc n) i backoff last attempts).0
      go (ok conn, w) q ih = rw q (connected n i last conn (ap (λ x. x.0) q))
      go (err e, caller_done) q ih = rw q (caller_ended n i last e q)
      go (err e, server_done) q ih = rw q (server_ended n i last e q)
      go (err e, time_passed) q ih = rw q (goes_on n i last e _ q (ih e))

  -- Whatever the attempts and the waits give, a dial ends after at most ten waits and at most 2630
  -- milliseconds of waiting: with the connection of the first attempt that gives one, with the
  -- error of the context that ended during a wait before that, or, where all ten attempts failed,
  -- with the error of the last one; a wait of a server whose context was cancelled before ends with it.
  pub dial_with_retry-Ends :
      (cancelled : Bool) (attempts : ℕ → Result E Conn × Waited)
      → Ends (waiting cancelled attempts) 10 0 none (dial_with_retry cancelled attempts).0
        × (length (dial_with_retry cancelled attempts).1 ≤ 10)
        × (sum (dial_with_retry cancelled attempts).1 ≤ 2630)
  unfolding dial_with_retry
  dial_with_retry-Ends cancelled attempts =
      let (a, b) = dial_from-waits 10 0 10 none (waiting cancelled attempts) in
      (dial_from-Ends 10 0 10 none (waiting cancelled attempts), a, omega (arith, b))
