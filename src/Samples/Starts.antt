-- ===== src/Samples/Starts.antt =====
-- Servers that start at their second dial, over numbers as connections, callbacks and errors.
use embedspicedb.Common.{ℕ, suc, zero, ◌≡◌, ◌≤◌, ◌⊎◌, refl, true, false, none, some, [], length}
use embedspicedb.Common.Int.{pos}
use embedspicedb.Common.Result.{Result, ok, err}
use embedspicedb.Server.Lifecycle.{
  Waited, time_passed, EmbeddedServer, StartAnswers, new_embedded_server, start, stop, client,
  reload_schema, not_started, dial_with_retry, waiting, caller_cancelled, server_cancelled,
}
use embedspicedb.Server.Lifecycle.Dial.{sum, Ends, dial_with_retry-Ends}
use embedspicedb.Server.Lifecycle.States.{Reached, made, started_so, Reached-client, start-stop}

abbrev attempts : ℕ → Result ℕ ℕ × Waited
attempts zero = (err 7, time_passed)
attempts (suc i) = (ok 5, time_passed)

dial_with_retry-Ends_example :
    Ends (waiting false attempts) 10 0 none (dial_with_retry false attempts).0
    × (length (dial_with_retry false attempts).1 ≤ 10)
    × (sum (dial_with_retry false attempts).1 ≤ 2630)
dial_with_retry-Ends_example = dial_with_retry-Ends false attempts

abbrev answers : StartAnswers ℕ ℕ
answers = record {
  complete = none;
  attempts = attempts;
  new_watcher = none;
  start_watcher = some 3;
  start_health = none;
  now = pos 12;
}

abbrev fresh_server : EmbeddedServer ℕ ℕ
fresh_server = new_embedded_server true false

abbrev up : EmbeddedServer ℕ ℕ
up = (start answers fresh_server).1

up-Reached : Reached ℕ up
up-Reached = started_so answers fresh_server (made true false)

Reached-client_example :
    ((conn : ℕ) × (client {E = ℕ} up ≡ ok conn)
      × ((reload_schema {E = ℕ} (some 9) up).1 ≡ up.reload_callbacks))
    ⊎ ((client {E = ℕ} up ≡ err not_started)
        × (reload_schema {E = ℕ} (some 9) up ≡ (some not_started, [])))
Reached-client_example = Reached-client up (some 9) up-Reached

up_started : up.started ≡ true
unfolding start new_embedded_server dial_with_retry
up_started = refl

start-stop_example :
    let again = start answers (stop true up) in
    ((conn : ℕ) × ((attempts 0).0 ≡ ok conn)
      × (again.0 ≡ none)
      × (client {E = ℕ} again.1 ≡ ok conn)
      × (again.1.ctx_cancelled ≡ true)
      × (again.1.datastore_closed ≡ true))
    ⊎ ((e : ℕ) × ((attempts 0).0 ≡ err e)
        × ((again.0 ≡ some caller_cancelled) ⊎ (again.0 ≡ some server_cancelled))
        × (client {E = ℕ} again.1 ≡ err not_started))
start-stop_example = start-stop answers true up up_started refl
