-- ===== src/Server/Lifecycle.antt =====
-- server.go: Start, Stop, Client, OnSchemaReloaded, ReloadSchema and the dial. Each call is one step on
-- the server, as its mutex makes it. What the packages that are called answer is an argument. `E` is
-- the type of their errors, `Conn` that of a client's connection.
pub mod Dial
pub mod States
use embedspicedb.Common.{
  ℕ, zero, suc, ◌+◌, ◌*◌, ltb, Bool, true, false, not, ◌&&◌, Option, none, some, List, [], ◌∷◌,
  ◌++◌, if◌then◌else◌,
}
use embedspicedb.Common.Int.{ℤ}
use embedspicedb.Common.Result.{Result, ok, err}

-- The wait between two attempts ends with the caller's context, with the server's, or with its time.
pub data Waited : Type 0 where
  caller_done server_done time_passed : Waited

-- The wait does not last its time where the server's context is cancelled before it begins.
abbrev pub wait_end : Bool → Waited → Waited
wait_end true time_passed = server_done
wait_end true caller_done = caller_done
wait_end true server_done = server_done
wait_end false w = w

-- `backoff *= 2`, capped: milliseconds.
abbrev pub next_backoff : ℕ → ℕ
next_backoff backoff = if ltb 500 (backoff * 2) then 500 else backoff * 2

pub data LifecycleError (E : Type 0) : Type 0 where
  already_started not_started no_connection no_reloader : LifecycleError E
  complete_error dial_error reload_error : E → LifecycleError E
  retries_failed : Option E → LifecycleError E
  caller_cancelled server_cancelled : LifecycleError E

abbrev pub error_of : {Conn E : Type 0} → Result E Conn → Option E
error_of (ok conn) = none
error_of (err e) = some e

abbrev pub Dialled : Type 0 → Type 0 → Type 0
Dialled Conn E = Result (LifecycleError E) Conn × List ℕ

-- An attempt, the wait that it is followed by, and the attempts after them.
abbrev pub after_try :
    {Conn E : Type 0} → Result E Conn → Waited → ℕ → Dialled Conn E → Dialled Conn E
after_try (ok conn) w backoff rest = (ok conn, [])
after_try (err e) caller_done backoff rest = (err caller_cancelled, backoff ∷ [])
after_try (err e) server_done backoff rest = (err server_cancelled, backoff ∷ [])
after_try (err e) time_passed backoff (result, waits) = (result, backoff ∷ waits)

module _ {Conn E : Type 0} where
  -- The loop, from its i-th turn on. The waits that it begins come beside its result.
  abbrev pub dial_from : ℕ → ℕ → ℕ → Option E → (ℕ → Result E Conn × Waited) → Dialled Conn E
  dial_from zero i backoff last_err attempts = (err (retries_failed last_err), [])
  dial_from (suc retries) i backoff last_err attempts =
      let rest =
        dial_from retries (suc i) (next_backoff backoff) (error_of (attempts i).0) attempts in
      after_try (attempts i).0 (attempts i).1 backoff rest

  -- The attempts of a server whose context is cancelled, or not, as they and their waits end.
  abbrev pub waiting : Bool → (ℕ → Result E Conn × Waited) → ℕ → Result E Conn × Waited
  waiting cancelled attempts i = ((attempts i).0, wait_end cancelled (attempts i).1)

  -- dialWithRetry
  unfoldable pub dial_with_retry : Bool → (ℕ → Result E Conn × Waited) → Dialled Conn E
  dial_with_retry cancelled attempts = dial_from 10 0 10 none (waiting cancelled attempts)

-- EmbeddedServer: `running` is whether the goroutine of the server is waited for, `ctx_cancelled` and
-- `datastore_closed` what was done to the context and the datastore that New made.
pub record EmbeddedServer (Conn Callback : Type 0) : Type 0 where
  pub has_schema_files : Bool
  pub health_check_enabled : Bool
  pub datastore_closed : Bool
  pub reloader : Bool
  pub watcher : Bool
  pub conn : Option Conn
  pub reload_callbacks : List Callback
  pub health_srv : Bool
  pub started : Bool
  pub start_time : Option ℤ
  pub ctx_cancelled : Bool
  pub running : Bool

-- What the packages answer during a start: the configuration's completion, the attempts to dial, the
-- watcher's creation and its start, the health server, and the clock.
pub record StartAnswers (Conn E : Type 0) : Type 0 where
  pub complete : Option E
  pub attempts : ℕ → Result E Conn × Waited
  pub new_watcher : Option E
  pub start_watcher : Option E
  pub start_health : Option E
  pub now : ℤ

module _ {Conn Callback : Type 0} where
  unfoldable pub new_embedded_server : Bool → Bool → EmbeddedServer Conn Callback
  new_embedded_server has_schema_files health_check_enabled = record {
    has_schema_files = has_schema_files;
    health_check_enabled = health_check_enabled;
    datastore_closed = false;
    reloader = false;
    watcher = false;
    conn = none;
    reload_callbacks = [];
    health_srv = false;
    started = false;
    start_time = none;
    ctx_cancelled = false;
    running = false;
  }

  -- Stop; `shut_down` is whether the health server shuts down without an error.
  unfoldable pub stop : Bool → EmbeddedServer Conn Callback → EmbeddedServer Conn Callback
  stop shut_down es =
      if es.started
      then record es {
        health_srv = es.health_srv && not shut_down;
        ctx_cancelled = true;
        running = false;
        datastore_closed = true;
        started = false;
      }
      else es

  unfoldable pub on_schema_reloaded :
      Callback → EmbeddedServer Conn Callback → EmbeddedServer Conn Callback
  on_schema_reloaded callback es = record es {
    reload_callbacks = es.reload_callbacks ++ callback ∷ [];
  }

module _ {Conn Callback E : Type 0} where
  -- The watcher that a start leaves, and the health server.
  abbrev pub watcher_after : StartAnswers Conn E → EmbeddedServer Conn Callback → Bool
  watcher_after a es =
      if es.has_schema_files
      then elim a.new_watcher [
        | some e ↦ es.watcher
        | none ↦ elim a.start_watcher [ some e ↦ es.watcher | none ↦ true ]
      ]
      else es.watcher

  abbrev pub health_after : StartAnswers Conn E → EmbeddedServer Conn Callback → Bool
  health_after a es =
      if es.health_check_enabled
      then elim a.start_health [ some e ↦ es.health_srv | none ↦ true ]
      else es.health_srv

  abbrev pub dialled :
      StartAnswers Conn E
      → Result (LifecycleError E) Conn
      → EmbeddedServer Conn Callback
      → Option (LifecycleError E) × EmbeddedServer Conn Callback
  dialled a (err e) es = (some e, record es { ctx_cancelled = true; running = false })
  dialled a (ok conn) es = (
    none,
    record es {
      conn = some conn;
      reloader = true;
      watcher = watcher_after a es;
      health_srv = health_after a es;
      start_time = some a.now;
      started = true;
    },
  )

  -- After the completion of the configuration, which a server that is completed runs.
  abbrev pub completed :
      StartAnswers Conn E
      → Option E
      → EmbeddedServer Conn Callback
      → Option (LifecycleError E) × EmbeddedServer Conn Callback
  completed a (some e) es = (some (complete_error e), es)
  completed a none es =
      dialled a (dial_with_retry es.ctx_cancelled a.attempts).0 (record es { running = true })

  unfoldable pub start :
      StartAnswers Conn E
      → EmbeddedServer Conn Callback
      → Option (LifecycleError E) × EmbeddedServer Conn Callback
  start a es = if es.started then (some already_started, es) else completed a a.complete es

  unfoldable pub client : EmbeddedServer Conn Callback → Result (LifecycleError E) Conn
  client es =
      if es.started
      then elim es.conn [ none ↦ err no_connection | some conn ↦ ok conn ]
      else err not_started

  -- ReloadSchema: its error, and the callbacks that it calls. `reload` is what the reloader answers.
  unfoldable pub reload_schema :
      Option E → EmbeddedServer Conn Callback → Option (LifecycleError E) × List Callback
  reload_schema reload es =
      if not es.started
      then (some not_started, [])
      else if not es.reloader
      then (some no_reloader, [])
      else (elim reload [ none ↦ none | some e ↦ some (reload_error e) ], es.reload_callbacks)
