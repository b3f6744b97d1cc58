-- ===== src/Server/Lifecycle/States.antt =====
-- The states that a server can be in.
use embedspicedb.Common.{
  ◌⊎◌, if-cases, ◌≡◌, refl, arith, Bool, true, false, Option, none, some, [], Bool-cases, inl, inr,
}
use embedspicedb.Common.Result.{Result, ok, err}
use embedspicedb.Server.Lifecycle.{
  EmbeddedServer, StartAnswers, LifecycleError, new_embedded_server, start, stop,
  on_schema_reloaded, client, completed, dialled, dial_with_retry, reload_schema, not_started,
  already_started, Waited, caller_done, server_done, time_passed, caller_cancelled,
  server_cancelled,
}

module _ {Conn Callback : Type 0} where
  -- A server that is started has what its clients ask for and its goroutine runs; a datastore is
  -- closed only after the context was cancelled.
  pub record IsConsistent (es : EmbeddedServer Conn Callback) : Type 0 where
    pub running-started : es.running ≡ es.started
    pub started-conn : es.started ≡ true → (conn : Conn) × (es.conn ≡ some conn)
    pub started-reloader : es.started ≡ true → es.reloader ≡ true
    pub closed-cancelled : es.datastore_closed ≡ true → es.ctx_cancelled ≡ true

module _ {Conn Callback : Type 0} where
  -- The calls of a server, one after another.
  pub data Reached (E : Type 0) : EmbeddedServer Conn Callback → Type 0 where
    made : (files health : Bool) → Reached E (new_embedded_server files health)
    started_so :
        (a : StartAnswers Conn E) (es : EmbeddedServer Conn Callback)
        → Reached E es
        → Reached E (start a es).1
    stopped :
        (shut_down : Bool) (es : EmbeddedServer Conn Callback)
        → Reached E es
        → Reached E (stop shut_down es)
    called :
        (c : Callback) (es : EmbeddedServer Conn Callback)
        → Reached E es
        → Reached E (on_schema_reloaded c es)

  new-IsConsistent :
      (files health : Bool)
      → IsConsistent (new_embedded_server {Conn = Conn} {Callback = Callback} files health)
  unfolding new_embedded_server
  new-IsConsistent files health = record {
    running-started = refl;
    started-conn = λ h. ground arith;
    started-reloader = λ h. ground arith;
    closed-cancelled = λ h. ground arith;
  }

  stop-IsConsistent :
      (shut_down : Bool) (es : EmbeddedServer Conn Callback)
      → IsConsistent es
      → IsConsistent (stop shut_down es)
  unfolding stop
  stop-IsConsistent shut_down es c =
      if-cases IsConsistent es.started _ es
        (λ up. record {
          running-started = refl;
          started-conn = λ h. ground arith;
          started-reloader = λ h. ground arith;
          closed-cancelled = λ h. refl;
        })
        (λ down. c)

  callback-IsConsistent :
      (f : Callback) (es : EmbeddedServer Conn Callback)
      → IsConsistent es
      → IsConsistent (on_schema_reloaded f es)
  unfolding on_schema_reloaded
  callback-IsConsistent f es c = record {
    running-started = c.running-started;
    started-conn = c.started-conn;
    started-reloader = c.started-reloader;
    closed-cancelled = c.closed-cancelled;
  }

module _ {Conn Callback E : Type 0} where
  dialled-IsConsistent :
      (a : StartAnswers Conn E) (r : Result (LifecycleError E) Conn)
      (es : EmbeddedServer Conn Callback)
      → es.started ≡ false
      → IsConsistent es
      → IsConsistent (dialled a r (record es { running = true })).1
  dialled-IsConsistent a (err e) es down c = record {
    running-started = ground (arith, down);
    started-conn = λ h. ground (arith, down, h);
    started-reloader = λ h. ground (arith, down, h);
    closed-cancelled = λ h. refl;
  }
  dialled-IsConsistent a (ok conn) es down c = record {
    running-started = refl;
    started-conn = λ h. (conn, refl);
    started-reloader = λ h. refl;
    closed-cancelled = c.closed-cancelled;
  }

  completed-IsConsistent :
      (a : StartAnswers Conn E) (x : Option E) (es : EmbeddedServer Conn Callback)
      → es.started ≡ false
      → IsConsistent es
      → IsConsistent (completed a x es).1
  completed-IsConsistent a none es down c =
      dialled-IsConsistent a (dial_with_retry es.ctx_cancelled a.attempts).0 es down c
  completed-IsConsistent a (some e) es down c = c

  start-IsConsistent :
      (a : StartAnswers Conn E) (es : EmbeddedServer Conn Callback)
      → IsConsistent es
      → IsConsistent (start a es).1
  unfolding start
  start-IsConsistent a es c =
      if-cases (λ o. IsConsistent o.1) es.started (some already_started, es)
        (completed a a.complete es) (λ up. c)
        (λ down. completed-IsConsistent a a.complete es down c)

  Reached-IsConsistent : (es : EmbeddedServer Conn Callback) → Reached E es → IsConsistent es
  Reached-IsConsistent es (made files health) = new-IsConsistent files health
  Reached-IsConsistent es (started_so a s r) = start-IsConsistent a s (Reached-IsConsistent s r)
  Reached-IsConsistent es (stopped d s r) = stop-IsConsistent d s (Reached-IsConsistent s r)
  Reached-IsConsistent es (called f s r) = callback-IsConsistent f s (Reached-IsConsistent s r)

  -- Whatever calls a server had: either it is started, a client is given its connection and a reload
  -- of the schema reaches every callback, or both calls say that the server is not started; the
  -- errors of a missing connection and of a missing reloader cannot occur.
  pub Reached-client :
      (es : EmbeddedServer Conn Callback) (reload : Option E)
      → Reached E es
      → ((conn : Conn) × (client {E = E} es ≡ ok conn)
          × ((reload_schema reload es).1 ≡ es.reload_callbacks))
        ⊎ ((client {E = E} es ≡ err not_started)
            × (reload_schema reload es ≡ (some not_started, [])))
  unfolding client reload_schema
  Reached-client es reload r = elim (Bool-cases es.started) [
    | inl up ↦
        let c = Reached-IsConsistent es r in
        let (conn, e) = c.started-conn up in
        inl (conn, ground (arith, up, e), ground (arith, up, c.started-reloader up))
    | inr down ↦ inr (ground (arith, down), ground (arith, down))
  ]

  -- The start of a server that was stopped, where its configuration completes, dials once: where that
  -- gives a connection, the start reports no error and a client is given it, though the server's
  -- context stays cancelled and its datastore closed; where it fails, the start reports that a context
  -- was cancelled, and the server is not started.
  pub start-stop :
      (a : StartAnswers Conn E) (shut_down : Bool) (es : EmbeddedServer Conn Callback)
      → es.started ≡ true
      → a.complete ≡ none
      → let again = start a (stop shut_down es) in
        ((conn : Conn) × ((a.attempts 0).0 ≡ ok conn)
          × (again.0 ≡ none)
          × (client {E = E} again.1 ≡ ok conn)
          × (again.1.ctx_cancelled ≡ true)
          × (again.1.datastore_closed ≡ true))
        ⊎ ((e : E) × ((a.attempts 0).0 ≡ err e)
            × ((again.0 ≡ some caller_cancelled) ⊎ (again.0 ≡ some server_cancelled))
            × (client {E = E} again.1 ≡ err not_started))
  unfolding start stop client dial_with_retry
  start-stop a shut_down es up complete = go (a.attempts 0) refl
    where
      go :
          (x : Result E Conn × Waited)
          → a.attempts 0 ≡ x
          → let again = start a (stop shut_down es) in
            ((conn : Conn) × ((a.attempts 0).0 ≡ ok conn)
              × (again.0 ≡ none)
              × (client {E = E} again.1 ≡ ok conn)
              × (again.1.ctx_cancelled ≡ true)
              × (again.1.datastore_closed ≡ true))
            ⊎ ((e : E) × ((a.attempts 0).0 ≡ err e)
                × ((again.0 ≡ some caller_cancelled) ⊎ (again.0 ≡ some server_cancelled))
                × (client {E = E} again.1 ≡ err not_started))
      go (ok conn, w) q = inl (
        conn,
        ground (arith, q),
        ground (arith, up, complete, q),
        ground (arith, up, complete, q),
        ground (arith, up, complete, q),
        ground (arith, up, complete, q),
      )
      go (err e, caller_done) q = inr (
        e,
        ground (arith, q),
        inl (ground (arith, up, complete, q)),
        ground (arith, up, complete, q),
      )
      go (err e, server_done) q = inr (
        e,
        ground (arith, q),
        inr (ground (arith, up, complete, q)),
        ground (arith, up, complete, q),
      )
      go (err e, time_passed) q = inr (
        e,
        ground (arith, q),
        inr (ground (arith, up, complete, q)),
        ground (arith, up, complete, q),
      )
