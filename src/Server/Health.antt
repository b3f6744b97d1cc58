-- ===== src/Server/Health.antt =====
-- health.go: the health check and the code of its HTTP answer. What the check asks of the connection
-- and of the datastore is the input: the answers that they give, none where there is no such part.
use embedspicedb.Common.{
  ℕ, ◌≡◌, ◌≢◌, ◌↔◌, ◌⊎◌, Bool, true, false, ◌&&◌, not, Option, none, some, List, [], ◌∷◌, arith,
  if◌then◌else◌,
}
use embedspicedb.Common.Str.{Str}
use embedspicedb.Common.Result.{Result, ok, err}

-- An error of ReadSchema: its code is NotFound, or it is another one.
pub data ReadError : Type 0 where
  not_found other_error : ReadError

pub record ServerState : Type 0 where
  pub started : Bool
  pub schema_read : Option (Result ReadError Str)
  pub statistics : Option (Result (Unit {0}) (Unit {0}))
  pub has_reloader : Bool
  pub schema_files : List Str

-- The words that the checks report, without the texts of errors.
pub data Check : Type 0 where
  not_started started_check not_available healthy_check healthy_no_schema error_check : Check
  reloader_not_available not_loaded loaded not_configured : Check

pub data Status : Type 0 where
  unset healthy degraded unhealthy : Status

pub record HealthStatus : Type 0 where
  pub status : Status
  pub server : Check
  pub grpc_connection : Option Check
  pub datastore : Option Check
  pub schema : Option Check

abbrev pub is_nil : List Str → Bool
is_nil [] = true
is_nil (f ∷ fs) = false

-- The check of the connection, and the status after it.
abbrev pub check_grpc : List Str → Option (Result ReadError Str) → Check × Status
check_grpc files none = (not_available, degraded)
check_grpc files (some (ok text)) = (healthy_check, unset)
check_grpc [] (some (err not_found)) = (healthy_no_schema, unset)
check_grpc [] (some (err other_error)) = (error_check, degraded)
check_grpc (f ∷ fs) (some (err e)) = (error_check, degraded)

-- An error degrades a status that is not unhealthy.
abbrev pub degrade : Status → Status
degrade unhealthy = unhealthy
degrade _ = degraded

abbrev pub check_datastore : Option (Result (Unit {0}) (Unit {0})) → Status → Check × Status
check_datastore none s = (not_available, unhealthy)
check_datastore (some (err e)) s = (error_check, degrade s)
check_datastore (some (ok u)) s = (healthy_check, s)

abbrev pub check_read : Option (Result ReadError Str) → Status → Check × Status
check_read none s = (not_loaded, degraded)
check_read (some (err e)) s = (error_check, degraded)
check_read (some (ok [])) s = (not_loaded, degraded)
check_read (some (ok (a ∷ text))) s = (loaded, s)

abbrev pub check_schema : List Str → Bool → Option (Result ReadError Str) → Status → Check × Status
check_schema [] reloader read s = (not_configured, s)
check_schema (f ∷ fs) false read s = (reloader_not_available, degraded)
check_schema (f ∷ fs) true read s = check_read read s

abbrev pub overall : Status → Status
overall unhealthy = unhealthy
overall degraded = degraded
overall _ = healthy

-- HealthCheck: the status, and whether an error comes with it.
unfoldable pub health_check : ServerState → HealthStatus × Bool
health_check s =
    if not s.started
    then (
      record {
        status = unhealthy;
        server = not_started;
        grpc_connection = none;
        datastore = none;
        schema = none;
      },
      true,
    )
    else (let (grpc, s1) = check_grpc s.schema_files s.schema_read in
        let (ds, s2) = check_datastore s.statistics s1 in
        let (schema, s3) = check_schema s.schema_files s.has_reloader s.schema_read s2 in
        (
          record {
            status = overall s3;
            server = started_check;
            grpc_connection = some grpc;
            datastore = some ds;
            schema = some schema;
          },
          false,
        ))

abbrev pub is_unhealthy : Status → Bool
is_unhealthy unhealthy = true
is_unhealthy _ = false

-- healthCheckHandler: the HTTP code.
unfoldable pub health_check_code : ServerState → ℕ
unfolding health_check
health_check_code s =
    let (status, failed) = health_check s in
    if failed && is_unhealthy status.status then 503 else 200

-- The schema is there as far as the check asks for it: no file is configured, or there is a reloader
-- and a schema that is not empty was read.
abbrev pub HasSchema : ServerState → Type 0
HasSchema s =
    (s.schema_files ≡ [])
    ⊎ ((s.has_reloader ≡ true) × (text : Str) × (s.schema_read ≡ some (ok text)) × (text ≢ []))

-- The connection answers; that no schema is found counts where no file is configured.
abbrev pub Answers : ServerState → Type 0
Answers s =
    ((text : Str) × (s.schema_read ≡ some (ok text)))
    ⊎ ((s.schema_files ≡ []) × (s.schema_read ≡ some (err not_found)))

-- The server is reported healthy just when it was started, the connection answers, the datastore
-- gives its statistics, and the schema is there as far as files ask for one.
pub health_check_healthy_iff :
    (s : ServerState)
    → ((health_check s).0.status ≡ healthy)
      ↔ ((s.started ≡ true) × Answers s × (s.statistics ≡ some (ok tt)) × HasSchema s)
unfolding health_check
health_check_healthy_iff s = ground arith

-- The server is reported unhealthy just when it was not started, or when it has no datastore and the
-- schema is there as far as files ask for one: where the schema fails too, the later check turns
-- unhealthy into degraded.
pub health_check_unhealthy_iff :
    (s : ServerState)
    → ((health_check s).0.status ≡ unhealthy)
      ↔ ((s.started ≡ false) ⊎ ((s.started ≡ true) × (s.statistics ≡ none) × HasSchema s))
unfolding health_check
health_check_unhealthy_iff s = ground arith

-- The HTTP answer is 503 just when the server was not started, and else 200, also where it is
-- reported unhealthy.
pub health_check_code_iff :
    (s : ServerState)
    → ((health_check_code s ≡ 503) ↔ (s.started ≡ false))
      × ((health_check_code s ≡ 200) ↔ (s.started ≡ true))
unfolding health_check_code health_check
health_check_code_iff s = ground arith
