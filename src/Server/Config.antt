-- ===== src/Server/Config.antt =====
-- config.go: the configuration, its defaults and its validation, and createDatastore and New of
-- server.go. The functions of package strings and the resolution of addresses are parameters.
pub mod Validity
use embedspicedb.Common.{
  ℕ, suc, Bool, true, false, ◌&&◌, ◌||◌, not, Option, none, some, List, [], ◌∷◌, ◌++◌,
  if◌then◌else◌, ◌==◌,
}
use embedspicedb.Common.Int.{ℤ, pos, eqb_ℤ}
use embedspicedb.Common.Str.{Str, bytes, is_empty, str_eq}
use embedspicedb.Common.Result.{Result, ok, err, ◌>>=◌}
use embedspicedb.Memdb.Datastore.{MemdbDatastore, MemdbError, new_memdb_datastore}

-- strings.TrimSpace, strings.ToLower, and whether net.ResolveTCPAddr resolves an address.
pub record Params : Type 0 where
  pub trim_space : Str → Str
  pub to_lower : Str → Str
  pub resolves : Str → Bool

-- Durations are nanoseconds.
pub record Config : Type 0 where
  pub schema_files : List Str
  pub grpc_address : Str
  pub http_enabled : Bool
  pub http_address : Str
  pub preshared_key : Str
  pub watch_debounce : ℤ
  pub revision_quantization : ℤ
  pub gc_window : ℤ
  pub watch_buffer_length : ℕ
  pub datastore_type : Str
  pub datastore_uri : Str
  pub health_check_enabled : Bool
  pub health_check_address : Str

abbrev pub default_config : Config
default_config = record {
  schema_files = [];
  grpc_address = bytes ":50051";
  http_enabled = false;
  http_address = bytes ":8443";
  preshared_key = bytes "dev-key";
  watch_debounce = pos 500000000;
  revision_quantization = pos 5000000000;
  gc_window = pos 86400000000000;
  watch_buffer_length = 0;
  datastore_type = bytes "memdb";
  datastore_uri = [];
  health_check_enabled = false;
  health_check_address = bytes "127.0.0.1:0";
}

abbrev pub or_default : Str → Str → Str
or_default [] d = d
or_default (a ∷ s) d = a ∷ s

abbrev pub or_duration : ℤ → ℤ → ℤ
or_duration t d = if eqb_ℤ t (pos 0) then d else t

unfoldable pub with_defaults : Config → Config
with_defaults c = record c {
  grpc_address = or_default c.grpc_address (bytes ":50051");
  preshared_key = or_default c.preshared_key (bytes "dev-key");
  watch_debounce = or_duration c.watch_debounce (pos 500000000);
  revision_quantization = or_duration c.revision_quantization (pos 5000000000);
  gc_window = or_duration c.gc_window (pos 86400000000000);
  http_address =
      if c.http_enabled then or_default c.http_address (bytes ":8443") else c.http_address;
  datastore_type = or_default c.datastore_type (bytes "memdb");
  health_check_address =
      if c.health_check_enabled
      then or_default c.health_check_address (bytes "127.0.0.1:0")
      else c.health_check_address;
}

pub data ConfigError : Type 0 where
  grpc_address_empty grpc_address_invalid http_address_empty http_address_invalid : ConfigError
  preshared_key_empty datastore_uri_empty unsupported_datastore_type : ConfigError
  health_check_address_empty health_check_address_invalid : ConfigError
  schema_file_empty : ℕ → ConfigError

abbrev pub persistent : Str → Bool
persistent t =
    str_eq t (bytes "postgres") || str_eq t (bytes "postgresql") || str_eq t (bytes "mysql")

module _ (p : Params) where
  -- An address is not blank and resolves.
  abbrev pub address_errors : Str → ConfigError → ConfigError → List ConfigError
  address_errors a blank invalid =
      if is_empty (p.trim_space a) then blank ∷ [] else if p.resolves a then [] else invalid ∷ []

  abbrev pub datastore_errors : Config → List ConfigError
  datastore_errors c =
      let ds_type = p.to_lower (p.trim_space c.datastore_type) in
      if is_empty ds_type || str_eq ds_type (bytes "memdb")
      then []
      else if persistent ds_type
      then (if is_empty (p.trim_space c.datastore_uri) then datastore_uri_empty ∷ [] else [])
      else unsupported_datastore_type ∷ []

  abbrev pub schema_file_errors : ℕ → List Str → List ConfigError
  schema_file_errors i [] = []
  schema_file_errors i (f ∷ fs) =
      (if is_empty (p.trim_space f) then schema_file_empty i ∷ [] else [])
      ++ schema_file_errors (suc i) fs

  unfoldable pub validate : Config → List ConfigError
  validate c =
      address_errors c.grpc_address grpc_address_empty grpc_address_invalid
      ++ (if c.http_enabled
          then address_errors c.http_address http_address_empty http_address_invalid
          else [])
      ++ (if is_empty (p.trim_space c.preshared_key) then preshared_key_empty ∷ [] else [])
      ++ datastore_errors c
      ++ (if c.health_check_enabled
          then address_errors c.health_check_address health_check_address_empty
              health_check_address_invalid
          else [])
      ++ schema_file_errors 0 c.schema_files

  pub data ServerError : Type 0 where
    invalid_config : List ConfigError → ServerError
    memdb_failed : MemdbError → ServerError
    postgres_not_available mysql_not_available unsupported_type : ServerError

  -- The type is not trimmed here.
  unfoldable pub create_datastore :
      {DB : Type 0} → Config → ℤ → DB → Result ServerError (MemdbDatastore DB)
  create_datastore c now db =
      let t = or_default (p.to_lower c.datastore_type) (bytes "memdb") in
      if str_eq t (bytes "memdb")
      then elim (new_memdb_datastore c.watch_buffer_length c.revision_quantization c.gc_window now
          db) [ err e ↦ err (memdb_failed e) | ok mdb ↦ ok mdb ]
      else if str_eq t (bytes "postgres") || str_eq t (bytes "postgresql")
      then err postgres_not_available
      else if str_eq t (bytes "mysql")
      then err mysql_not_available
      else err unsupported_type

  -- New: the configuration with its defaults, and the datastore that it asks for.
  unfoldable pub new_server :
      {DB : Type 0} → Config → ℤ → DB → Result ServerError (Config × MemdbDatastore DB)
  unfolding create_datastore
  new_server config now db =
      let c = with_defaults config in
      elim (validate c) [
        | [] ↦ create_datastore c now db >>= λ ds. ok (c, ds)
        | e ∷ es ↦ err (invalid_config (e ∷ es))
      ]
