-- ===== src/Server/Config/Validity.antt =====
-- config.go and server.go: which configurations are valid, and which give a server.
use embedspicedb.Common.{
  ℕ, suc, ◌≡◌, ◌≢◌, ◌↔◌, ◌⊎◌, refl, Bool, true, false, List, [], ◌∷◌, ◌++◌, arith, All,
  if◌then◌else◌,
}
use embedspicedb.Common.Int.{ℤ, pos, ◌≤ℤ◌}
use embedspicedb.Common.Str.{Str, bytes, is_empty, str_eq, str_eq_iff}
use embedspicedb.Common.Result.{ok}
use embedspicedb.Memdb.Datastore.{MemdbDatastore, new_memdb_datastore}
use embedspicedb.Server.Config.{
  grpc_address_empty, grpc_address_invalid, http_address_empty, http_address_invalid,
  health_check_address_empty, health_check_address_invalid, preshared_key_empty, Params, Config,
  with_defaults, validate, or_default, or_duration, persistent, ConfigError, address_errors,
  datastore_errors, schema_file_errors, create_datastore, new_server,
}

or_default_idem : (s d : Str) → or_default (or_default s d) d ≡ or_default s d
or_default_idem [] [] = refl
or_default_idem [] (a ∷ d) = refl
or_default_idem (a ∷ s) d = refl

or_duration_idem : (t d : ℤ) → or_duration (or_duration t d) d ≡ or_duration t d
or_duration_idem t d = ground arith

flagged_idem :
    (b : Bool) (s d : Str)
    → (if b
        then or_default (if b then or_default s d else s) d
        else (if b then or_default s d else s))
      ≡ (if b then or_default s d else s)
flagged_idem true s d = or_default_idem s d
flagged_idem false s d = refl

-- Setting the defaults again changes nothing.
pub with_defaults_idempotent : (c : Config) → with_defaults (with_defaults c) ≡ with_defaults c
unfolding with_defaults
with_defaults_idempotent c = ground (
  arith,
  or_default_idem c.grpc_address (bytes ":50051"),
  or_default_idem c.preshared_key (bytes "dev-key"),
  or_default_idem c.datastore_type (bytes "memdb"),
  or_duration_idem c.watch_debounce (pos 500000000),
  or_duration_idem c.revision_quantization (pos 5000000000),
  or_duration_idem c.gc_window (pos 86400000000000),
  flagged_idem c.http_enabled c.http_address (bytes ":8443"),
  flagged_idem c.health_check_enabled c.health_check_address (bytes "127.0.0.1:0"),
)

module _ (p : Params) where
  abbrev pub NotBlank : Str → Type 0
  NotBlank s = p.trim_space s ≢ []

  abbrev pub IsAddress : Str → Type 0
  IsAddress a = NotBlank a × (p.resolves a ≡ true)

  abbrev pub kind : Config → Str
  kind c = p.to_lower (p.trim_space c.datastore_type)

  pub record IsValid (c : Config) : Type 0 where
    pub grpc : IsAddress c.grpc_address
    pub http : c.http_enabled ≡ true → IsAddress c.http_address
    pub key : NotBlank c.preshared_key
    pub datastore :
        (kind c ≡ [])
        ⊎ (kind c ≡ bytes "memdb")
        ⊎ ((persistent (kind c) ≡ true) × NotBlank c.datastore_uri)
    pub health : c.health_check_enabled ≡ true → IsAddress c.health_check_address
    pub files : All NotBlank c.schema_files

  schema_files_iff : (i : ℕ) (fs : List Str) → (schema_file_errors p i fs ≡ []) ↔ All NotBlank fs
  schema_files_iff i [] = ground arith
  schema_files_iff i (f ∷ fs) = ground (arith, schema_files_iff (suc i) fs)

  append_empty_iff : (xs ys : List ConfigError) → (xs ++ ys ≡ []) ↔ ((xs ≡ []) × (ys ≡ []))
  append_empty_iff [] ys = ground arith
  append_empty_iff (x ∷ xs) ys = ground arith

  IsAddress-iff :
      (a : Str) (blank invalid : ConfigError)
      → (address_errors p a blank invalid ≡ []) ↔ IsAddress a
  IsAddress-iff a blank invalid = ground arith

  flagged_iff :
      (b : Bool) (a : Str) (blank invalid : ConfigError)
      → ((if b then address_errors p a blank invalid else []) ≡ []) ↔ (b ≡ true → IsAddress a)
  flagged_iff true a blank invalid = ground (arith, IsAddress-iff a blank invalid)
  flagged_iff false a blank invalid = ground arith

  key_iff :
      (k : Str)
      → ((if is_empty (p.trim_space k) then preshared_key_empty ∷ [] else []) ≡ []) ↔ NotBlank k
  key_iff k = ground arith

  persistent_memdb : persistent (bytes "memdb") ≡ false
  unfolding str_eq
  persistent_memdb = refl

  persistent_empty : persistent [] ≡ false
  unfolding str_eq
  persistent_empty = refl

  datastore_iff :
      (c : Config)
      → (datastore_errors p c ≡ []) ↔ (
          (kind c ≡ [])
          ⊎ (kind c ≡ bytes "memdb")
          ⊎ ((persistent (kind c) ≡ true) × NotBlank c.datastore_uri))
  datastore_iff c =
      ground (arith, str_eq_iff (kind c) (bytes "memdb"), persistent_memdb, persistent_empty)

  both : {xs ys : List ConfigError} → xs ≡ [] → ys ≡ [] → xs ++ ys ≡ []
  both {xs} {ys} h k = (append_empty_iff xs ys).1 (h, k)

  -- Validation finds no error just when the configuration is valid: the addresses in use are not
  -- blank and resolve, the key and the files are not blank, and the datastore is in memory or a
  -- persistent one with an address.
  pub validate_iff : (c : Config) → (validate p c ≡ []) ↔ IsValid c
  unfolding validate
  validate_iff c = (
    λ h.
        let (h1, f) = (append_empty_iff _ _).0 h in
        let (h2, e) = (append_empty_iff _ _).0 h1 in
        let (h3, d) = (append_empty_iff _ _).0 h2 in
        let (h4, k) = (append_empty_iff _ _).0 h3 in
        let (g, t) = (append_empty_iff _ _).0 h4 in
        record {
          grpc = (IsAddress-iff c.grpc_address grpc_address_empty grpc_address_invalid).0 g;
          http =
              (flagged_iff c.http_enabled c.http_address http_address_empty http_address_invalid).0
                t;
          key = (key_iff c.preshared_key).0 k;
          datastore = (datastore_iff c).0 d;
          health =
              (flagged_iff c.health_check_enabled c.health_check_address health_check_address_empty
                  health_check_address_invalid).0
                e;
          files = (schema_files_iff 0 c.schema_files).0 f;
        },
    λ v.
        let g = (IsAddress-iff c.grpc_address grpc_address_empty grpc_address_invalid).1 v.grpc in
        let t =
          (flagged_iff c.http_enabled c.http_address http_address_empty http_address_invalid).1
            v.http in
        let k = (key_iff c.preshared_key).1 v.key in
        let d = (datastore_iff c).1 v.datastore in
        let e =
          (flagged_iff c.health_check_enabled c.health_check_address health_check_address_empty
              health_check_address_invalid).1
            v.health in
        let f = (schema_files_iff 0 c.schema_files).1 v.files in
        both (both (both (both (both g t) k) d) e) f,
  )

  -- A server is made only over the datastore in memory, and only where the window of the garbage
  -- collection is no shorter than the quantization; the configuration is then valid.
  pub new_server_in_memory :
      {DB : Type 0} (config c : Config) (now : ℤ) (db : DB) (ds : MemdbDatastore DB)
      → new_server p config now db ≡ ok (c, ds)
      → (c ≡ with_defaults config)
        × IsValid c
        × (or_default (p.to_lower c.datastore_type) (bytes "memdb") ≡ bytes "memdb")
        × (c.revision_quantization ≤ℤ c.gc_window)
  unfolding new_server create_datastore new_memdb_datastore
  new_server_in_memory config c now db ds h = go (validate p (with_defaults config)) refl
    where
      type_name : Str
      type_name = or_default (p.to_lower (with_defaults config).datastore_type) (bytes "memdb")

      go :
          (es : List ConfigError)
          → validate p (with_defaults config) ≡ es
          → (c ≡ with_defaults config)
            × IsValid c
            × (or_default (p.to_lower c.datastore_type) (bytes "memdb") ≡ bytes "memdb")
            × (c.revision_quantization ≤ℤ c.gc_window)
      go [] q =
          let v = (validate_iff (with_defaults config)).0 q in
          ground (arith, str_eq_iff type_name (bytes "memdb"), v)
      go (e ∷ es) q = ground arith
