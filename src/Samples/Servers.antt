-- ===== src/Samples/Servers.antt =====
-- A configuration and a server's state.
use embedspicedb.Common.{ℕ, ◌≡◌, ◌↔◌, ◌⊎◌, refl, [], ◌∷◌, Bool, true, false, none, some}
use embedspicedb.Common.Int.{pos, ◌≤ℤ◌, ◌-ℤ◌, wrap64}
use embedspicedb.Common.Str.{bytes, str_eq}
use embedspicedb.Common.Result.{ok, err}
use embedspicedb.Memdb.Datastore.{MemdbDatastore, live_db, new_memdb_datastore}
use embedspicedb.Server.Config.{
  Params, default_config, with_defaults, or_default, validate, create_datastore, new_server,
}
use embedspicedb.Server.Config.Validity.{IsValid, validate_iff, new_server_in_memory}
use embedspicedb.Server.Health.{
  ServerState, not_found, healthy, unhealthy, health_check, Answers, HasSchema,
  health_check_healthy_iff, health_check_unhealthy_iff,
}

abbrev plain : Params
plain = record { trim_space = λ s. s; to_lower = λ s. s; resolves = λ s. true }

validate_iff_example : (validate plain default_config ≡ []) ↔ IsValid plain default_config
validate_iff_example = validate_iff plain default_config

abbrev fresh : MemdbDatastore ℕ
fresh = record {
  db = some 0;
  revisions = record { revision = pos 100; db = live_db } ∷ [];
  active_write_txn = false;
  negative_gc_window = wrap64 (pos 0 -ℤ pos 86400000000000);
  quantization_period = pos 5000000000;
  watch_buffer_length = 128;
}

new_run : new_server plain default_config (pos 100) 0 ≡ ok (with_defaults default_config, fresh)
unfolding new_server create_datastore new_memdb_datastore with_defaults validate str_eq
new_run = refl

new_server_in_memory_example :
    (with_defaults default_config ≡ with_defaults default_config)
    × IsValid plain (with_defaults default_config)
    × (or_default (with_defaults default_config).datastore_type (bytes "memdb") ≡ bytes "memdb")
    × ((with_defaults default_config).revision_quantization
        ≤ℤ (with_defaults default_config).gc_window)
new_server_in_memory_example =
    new_server_in_memory plain default_config (with_defaults default_config) (pos 100) 0 fresh
      new_run

abbrev running : ServerState
running = record {
  started = true;
  schema_read = some (err not_found);
  statistics = some (ok tt);
  has_reloader = true;
  schema_files = [];
}

health_check_healthy_iff_example : ((health_check running).0.status ≡ healthy) ↔ (
    (Path Bool true true)
    × Answers running
    × (running.statistics ≡ some (ok tt))
    × HasSchema running)
health_check_healthy_iff_example = health_check_healthy_iff running

health_check_unhealthy_iff_example : ((health_check running).0.status ≡ unhealthy) ↔ (
    (Path Bool true false)
    ⊎ ((Path Bool true true) × (running.statistics ≡ none) × HasSchema running))
health_check_unhealthy_iff_example = health_check_unhealthy_iff running
