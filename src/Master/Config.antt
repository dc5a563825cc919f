-- ===== src/Master/Config.antt =====
-- crates/master/src/config.rs: the configuration of the master, and the checks on what was loaded. `build` stands
-- for the `config` crate with its file, environment and deserialisation.
use faultforge.Prelude.{ℕ, String, Option, is_some, [], ◌∷◌, ◌++◌, ◌==◌, if◌then◌else◌}
use faultforge.Prelude.Int.{pos}
use faultforge.Config.{
  text, number, Builder, Loaded, config, failed, override_text, override_number, unwrap_or,
}

pub record MasterConfig : Type 0 where
  pub listen_addr : String
  pub management_listen_addr : String
  pub heartbeat_interval_secs : ℕ
  pub catalog_root : String
  pub default_grace_secs : ℕ

pub record Cli : Type 0 where
  pub config_file : Option String
  pub listen_addr : Option String
  pub management_listen_addr : Option String
  pub heartbeat_interval_secs : Option ℕ
  pub catalog_root : Option String
  pub default_grace_secs : Option ℕ

unfoldable pub builder : Cli → Builder
builder cli = record {
  defaults =
      ("listen_addr", text "127.0.0.1:50051")
      ∷ ("management_listen_addr", text "127.0.0.1:8069")
      ∷ ("heartbeat_interval_secs", number (pos 5))
      ∷ ("catalog_root", text "/usr/lib/faultforge/plugins")
      ∷ ("default_grace_secs", number (pos 10))
      ∷ [];
  file = unwrap_or cli.config_file "faultforge-master";
  required = is_some cli.config_file;
  env_prefix = "FAULTFORGE";
  overrides =
      override_text "listen_addr" cli.listen_addr
      ++ override_text "management_listen_addr" cli.management_listen_addr
      ++ override_number "heartbeat_interval_secs" cli.heartbeat_interval_secs
      ++ override_text "catalog_root" cli.catalog_root
      ++ override_number "default_grace_secs" cli.default_grace_secs;
}

-- the checks on the configuration
unfoldable pub checked_config : Loaded MasterConfig → Loaded MasterConfig
checked_config (failed e) = failed e
checked_config (config cfg) =
    if cfg.heartbeat_interval_secs == 0
    then failed "heartbeat_interval_secs must be greater than 0"
    else if cfg.default_grace_secs == 0
    then failed "default_grace_secs must be greater than 0"
    else config cfg

unfoldable pub load_config : (Builder → Loaded MasterConfig) → Cli → Loaded MasterConfig
unfolding checked_config
load_config build cli = checked_config (build (builder cli))
