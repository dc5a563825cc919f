-- ===== src/Agent/Config.antt =====
-- crates/agent/src/config.rs: the configuration of the agent. What the `config` crate and serde find
-- under each key of the sources is a parameter.
use faultforge.Prelude.{ℕ, String, Option, none, some, is_some, [], ◌++◌}
use faultforge.Config.{Builder, Loaded, config, failed, override_text, override_number, unwrap_or}

abbrev default_plugin_root : String
default_plugin_root = "/usr/lib/faultforge/plugins"

abbrev default_data_dir : String
default_data_dir = "/var/lib/faultforge"

abbrev default_master_loss_threshold_secs : ℕ
default_master_loss_threshold_secs = 30

abbrev default_invocation_timeout_secs : ℕ
default_invocation_timeout_secs = 60

pub record AgentConfig : Type 0 where
  pub master_addr : String
  pub plugin_root : String
  pub data_dir : String
  pub master_loss_threshold_secs : ℕ
  pub invocation_timeout_secs : ℕ

pub record Cli : Type 0 where
  pub config_file : Option String
  pub master_addr : Option String
  pub plugin_root : Option String
  pub data_dir : Option String
  pub master_loss_threshold_secs : Option ℕ

-- what the sources have under the keys, before serde's defaults
pub record Found : Type 0 where
  pub master_addr : Option String
  pub plugin_root : Option String
  pub data_dir : Option String
  pub master_loss_threshold_secs : Option ℕ
  pub invocation_timeout_secs : Option ℕ
  -- the error for a field that is missing
  pub missing : String

unfoldable pub builder : Cli → Builder
builder cli = record {
  defaults = [];
  file = unwrap_or cli.config_file "faultforge-agent";
  required = is_some cli.config_file;
  env_prefix = "FAULTFORGE";
  overrides =
      override_text "master_addr" cli.master_addr
      ++ override_text "plugin_root" cli.plugin_root
      ++ override_text "data_dir" cli.data_dir
      ++ override_number "master_loss_threshold_secs" cli.master_loss_threshold_secs;
}

-- `try_deserialize` with the defaults of the fields
deserialized : Loaded Found → Loaded AgentConfig
deserialized (failed e) = failed e
deserialized (config f) = elim f.master_addr [
  | none ↦ failed f.missing
  | some addr ↦ config (record {
    master_addr = addr;
    plugin_root = unwrap_or f.plugin_root default_plugin_root;
    data_dir = unwrap_or f.data_dir default_data_dir;
    master_loss_threshold_secs =
        unwrap_or f.master_loss_threshold_secs default_master_loss_threshold_secs;
    invocation_timeout_secs = unwrap_or f.invocation_timeout_secs default_invocation_timeout_secs;
  })
]

unfoldable pub load_config : (Builder → Loaded Found) → Cli → Loaded AgentConfig
unfolding deserialized
load_config build cli = deserialized (build (builder cli))
