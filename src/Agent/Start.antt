-- ===== src/Agent/Start.antt =====
-- crates/agent/src/session.rs: the start of `run_agent`, up to its first attempt, with what outlives an attempt.
pub mod Welcome
use Prim.Native.String.{◌++◌ as cat}
use Prim.Native.Char.{code}
use Prim.Native.String
use faultforge.Prelude.{
  ℕ, String, Bool, true, false, ◌&&◌, ◌||◌, Option, none, some, List, [], ◌==◌, if◌then◌else◌,
}
use faultforge.Prelude.Int.{ℤ}
use faultforge.Prelude.Text.{is_empty, starts_with}
use faultforge.Proto.Hostname.{ParseResult, parse}
use faultforge.Proto.Hostname as Hostname
use faultforge.Proto.Messages.{AgentPayload}
use faultforge.Agent.Config.{AgentConfig}

-- what the operating system says of its host name, as `to_string_lossy` has it
pub data HostnameLookup : Type 0 where
  found : String → HostnameLookup
  unreadable : (error : String) → HostnameLookup

pub data StartError : Type 0 where
  hostname : (error : String) → StartError
  empty_hostname : StartError

pub data Result {ℓ} (A : Type ℓ) : Type ℓ where
  ok : A → Result A
  err : StartError → Result A

-- the variables of `run_agent` before its loop
pub record Started : Type 0 where
  pub hostname : String
  pub master_addr : String
  pub data_dir : String
  pub plugin_root : String
  pub invocation_timeout_secs : ℕ
  pub loss_threshold_secs : ℕ
  pub backoff : ℕ
  pub startup_frames : List AgentPayload

-- the text begins with the other one
unfoldable pub has_prefix : String → String → Bool
has_prefix String.[] s = true
has_prefix (String.◌∷◌ c p) String.[] = false
has_prefix (String.◌∷◌ c p) (String.◌∷◌ d s) = code c == code d && has_prefix p s

-- `str::contains`
unfoldable pub contains : String → String → Bool
unfolding has_prefix
contains p String.[] = is_empty p
contains p (String.◌∷◌ c s) = has_prefix p (String.◌∷◌ c s) || contains p s

unfoldable pub normalize_master_addr : String → String
unfolding contains
normalize_master_addr s = if contains "://" s then s else cat "http://" s

unfoldable with_hostname : AgentConfig → List AgentPayload → ParseResult → Result Started
unfolding normalize_master_addr
with_hostname cfg frames (Hostname.err e) = err empty_hostname
with_hostname cfg frames (Hostname.ok name) = ok (record {
  hostname = name;
  master_addr = normalize_master_addr cfg.master_addr;
  data_dir = cfg.data_dir;
  plugin_root = cfg.plugin_root;
  invocation_timeout_secs = cfg.invocation_timeout_secs;
  loss_threshold_secs = cfg.master_loss_threshold_secs;
  backoff = 1;
  startup_frames = frames;
})

-- The frames are those of the replay, or none where its task failed.
unfoldable pub start_agent :
    AgentConfig → Option (List AgentPayload) → HostnameLookup → Result Started
unfolding with_hostname
start_agent cfg replayed (unreadable e) = err (hostname e)
start_agent cfg none (found raw) = with_hostname cfg [] (parse raw)
start_agent cfg (some frames) (found raw) = with_hostname cfg frames (parse raw)
