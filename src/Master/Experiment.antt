-- ===== src/Master/Experiment.antt =====
-- crates/master/src/experiment.rs: the types of the experiment domain. The children hold its
-- functions (`Validate`, `Mint`, `Record`) and what is proved of them.
pub mod Validate
pub mod Mint
pub mod Record
pub mod Outcome
pub mod Acceptable
pub mod Ids
use Prim.Native.String.{◌++◌}
use faultforge.Prelude.{
  ℕ, String, Bool, true, false, ◌&&◌, ◌||◌, not, List, Option, none, some, ◌==◌, if◌then◌else◌,
}
use faultforge.Prelude.Decimal.{show, show_ℤ}
use faultforge.Prelude.Int.{ℤ, pos}
use faultforge.Prelude.Text.{is_empty, all_bytes, is_alphanumeric, split_once}
use faultforge.Fault.Params.{Params}
use faultforge.Fault.State.{InstanceState}

-- `DEADLINE_MARGIN_MS`
abbrev pub deadline_margin_ms : ℤ
deadline_margin_ms = pos 30000

pub record PluginRef : Type 0 where
  pub name : String
  pub version : String

-- `duration_secs` is a `u32`
pub record ActionDefinition : Type 0 where
  pub hosts : List String
  pub plugin : PluginRef
  pub params : Params
  pub duration_secs : ℕ

pub record ExperimentDefinition : Type 0 where
  pub name : String
  pub actions : List ActionDefinition

-- `ExperimentId::mint`; the newtype is its text
unfoldable pub mint_id : ℤ → ℕ → String
mint_id now_ms seq = "exp-" ++ (show_ℤ now_ms ++ ("-" ++ show seq))

unfoldable pub instance_id : String → String → ℕ → String
instance_id experiment hostname action_index =
    experiment ++ (":" ++ (hostname ++ (":" ++ show action_index)))

owner : Option (String × String) → Option String
owner none = none
owner (some (experiment, rest)) =
    if is_empty experiment || is_empty rest then none else some experiment

-- `owning_experiment_id` of crates/master/src/dispatch.rs
unfoldable pub owning_experiment_id : String → Option String
unfolding owner
owning_experiment_id instance_id = owner (split_once b':' instance_id)

abbrev pub is_id_byte : ℕ → Bool
is_id_byte b = is_alphanumeric b || (b == b'.' || (b == b'_' || b == b'-'))

unfoldable pub hostname_id_safe : String → Bool
hostname_id_safe hostname = not (is_empty hostname) && all_bytes is_id_byte hostname

pub record HostFacts : Type 0 where
  pub registered : Bool
  pub connected : Bool
  pub tainted : Bool

pub data ValidationFailure : Type 0 where
  no_actions : ValidationFailure
  no_hosts zero_duration : (action : ℕ) → ValidationFailure
  unknown_plugin : (action : ℕ) (name version : String) → ValidationFailure
  invalid_params : (action : ℕ) (reason : String) → ValidationFailure
  duration_over_max : (action duration_secs max_secs : ℕ) → ValidationFailure
  hostname_not_id_safe duplicate_host host_unknown host_disconnected host_tainted :
      (action : ℕ) (hostname : String) → ValidationFailure

pub record Cause : Type 0 where
  pub hostname : Option String
  pub instance_id : Option String
  pub reason : String
  pub ts_unix_ms : ℤ

pub data ExperimentOutcome : Type 0 where
  completed aborted error : ExperimentOutcome

pub data ExperimentPhase : Type 0 where
  running halting : ExperimentPhase
  concluded : ExperimentOutcome → ExperimentPhase

pub record InstanceRecord : Type 0 where
  pub instance_id : String
  pub hostname : String
  pub action_index : ℕ
  pub state : InstanceState
  pub reason : String
  pub updated_unix_ms : ℤ
  pub abort_requested : Bool

-- `InstanceRecord::is_terminal`, on the record's state
abbrev pub is_terminal_state : InstanceState → Bool
is_terminal_state InstanceState.done = true
is_terminal_state InstanceState.aborted = true
is_terminal_state InstanceState.error = true
is_terminal_state _ = false

abbrev pub is_terminal : InstanceRecord → Bool
is_terminal r = is_terminal_state r.state

pub record TaintedHost : Type 0 where
  pub hostname : String
  pub reason : String
  pub ts_unix_ms : ℤ

pub record Experiment : Type 0 where
  pub id : String
  pub definition : ExperimentDefinition
  pub grace_secs : ℕ
  pub started_unix_ms : ℤ
  pub deadline_unix_ms : ℤ
  pub phase : ExperimentPhase
  pub instances : List InstanceRecord
  pub tainted_hosts : List TaintedHost
  pub cause : Option Cause

-- `Experiment::is_concluded`, on the phase
abbrev pub is_concluded_phase : ExperimentPhase → Bool
is_concluded_phase (ExperimentPhase.concluded _) = true
is_concluded_phase _ = false

abbrev pub is_concluded : Experiment → Bool
is_concluded e = is_concluded_phase e.phase

-- `self.phase == ExperimentPhase::Running`
abbrev pub is_running_phase : ExperimentPhase → Bool
is_running_phase ExperimentPhase.running = true
is_running_phase _ = false
