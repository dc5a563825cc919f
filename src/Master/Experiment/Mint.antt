-- ===== src/Master/Experiment/Mint.antt =====
-- crates/master/src/experiment.rs: minting the record of an accepted definition, and its deadline.
use faultforge.Prelude.{ℕ, zero, suc, ◌+◌, ◌*◌, String, false, none, List, [], ◌∷◌, ◌++◌}
use Prim.Native.Nat.{max}
use faultforge.Prelude.Int.{ℤ, pos, ◌+ℤ◌}
use faultforge.Fault.State.{InstanceState}
use faultforge.Proto.Hostname.{parse, ok, err}
use faultforge.Master.Experiment.{
  ActionDefinition, ExperimentDefinition, InstanceRecord, Experiment, ExperimentPhase, instance_id,
}

-- the longest `duration_secs + grace_secs`, and 0 where there is no action
unfoldable pub max_window_secs : List ActionDefinition → ℕ → ℕ
max_window_secs [] grace_secs = 0
max_window_secs (a ∷ actions) grace_secs =
    max (a.duration_secs + grace_secs) (max_window_secs actions grace_secs)

unfoldable pub deadline_unix_ms : ExperimentDefinition → ℕ → ℤ → ℤ → ℤ
deadline_unix_ms definition grace_secs now_ms margin_ms =
    now_ms +ℤ pos (max_window_secs definition.actions grace_secs * 1000) +ℤ margin_ms

unfoldable pub mint_instance : String → ℤ → ℕ → String → InstanceRecord
mint_instance id now_ms action_index hostname = record {
  instance_id = instance_id id hostname action_index;
  hostname = hostname;
  action_index = action_index;
  state = InstanceState.pending;
  reason = "";
  updated_unix_ms = now_ms;
  abort_requested = false;
}

-- A hostname that does not parse is skipped.
unfoldable pub mint_hosts : String → ℤ → ℕ → List String → List InstanceRecord
mint_hosts id now_ms action_index [] = []
mint_hosts id now_ms action_index (h ∷ hs) =
    let rest = mint_hosts id now_ms action_index hs in
    elim (parse h) [
      | ok hostname ↦ mint_instance id now_ms action_index hostname ∷ rest
      | err _ ↦ rest
    ]

unfoldable pub mint_actions : String → ℤ → ℕ → List ActionDefinition → List InstanceRecord
mint_actions id now_ms action_index [] = []
mint_actions id now_ms action_index (a ∷ actions) =
    mint_hosts id now_ms action_index a.hosts ++ mint_actions id now_ms (suc action_index) actions

unfoldable pub mint_experiment : String → ExperimentDefinition → ℕ → ℤ → ℤ → Experiment
mint_experiment id definition grace_secs now_ms deadline_margin_ms = record {
  id = id;
  definition = definition;
  grace_secs = grace_secs;
  started_unix_ms = now_ms;
  deadline_unix_ms = deadline_unix_ms definition grace_secs now_ms deadline_margin_ms;
  phase = ExperimentPhase.running;
  instances = mint_actions id now_ms zero definition.actions;
  tainted_hosts = [];
  cause = none;
}
