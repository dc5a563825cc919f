-- ===== src/Master/Experiment/Validate.antt =====
-- crates/master/src/experiment.rs: `validate`, which names every failing check.
use Prim.Native.String.{◌++◌}
use text.Mathlib.Text.{◌==◌ as str_eq}
use faultforge.Prelude.{
  ℕ, suc, String, Bool, true, false, Option, none, some, List, [], ◌∷◌, if◌then◌else◌, any, ltb,
  ◌==◌,
}
use mathlib.Core.List.{◌++◌ as append}
use faultforge.Prelude.Dict.{get}
use faultforge.Fault.Params.{
  ParamType, string, int, bool, ParamsError, missing, undeclared, type_mismatch, validate_params,
}
use faultforge.Master.Catalog
use faultforge.Master.Catalog.{Catalog, CatalogEntry}
use faultforge.Master.Experiment.{
  ActionDefinition, ExperimentDefinition, HostFacts, ValidationFailure, no_actions, no_hosts,
  unknown_plugin, invalid_params, zero_duration, duration_over_max, hostname_not_id_safe,
  duplicate_host, host_unknown, host_disconnected, host_tainted, hostname_id_safe,
}

-- `#[derive(Debug)]` of `ParamType`
show_type : ParamType → String
show_type string = "String"
show_type int = "Int"
show_type bool = "Bool"

-- `Display` of `ParamsError` (crates/fault/src/params.rs)
pub show_error : ParamsError → String
unfolding show_type
show_error (missing name) = "missing required parameter: " ++ name
show_error (undeclared name) = "undeclared parameter: " ++ name
show_error (type_mismatch name expected) =
    "parameter '" ++ (name ++ ("' has the wrong type, expected " ++ show_type expected))

-- `vec.push(failure)` where the test holds
abbrev pub push_if : Bool → ValidationFailure → List ValidationFailure → List ValidationFailure
push_if test failure rest = if test then failure ∷ rest else rest

params_failures : ℕ → Option ParamsError → List ValidationFailure → List ValidationFailure
params_failures action none rest = rest
params_failures action (some e) rest = invalid_params action (show_error e) ∷ rest

plugin_failures :
    ℕ → ActionDefinition → Option CatalogEntry → List ValidationFailure → List ValidationFailure
unfolding params_failures
plugin_failures action def none rest =
    unknown_plugin action def.plugin.name def.plugin.version ∷ rest
plugin_failures action def (some entry) rest =
    params_failures action (validate_params entry.manifest.params_schema def.params) (
      push_if (ltb entry.manifest.max_duration_secs def.duration_secs)
        (duration_over_max action def.duration_secs entry.manifest.max_duration_secs) rest)

-- `HostFacts::default()`
abbrev pub no_facts : HostFacts
no_facts = record { registered = false; connected = false; tainted = false }

abbrev pub facts_of : Option HostFacts → HostFacts
facts_of none = no_facts
facts_of (some facts) = facts

-- the checks of a host that is seen for the first time
host_failures : ℕ → String → HostFacts → List ValidationFailure → List ValidationFailure
host_failures action hostname facts rest =
    if hostname_id_safe hostname
    then (if facts.registered
        then (if facts.connected
            then (if facts.tainted then host_tainted action hostname ∷ rest else rest)
            else host_disconnected action hostname ∷ rest)
        else host_unknown action hostname ∷ rest)
    else hostname_not_id_safe action hostname ∷ rest

abbrev pub contains : String → List String → Bool
contains s = any λ t. str_eq t s

-- the loop over one action's hosts, with the set `seen`
unfoldable pub hosts_failures :
    ℕ → List (String × HostFacts) → List String → List String → List ValidationFailure
unfolding host_failures
hosts_failures action facts seen [] = []
hosts_failures action facts seen (h ∷ hs) =
    let again = hosts_failures action facts seen hs in
    let fresh = hosts_failures action facts (h ∷ seen) hs in
    if contains h seen
    then duplicate_host action h ∷ again
    else host_failures action h (facts_of (get h facts)) fresh

unfoldable pub action_failures :
    ℕ → Catalog → List (String × HostFacts) → ActionDefinition → List ValidationFailure
unfolding plugin_failures hosts_failures
action_failures action catalog facts def =
    push_if (elim def.hosts [ [] ↦ true | _ ↦ false ]) (no_hosts action)
      (plugin_failures action def (Catalog.get catalog def.plugin.name def.plugin.version) (
        push_if (def.duration_secs == 0) (zero_duration action)
          (hosts_failures action facts [] def.hosts)))

unfoldable pub actions_failures :
    ℕ → Catalog → List (String × HostFacts) → List ActionDefinition → List ValidationFailure
actions_failures action catalog facts [] = []
actions_failures action catalog facts (def ∷ defs) =
    append (action_failures action catalog facts def)
      (actions_failures (suc action) catalog facts defs)

unfoldable pub validate :
    ExperimentDefinition → Catalog → List (String × HostFacts) → List ValidationFailure
unfolding actions_failures action_failures
validate definition catalog facts =
    push_if (elim definition.actions [ [] ↦ true | _ ↦ false ]) no_actions
      (actions_failures 0 catalog facts definition.actions)
