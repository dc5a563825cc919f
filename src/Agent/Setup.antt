-- ===== src/Agent/Setup.antt =====
-- crates/agent/src/supervisor.rs: `setup`, the checks before an instance's first invocation. The texts
-- of its errors are left out.
pub mod Accepted
pub mod Cleared
use faultforge.Prelude.{ℕ, String, Option, none, some, ltb, if◌then◌else◌}
use faultforge.Fault.Digest
use faultforge.Fault.Digest.{DigestError, DigestResult}
use faultforge.Fault.Params.{Params, ParamsError, validate_params}
use faultforge.Fault.Catalog.{Files}
use faultforge.Proto.Messages.{RunFault}
use faultforge.Agent.Catalog.{ResolveError, VerifiedPlugin, Resolved, resolve_verified}
use faultforge.Agent.Host.{TaintRecord, TaintFile, current}

pub data SetupError : Type 0 where
  tainted : (reason : String) → SetupError
  bad_digest : DigestError → SetupError
  unresolved : ResolveError → SetupError
  not_an_object : SetupError
  invalid_params : ParamsError → SetupError
  too_long : (duration_secs max_duration_secs : ℕ) → SetupError

pub data Setup : Type 0 where
  ok : VerifiedPlugin → Params → Setup
  err : SetupError → Setup

checked : RunFault → VerifiedPlugin → Params → Option ParamsError → Setup
checked run plugin params (some e) = err (invalid_params e)
checked run plugin params none =
    if ltb plugin.manifest.max_duration_secs run.duration_secs
    then err (too_long run.duration_secs plugin.manifest.max_duration_secs)
    else ok plugin params

with_params : RunFault → VerifiedPlugin → Option Params → Setup
unfolding checked
with_params run plugin none = err not_an_object
with_params run plugin (some params) =
    checked run plugin params (validate_params plugin.manifest.params_schema params)

-- `decode` stands for `serde_json::from_str` into an object.
module _ (files : Files) (decode : String → Option Params) (root : String) where
  with_plugin : RunFault → Resolved → Setup
  unfolding with_params
  with_plugin run (Resolved.err e) = err (unresolved e)
  with_plugin run (Resolved.ok plugin) = with_params run plugin (decode run.params_json)

  with_digest : RunFault → DigestResult → Setup
  unfolding with_plugin
  with_digest run (DigestResult.err e) = err (bad_digest e)
  with_digest run (DigestResult.ok expected) =
      with_plugin run (resolve_verified files root run.plugin_name run.plugin_version expected)

  untainted : RunFault → Option TaintRecord → Setup
  unfolding with_digest
  untainted run (some r) = err (tainted r.reason)
  untainted run none = with_digest run (Digest.parse run.plugin_digest)

  unfoldable pub setup : TaintFile → RunFault → Setup
  unfolding untainted
  setup taint run = untainted run (current taint)
