-- ===== src/Agent/Setup/Cleared.antt =====
-- crates/agent/src/supervisor.rs: what an answer to ClearTaint means for the instances after it.
use faultforge.Prelude.{
  ◌≡◌, ◌≢◌, ◌⊎◌, inl, inr, refl, String, Bool, true, false, Option, none, some, arith,
}
use faultforge.Fault.Params.{Params, ParamsError}
use faultforge.Fault.Catalog.{Files}
use faultforge.Fault.Digest
use faultforge.Fault.Digest.{DigestResult}
use faultforge.Proto.Messages.{RunFault}
use faultforge.Agent.Catalog.{VerifiedPlugin, Resolved}
use faultforge.Agent.Host.{TaintRecord, TaintFile, current, clear}
use faultforge.Agent.Supervisor.{taint_status, taint_status_frame}
use faultforge.Agent.Quarantine.{Removal, lost, ran, handle_clear_taint}
use faultforge.Agent.Setup.{
  Setup, err, tainted, checked, with_params, with_plugin, with_digest, untainted, setup,
}

-- The setup is refused because of a taint.
abbrev refuses : Setup → Bool
refuses (err (tainted why)) = true
refuses _ = false

refuses-checked :
    (run : RunFault) (plugin : VerifiedPlugin) (params : Params) (e : Option ParamsError)
    → refuses (checked run plugin params e) ≡ false
unfolding checked
refuses-checked run plugin params (some e) = refl
refuses-checked run plugin params none = ground arith

module _ (files : Files) (decode : String → Option Params) (root : String) (run : RunFault) where
  refuses-with_params :
      (plugin : VerifiedPlugin) (params : Option Params)
      → refuses (with_params run plugin params) ≡ false
  unfolding with_params
  refuses-with_params plugin none = refl
  refuses-with_params plugin (some params) = refuses-checked run plugin params _

  refuses-with_plugin : (r : Resolved) → refuses (with_plugin files decode root run r) ≡ false
  unfolding with_plugin
  refuses-with_plugin (Resolved.err e) = refl
  refuses-with_plugin (Resolved.ok plugin) = refuses-with_params plugin (decode run.params_json)

  refuses-with_digest : (r : DigestResult) → refuses (with_digest files decode root run r) ≡ false
  unfolding with_digest
  refuses-with_digest (DigestResult.err e) = refl
  refuses-with_digest (DigestResult.ok expected) = refuses-with_plugin _

  -- After the answer to ClearTaint: if it says that the host is clean, no instance is refused for a taint;
  -- otherwise it says why not, and if the host was tainted, every instance is refused for the same taint
  -- as before.
  pub clear_governs :
      (removal : Removal) (file : TaintFile)
      → let (after, answer) = handle_clear_taint removal file in
        ((answer ≡ taint_status false "")
          × ((why : String) → setup files decode root after run ≢ err (tainted why)))
        ⊎ ((why : String) × ((answer ≡ taint_status true why)
              × ((r : TaintRecord)
                  → current file ≡ some r
                  → setup files decode root after run ≡ err (tainted r.reason))))
  unfolding handle_clear_taint clear current taint_status_frame setup untainted
  clear_governs (ran none) file = inl (
    refl,
    λ why same. absurd (ground (arith, refuses-with_digest (Digest.parse run.plugin_digest))),
  )
  clear_governs (ran (some e)) file = inr (_, (refl, λ r there. rw there refl))
  clear_governs (lost e) file = inr (_, (refl, λ r there. rw there refl))
