-- ===== src/Agent/Setup/Accepted.antt =====
-- crates/agent/src/supervisor.rs, `setup`, against the master's validation: what the master accepts,
-- the agent's checks let through.
use faultforge.Prelude.{
  ◌≤◌, ◌≡◌, ◌↔◌, ◌⊎◌, refl, String, Option, none, some, Option-cases, inl, inr, arith,
}
use faultforge.Fault.Digest
use faultforge.Fault.Digest.{DigestError, DigestResult, is_hex_byte, parse_iff}
use faultforge.Fault.Params.{Params, validate_params}
use faultforge.Fault.Catalog.{Files}
use faultforge.Agent.Catalog.{ResolveError, VerifiedPlugin, Resolved, resolve_verified}
use faultforge.Agent.Host.{TaintFile, current}
use faultforge.Proto.Messages.{RunFault}
use faultforge.Agent.Setup.{Setup, setup}

-- The host is not quarantined, the digest is one and the plugin resolves to it, the params decode and
-- fit its schema, and the duration is within its bound.
abbrev pub IsStartable :
    Files
    → (String → Option Params)
    → String
    → TaintFile
    → RunFault
    → VerifiedPlugin
    → Params
    → Type 0
IsStartable files decode root taint run plugin params =
    (current taint ≡ none)
    × (Digest.parse run.plugin_digest ≡ DigestResult.ok run.plugin_digest)
    × (resolve_verified files root run.plugin_name run.plugin_version run.plugin_digest
        ≡ Resolved.ok plugin)
    × (decode run.params_json ≡ some params)
    × (validate_params plugin.manifest.params_schema params ≡ none)
    × (run.duration_secs ≤ plugin.manifest.max_duration_secs)

pub Resolved-cases :
    (r : Resolved)
    → ((e : ResolveError) × (r ≡ Resolved.err e)) ⊎ ((p : VerifiedPlugin) × (r ≡ Resolved.ok p))
Resolved-cases (Resolved.err e) = inl (e, refl)
Resolved-cases (Resolved.ok p) = inr (p, refl)

DigestResult-cases :
    (r : DigestResult)
    → ((e : DigestError) × (r ≡ DigestResult.err e)) ⊎ ((d : String) × (r ≡ DigestResult.ok d))
DigestResult-cases (DigestResult.err e) = inl (e, refl)
DigestResult-cases (DigestResult.ok d) = inr (d, refl)

module _ (files : Files) (decode : String → Option Params) (root : String) (taint : TaintFile)
    (run : RunFault) where
  setup_from :
      (plugin : VerifiedPlugin) (params : Params)
      → IsStartable files decode root taint run plugin params
      → setup files decode root taint run ≡ Setup.ok plugin params
  unfolding setup
  setup_from plugin params (free, digest, resolves, decodes, fits, short) =
      rw (setup, free, digest, resolves, decodes, fits) (ground (arith, short))

  setup_to :
      (plugin : VerifiedPlugin) (params : Params)
      → setup files decode root taint run ≡ Setup.ok plugin params
      → IsStartable files decode root taint run plugin params
  unfolding setup
  setup_to plugin params h = elim (Option-cases (current taint)) [
    | inr (r, held) ↦ absurd (ground arith)
    | inl free ↦ elim (DigestResult-cases (Digest.parse run.plugin_digest)) [
      | inl (e, bad) ↦ absurd (ground arith)
      | inr (d, good) ↦
          let same = ((parse_iff run.plugin_digest d).0 good).2 in
          elim (Resolved-cases (resolve_verified files root run.plugin_name run.plugin_version d)) [
            | inl (e, bad) ↦ absurd (ground arith)
            | inr (p, resolves) ↦ elim (Option-cases (decode run.params_json)) [
              | inl bad ↦ absurd (ground arith)
              | inr (ps, decodes) ↦ ground (arith, same)
            ]
          ]
    ]
  ]

-- The setup of an instance succeeds exactly where the host is not quarantined, the referenced digest
-- is well-formed and the plugin resolves to it, the params decode and fit the plugin's schema, and the
-- duration is within the plugin's bound.
pub setup_iff :
    (files : Files) (decode : String → Option Params) (root : String) (taint : TaintFile)
    (run : RunFault) (plugin : VerifiedPlugin) (params : Params)
    → (setup files decode root taint run ≡ Setup.ok plugin params)
      ↔ IsStartable files decode root taint run plugin params
setup_iff files decode root taint run plugin params = (
  setup_to files decode root taint run plugin params,
  setup_from files decode root taint run plugin params,
)
