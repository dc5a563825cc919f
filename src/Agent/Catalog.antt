-- ===== src/Agent/Catalog.antt =====
-- crates/agent/src/catalog.rs: the plugin of a referenced digest, verified before each invocation.
pub mod Verified
use text.Mathlib.Text.{◌==◌ as str_eq}
use faultforge.Prelude.{String, Bool, true, false, not, if◌then◌else◌}
use faultforge.Fault.Manifest.{
  PluginNameError, NameResult, Manifest, parse_name, is_valid_plugin_version, plugin_dir_name,
}
use faultforge.Fault.Catalog.{CatalogError, Files, LoadedPlugin, Loaded, path_join, load_plugin}

pub data ResolveError : Type 0 where
  name : PluginNameError → ResolveError
  version : String → ResolveError
  not_found : (path : String) → ResolveError
  load : CatalogError → ResolveError
  digest_mismatch : (expected computed : String) → ResolveError

pub record VerifiedPlugin : Type 0 where
  pub entrypoint : String
  pub manifest : Manifest
  pub digest : String

pub data Resolved : Type 0 where
  ok : VerifiedPlugin → Resolved
  err : ResolveError → Resolved

module _ (files : Files) where
  compared : String → String → Loaded → Resolved
  compared dir expected (Loaded.err e) = Resolved.err (load e)
  compared dir expected (Loaded.ok loaded) =
      if not (str_eq loaded.digest expected)
      then Resolved.err (digest_mismatch expected loaded.digest)
      else Resolved.ok (record {
        entrypoint = path_join dir loaded.manifest.entrypoint;
        manifest = loaded.manifest;
        digest = loaded.digest;
      })

  under_root : String → String → String → NameResult → Resolved
  unfolding compared
  under_root root ver expected (NameResult.err e) = Resolved.err (name e)
  under_root root ver expected (NameResult.ok n) =
      if not (is_valid_plugin_version ver)
      then Resolved.err (version ver)
      else let dir = path_join root (plugin_dir_name n ver) in
        if not (files.is_dir dir)
        then Resolved.err (not_found dir)
        else compared dir expected (load_plugin files dir)

  unfoldable pub resolve_verified : (root plugin_name plugin_version expected : String) → Resolved
  unfolding under_root
  resolve_verified root plugin_name plugin_version expected =
      under_root root plugin_version expected (parse_name plugin_name)
