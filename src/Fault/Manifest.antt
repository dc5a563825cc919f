-- ===== src/Fault/Manifest.antt =====
-- crates/fault/src/manifest.rs: plugin names, versions, and the validated manifest.
use Prim.Native.String.{◌++◌}
use text.Mathlib.Text.{◌==◌ as str_eq}
use faultforge.Prelude.{ℕ, String, Bool, ◌||◌, List, Option, none, some, any, ◌==◌, if◌then◌else◌}
use faultforge.Prelude.Text.{
  is_empty, all_bytes, is_alphanumeric, is_lowercase, is_digit, split, starts_with,
}
use faultforge.Fault.Params.{ParamsSchema}

pub data PluginNameError : Type 0 where
  empty : PluginNameError
  invalid_char : String → PluginNameError

pub data NameResult : Type 0 where
  ok : String → NameResult
  err : PluginNameError → NameResult

abbrev pub is_name_byte : ℕ → Bool
is_name_byte b = is_lowercase b || (is_digit b || b == b'-')

-- `PluginName::parse`
unfoldable pub parse_name : String → NameResult
parse_name s =
    if is_empty s
    then err empty
    else if all_bytes is_name_byte s
    then ok s
    else err (invalid_char s)

abbrev pub is_version_byte : ℕ → Bool
is_version_byte b = is_alphanumeric b || (b == b'.' || (b == b'_' || (b == b'+' || b == b'-')))

unfoldable pub is_valid_plugin_version : String → Bool
is_valid_plugin_version version = all_bytes is_version_byte version

pub record Requires : Type 0 where
  pub binaries : List String
  pub privileges : List String
  pub preconditions : List String

pub record Manifest : Type 0 where
  pub name : String
  pub version : String
  pub entrypoint : String
  pub params_schema : ParamsSchema
  pub requires : Requires
  pub max_duration_secs : ℕ

pub data ManifestError : Type 0 where
  malformed : String → ManifestError
  entrypoint_empty version_empty zero_duration : ManifestError
  entrypoint_not_relative entrypoint_escapes version_invalid_char : String → ManifestError

-- `Path::is_absolute`, and `Path::components` reading a `..` part, for Unix paths
abbrev pub is_absolute : String → Bool
is_absolute path = starts_with b'/' path

abbrev pub has_parent_dir : String → Bool
has_parent_dir path = any (λ part. str_eq part "..") (split b'/' path)

-- `Manifest::validate`, where `none` is `Ok(())`
unfoldable pub validate : Manifest → Option ManifestError
validate m =
    if is_empty m.entrypoint
    then some entrypoint_empty
    else if is_absolute m.entrypoint
    then some (entrypoint_not_relative m.entrypoint)
    else if has_parent_dir m.entrypoint
    then some (entrypoint_escapes m.entrypoint)
    else if is_empty m.version
    then some version_empty
    else if is_valid_plugin_version m.version
    then (if m.max_duration_secs == 0 then some zero_duration else none)
    else some (version_invalid_char m.version)

-- What `serde_norway` makes of a text: the raw fields, or its complaint.
pub data Decoded : Type 0 where
  raw : Manifest → Decoded
  refused : String → Decoded

pub data ParsedManifest : Type 0 where
  ok : Manifest → ParsedManifest
  err : ManifestError → ParsedManifest

validated : Manifest → Option ManifestError → ParsedManifest
validated m none = ParsedManifest.ok m
validated m (some e) = ParsedManifest.err e

-- the name goes through `PluginName::parse` while it is decoded
with_name : Manifest → NameResult → ParsedManifest
unfolding validated
with_name m (NameResult.err _) = ParsedManifest.err (malformed "name")
with_name m (NameResult.ok name) =
    let named : Manifest = record m { name = name } in validated named (validate named)

-- `Manifest::parse`, on what was decoded
unfoldable pub parse_manifest : Decoded → ParsedManifest
unfolding with_name
parse_manifest (refused why) = ParsedManifest.err (malformed why)
parse_manifest (raw m) = with_name m (parse_name m.name)

-- `Manifest::identity`, and `plugin_dir_name` of crates/fault/src/catalog.rs
unfoldable pub plugin_dir_name : String → String → String
plugin_dir_name name version = name ++ ("@" ++ version)
