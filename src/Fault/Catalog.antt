-- ===== src/Fault/Catalog.antt =====
-- crates/fault/src/catalog.rs: a plugin directory, and `load_plugin`. The file system, YAML and
-- SHA-256 are libraries: they are the fields of `Files`, fixed while a plugin is loaded.
pub mod Loading
use Prim.Native.String.{◌++◌ as concat}
use faultforge.Prelude.{
  ℕ, ◌≡◌, refl, String, Bool, true, false, ◌||◌, Option, none, some, List, ◌++◌, if◌then◌else◌,
}
use faultforge.Prelude.Text.{is_empty, ends_with}
use faultforge.Fault.Manifest.{
  Manifest, ManifestError, Decoded, ParsedManifest, is_absolute, parse_manifest,
}

pub data FileRead : Type 0 where
  bytes : List ℕ → FileRead
  failed : String → FileRead

pub record Files : Type 0 where
  -- `Path::is_dir`
  pub is_dir : String → Bool
  -- opening and reading a file in full
  pub read : String → FileRead
  -- `str::from_utf8`
  pub utf8 : List ℕ → Option String
  -- `serde_norway::from_str` into the raw manifest
  pub decode : String → Decoded
  -- SHA-256 in lowercase hexadecimal
  pub sha256 : List ℕ → String

-- `Path::join`, for Unix paths
unfoldable pub path_join : String → String → String
path_join base rel =
    if is_absolute rel
    then rel
    else if is_empty base || ends_with b'/' base
    then concat base rel
    else concat base (concat "/" rel)

abbrev pub manifest_filename : String
manifest_filename = "manifest.yaml"

pub data CatalogError : Type 0 where
  read_manifest read_entrypoint : (path why : String) → CatalogError
  manifest_not_utf8 : (path : String) → CatalogError
  manifest : (path : String) → ManifestError → CatalogError

pub record LoadedPlugin : Type 0 where
  pub manifest : Manifest
  pub digest : String

pub data Loaded : Type 0 where
  ok : LoadedPlugin → Loaded
  err : CatalogError → Loaded

module _ (files : Files) where
  -- `Digest::compute_streaming` of the manifest's bytes and the entrypoint's
  digested : Manifest → String → List ℕ → FileRead → Loaded
  digested m path head (failed why) = Loaded.err (read_entrypoint path why)
  digested m path head (bytes body) =
      Loaded.ok (record { manifest = m; digest = files.sha256 (head ++ body) })

  with_manifest : String → String → List ℕ → ParsedManifest → Loaded
  unfolding digested
  with_manifest dir path head (ParsedManifest.err e) = Loaded.err (CatalogError.manifest path e)
  with_manifest dir path head (ParsedManifest.ok m) =
      let entrypoint = path_join dir m.entrypoint in
      digested m entrypoint head (files.read entrypoint)

  with_text : String → String → List ℕ → Option String → Loaded
  unfolding with_manifest
  with_text dir path head none = Loaded.err (manifest_not_utf8 path)
  with_text dir path head (some text) =
      with_manifest dir path head (parse_manifest (files.decode text))

  with_bytes : String → String → FileRead → Loaded
  unfolding with_text
  with_bytes dir path (failed why) = Loaded.err (read_manifest path why)
  with_bytes dir path (bytes head) = with_text dir path head (files.utf8 head)

  unfoldable pub load_plugin : String → Loaded
  unfolding with_bytes
  load_plugin dir =
      let path = path_join dir manifest_filename in with_bytes dir path (files.read path)
