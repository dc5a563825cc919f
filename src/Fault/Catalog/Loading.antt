-- ===== src/Fault/Catalog/Loading.antt =====
-- crates/fault/src/catalog.rs and manifest.rs: what a loaded plugin is.
use faultforge.Prelude.{
  ℕ, ◌≡◌, ap, ◌⊎◌, ◌↔◌, refl, String, none, some, List, ◌++◌, Option-cases, inl, inr, arith,
}
use faultforge.Fault.Manifest.{
  Manifest, NameResult, PluginNameError, Decoded, raw, refused, ParsedManifest, ManifestError,
  parse_name, parse_manifest, validate,
}
use faultforge.Fault.Catalog.{
  FileRead, bytes, failed, Files, LoadedPlugin, Loaded, path_join, manifest_filename, load_plugin,
}

FileRead-cases :
    (r : FileRead) → ((why : String) × (r ≡ failed why)) ⊎ ((b : List ℕ) × (r ≡ bytes b))
FileRead-cases (failed why) = inl (why, refl)
FileRead-cases (bytes b) = inr (b, refl)

ParsedManifest-cases :
    (r : ParsedManifest)
    → ((e : ManifestError) × (r ≡ ParsedManifest.err e))
      ⊎ ((m : Manifest) × (r ≡ ParsedManifest.ok m))
ParsedManifest-cases (ParsedManifest.err e) = inl (e, refl)
ParsedManifest-cases (ParsedManifest.ok m) = inr (m, refl)

pub NameResult-cases :
    (r : NameResult)
    → ((e : PluginNameError) × (r ≡ NameResult.err e)) ⊎ ((n : String) × (r ≡ NameResult.ok n))
NameResult-cases (NameResult.err e) = inl (e, refl)
NameResult-cases (NameResult.ok n) = inr (n, refl)

-- The two files are there, the first is a valid manifest, and the digest is over their bytes.
pub record IsLoaded (files : Files) (dir : String) (l : LoadedPlugin) : Type 0 where
  pub head : List ℕ
  pub text : String
  pub body : List ℕ
  pub has_manifest : files.read (path_join dir manifest_filename) ≡ bytes head
  pub is_text : files.utf8 head ≡ some text
  pub parses : parse_manifest (files.decode text) ≡ ParsedManifest.ok l.manifest
  pub has_entrypoint : files.read (path_join dir l.manifest.entrypoint) ≡ bytes body
  pub digests : files.sha256 (head ++ body) ≡ l.digest

IsLoaded-to :
    (files : Files) (dir : String) (l : LoadedPlugin)
    → load_plugin files dir ≡ Loaded.ok l
    → IsLoaded files dir l
unfolding load_plugin
IsLoaded-to files dir l h = elim (FileRead-cases (files.read (path_join dir manifest_filename))) [
  | inl (why, lost) ↦ absurd (ground arith)
  | inr (head, found) ↦ elim (Option-cases (files.utf8 head)) [
    | inl garbled ↦ absurd (ground arith)
    | inr (text, is_text) ↦ elim (ParsedManifest-cases (parse_manifest (files.decode text))) [
      | inl (e, bad) ↦ absurd (ground arith)
      | inr (m, good) ↦ elim (FileRead-cases (files.read (path_join dir m.entrypoint))) [
        | inl (why, lost) ↦ absurd (ground arith)
        | inr (body, runs) ↦
            let same : record { manifest = m; digest = files.sha256 (head ++ body) } ≡ l =
              ground arith in
            record {
              head = head;
              text = text;
              body = body;
              has_manifest = found;
              is_text = is_text;
              parses = rw (ap (λ r. r.manifest) same) at good;
              has_entrypoint = rw (ap (λ r. r.manifest) same) at runs;
              digests = ap (λ r. r.digest) same;
            }
      ]
    ]
  ]
]

IsLoaded-from :
    (files : Files) (dir : String) (l : LoadedPlugin)
    → IsLoaded files dir l
    → load_plugin files dir ≡ Loaded.ok l
unfolding load_plugin
IsLoaded-from files dir l p =
    rw (load_plugin, p.has_manifest, p.is_text, p.parses, p.has_entrypoint, p.digests) refl

-- A directory loads as a plugin exactly when its manifest file is text that parses and validates to
-- the plugin's manifest, the entrypoint that it names can be read, and the digest is the SHA-256 of
-- the bytes of the first followed by those of the second.
pub load_plugin_iff :
    (files : Files) (dir : String) (l : LoadedPlugin)
    → (load_plugin files dir ≡ Loaded.ok l) ↔ IsLoaded files dir l
load_plugin_iff files dir l = (IsLoaded-to files dir l, IsLoaded-from files dir l)

-- A parsed manifest has a valid name and satisfies the checks.
pub parsed_is_valid :
    (d : Decoded) (m : Manifest)
    → parse_manifest d ≡ ParsedManifest.ok m
    → (validate m ≡ none) × (parse_name m.name ≡ NameResult.ok m.name)
unfolding parse_manifest parse_name
parsed_is_valid (refused why) m h = absurd (ground arith)
parsed_is_valid (raw x) m h = ground arith
