-- ===== src/Master/Catalog/Agreed.antt =====
-- crates/master/src/catalog.rs against crates/agent/src/catalog.rs: what the master loaded, an agent
-- with the same files resolves.
use text.Mathlib.Text.{◌==◌ as str_eq}
use faultforge.Prelude.{
  ◌≡◌, refl, String, true, Option, none, some, List, [], ◌∷◌, ◌&&◌, if◌then◌else◌, Bool-cases, inl,
  inr, eq_iff, arith,
}
use faultforge.Fault.Manifest.{Manifest, plugin_dir_name, is_valid_plugin_version, validate}
use faultforge.Fault.Catalog.{Files, LoadedPlugin, Loaded, path_join, load_plugin}
use faultforge.Fault.Catalog.Loading.{load_plugin_iff, parsed_is_valid}
use faultforge.Agent.Catalog.{Resolved, resolve_verified}
use faultforge.Agent.Catalog.Verified.{plugin_dir, Loaded-cases, resolve_verified_iff}
use faultforge.Master.Catalog
use faultforge.Master.Catalog.{
  CatalogEntry, DirEntry, unreadable, foreign, named, load_entry, load_entries, load_catalog,
}

get-insert :
    (c : Catalog.Catalog) (n v m w : String) (e : CatalogEntry)
    → Catalog.get (Catalog.insert c n v e) m w
      ≡ (if str_eq n m && str_eq v w then some e else Catalog.get c m w)
unfolding Catalog.get Catalog.insert
get-insert [] n v m w e = refl
get-insert (((a, b), x) ∷ c) n v m w e = ground (
  arith,
  eq_iff n m,
  eq_iff v w,
  eq_iff a n,
  eq_iff b v,
  eq_iff a m,
  eq_iff b w,
  get-insert c n v m w e,
)

valid_version : (m : Manifest) → validate m ≡ none → is_valid_plugin_version m.version ≡ true
unfolding validate
valid_version m h = ground arith

module _ (files : Files) (root : String) where
  -- An entry of the catalog is what its own directory loads as.
  abbrev IsBacked : String → String → CatalogEntry → Type 0
  IsBacked name ver e =
      (files.is_dir (plugin_dir root name ver) ≡ true)
      × (load_plugin files (plugin_dir root name ver)
          ≡ Loaded.ok (record { manifest = e.manifest; digest = e.digest }))
      × (e.manifest.name ≡ name)
      × (e.manifest.version ≡ ver)

  abbrev AreBacked : Catalog.Catalog → Type 0
  AreBacked c =
      (name ver : String) (e : CatalogEntry) → Catalog.get c name ver ≡ some e → IsBacked name ver e

  added :
      (c : Catalog.Catalog) (l : LoadedPlugin) (file_name : String)
      → files.is_dir (path_join root file_name) ≡ true
      → load_plugin files (path_join root file_name) ≡ Loaded.ok l
      → str_eq file_name (plugin_dir_name l.manifest.name l.manifest.version) ≡ true
      → AreBacked c
      → AreBacked (
          Catalog.insert c l.manifest.name l.manifest.version
            (record { manifest = l.manifest; digest = l.digest }))
  added c l file_name there loads same ok_ name ver e found = ground (
    arith,
    get-insert c l.manifest.name l.manifest.version name ver
        (record { manifest = l.manifest; digest = l.digest }),
    eq_iff file_name (plugin_dir_name l.manifest.name l.manifest.version),
    eq_iff l.manifest.name name,
    eq_iff l.manifest.version ver,
    ok_ name ver e,
  )

  load_entry-AreBacked :
      (c : Catalog.Catalog) (d : DirEntry) → AreBacked c → AreBacked (load_entry files root c d)
  unfolding load_entry
  load_entry-AreBacked c unreadable ok_ = ok_
  load_entry-AreBacked c foreign ok_ = ok_
  load_entry-AreBacked c (named file_name) ok_ =
      elim (Bool-cases (files.is_dir (path_join root file_name))) [
        | inr missing ↦ rw (missing, load_entry) ok_
        | inl there ↦ elim (Loaded-cases (load_plugin files (path_join root file_name))) [
          | inl (e, broken) ↦ rw (there, broken, load_entry) ok_
          | inr (l, loads) ↦
              elim (Bool-cases
                (str_eq file_name (plugin_dir_name l.manifest.name l.manifest.version))) [
                  | inr other ↦ rw (there, loads, other, load_entry) ok_
                  | inl same ↦
                      rw (there, loads, same, load_entry) (added c l file_name there loads same ok_)
                ]
        ]
      ]

  load_entries-AreBacked :
      (c : Catalog.Catalog) (ds : List DirEntry)
      → AreBacked c
      → AreBacked (load_entries files root c ds)
  unfolding load_entries
  load_entries-AreBacked c [] ok_ = ok_
  load_entries-AreBacked c (d ∷ ds) ok_ =
      load_entries-AreBacked (load_entry files root c d) ds (load_entry-AreBacked c d ok_)

  load_catalog-AreBacked :
      (listing : Option (List DirEntry)) → AreBacked (load_catalog files root listing)
  unfolding load_catalog Catalog.get
  load_catalog-AreBacked none = λ name ver e found. absurd (ground arith)
  load_catalog-AreBacked (some ds) =
      load_entries-AreBacked [] ds λ name ver e found. absurd (ground arith)

-- What the master finds in its catalog, an agent with the same files below its plugin root resolves:
-- under the name and version that the master sends, and the digest of its entry, to the manifest
-- that the master validated the experiment against.
pub catalog_resolves :
    (files : Files) (root : String) (listing : Option (List DirEntry)) (name ver : String)
    (e : CatalogEntry)
    → Catalog.get (load_catalog files root listing) name ver ≡ some e
    → resolve_verified files root name ver e.digest
      ≡ Resolved.ok (record {
        entrypoint = path_join (plugin_dir root name ver) e.manifest.entrypoint;
        manifest = e.manifest;
        digest = e.digest;
      })
catalog_resolves files root listing name ver e found =
    let (there, loads, same_name, same_version) =
      load_catalog-AreBacked files root listing name ver e found in
    let loaded = (load_plugin_iff files (plugin_dir root name ver) _).0 loads in
    let (valid, well_named) = parsed_is_valid (files.decode loaded.text) e.manifest loaded.parses in
    (resolve_verified_iff files root name ver e.digest _).1 (
      rw same_name at well_named,
      rw same_version at (valid_version e.manifest valid),
      there,
      loads,
      refl,
      refl,
    )
