-- ===== src/Master/Catalog.antt =====
-- crates/master/src/catalog.rs: the loaded plugins by name and version.
pub mod Agreed
use text.Mathlib.Text.{◌==◌ as str_eq}
use faultforge.Prelude.{String, ◌&&◌, Option, none, some, List, [], ◌∷◌, if◌then◌else◌}
use faultforge.Fault.Manifest.{Manifest, plugin_dir_name}
use faultforge.Fault.Catalog.{Files, LoadedPlugin, Loaded, path_join, load_plugin}

pub record CatalogEntry : Type 0 where
  pub manifest : Manifest
  pub digest : String

abbrev pub Catalog : Type 0
Catalog = List ((String × String) × CatalogEntry)

-- `Catalog::get`
unfoldable pub get : Catalog → String → String → Option CatalogEntry
get [] name version = none
get (((n, v), entry) ∷ entries) name version =
    if str_eq n name && str_eq v version then some entry else get entries name version

-- `HashMap::insert`
unfoldable pub insert : Catalog → String → String → CatalogEntry → Catalog
insert [] name version entry = ((name, version), entry) ∷ []
insert (((n, v), e) ∷ entries) name version entry =
    if str_eq n name && str_eq v version
    then ((name, version), entry) ∷ entries
    else ((n, v), e) ∷ insert entries name version entry

-- What listing the catalog root yields: an entry that cannot be read, or one with a file name, which
-- may be no text.
pub data DirEntry : Type 0 where
  unreadable foreign : DirEntry
  named : String → DirEntry

module _ (files : Files) (root : String) where
  -- the arms of the loop's last `match`
  add_loaded : Catalog → String → Loaded → Catalog
  add_loaded entries file_name (Loaded.err _) = entries
  add_loaded entries file_name (Loaded.ok l) =
      if str_eq file_name (plugin_dir_name l.manifest.name l.manifest.version)
      then insert entries l.manifest.name l.manifest.version
          (record { manifest = l.manifest; digest = l.digest })
      else entries

  -- one round of the loop; a foreign name equals no identity
  unfoldable pub load_entry : Catalog → DirEntry → Catalog
  unfolding add_loaded
  load_entry entries unreadable = entries
  load_entry entries foreign = entries
  load_entry entries (named file_name) =
      let path = path_join root file_name in
      if files.is_dir path then add_loaded entries file_name (load_plugin files path) else entries

  unfoldable pub load_entries : Catalog → List DirEntry → Catalog
  load_entries entries [] = entries
  load_entries entries (e ∷ es) = load_entries (load_entry entries e) es

  -- `load_catalog`, where `none` is a root that cannot be listed
  unfoldable pub load_catalog : Option (List DirEntry) → Catalog
  load_catalog none = []
  load_catalog (some dir_entries) = load_entries [] dir_entries
