-- ===== src/Agent/Catalog/Verified.antt =====
-- crates/agent/src/catalog.rs: what a verified plugin is, and that it stays below the plugin root.
use text.Mathlib.Text.{◌==◌ as str_eq}
use Prim.Native.Char.{Char, code}
use Prim.Native.String.{◌++◌ as concat}
use Prim.Native.String.append
use faultforge.Prelude.{
  ℕ, ◌≡◌, ◌↔◌, ◌⊎◌, refl, ap, String, true, false, not, none, [], ◌∷◌, inl, inr, eq_iff, eq_refl,
  arith, ◌==◌,
}
use faultforge.Prelude.Text.{is_free, all_bytes_mono, all_bytes-append, split, starts_with}
use faultforge.Fault.Manifest.{
  NameResult, Manifest, parse_name, is_valid_plugin_version, is_name_byte, is_version_byte,
  plugin_dir_name, validate, is_absolute, has_parent_dir,
}
use faultforge.Fault.Catalog.{CatalogError, Files, LoadedPlugin, Loaded, path_join, load_plugin}
use faultforge.Fault.Catalog.Loading.{NameResult-cases, load_plugin_iff, parsed_is_valid}
use faultforge.Agent.Catalog.{VerifiedPlugin, Resolved, resolve_verified}

abbrev pub plugin_dir : String → String → String → String
plugin_dir root name ver = path_join root (plugin_dir_name name ver)

-- The reference is well-formed, its directory exists and loads, and the digest is the expected one.
abbrev pub IsResolved : Files → String → String → String → String → VerifiedPlugin → Type 0
IsResolved files root name ver expected p =
    let dir = plugin_dir root name ver in
    (parse_name name ≡ NameResult.ok name)
    × (is_valid_plugin_version ver ≡ true)
    × (files.is_dir dir ≡ true)
    × (load_plugin files dir ≡ Loaded.ok (record { manifest = p.manifest; digest = expected }))
    × (p.digest ≡ expected)
    × (p.entrypoint ≡ path_join dir p.manifest.entrypoint)

pub Loaded-cases :
    (r : Loaded)
    → ((e : CatalogError) × (r ≡ Loaded.err e)) ⊎ ((l : LoadedPlugin) × (r ≡ Loaded.ok l))
Loaded-cases (Loaded.err e) = inl (e, refl)
Loaded-cases (Loaded.ok l) = inr (l, refl)

pub parsed_name : (s n : String) → parse_name s ≡ NameResult.ok n → n ≡ s
unfolding parse_name
parsed_name s n h = ground arith

module _ (files : Files) (root name ver expected : String) where
  IsResolved-to :
      (p : VerifiedPlugin)
      → resolve_verified files root name ver expected ≡ Resolved.ok p
      → IsResolved files root name ver expected p
  unfolding resolve_verified
  IsResolved-to p h = elim (NameResult-cases (parse_name name)) [
    | inl (e, bad) ↦ absurd (ground arith)
    | inr (n, good) ↦ elim (Loaded-cases (load_plugin files (plugin_dir root n ver))) [
      | inl (e, broken) ↦ absurd (ground arith)
      | inr (l, loads) ↦ ground (arith, parsed_name name n good, eq_iff l.digest expected)
    ]
  ]

  IsResolved-from :
      (p : VerifiedPlugin)
      → IsResolved files root name ver expected p
      → resolve_verified files root name ver expected ≡ Resolved.ok p
  unfolding resolve_verified
  IsResolved-from p (named, versioned, there, loads, digests, runs) =
      rw (resolve_verified, named, versioned, there, loads, eq_refl expected)
        (ground (arith, digests, runs))

-- A reference resolves exactly when its name and version are well-formed, the directory of that name
-- and version is there and loads, and the digest of its files is the referenced one; the plugin that
-- runs is the entrypoint of that directory's manifest.
pub resolve_verified_iff :
    (files : Files) (root name ver expected : String) (p : VerifiedPlugin)
    → (resolve_verified files root name ver expected ≡ Resolved.ok p)
      ↔ IsResolved files root name ver expected p
resolve_verified_iff files root name ver expected p =
    (IsResolved-to files root name ver expected p, IsResolved-from files root name ver expected p)

-- A text with no separator is one component.
split_free : (c : ℕ) (s : String) → is_free c s ≡ true → split c s ≡ s ∷ []
unfolding split
split_free c String.[] h = refl
split_free c (String.◌∷◌ d s) h = ground (arith, split_free c s)

named_free : (s : String) → parse_name s ≡ NameResult.ok s → is_free b'/' s ≡ true
unfolding parse_name
named_free s h =
    all_bytes_mono is_name_byte (λ c. not (c == b'/')) s (λ c k. ground arith) (ground arith)

versioned_free : (s : String) → is_valid_plugin_version s ≡ true → is_free b'/' s ≡ true
unfolding is_valid_plugin_version
versioned_free s h = all_bytes_mono is_version_byte (λ c. not (c == b'/')) s (λ c k. ground arith) h

dir_free :
    (name ver : String)
    → parse_name name ≡ NameResult.ok name
    → is_valid_plugin_version ver ≡ true
    → is_free b'/' (plugin_dir_name name ver) ≡ true
unfolding plugin_dir_name
dir_free name ver n v =
    all_bytes-append (λ c. not (c == b'/')) name (concat "@" ver) (named_free name n)
      (all_bytes-append (λ c. not (c == b'/')) "@" ver refl (versioned_free ver v))

abbrev first_code : String → ℕ
first_code String.[] = 0
first_code (String.◌∷◌ c _) = code c

dot_first : (c : Char) (t : String) → str_eq (String.◌∷◌ c t) ".." ≡ true → code c ≡ b'.'
dot_first c t h = ap first_code ((eq_iff (String.◌∷◌ c t) "..").0 h)

-- Its first character is that of the name, which is no dot.
dir_start :
    (name ver : String)
    → parse_name name ≡ NameResult.ok name
    → (is_absolute (plugin_dir_name name ver) ≡ false)
      × (str_eq (plugin_dir_name name ver) ".." ≡ false)
unfolding plugin_dir_name parse_name
dir_start String.[] ver n = absurd (ground arith)
dir_start (String.◌∷◌ c s) ver n = rw append.cons (no_dot (concat s (concat "@" ver)))
  where
    no_dot :
        (t : String)
        → (starts_with b'/' (String.◌∷◌ c t) ≡ false) × (str_eq (String.◌∷◌ c t) ".." ≡ false)
    no_dot t = ground (arith, dot_first c t)

valid_entrypoint :
    (m : Manifest)
    → validate m ≡ none
    → (is_absolute m.entrypoint ≡ false) × (has_parent_dir m.entrypoint ≡ false)
unfolding validate
valid_entrypoint m h = ground arith

-- A plugin is only ever run from its own directory below the plugin root: the directory's name is
-- one path component, not absolute and not "..", and the entrypoint's path below it is relative with
-- no ".." component. This holds for any name and version that come over the wire.
pub resolved_below_root :
    (files : Files) (root name ver expected : String) (p : VerifiedPlugin)
    → resolve_verified files root name ver expected ≡ Resolved.ok p
    → let component = plugin_dir_name name ver in
      (p.entrypoint ≡ path_join (path_join root component) p.manifest.entrypoint)
      × (split b'/' component ≡ component ∷ [])
      × (is_absolute component ≡ false)
      × (has_parent_dir component ≡ false)
      × (is_absolute p.manifest.entrypoint ≡ false)
      × (has_parent_dir p.manifest.entrypoint ≡ false)
resolved_below_root files root name ver expected p h =
    let component = plugin_dir_name name ver in
    let (named, versioned, there, loads, digests, runs) =
      IsResolved-to files root name ver expected p h in
    let loaded = (load_plugin_iff files (plugin_dir root name ver) _).0 loads in
    let (valid, _) = parsed_is_valid (files.decode loaded.text) p.manifest loaded.parses in
    let alone = split_free b'/' component (dir_free name ver named versioned) in
    let (relative, no_parent) = dir_start name ver named in
    let (below, inside) = valid_entrypoint p.manifest valid in
    (runs, alone, relative, rw (alone, no_parent) refl, below, inside)
