-- ===== src/Master/Experiment/Acceptable.antt =====
-- What an experiment must satisfy to be accepted, stated apart from the code, and that `validate`
-- accepts exactly that.
use faultforge.Prelude.{
  ℕ, suc, ◌≤◌, ◌≡◌, ◌≢◌, ◌↔◌, refl, String, true, false, Option, none, some, List, [], ◌∷◌, All,
  IsDistinct, eq_iff, arith,
}
use mathlib.Core.List.{append-eq-nil_iff}
use faultforge.Prelude.Dict.{get}
use faultforge.Fault.Params.{validate_params}
use faultforge.Master.Catalog
use faultforge.Master.Catalog.{Catalog, CatalogEntry}
use faultforge.Master.Experiment.{
  ActionDefinition, ExperimentDefinition, HostFacts, hostname_id_safe,
}
use faultforge.Master.Experiment.Validate.{
  facts_of, contains, hosts_failures, action_failures, actions_failures, validate,
}

-- A target is safe in an id, registered, connected and not quarantined.
abbrev pub IsReady : List (String × HostFacts) → String → Type 0
IsReady facts h =
    let f = facts_of (get h facts) in
    (hostname_id_safe h ≡ true) × (f.registered ≡ true) × (f.connected ≡ true) × (f.tainted ≡ false)

-- The plugin is in the catalog, takes the params, and allows the duration.
abbrev pub IsRunnable : Option CatalogEntry → ActionDefinition → Type 0
IsRunnable none def = ⊥
IsRunnable (some entry) def =
    (validate_params entry.manifest.params_schema def.params ≡ none)
    × (def.duration_secs ≤ entry.manifest.max_duration_secs)

abbrev pub IsActionOk : Catalog → List (String × HostFacts) → ActionDefinition → Type 0
IsActionOk catalog facts def =
    (def.hosts ≢ [])
    × IsRunnable (Catalog.get catalog def.plugin.name def.plugin.version) def
    × (def.duration_secs ≢ 0)
    × All (IsReady facts) def.hosts
    × IsDistinct def.hosts

abbrev pub IsAcceptable : ExperimentDefinition → Catalog → List (String × HostFacts) → Type 0
IsAcceptable definition catalog facts =
    (definition.actions ≢ []) × All (IsActionOk catalog facts) definition.actions

abbrev Unseen : List String → List String → Type 0
Unseen seen = All λ h. contains h seen ≡ false

Unseen-cons :
    (h : String) (seen hs : List String)
    → All (λ y. h ≢ y) hs
    → Unseen seen hs
    → Unseen (h ∷ seen) hs
Unseen-cons h seen [] d u = tt
Unseen-cons h seen (x ∷ hs) d u = (ground (arith, eq_iff h x, d.0), Unseen-cons h seen hs d.1 u.1)

Unseen-uncons :
    (h : String) (seen hs : List String)
    → Unseen (h ∷ seen) hs
    → All (λ y. h ≢ y) hs × Unseen seen hs
Unseen-uncons h seen [] u = (tt, tt)
Unseen-uncons h seen (x ∷ hs) u =
    let (d, u') = Unseen-uncons h seen hs u.1 in
    ((ground (arith, eq_iff h x), d), (ground arith, u'))

module _ (action : ℕ) (facts : List (String × HostFacts)) where
  hosts_head :
      (seen : List String) (x : String) (xs : List String)
      → hosts_failures action facts seen (x ∷ xs) ≡ []
      → (contains x seen ≡ false)
        × IsReady facts x
        × (hosts_failures action facts (x ∷ seen) xs ≡ [])
  unfolding hosts_failures
  hosts_head seen x xs h = ground arith

  hosts_sound :
      (seen hs : List String)
      → hosts_failures action facts seen hs ≡ []
      → All (IsReady facts) hs × IsDistinct hs × Unseen seen hs
  unfolding hosts_failures
  hosts_sound seen [] h = (tt, tt, tt)
  hosts_sound seen (x ∷ xs) h =
      let (new, ready, rest) = hosts_head seen x xs h in
      let (all_ready, distinct, unseen) = hosts_sound (x ∷ seen) xs rest in
      let (apart, unseen') = Unseen-uncons x seen xs unseen in
      ((ready, all_ready), (apart, distinct), (new, unseen'))

  hosts_complete :
      (seen hs : List String)
      → All (IsReady facts) hs
      → IsDistinct hs
      → Unseen seen hs
      → hosts_failures action facts seen hs ≡ []
  unfolding hosts_failures
  hosts_complete seen [] r d u = refl
  hosts_complete seen (x ∷ xs) r d u =
      ground (arith, r.0, u.0, hosts_complete (x ∷ seen) xs r.1 d.1 (Unseen-cons x seen xs d.0 u.1))

Unseen-nil : (hs : List String) → Unseen [] hs
Unseen-nil [] = tt
Unseen-nil (h ∷ hs) = (refl, Unseen-nil hs)

module _ (catalog : Catalog) (facts : List (String × HostFacts)) where
  action_sound :
      (action : ℕ) (def : ActionDefinition)
      → action_failures action catalog facts def ≡ []
      → IsActionOk catalog facts def
  unfolding action_failures
  action_sound action def h = ground (arith, hosts_sound action facts [] def.hosts)

  action_complete :
      (action : ℕ) (def : ActionDefinition)
      → IsActionOk catalog facts def
      → action_failures action catalog facts def ≡ []
  unfolding action_failures
  action_complete action def (some_host, runs, lasts, ready, distinct) = ground (
    arith,
    some_host,
    runs,
    hosts_complete action facts [] def.hosts ready distinct (Unseen-nil def.hosts),
  )

  actions_sound :
      (action : ℕ) (defs : List ActionDefinition)
      → actions_failures action catalog facts defs ≡ []
      → All (IsActionOk catalog facts) defs
  unfolding actions_failures
  actions_sound action [] h = tt
  actions_sound action (def ∷ defs) h =
      let (here, there) = append-eq-nil_iff.0 h in
      (action_sound action def here, actions_sound (suc action) defs there)

  actions_complete :
      (action : ℕ) (defs : List ActionDefinition)
      → All (IsActionOk catalog facts) defs
      → actions_failures action catalog facts defs ≡ []
  unfolding actions_failures
  actions_complete action [] h = refl
  actions_complete action (def ∷ defs) (here, there) =
      append-eq-nil_iff.1
        (action_complete action def here, actions_complete (suc action) defs there)

-- `validate` finds no failure exactly when the experiment is acceptable: it has actions, and each
-- has hosts, a catalog plugin that takes its params and allows its positive duration, and distinct
-- targets that are id-safe, registered, connected and untainted.
pub validate_iff :
    (definition : ExperimentDefinition) (catalog : Catalog) (facts : List (String × HostFacts))
    → (validate definition catalog facts ≡ []) ↔ IsAcceptable definition catalog facts
unfolding validate
validate_iff definition catalog facts = (
  λ h. ground (arith, actions_sound catalog facts 0 definition.actions),
  λ ok. ground (arith, ok.0, actions_complete catalog facts 0 definition.actions ok.1),
)
