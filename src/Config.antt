-- ===== src/Config.antt =====
-- The builder of the `config` crate, as crates/master/src/config.rs and crates/agent/src/config.rs fill it.
-- What it makes of its sources is a parameter.
use faultforge.Prelude.{ℕ, String, Bool, Option, none, some, List, [], ◌∷◌}
use faultforge.Prelude.Int.{ℤ, pos}

pub data Value : Type 0 where
  text : String → Value
  number : ℤ → Value

-- the sources, the weakest first; the file's name has no extension
pub record Builder : Type 0 where
  pub defaults : List (String × Value)
  pub file : String
  pub required : Bool
  pub env_prefix : String
  pub overrides : List (String × Value)

pub data Loaded {ℓ} (A : Type ℓ) : Type ℓ where
  config : A → Loaded A
  failed : (message : String) → Loaded A

-- `set_override` of an argument, where it was given
abbrev pub override_text : String → Option String → List (String × Value)
override_text key none = []
override_text key (some s) = (key, text s) ∷ []

abbrev pub override_number : String → Option ℕ → List (String × Value)
override_number key none = []
override_number key (some n) = (key, number (pos n)) ∷ []

-- `Option::unwrap_or`
abbrev pub unwrap_or {ℓ} : {A : Type ℓ} → Option A → A → A
unwrap_or none a = a
unwrap_or (some b) a = b
