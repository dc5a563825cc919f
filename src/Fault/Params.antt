-- ===== src/Fault/Params.antt =====
-- crates/fault/src/params.rs: the parameter schema and its validator.
use faultforge.Prelude.{
  String, Bool, true, false, Option, none, some, List, [], ◌∷◌, if◌then◌else◌, is_some,
}
use faultforge.Prelude.Int.{ℤ}
use faultforge.Prelude.Dict.{get}

pub data ParamType : Type 0 where
  string int bool : ParamType

-- serde_json's `Value`, as far as the validator tells values apart; `int` are the numbers for which
-- `is_i64` or `is_u64` holds, `float` the others.
pub data Value : Type 0 where
  null float array object : Value
  boolean : Bool → Value
  int_number : ℤ → Value
  text : String → Value

-- `ParamType::matches`
abbrev pub matches : ParamType → Value → Bool
matches string (text _) = true
matches int (int_number _) = true
matches bool (boolean _) = true
matches _ _ = false

-- A `BTreeMap` and a JSON object as lists of entries.
abbrev pub ParamsSchema : Type 0
ParamsSchema = List (String × ParamType)

abbrev pub Params : Type 0
Params = List (String × Value)

pub data ParamsError : Type 0 where
  missing undeclared : String → ParamsError
  type_mismatch : String → ParamType → ParamsError

-- the first loop: the first key that the schema lacks
unfoldable pub check_declared : ParamsSchema → Params → Option ParamsError
check_declared schema [] = none
check_declared schema ((key, _) ∷ params) =
    if is_some (get key schema) then check_declared schema params else some (undeclared key)

check_value : String → ParamType → Option Value → Option ParamsError
check_value name expected none = some (missing name)
check_value name expected (some value) =
    if matches expected value then none else some (type_mismatch name expected)

-- the second loop: the first declared name with no value of its type
unfoldable pub check_supplied : Params → ParamsSchema → Option ParamsError
unfolding check_value
check_supplied params [] = none
check_supplied params ((name, expected) ∷ schema) =
    let rest = check_supplied params schema in
    elim (check_value name expected (get name params)) [ some e ↦ some e | none ↦ rest ]

-- `none` is `Ok(())`
unfoldable pub validate_params : ParamsSchema → Params → Option ParamsError
validate_params schema params = elim (check_declared schema params) [
  | some e ↦ some e
  | none ↦ check_supplied params schema
]
