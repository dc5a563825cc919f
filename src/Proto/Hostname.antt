-- ===== src/Proto/Hostname.antt =====
-- crates/proto/src/lib.rs: `Hostname::parse` and its label rule.
use faultforge.Prelude.{
  Bool-cases, Option-cases, inl, inr, ◌∙◌, ap, ◌≡◌, ℕ, String, Bool, not, ◌&&◌, ◌||◌, List, [], ◌∷◌,
  Option, none, some, leb, ltb, ◌==◌, if◌then◌else◌,
}
use faultforge.Prelude.Text.{
  trim-trim, is_empty, byte_len, all_bytes, is_alphanumeric, trim, split, starts_with, ends_with,
}

pub data HostnameError : Type 0 where
  empty : HostnameError
  too_long : ℕ → HostnameError
  invalid_label : String → HostnameError

pub data ParseResult : Type 0 where
  ok : String → ParseResult
  err : HostnameError → ParseResult

abbrev pub max_hostname_len : ℕ
max_hostname_len = 253

abbrev pub max_label_len : ℕ
max_label_len = 63

abbrev pub is_label_byte : ℕ → Bool
is_label_byte b = is_alphanumeric b || b == b'-'

unfoldable pub is_label : String → Bool
is_label label =
    leb 1 (byte_len label)
    && leb (byte_len label) max_label_len
    && not (starts_with b'-' label)
    && not (ends_with b'-' label)
    && all_bytes is_label_byte label

-- `validate_label`, where `none` is `Ok(())`
unfoldable pub validate_label : String → Option HostnameError
unfolding is_label
validate_label label = if is_label label then none else some (invalid_label label)

-- the `for` loop of `Hostname::parse`: the first bad label ends it
unfoldable pub validate_labels : List String → Option HostnameError
unfolding validate_label
validate_labels [] = none
validate_labels (label ∷ labels) = elim (validate_label label) [
  | some e ↦ some e
  | none ↦ validate_labels labels
]

parse_trimmed : String → ParseResult
parse_trimmed s =
    if is_empty s
    then err empty
    else if ltb max_hostname_len (byte_len s)
    then err (too_long (byte_len s))
    else elim (validate_labels (split b'.' s)) [ some e ↦ err e | none ↦ ok s ]

-- `Hostname::parse`
unfoldable pub parse : String → ParseResult
unfolding parse_trimmed
parse s = parse_trimmed (trim s)

trimmed-same : (t h : String) → parse_trimmed t ≡ ok h → h ≡ t
unfolding parse_trimmed
trimmed-same t h is = elim (Bool-cases (is_empty t)) [
  | inl nought ↦ absurd (let bad : err empty ≡ ok h = rw (nought, parse_trimmed) at is in cc)
  | inr filled ↦ elim (Bool-cases (ltb max_hostname_len (byte_len t))) [
    | inl long ↦ absurd (
        let bad : err (too_long (byte_len t)) ≡ ok h = rw (filled, long, parse_trimmed) at is in cc)
    | inr fits ↦ elim (Option-cases (validate_labels (split b'.' t))) [
      | inl good ↦ let same : ok t ≡ ok h = rw (filled, fits, good, parse_trimmed) at is in cc
      | inr (e, refused) ↦
          absurd (let bad : err e ≡ ok h = rw (filled, fits, refused, parse_trimmed) at is in cc)
    ]
  ]
]

-- A hostname that was parsed parses to itself.
pub parse-parse : (s h : String) → parse s ≡ ok h → parse h ≡ ok h
unfolding parse
parse-parse s h is = ap parse_trimmed (ap trim (trimmed-same (trim s) h is) ∙ trim-trim s) ∙ is
