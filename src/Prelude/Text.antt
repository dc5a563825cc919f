-- ===== src/Prelude/Text.antt =====
-- Texts as the code points of their characters: `str::bytes`, `trim`, `split` and the ASCII classes.
-- The source tests bytes only for membership in ASCII sets. A character past ASCII consists of bytes
-- above 127, none of which is in such a set, and its code point is not either: the test is the same.
use Prim.Native.Char.{Char, code}
use Prim.Native.String.{String, ◌++◌}
use Prim.Native.String.append
use mathlib.Core.Bool.{Bool, true, false, not, ◌&&◌, ◌||◌}
use mathlib.Core.Path.{◌≡◌, refl}
use mathlib.Core.Option.{Option, none, some}
use native.Mathlib.Omega.{arith}
use mathlib.Core.List.{List, [], ◌∷◌}
use Prim.Native.Nat.{ℕ, ◌+◌}
use mathlib.Core.Logic.{inl, inr}
use faultforge.Prelude.Tests.{leb, ltb, ◌==◌, if◌then◌else◌, Bool-cases}

abbrev pub is_empty : String → Bool
is_empty String.[] = true
is_empty (String.◌∷◌ _ _) = false

-- `s.bytes().all(p)` for a set `p` of ASCII bytes
abbrev pub all_bytes : (ℕ → Bool) → String → Bool
all_bytes p String.[] = true
all_bytes p (String.◌∷◌ c s) = p (code c) && all_bytes p s

-- the bytes of a character in UTF-8
abbrev utf8_len : ℕ → ℕ
utf8_len c = if ltb c 128 then 1 else if ltb c 2048 then 2 else if ltb c 65536 then 3 else 4

-- `str::len`
abbrev pub byte_len : String → ℕ
byte_len String.[] = 0
byte_len (String.◌∷◌ c s) = utf8_len (code c) + byte_len s

abbrev pub is_digit : ℕ → Bool
is_digit c = leb b'0' c && leb c b'9'

abbrev pub is_lowercase : ℕ → Bool
is_lowercase c = leb b'a' c && leb c b'z'

abbrev pub is_uppercase : ℕ → Bool
is_uppercase c = leb b'A' c && leb c b'Z'

-- `u8::is_ascii_alphanumeric`
abbrev pub is_alphanumeric : ℕ → Bool
is_alphanumeric c = is_digit c || (is_lowercase c || is_uppercase c)

-- `char::is_whitespace`: the code points of Unicode's White_Space
unfoldable pub is_whitespace : ℕ → Bool
is_whitespace c =
    leb 9 c && leb c 13
    || (c == 32
        || (c == 133
            || (c == 160
                || (c == 5760
                    || (leb 8192 c && leb c 8202
                        || (c == 8232
                            || (c == 8233 || (c == 8239 || (c == 8287 || c == 12288)))))))))

trim_start : String → String
trim_start String.[] = String.[]
trim_start (String.◌∷◌ c s) =
    let rest = trim_start s in if is_whitespace (code c) then rest else String.◌∷◌ c s

trim_end : String → String
trim_end String.[] = String.[]
trim_end (String.◌∷◌ c s) =
    let t = trim_end s in if is_empty t && is_whitespace (code c) then String.[] else String.◌∷◌ c t

-- `str::trim`
unfoldable pub trim : String → String
unfolding trim_start trim_end is_whitespace
trim s = trim_end (trim_start s)

-- one more character in front of the first part
abbrev pub onto_first : Char → List String → List String
onto_first c [] = String.◌∷◌ c String.[] ∷ []
onto_first c (t ∷ ts) = String.◌∷◌ c t ∷ ts

-- `str::split(char)`
unfoldable pub split : ℕ → String → List String
split sep String.[] = String.[] ∷ []
split sep (String.◌∷◌ c s) =
    if code c == sep then String.[] ∷ split sep s else onto_first c (split sep s)

abbrev pub starts_with : ℕ → String → Bool
starts_with b String.[] = false
starts_with b (String.◌∷◌ c _) = code c == b

abbrev pub ends_with : ℕ → String → Bool
ends_with b String.[] = false
ends_with b (String.◌∷◌ c String.[]) = code c == b
ends_with b (String.◌∷◌ _ (String.◌∷◌ d s)) = ends_with b (String.◌∷◌ d s)

-- `str::split_once(char)`
unfoldable pub split_once : ℕ → String → Option (String × String)
split_once sep String.[] = none
split_once sep (String.◌∷◌ c s) =
    let rest = split_once sep s in
    if code c == sep
    then some (String.[], s)
    else elim rest [ none ↦ none | some (a, b) ↦ some (String.◌∷◌ c a, b) ]

-- No character of the text is `sep`.
abbrev pub is_free : ℕ → String → Bool
is_free sep = all_bytes λ c. not (c == sep)

-- A text splits at the separator that was put behind a part without one.
pub split_once-append :
    (c : Char) (s t : String)
    → is_free (code c) s ≡ true
    → split_once (code c) (s ++ String.◌∷◌ c t) ≡ some (s, t)
unfolding split_once
split_once-append c String.[] t h = rw append.nil (ground arith)
split_once-append c (String.◌∷◌ d s) t h = rw append.cons (ground (arith, split_once-append c s t))

pub all_bytes-append :
    (p : ℕ → Bool) (s t : String)
    → all_bytes p s ≡ true
    → all_bytes p t ≡ true
    → all_bytes p (s ++ t) ≡ true
all_bytes-append p String.[] t h k = rw append.nil k
all_bytes-append p (String.◌∷◌ d s) t h k = rw append.cons (ground (arith, all_bytes-append p s t))

pub all_bytes_mono :
    (p q : ℕ → Bool) (s : String)
    → ((c : ℕ) → p c ≡ true → q c ≡ true)
    → all_bytes p s ≡ true
    → all_bytes q s ≡ true
all_bytes_mono p q String.[] f h = refl
all_bytes_mono p q (String.◌∷◌ c s) f h = ground (arith, f (code c), all_bytes_mono p q s f)

-- No character of the text is white space.
abbrev is_solid : String → Bool
is_solid = all_bytes λ c. not (is_whitespace c)

trim_start_solid : (s : String) → is_solid s ≡ true → trim_start s ≡ s
unfolding trim_start
trim_start_solid String.[] h = refl
trim_start_solid (String.◌∷◌ c s) h = ground arith

trim_end_solid : (s : String) → is_solid s ≡ true → trim_end s ≡ s
unfolding trim_end
trim_end_solid String.[] h = refl
trim_end_solid (String.◌∷◌ c s) h = ground (arith, trim_end_solid s)

-- Trimming leaves a text without white space alone.
pub trim_solid : (s : String) → all_bytes (λ c. not (is_whitespace c)) s ≡ true → trim s ≡ s
unfolding trim
trim_solid s h = rw (trim_start_solid s h) (trim_end_solid s h)

-- What the trimming leaves begins with no white space.
trim_start-trim_end : (s : String) → trim_start (trim_end (trim_start s)) ≡ trim_end (trim_start s)
unfolding trim_start trim_end
trim_start-trim_end String.[] = refl
trim_start-trim_end (String.◌∷◌ c s) = elim (Bool-cases (is_whitespace (code c))) [
  | inl blank ↦ rw (blank) (trim_start-trim_end s)
  | inr solid ↦ ground (arith, solid)
]

trim_end-trim_end : (s : String) → trim_end (trim_end s) ≡ trim_end s
unfolding trim_end
trim_end-trim_end String.[] = refl
trim_end-trim_end (String.◌∷◌ c s) = ground (arith, trim_end-trim_end s)

-- Trimming twice is trimming.
pub trim-trim : (s : String) → trim (trim s) ≡ trim s
unfolding trim
trim-trim s = rw (trim_start-trim_end s) (trim_end-trim_end (trim_start s))
