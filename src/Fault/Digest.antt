-- ===== src/Fault/Digest.antt =====
-- crates/fault/src/digest.rs: the textual form of a plugin digest. SHA-256 is a library: the client
-- takes what it computes as an argument.
use faultforge.Prelude.{
  ℕ, ◌≡◌, ◌↔◌, String, Bool, true, not, ◌&&◌, ◌||◌, leb, ◌==◌, if◌then◌else◌, arith,
}
use faultforge.Prelude.Text.{all_bytes, byte_len, is_digit}

pub data DigestError : Type 0 where
  wrong_length : ℕ → DigestError
  not_lowercase_hex : DigestError

pub data DigestResult : Type 0 where
  ok : String → DigestResult
  err : DigestError → DigestResult

abbrev pub is_hex_byte : ℕ → Bool
is_hex_byte b = is_digit b || leb b'a' b && leb b b'f'

-- `Digest::parse`; the newtype is its text
unfoldable pub parse : String → DigestResult
parse s =
    if not (byte_len s == 64)
    then err (wrong_length (byte_len s))
    else if not (all_bytes is_hex_byte s)
    then err not_lowercase_hex
    else ok s

-- A text parses, to itself, exactly when it is 64 bytes of lowercase hexadecimal.
pub parse_iff :
    (s t : String)
    → (parse s ≡ ok t) ↔ ((byte_len s ≡ 64) × (all_bytes is_hex_byte s ≡ true) × (t ≡ s))
unfolding parse
parse_iff s t = (λ h. ground arith, λ h. ground (arith, h.0, h.1, h.2))
