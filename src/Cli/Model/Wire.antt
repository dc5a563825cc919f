-- ===== src/Cli/Model/Wire.antt =====
-- crates/cli/src/api/model.rs: an agent as the JSON has it, and as the program has it.
use faultforge.Prelude.{
  ℕ, ◌*◌, ◌+◌, ◌/◌, ◌≤◌, ◌<◌, ◌≡◌, ◌⊎◌, refl, ap, Bool-cases, inl, inr, if◌then◌else◌, arith,
}
use faultforge.Prelude.Int.{ℤ, pos, negsuc, ltb_ℤ, i64_max}
use faultforge.Cli.Model.{Agent, clamp_past, as_millis, agent_from_wire, wire_from_agent}

-- What the JSON keeps of a time: its last whole millisecond, the epoch for a time before it, and the last
-- millisecond that 64 bits count for a time past that one.
abbrev pub IsTruncated : ℤ → ℤ → Type 0
IsTruncated (negsuc n) t = t ≡ pos 0
IsTruncated (pos ns) t =
    ((ms : ℕ) × (t ≡ pos (ms * 1000000))
      × (ms ≤ 9223372036854775807)
      × (ms * 1000000 ≤ ns)
      × (ns < ms * 1000000 + 1000000))
    ⊎ ((9223372036854775808 * 1000000 ≤ ns) × (t ≡ pos (9223372036854775807 * 1000000)))

-- the time that a trip gives
abbrev trip : ℤ → ℤ
trip t = clamp_past (if ltb_ℤ i64_max (as_millis t) then i64_max else as_millis t)

trip-IsTruncated : (t : ℤ) → IsTruncated t (trip t)
trip-IsTruncated (pos ns) = elim (Bool-cases (ltb_ℤ i64_max (pos (ns / 1000000)))) [
  | inl late ↦ inr (ground arith, rw (late) refl)
  | inr fine ↦ inl (ns / 1000000, rw (fine) refl, ground arith, omega arith, omega arith)
]
trip-IsTruncated (negsuc n) = refl

whole : (ms : ℕ) → ms * 1000000 / 1000000 ≡ ms
whole ms = omega arith

trip-trip : (t : ℤ) → trip (trip t) ≡ trip t
trip-trip (pos ns) = elim (Bool-cases (ltb_ℤ i64_max (pos (ns / 1000000)))) [
  | inl late ↦ rw (late) refl
  | inr fine ↦ rw (fine) (rw (whole (ns / 1000000)) (rw (fine) refl))
]
trip-trip (negsuc n) = refl

-- An agent that is written as JSON and read again is the same but for its time, which comes back as
-- its last whole millisecond, or as the epoch or the last millisecond of 64 bits where it lies before
-- or past these; and a second trip changes nothing.
pub wire-round_trip :
    (a : Agent)
    → let b = agent_from_wire (wire_from_agent a) in
      (b ≡ record a { last_seen = b.last_seen })
      × IsTruncated a.last_seen b.last_seen
      × (agent_from_wire (wire_from_agent b) ≡ b)
unfolding agent_from_wire wire_from_agent
wire-round_trip a = (
  refl,
  trip-IsTruncated a.last_seen,
  ap (λ t. record a { last_seen = t }) (trip-trip a.last_seen),
)
