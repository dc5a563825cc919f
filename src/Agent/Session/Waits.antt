-- ===== src/Agent/Session/Waits.antt =====
-- crates/agent/src/session.rs: the waits between attempts, and the moment of the loss.
use Prim.Native.Nat.{min}
use faultforge.Prelude.{
  ℕ, zero, suc, ◌+◌, ◌*◌, ◌≤◌, ◌≡◌, ◌⊎◌, ◌∙◌, refl, sym, ap, String, Bool, true, false, not, ◌&&◌,
  List, [], ◌∷◌, length, All, Bool-cases, inl, inr, arith, ◌==◌,
}
use faultforge.Prelude.Int.{ℤ}
use faultforge.Agent.Session.Ledger.{ℕ-cases}
use faultforge.Agent.Wait.{connected, lost}
use faultforge.Agent.Session.{
  Attempt, AgentState, AckResult, ok, err, AgentError, loss, next_backoff, await_ack, send_frame,
  run_session, attempt,
}

-- Attempts one after the other.
unfoldable pub attempts : String → List Attempt → AgentState → AgentState
attempts hostname [] s = s
attempts hostname (a ∷ rest) s = attempts hostname rest (attempt hostname a s)

abbrev is_ok : AckResult → Bool
is_ok (ok _) = true
is_ok (err _) = false

-- The attempt gets as far as a RegisterAck with an interval.
abbrev pub registers : Attempt → Bool
registers a = a.connects && (not (a.room == 0) && is_ok (await_ack a.opening))

AckResult-cases : (r : AckResult) → ((e : AgentError) × (r ≡ err e)) ⊎ ((n : ℕ) × (r ≡ ok n))
AckResult-cases (err e) = inl (e, refl)
AckResult-cases (ok n) = inr (n, refl)

-- An attempt that does not register changes neither the connectivity nor the wait, and does not sleep.
unregistered_keeps :
    (hostname : String) (a : Attempt) (s : AgentState)
    → registers a ≡ false
    → ((run_session hostname a s).conn ≡ s.conn)
      × ((run_session hostname a s).backoff ≡ s.backoff)
      × ((run_session hostname a s).slept ≡ s.slept)
unfolding run_session send_frame
unregistered_keeps hostname a s h = elim (Bool-cases a.connects) [
  | inr down ↦ rw (down, run_session) (refl, refl, refl)
  | inl up ↦ elim (ℕ-cases a.room) [
    | inl gone ↦ rw (up, gone, run_session, send_frame) (refl, refl, refl)
    | inr (room, open_) ↦ elim (AckResult-cases (await_ack a.opening)) [
      | inl (e, bad) ↦ rw (up, open_, bad, run_session, send_frame) (refl, refl, refl)
      | inr (n, good) ↦ absurd (ground arith)
    ]
  ]
]

-- One that does starts the waits over.
registered_connects :
    (hostname : String) (a : Attempt) (s : AgentState)
    → registers a ≡ true
    → ((run_session hostname a s).conn ≡ connected) × ((run_session hostname a s).backoff ≡ 1)
unfolding run_session send_frame
registered_connects hostname a s h = elim (ℕ-cases a.room) [
  | inl gone ↦ absurd (ground arith)
  | inr (room, open_) ↦ elim (AckResult-cases (await_ack a.opening)) [
    | inl (e, bad) ↦ absurd (ground arith)
    | inr (n, good) ↦
        let up : a.connects ≡ true = ground arith in
        rw (up, open_, good, run_session, send_frame) (refl, refl)
  ]
]

abbrev InBounds : ℕ → Type 0
InBounds b = (1 ≤ b) × (b ≤ 30)

next_backoff-InBounds : (b : ℕ) → 1 ≤ b → InBounds (next_backoff b)
unfolding next_backoff
next_backoff-InBounds b h = (ground arith, ground arith)

attempts-InBounds :
    (hostname : String) (batch : List Attempt) (s : AgentState)
    → InBounds s.backoff
    → InBounds (attempts hostname batch s).backoff
unfolding attempts attempt
attempts-InBounds hostname [] s h = h
attempts-InBounds hostname (a ∷ rest) s h =
    attempts-InBounds hostname rest (attempt hostname a s) (elim (Bool-cases (registers a)) [
      | inl on ↦ rw (registered_connects hostname a s on).1 (next_backoff-InBounds 1 (omega arith))
      | inr off ↦ rw (unregistered_keeps hostname a s off).1 (next_backoff-InBounds s.backoff h.0)
    ])

-- `b` doubled so many times
abbrev pub doubled : ℕ → ℕ → ℕ
doubled zero b = b
doubled (suc n) b = doubled n b * 2

doubled_next : (n b : ℕ) → min (doubled n (next_backoff b)) 30 ≡ min (doubled (suc n) b) 30
unfolding next_backoff
doubled_next zero b = ground arith
doubled_next (suc n) b = ground (arith, doubled_next n b)

-- the first `n` waits from `b` on, doubled each time and 30 seconds at most, together
abbrev pub slept_over : ℕ → ℕ → ℕ
slept_over zero b = 0
slept_over (suc n) b = slept_over n b + min (doubled n b) 30

slept_next : (n b : ℕ) → b ≤ 30 → slept_over (suc n) b ≡ b + slept_over n (next_backoff b)
slept_next zero b h = ground arith
slept_next (suc n) b h =
    let rest = slept_next n b h in let last = doubled_next n b in omega (arith, rest, last)

sleeps :
    (hostname : String) (batch : List Attempt) (s : AgentState)
    → InBounds s.backoff
    → All (λ a. registers a ≡ false) batch
    → (attempts hostname batch s).slept ≡ s.slept + slept_over (length batch) s.backoff
unfolding attempts attempt
sleeps hostname [] s bounds h = omega arith
sleeps hostname (a ∷ rest) s bounds (off, offs) =
    let (conn, backoff, slept) = unregistered_keeps hostname a s off in
    let bounds' : InBounds (attempt hostname a s).backoff =
      rw backoff (next_backoff-InBounds s.backoff bounds.0) in
    let later = sleeps hostname rest (attempt hostname a s) bounds' offs in
    let first = slept_next (length rest) s.backoff bounds.1 in
    let here : (run_session hostname a s).slept
          + (run_session hostname a s).backoff
          + slept_over (length rest) (next_backoff (run_session hostname a s).backoff)
        ≡ s.slept + slept_over (suc (length rest)) s.backoff =
      rw (slept, backoff) (omega (arith, first)) in
    later ∙ here

waits :
    (hostname : String) (batch : List Attempt) (s : AgentState) (since : ℤ)
    → s.conn ≡ lost since
    → All (λ a. registers a ≡ false) batch
    → ((attempts hostname batch s).conn ≡ lost since)
      × ((min (attempts hostname batch s).backoff 30) ≡ min (doubled (length batch) s.backoff) 30)
unfolding attempts attempt
waits hostname [] s since l h = (l, refl)
waits hostname (a ∷ rest) s since l (off, offs) =
    let (conn, backoff, slept) = unregistered_keeps hostname a s off in
    let (conn', backoff') =
      waits hostname rest (attempt hostname a s) since (ap (λ c. loss c a.now) (conn ∙ l)) offs in
    (
      conn',
      backoff'
          ∙ (ap (λ b. min (doubled (length rest) (next_backoff b)) 30) backoff
              ∙ doubled_next (length rest) s.backoff),
    )

min_of : (b : ℕ) → b ≤ 30 → min b 30 ≡ b
min_of b h = ground arith

-- The wait before an attempt is always between 1 and 30 seconds. Through attempts that do not register,
-- the agent keeps the moment at which it lost the master, the wait doubles with each of them up to 30
-- seconds, and the agent sleeps for these waits, one after each attempt.
pub outage_waits :
    (hostname : String) (before outage : List Attempt) (s : AgentState) (since : ℤ)
    → 1 ≤ s.backoff
    → s.backoff ≤ 30
    → (attempts hostname before s).conn ≡ lost since
    → All (λ a. registers a ≡ false) outage
    → let s1 = attempts hostname before s in
      let s2 = attempts hostname outage s1 in
      (s2.conn ≡ lost since)
      × (s2.backoff ≡ min (doubled (length outage) s1.backoff) 30)
      × (s2.slept ≡ s1.slept + slept_over (length outage) s1.backoff)
      × (1 ≤ s1.backoff)
      × (s1.backoff ≤ 30)
outage_waits hostname before outage s since low high l h =
    let s1 = attempts hostname before s in
    let (conn, backoff) = waits hostname outage s1 since l h in
    let bounds = attempts-InBounds hostname before s (low, high) in
    (
      conn,
      sym (
            min_of (attempts hostname outage s1).backoff
              (attempts-InBounds hostname outage s1 bounds).1)
          ∙ backoff,
      sleeps hostname outage s1 bounds h,
      bounds.0,
      bounds.1,
    )
