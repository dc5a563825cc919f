-- ===== src/Agent/Wait/Timely.antt =====
-- crates/agent/src/supervisor.rs: a wait ends in time, and for a cause that holds.
use mathlib.Core.Path.{subst}
use mathlib.Core.List.{Memᴰ}
use faultforge.Prelude.{
  ◌≡◌, ◌⊎◌, inl, inr, refl, sym, Bool, true, false, Bool-cases, List, [], ◌∷◌, All, arith,
}
use faultforge.Prelude.Int.{ℤ, ◌≤ℤ◌, ltb_ℤ, saturating_add}
use faultforge.Agent.Machine.{StopCause, duration_elapsed, operator_abort, master_lost, deadman}
use faultforge.Agent.Machine.Clock.{next_stop-IsFirst}
use faultforge.Agent.Wait.{
  Conn, connected, lost, Timers, Wake, changed, closed, asked, clock, armed, round, wait_for_stop,
}

-- The connectivity that a wait sees, from the beginning.
abbrev pub seen : Conn → List Wake → List Conn
seen conn [] = conn ∷ []
seen conn (changed at c ∷ ws) = conn ∷ seen c ws
seen conn (_ ∷ ws) = conn ∷ []

-- What the cause of a stop at a time asserts.
abbrev pub IsDue : Timers → List Conn → ℤ → StopCause → Type 0
IsDue timers conns t duration_elapsed = timers.duration_end_ms ≤ℤ t
IsDue timers conns t deadman = timers.deadman_ms ≤ℤ t
IsDue timers conns t master_lost =
    (since : ℤ) × (Memᴰ (lost since) conns × (saturating_add since timers.loss_threshold_ms ≤ℤ t))
IsDue timers conns t operator_abort = ⊥

-- Another task asked for a stop with this cause, at this time.
abbrev pub IsAsked : List Wake → ℤ × StopCause → Type 0
IsAsked [] stop = ⊥
IsAsked (changed at c ∷ ws) stop = IsAsked ws stop
IsAsked (closed at ∷ ws) stop = ⊥
IsAsked (asked at cause ∷ ws) stop = (at, cause) ≡ stop

-- In time, and either asked for or due.
abbrev pub IsTimely : Timers → List Conn → List Wake → ℤ × StopCause → Type 0
IsTimely timers conns ws stop =
    (stop.0 ≤ℤ timers.duration_end_ms)
    × ((stop.0 ≤ℤ timers.deadman_ms) × (IsAsked ws stop ⊎ IsDue timers conns stop.0 stop.1))

abbrev pub keeps_connection : Wake → Bool
keeps_connection (closed at) = false
keeps_connection _ = true

IsDue-later :
    (timers : Timers) (conns : List Conn) (cause : StopCause) (t u : ℤ)
    → t ≤ℤ u
    → IsDue timers conns t cause
    → IsDue timers conns u cause
IsDue-later timers conns duration_elapsed t u h due = omega arith
IsDue-later timers conns deadman t u h due = omega arith
IsDue-later timers conns master_lost t u h (since, (there, due)) = (since, (there, omega arith))
IsDue-later timers conns operator_abort t u h due = due

IsDue-candidate :
    (timers : Timers) (conns : List Conn) (best : ℤ × StopCause) (c : ℤ × StopCause)
    → best ≡ c
    → IsDue timers conns c.0 c.1
    → IsDue timers conns best.0 best.1
IsDue-candidate timers conns best c same due =
    subst (λ b. IsDue timers conns b.0 b.1) (sym same) due

armed-IsDue :
    (timers : Timers) (conn : Conn) (rest : List Conn)
    → IsDue timers (conn ∷ rest) (armed timers conn).0 (armed timers conn).1
unfolding armed
armed-IsDue timers conn rest = due conn
  where
    due : (c : Conn) → IsDue timers (c ∷ rest) (armed timers c).0 (armed timers c).1
    due connected = elim (next_stop-IsFirst (clock timers connected)).0 [
      | inl ends ↦ IsDue-candidate timers _ _ _ ends (omega arith)
      | inr (inl dies) ↦ IsDue-candidate timers _ _ _ dies (omega arith)
      | inr (inr none_left) ↦ absurd none_left
    ]
    due (lost since) = elim (next_stop-IsFirst (clock timers (lost since))).0 [
      | inl ends ↦ IsDue-candidate timers _ _ _ ends (omega arith)
      | inr (inl dies) ↦ IsDue-candidate timers _ _ _ dies (omega arith)
      | inr (inr (inl gone)) ↦
          IsDue-candidate timers _ _ _ gone (since, (Memᴰ.head refl, omega arith))
      | inr (inr (inr none_left)) ↦ absurd none_left
    ]

armed_early :
    (timers : Timers) (conn : Conn)
    → ((armed timers conn).0 ≤ℤ timers.duration_end_ms)
      × ((armed timers conn).0 ≤ℤ timers.deadman_ms)
unfolding armed
armed_early timers conn =
    let first = (next_stop-IsFirst (clock timers conn)).1 in (first.0.0, first.1.0.0)

IsDue-wider :
    (timers : Timers) (conns : List Conn) (c : Conn) (stop : ℤ × StopCause)
    → IsDue timers conns stop.0 stop.1
    → IsDue timers (c ∷ conns) stop.0 stop.1
IsDue-wider timers conns c (t, duration_elapsed) due = due
IsDue-wider timers conns c (t, deadman) due = due
IsDue-wider timers conns c (t, master_lost) (since, (there, due)) = (since, (Memᴰ.tail there, due))
IsDue-wider timers conns c (t, operator_abort) due = due

round-IsTimely :
    (timers : Timers) (conns : List Conn) (ws : List Wake) (now : ℤ) (best : ℤ × StopCause) (at : ℤ)
    (woken : ℤ × StopCause)
    → now ≤ℤ timers.duration_end_ms
    → now ≤ℤ timers.deadman_ms
    → (best.0 ≤ℤ timers.duration_end_ms) × (best.0 ≤ℤ timers.deadman_ms)
    → IsDue timers conns best.0 best.1
    → (at ≤ℤ timers.duration_end_ms → at ≤ℤ timers.deadman_ms → IsTimely timers conns ws woken)
    → IsTimely timers conns ws (round now best at woken)
unfolding round
round-IsTimely timers conns ws now best at woken d m early due wakes =
    elim (Bool-cases (ltb_ℤ now best.0)) [
      | inr past ↦
          rw (past, round)
            (d, (m, inr (IsDue-later timers conns best.1 best.0 now (ground arith) due)))
      | inl before ↦ elim (Bool-cases (ltb_ℤ at best.0)) [
        | inr late ↦ rw (before, late, round) (early.0, (early.1, inr due))
        | inl soon ↦ rw (before, soon, round) (wakes (ground arith) (ground arith))
      ]
    ]

-- A wait whose connectivity channel stays open, and that begins before the end of the duration and
-- before the dead-man deadline, whatever wakes it up: it returns by both of them; and its cause is one that was
-- asked for, at the time that it was, or the end of the duration or the dead-man deadline that has
-- come, or the loss threshold passed since the moment of a loss that the wait has seen.
pub wait_for_stop-IsTimely :
    (timers : Timers) (now : ℤ) (conn : Conn) (ws : List Wake)
    → now ≤ℤ timers.duration_end_ms
    → now ≤ℤ timers.deadman_ms
    → All (λ w. keeps_connection w ≡ true) ws
    → IsTimely timers (seen conn ws) ws (wait_for_stop timers now conn ws)
unfolding wait_for_stop
wait_for_stop-IsTimely timers now conn [] d m h =
    let early = armed_early timers conn in
    let due = armed-IsDue timers conn [] in
    round-IsTimely timers (conn ∷ []) [] now (armed timers conn) (armed timers conn).0
      (armed timers conn) d m early due (λ d' m'. (d', (m', inr due)))
wait_for_stop-IsTimely timers now conn (changed at c ∷ ws) d m (_, h) =
    round-IsTimely timers (conn ∷ seen c ws) (changed at c ∷ ws) now (armed timers conn) at
      (wait_for_stop timers at c ws) d m (armed_early timers conn)
      (armed-IsDue timers conn (seen c ws))
      (λ d' m'.
        let (by_end, (by_deadman, why)) = wait_for_stop-IsTimely timers at c ws d' m' h in
        (
          by_end,
          (
            by_deadman,
            elim why [
              | inl wanted ↦ inl wanted
              | inr due ↦
                  inr (IsDue-wider timers (seen c ws) conn (wait_for_stop timers at c ws) due)
            ],
          ),
        ))
wait_for_stop-IsTimely timers now conn (closed at ∷ ws) d m (open_, h) = absurd (ground arith)
wait_for_stop-IsTimely timers now conn (asked at cause ∷ ws) d m h =
    round-IsTimely timers (conn ∷ []) (asked at cause ∷ ws) now (armed timers conn) at (at, cause) d
      m (armed_early timers conn) (armed-IsDue timers conn []) (λ d' m'. (d', (m', inl refl)))
