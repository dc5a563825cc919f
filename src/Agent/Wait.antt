-- ===== src/Agent/Wait.antt =====
-- crates/agent/src/supervisor.rs: `wait_for_stop`, the wait of an active instance. What its `select!`
-- finds before the timer is a list of wake-ups; the timer of a round fires at the time it is armed for.
pub mod Timely
use faultforge.Prelude.{◌+◌, Option, none, some, List, [], ◌∷◌, if◌then◌else◌}
use faultforge.Prelude.Int.{ℤ, ◌+ℤ◌, ltb_ℤ, sub_ℕ, pos_part, neg_part}
use faultforge.Agent.Machine.{StopCause}
use faultforge.Agent.Machine.Clock.{StopClock, next_stop}

-- `ConnState`
pub data Conn : Type 0 where
  connected : Conn
  lost : (since_unix_ms : ℤ) → Conn

pub record Timers : Type 0 where
  pub duration_end_ms : ℤ
  pub deadman_ms : ℤ
  pub loss_threshold_ms : ℤ

-- A wake-up with its time: the connectivity changes, or its sender is gone, or a stop is asked for.
pub data Wake : Type 0 where
  changed : (now : ℤ) → Conn → Wake
  closed : (now : ℤ) → Wake
  asked : (now : ℤ) → StopCause → Wake

abbrev lost_since : Conn → Option ℤ
lost_since connected = none
lost_since (lost since) = some since

abbrev pub clock : Timers → Conn → StopClock
clock timers conn = record {
  duration_end_ms = timers.duration_end_ms;
  deadman_ms = timers.deadman_ms;
  master_lost_since_ms = lost_since conn;
  loss_threshold_ms = timers.loss_threshold_ms;
}

-- the stop that a round is armed for
unfoldable pub armed : Timers → Conn → ℤ × StopCause
armed timers conn = next_stop (clock timers conn)

-- One round: its time, its stop, the time of the wake-up, and what the wake-up leads to.
unfoldable pub round : ℤ → ℤ × StopCause → ℤ → ℤ × StopCause → ℤ × StopCause
round now best at woken =
    if ltb_ℤ now best.0 then (if ltb_ℤ at best.0 then woken else best) else (now, best.1)

-- the end of a sleep that begins at `start`, of the length that was computed at `now`
unfoldable pub overslept : (start now end : ℤ) → ℤ
overslept start now end = start +ℤ sub_ℕ (pos_part end + neg_part now) (pos_part now + neg_part end)

-- `wait_for_stop`: when it returns, and the cause of the stop
unfoldable pub wait_for_stop : Timers → ℤ → Conn → List Wake → ℤ × StopCause
wait_for_stop timers now conn [] =
    round now (armed timers conn) (armed timers conn).0 (armed timers conn)
wait_for_stop timers now conn (changed at c ∷ ws) =
    let rest = wait_for_stop timers at c ws in round now (armed timers conn) at rest
wait_for_stop timers now conn (closed at ∷ ws) =
    let best = armed timers conn in round now best at (overslept at now best.0, best.1)
wait_for_stop timers now conn (asked at cause ∷ ws) = round now (armed timers conn) at (at, cause)
