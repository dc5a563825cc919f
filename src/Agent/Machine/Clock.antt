-- ===== src/Agent/Machine/Clock.antt =====
-- crates/agent/src/machine.rs: the single safety deadline, `StopClock` and `next_stop`.
use faultforge.Prelude.{
  ℕ, ◌≤◌, ◌≡◌, ◌⊎◌, Option, none, some, List, [], ◌∷◌, All, if◌then◌else◌, arith,
}
use faultforge.Prelude.Int.{ℤ, ◌≤ℤ◌, ltb_ℤ, saturating_add}
use faultforge.Agent.Machine.{StopCause, duration_elapsed, master_lost, deadman}

pub record StopClock : Type 0 where
  pub duration_end_ms : ℤ
  pub deadman_ms : ℤ
  pub master_lost_since_ms : Option ℤ
  pub loss_threshold_ms : ℤ

-- The master-loss candidate replaces an earlier best only if it is strictly earlier.
after_loss : ℤ × StopCause → Option ℤ → ℤ → ℤ × StopCause
after_loss best none threshold = best
after_loss best (some since) threshold =
    let at = saturating_add since threshold in if ltb_ℤ at best.0 then (at, master_lost) else best

unfoldable pub next_stop : StopClock → ℤ × StopCause
unfolding after_loss
next_stop clock =
    let best =
      after_loss (clock.duration_end_ms, duration_elapsed) clock.master_lost_since_ms
        clock.loss_threshold_ms in
    if ltb_ℤ clock.deadman_ms best.0 then (clock.deadman_ms, deadman) else best

-- The candidate of the master-loss timer, if contact is lost.
abbrev pub loss_candidate : Option ℤ → ℤ → List (ℤ × StopCause)
loss_candidate none threshold = []
loss_candidate (some since) threshold = (saturating_add since threshold, master_lost) ∷ []

abbrev pub candidates : StopClock → List (ℤ × StopCause)
candidates clock =
    (clock.duration_end_ms, duration_elapsed)
    ∷ (clock.deadman_ms, deadman)
    ∷ loss_candidate clock.master_lost_since_ms clock.loss_threshold_ms

-- The gentler cause has the smaller number.
abbrev pub severity : StopCause → ℕ
severity duration_elapsed = 0
severity master_lost = 1
severity _ = 2

-- No candidate is earlier, and one at the same time has no gentler cause.
abbrev pub IsFirst : ℤ × StopCause → List (ℤ × StopCause) → Type 0
IsFirst best = All λ c. (best.0 ≤ℤ c.0) × (c.0 ≤ℤ best.0 → severity best.1 ≤ severity c.1)

abbrev pub IsOneOf : ℤ × StopCause → List (ℤ × StopCause) → Type 0
IsOneOf best [] = ⊥
IsOneOf best (c ∷ cs) = (best ≡ c) ⊎ IsOneOf best cs

next_stop_fields :
    (d m : ℤ) (lost : Option ℤ) (t : ℤ)
    → let clock : StopClock = record {
      duration_end_ms = d;
      deadman_ms = m;
      master_lost_since_ms = lost;
      loss_threshold_ms = t;
    } in
      IsOneOf (next_stop clock) (candidates clock) × IsFirst (next_stop clock) (candidates clock)
unfolding next_stop
next_stop_fields d m none t = ground arith
next_stop_fields d m (some since) t = ground arith

-- The stop that the timer is armed for is one of the pending candidates, none of them is earlier,
-- and of those at the same time it has the gentlest cause. Lost contact counts only while it is lost.
pub next_stop-IsFirst :
    (clock : StopClock)
    → IsOneOf (next_stop clock) (candidates clock) × IsFirst (next_stop clock) (candidates clock)
next_stop-IsFirst clock =
    next_stop_fields clock.duration_end_ms clock.deadman_ms clock.master_lost_since_ms
      clock.loss_threshold_ms
