-- ===== src/Fault/Wire.antt =====
-- crates/fault/src/proto.rs: the lifecycle states on the wire. The enumeration and its numbers are
-- those of crates/proto/proto/faultforge.proto.
use faultforge.Prelude.{
  ℕ, ◌≡◌, ◌↔◌, refl, sym, Option, none, some, if◌then◌else◌, ◌==◌, Option-cases, inl, inr, arith,
}
use faultforge.Prelude.Int.{ℤ, pos, negsuc}
use faultforge.Fault.State.{InstanceState}

pub data WireState : Type 0 where
  unspecified pending preflight injecting active recovering done aborted error : WireState

pub data WireStateError : Type 0 where
  unspecified : WireStateError
  unknown : ℤ → WireStateError

pub data WireResult : Type 0 where
  ok : InstanceState → WireResult
  err : WireStateError → WireResult

-- `From<InstanceState>`
unfoldable pub wire_from : InstanceState → WireState
wire_from InstanceState.pending = WireState.pending
wire_from InstanceState.preflight = WireState.preflight
wire_from InstanceState.injecting = WireState.injecting
wire_from InstanceState.active = WireState.active
wire_from InstanceState.recovering = WireState.recovering
wire_from InstanceState.done = WireState.done
wire_from InstanceState.aborted = WireState.aborted
wire_from InstanceState.error = WireState.error

-- `TryFrom<v1::InstanceState>`
unfoldable pub try_from_wire : WireState → WireResult
try_from_wire WireState.unspecified = err WireStateError.unspecified
try_from_wire WireState.pending = ok InstanceState.pending
try_from_wire WireState.preflight = ok InstanceState.preflight
try_from_wire WireState.injecting = ok InstanceState.injecting
try_from_wire WireState.active = ok InstanceState.active
try_from_wire WireState.recovering = ok InstanceState.recovering
try_from_wire WireState.done = ok InstanceState.done
try_from_wire WireState.aborted = ok InstanceState.aborted
try_from_wire WireState.error = ok InstanceState.error

-- the numbers of the enumeration
unfoldable pub wire_number : WireState → ℤ
wire_number WireState.unspecified = pos 0
wire_number WireState.pending = pos 1
wire_number WireState.preflight = pos 2
wire_number WireState.injecting = pos 3
wire_number WireState.active = pos 4
wire_number WireState.recovering = pos 5
wire_number WireState.done = pos 6
wire_number WireState.aborted = pos 7
wire_number WireState.error = pos 8

-- the state of a number, which `try_from` on an `i32` gives
state_numbered : ℕ → Option WireState
state_numbered n =
    if n == 0
    then some WireState.unspecified
    else if n == 1
    then some WireState.pending
    else if n == 2
    then some WireState.preflight
    else if n == 3
    then some WireState.injecting
    else if n == 4
    then some WireState.active
    else if n == 5
    then some WireState.recovering
    else if n == 6
    then some WireState.done
    else if n == 7
    then some WireState.aborted
    else if n == 8
    then some WireState.error
    else none

unfoldable pub wire_state : ℤ → Option WireState
unfolding state_numbered
wire_state (pos n) = state_numbered n
wire_state (negsuc n) = none

unfoldable pub to_wire_i32 : InstanceState → ℤ
to_wire_i32 state = wire_number (wire_from state)

unfoldable pub from_wire_i32 : ℤ → WireResult
from_wire_i32 raw = elim (wire_state raw) [
  | none ↦ err (WireStateError.unknown raw)
  | some wire ↦ try_from_wire wire
]

round_trip : (s : InstanceState) → from_wire_i32 (to_wire_i32 s) ≡ ok s
unfolding from_wire_i32 to_wire_i32 wire_from wire_number wire_state try_from_wire
round_trip InstanceState.pending = refl
round_trip InstanceState.preflight = refl
round_trip InstanceState.injecting = refl
round_trip InstanceState.active = refl
round_trip InstanceState.recovering = refl
round_trip InstanceState.done = refl
round_trip InstanceState.aborted = refl
round_trip InstanceState.error = refl

-- A number that some enumeration value has is the number of that value.
number_of_state : (raw : ℤ) (w : WireState) → wire_state raw ≡ some w → wire_number w ≡ raw
unfolding wire_state wire_number
number_of_state (negsuc n) w h = cc
number_of_state (pos n) w h = ground arith

from_wire_known : (w : WireState) (s : InstanceState) → try_from_wire w ≡ ok s → wire_from s ≡ w
unfolding try_from_wire wire_from
from_wire_known w s h = ground arith

-- A wire number reads as a state exactly when it is the number that the state is written as.
pub from_wire_iff :
    (raw : ℤ) (s : InstanceState) → (from_wire_i32 raw ≡ ok s) ↔ (to_wire_i32 s ≡ raw)
unfolding from_wire_i32 to_wire_i32
from_wire_iff raw s = (
  λ h. elim (Option-cases (wire_state raw)) [
    | inl unknown_ ↦ ground arith
    | inr (w, known) ↦ ground (arith, number_of_state raw w known, from_wire_known w s)
  ],
  λ h. rw (sym h) (round_trip s),
)
