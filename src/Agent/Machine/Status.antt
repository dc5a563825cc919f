-- ===== src/Agent/Machine/Status.antt =====
-- What `step` reports to the master: the `EmitStatus` effects against the wire states.
use faultforge.Prelude.{
  inl, inr, ◌⊎◌, ◌∙◌, ap, ℕ, ◌<◌, ◌≡◌, refl, true, false, List, [], ◌∷◌, ◌++◌, if◌then◌else◌, arith,
}
use faultforge.Fault.State.{InstanceState, state_eq}
use faultforge.Agent.Machine.{
  State, instance_state, Event, Effect, emit_status, invoke, write_journal, remove_journal,
  mark_tainted,
}
use faultforge.Agent.Machine.Step.{step}

-- the `emitted_states` of the source's tests
abbrev pub emitted : List Effect → List InstanceState
emitted [] = []
emitted (emit_status s _ ∷ es) = s ∷ emitted es
emitted (_ ∷ es) = emitted es

-- Drive the machine through the events, and collect the effects.
unfoldable pub drive : State → List Event → State × List Effect
drive s [] = (s, [])
drive s (e ∷ es) =
    let (s', effects) = step s e in let (s'', rest) = drive s' es in (s'', effects ++ rest)

-- A step emits a status exactly when the wire state changes, one, and it names the new state.
pub step_reports :
    (s : State) (e : Event)
    → let (s', effects) = step s e in
      emitted effects
      ≡ (if state_eq (instance_state s) (instance_state s') then [] else instance_state s' ∷ [])
unfolding step
step_reports s e = ground arith

-- How far along its life an instance is.
abbrev pub rank : InstanceState → ℕ
rank InstanceState.pending = 0
rank InstanceState.preflight = 1
rank InstanceState.injecting = 2
rank InstanceState.active = 3
rank InstanceState.recovering = 4
rank _ = 5

-- Every entry ranks above the one before it, the first above `r`.
abbrev pub Ascending : ℕ → List InstanceState → Type 0
Ascending r [] = Unit {0}
Ascending r (x ∷ xs) = (r < rank x) × Ascending (rank x) xs

abbrev pub last_or : InstanceState → List InstanceState → InstanceState
last_or s [] = s
last_or s (x ∷ xs) = last_or x xs

emitted-append : (xs ys : List Effect) → emitted (xs ++ ys) ≡ emitted xs ++ emitted ys
emitted-append [] ys = refl
emitted-append (emit_status s why ∷ xs) ys = ap (◌∷◌ s) (emitted-append xs ys)
emitted-append (invoke c p ∷ xs) ys = emitted-append xs ys
emitted-append (write_journal ∷ xs) ys = emitted-append xs ys
emitted-append (remove_journal ∷ xs) ys = emitted-append xs ys
emitted-append (mark_tainted why ∷ xs) ys = emitted-append xs ys

step_forward :
    (s : State) (e : Event)
    → (instance_state (step s e).0 ≡ instance_state s)
      ⊎ (rank (instance_state s) < rank (instance_state (step s e).0))
unfolding step
step_forward s e = ground arith

state_eq_refl : (a : InstanceState) → state_eq a a ≡ true
state_eq_refl a = ground arith

state_eq_of_lt : (a b : InstanceState) → rank a < rank b → state_eq a b ≡ false
state_eq_of_lt a b h = ground arith

-- One step in front of a run whose reports are in order.
reports-cons :
    (a b : InstanceState) (rest : List InstanceState)
    → (b ≡ a) ⊎ (rank a < rank b)
    → Ascending (rank b) rest
    → let all = (if state_eq a b then [] else b ∷ []) ++ rest in
      Ascending (rank a) all × (last_or a all ≡ last_or b rest)
reports-cons a b rest (inl same) up = rw (same, state_eq_refl a) (rw same at up, refl)
reports-cons a b rest (inr more) up = rw (state_eq_of_lt a b more) ((more, up), refl)

-- Over any events, from any state: the reported states strictly ascend in rank, so none is reported
-- twice or after a later one, and the last report is the wire state that the machine ends in.
pub drive_reports :
    (s : State) (es : List Event)
    → let (s', effects) = drive s es in
      Ascending (rank (instance_state s)) (emitted effects)
      × (last_or (instance_state s) (emitted effects) ≡ instance_state s')
unfolding drive
drive_reports s [] = (tt, refl)
drive_reports s (e ∷ es) =
    let (s', effects) = step s e in
    let (up, end) = drive_reports s' es in
    let (up', end') = reports-cons (instance_state s) (instance_state s') _ (step_forward s e) up in
    rw (emitted-append effects, step_reports s e) (up', end' ∙ end)
