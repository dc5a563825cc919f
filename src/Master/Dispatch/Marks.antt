-- ===== src/Master/Dispatch/Marks.antt =====
-- What marking the abort requests changes of a list of instances, and what it leaves.
use faultforge.Prelude.{◌≡◌, refl, Bool, true, not, ◌||◌, List, [], ◌∷◌, any, all, arith}
use faultforge.Fault.State.{InstanceState}
use faultforge.Master.Experiment.{InstanceRecord, is_terminal, TaintedHost}
use faultforge.Master.Experiment.Record.{has_state, any_live, outcome_in}
use faultforge.Master.Dispatch.Switch.{mark_requested, abort_targets}

-- Every instance is over or has been asked to abort.
abbrev pub all_asked : List InstanceRecord → Bool
all_asked = all λ i. is_terminal i || i.abort_requested

-- Nobody has been asked to abort.
abbrev pub none_asked : List InstanceRecord → Bool
none_asked = all λ i. not i.abort_requested

pub all_asked-mark_requested : (is : List InstanceRecord) → all_asked (mark_requested is) ≡ true
unfolding mark_requested
all_asked-mark_requested [] = refl
all_asked-mark_requested (i ∷ is) = ground (arith, all_asked-mark_requested is)

-- A second call finds nobody left to ask.
pub abort_targets-mark_requested :
    (is : List InstanceRecord) → abort_targets (mark_requested is) ≡ []
unfolding mark_requested abort_targets
abort_targets-mark_requested [] = refl
abort_targets-mark_requested (i ∷ is) = ground (arith, abort_targets-mark_requested is)

pub live_marked : (is : List InstanceRecord) → any_live (mark_requested is) ≡ any_live is
unfolding mark_requested
live_marked [] = refl
live_marked (i ∷ is) = ground (arith, live_marked is)

any_marked :
    (s : InstanceState) (is : List InstanceRecord)
    → any (has_state s) (mark_requested is) ≡ any (has_state s) is
unfolding mark_requested
any_marked s [] = refl
any_marked s (i ∷ is) = ground (arith, any_marked s is)

all_marked :
    (s : InstanceState) (is : List InstanceRecord)
    → all (has_state s) (mark_requested is) ≡ all (has_state s) is
unfolding mark_requested
all_marked s [] = refl
all_marked s (i ∷ is) = ground (arith, all_marked s is)

-- The outcome does not look at the requests.
pub outcome_in-mark_requested :
    (is : List InstanceRecord) (ts : List TaintedHost)
    → outcome_in (mark_requested is) ts ≡ outcome_in is ts
unfolding outcome_in
outcome_in-mark_requested is ts =
    simp (live_marked is, any_marked InstanceState.error is, all_marked InstanceState.done is)
