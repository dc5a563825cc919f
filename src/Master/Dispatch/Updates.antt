-- ===== src/Master/Dispatch/Updates.antt =====
-- What `update_instance` keeps of a list of instances, and the ids that tell its entries apart.
use text.Mathlib.Text.{◌==◌ as str_eq}
use faultforge.Prelude.{
  ◌≡◌, ◌≢◌, refl, String, Bool, true, false, not, ◌&&◌, ◌||◌, Option, none, some, List, [], ◌∷◌,
  any, all, All, IsDistinct, is_some, if◌then◌else◌, eq_iff, eq_refl, arith,
}
use faultforge.Prelude.Int.{ℤ}
use faultforge.Fault.State.{InstanceState}
use faultforge.Master.Experiment.{InstanceRecord, is_terminal, TaintedHost}
use faultforge.Master.Experiment.Record.{any_live, update_instance, outcome_in}
use faultforge.Master.Dispatch.Switch.{mark_requested, unresolved, deadline_reason}
use faultforge.Master.Dispatch.Marks.{all_asked, none_asked}

abbrev pub ids : List InstanceRecord → List String
ids [] = []
ids (i ∷ is) = i.instance_id ∷ ids is

module _ (id : String) (state : InstanceState) (why : String) (ts : ℤ) where
  pub none_asked-update :
      (is is' : List InstanceRecord)
      → update_instance id state why ts is ≡ some is'
      → none_asked is ≡ true
      → none_asked is' ≡ true
  unfolding update_instance
  none_asked-update [] is' h n = cc
  none_asked-update (r ∷ rs) [] h n = ground arith
  none_asked-update (r ∷ rs) (r' ∷ rs') h n = ground (arith, none_asked-update rs rs')

  pub all_asked-update :
      (is is' : List InstanceRecord)
      → update_instance id state why ts is ≡ some is'
      → all_asked is ≡ true
      → all_asked is' ≡ true
  unfolding update_instance
  all_asked-update [] is' h n = cc
  all_asked-update (r ∷ rs) [] h n = ground arith
  all_asked-update (r ∷ rs) (r' ∷ rs') h n = ground (arith, all_asked-update rs rs')

  pub ids-update :
      (is is' : List InstanceRecord)
      → update_instance id state why ts is ≡ some is'
      → ids is' ≡ ids is
  unfolding update_instance
  ids-update [] is' h = cc
  ids-update (r ∷ rs) [] h = ground arith
  ids-update (r ∷ rs) (r' ∷ rs') h = ground (arith, ids-update rs rs')

  -- A terminal instance takes no report.
  pub update_over :
      (is : List InstanceRecord) → any_live is ≡ false → update_instance id state why ts is ≡ none
  unfolding update_instance
  update_over [] h = refl
  update_over (r ∷ rs) h = ground (arith, update_over rs)

pub ids-mark_requested : (is : List InstanceRecord) → ids (mark_requested is) ≡ ids is
unfolding mark_requested
ids-mark_requested [] = refl
ids-mark_requested (i ∷ is) = ground (arith, ids-mark_requested is)

pub outcome_total :
    (is : List InstanceRecord) (ts : List TaintedHost)
    → any_live is ≡ false
    → is_some (outcome_in is ts) ≡ true
unfolding outcome_in
outcome_total is [] h = ground arith
outcome_total is (t ∷ ts) h = ground arith

-- The deadline's report for one id, written for every instance that it could be meant for.
expired_at : String → ℤ → List InstanceRecord → List InstanceRecord
expired_at id ts [] = []
expired_at id ts (r ∷ rs) =
    let rest = expired_at id ts rs in
    if str_eq r.instance_id id && not (is_terminal r)
    then record r { state = InstanceState.error; reason = deadline_reason; updated_unix_ms = ts }
      ∷ rest
    else r ∷ rest

abbrev pub kept : List InstanceRecord → Option (List InstanceRecord) → List InstanceRecord
kept is none = is
kept is (some is') = is'

abbrev pub expire_one : String → ℤ → List InstanceRecord → List InstanceRecord
expire_one id ts is = kept is (update_instance id InstanceState.error deadline_reason ts is)

expired_at_absent :
    (id : String) (ts : ℤ) (is : List InstanceRecord)
    → All (λ y. id ≢ y) (ids is)
    → expired_at id ts is ≡ is
unfolding expired_at
expired_at_absent id ts [] h = refl
expired_at_absent id ts (r ∷ rs) h =
    ground (arith, eq_iff r.instance_id id, h.0, expired_at_absent id ts rs h.1)

-- Where the ids differ, the first match is the only one.
expire_one-eq-expired_at :
    (id : String) (ts : ℤ) (is : List InstanceRecord)
    → IsDistinct (ids is)
    → expire_one id ts is ≡ expired_at id ts is
unfolding update_instance expired_at
expire_one-eq-expired_at id ts [] d = refl
expire_one-eq-expired_at id ts (r ∷ rs) d = ground (
  arith,
  eq_iff r.instance_id id,
  expired_at_absent r.instance_id ts rs d.0,
  expire_one-eq-expired_at id ts rs d.1,
)

-- Every live instance is among the ids that are still to expire.
abbrev pub covered : List (String × String) → List InstanceRecord → Bool
covered late = all λ i. is_terminal i || any (λ p. str_eq p.1 i.instance_id) late

covered-expired_at :
    (host id : String) (ts : ℤ) (late : List (String × String)) (is : List InstanceRecord)
    → covered ((host, id) ∷ late) is ≡ true
    → covered late (expired_at id ts is) ≡ true
unfolding expired_at
covered-expired_at host id ts late [] h = refl
covered-expired_at host id ts late (r ∷ rs) h =
    ground (
      arith,
      eq_iff id r.instance_id,
      eq_iff r.instance_id id,
      covered-expired_at host id ts late rs,
    )

-- One round of the loop takes one id off those that cover the live instances.
pub covered-expire_one :
    (host id : String) (ts : ℤ) (late : List (String × String)) (is : List InstanceRecord)
    → IsDistinct (ids is)
    → covered ((host, id) ∷ late) is ≡ true
    → covered late (expire_one id ts is) ≡ true
covered-expire_one host id ts late is d h =
    rw (expire_one-eq-expired_at id ts is d) (covered-expired_at host id ts late is h)

covered-cons :
    (p : String × String) (late : List (String × String)) (is : List InstanceRecord)
    → covered late is ≡ true
    → covered (p ∷ late) is ≡ true
covered-cons p late [] h = refl
covered-cons p late (r ∷ rs) h = ground (arith, covered-cons p late rs)

pub covered-unresolved : (is : List InstanceRecord) → covered (unresolved is) is ≡ true
unfolding unresolved
covered-unresolved [] = refl
covered-unresolved (r ∷ rs) = ground (
  arith,
  eq_refl r.instance_id,
  covered-unresolved rs,
  covered-cons (r.hostname, r.instance_id) (unresolved rs) rs,
)

pub quiet_of_covered : (is : List InstanceRecord) → covered [] is ≡ true → any_live is ≡ false
quiet_of_covered [] h = refl
quiet_of_covered (r ∷ rs) h = ground (arith, quiet_of_covered rs)
