-- ===== src/Agent/Instances/Once.antt =====
-- crates/agent/src/supervisor.rs: no instance is ever spawned twice.
use faultforge.Prelude.{
  ◌≡◌, ◌≢◌, refl, ap, String, true, false, List, [], ◌∷◌, ◌++◌, All, All-append, IsDistinct,
  is_some, Option-cases, Bool-cases, inl, inr, eq_refl, arith,
}
use faultforge.Prelude.Dict.{get, insert, get-insert}
use faultforge.Fault.State.{InstanceState}
use faultforge.Proto.Messages.{RunFault}
use faultforge.Agent.Instances.{
  valid_instance_id, InstanceHandle, Instances, handle_run_fault, with_handle, handle_abort_fault,
  set_view,
}

-- What changes an agent's instances.
pub data Command : Type 0 where
  runs : RunFault → Command
  aborts : (id : String) → Command
  moves : (id : String) → InstanceState → Command

unfoldable pub command : Instances → Command → Instances
command sup (runs run) = handle_run_fault sup run
command sup (aborts id) = handle_abort_fault sup id
command sup (moves id state) = set_view sup id state

unfoldable pub commands : Instances → List Command → Instances
commands sup [] = sup
commands sup (c ∷ cs) = commands (command sup c) cs

abbrev pub spawned_ids : List RunFault → List String
spawned_ids [] = []
spawned_ids (r ∷ rs) = r.instance_id ∷ spawned_ids rs

-- The spawned ids differ, can name a file, and stay known.
pub record IsOnce (sup : Instances) : Type 0 where
  pub distinct : IsDistinct (spawned_ids sup.spawned)
  pub safe : All (λ id. valid_instance_id id ≡ true) (spawned_ids sup.spawned)
  pub known : All (λ id. is_some (get id sup.instances) ≡ true) (spawned_ids sup.spawned)

ids-append : (xs ys : List RunFault) → spawned_ids (xs ++ ys) ≡ spawned_ids xs ++ spawned_ids ys
ids-append [] ys = refl
ids-append (x ∷ xs) ys = ap (◌∷◌ x.instance_id) (ids-append xs ys)

-- A new handle keeps the known ids known.
known-insert :
    (k : String) (h : InstanceHandle) (m : List (String × InstanceHandle)) (ids : List String)
    → All (λ id. is_some (get id m) ≡ true) ids
    → All (λ id. is_some (get id (insert k h m)) ≡ true) ids
known-insert k h m [] p = tt
known-insert k h m (id ∷ ids) p =
    (ground (arith, get-insert k id h m, p.0), known-insert k h m ids p.1)

-- An unknown id is none of those that are known.
apart_known :
    (k : String) (m : List (String × InstanceHandle)) (ids : List String)
    → is_some (get k m) ≡ false
    → All (λ id. is_some (get id m) ≡ true) ids
    → All (λ id. id ≢ k) ids
apart_known k m [] n p = tt
apart_known k m (id ∷ ids) n p = (λ same. cc, apart_known k m ids n p.1)

IsDistinct-snoc :
    (ids : List String) (k : String)
    → IsDistinct ids
    → All (λ id. id ≢ k) ids
    → IsDistinct (ids ++ k ∷ [])
IsDistinct-snoc [] k d a = (tt, tt)
IsDistinct-snoc (id ∷ ids) k d a =
    (All-append _ ids (k ∷ []) d.0 (a.0, tt), IsDistinct-snoc ids k d.1 a.1)

with_handle-IsOnce :
    (sup : Instances) (id : String) (update : InstanceHandle → InstanceHandle)
    → IsOnce sup
    → IsOnce (with_handle sup id update)
unfolding with_handle
with_handle-IsOnce sup id update o = elim (Option-cases (get id sup.instances)) [
  | inl missing ↦ rw (missing, with_handle) o
  | inr (h, found) ↦
      rw (found, with_handle)
        (record {
          distinct = o.distinct;
          safe = o.safe;
          known = known-insert id (update h) sup.instances (spawned_ids sup.spawned) o.known;
        })
]

run-IsOnce : (sup : Instances) (run : RunFault) → IsOnce sup → IsOnce (handle_run_fault sup run)
unfolding handle_run_fault
run-IsOnce sup run o = elim (Bool-cases (valid_instance_id run.instance_id)) [
  | inr bad ↦ rw (bad, handle_run_fault) o
  | inl good ↦ elim (Bool-cases (is_some (get run.instance_id sup.instances))) [
    | inl again ↦ rw (good, again, handle_run_fault) o
    | inr new ↦
        rw (good, new, handle_run_fault)
          (record {
            distinct = rw (ids-append sup.spawned (run ∷ [])) (
                IsDistinct-snoc (spawned_ids sup.spawned) run.instance_id o.distinct (
                  apart_known run.instance_id sup.instances (spawned_ids sup.spawned) new o.known));
            safe =
                rw (ids-append sup.spawned (run ∷ []))
                  (All-append _ (spawned_ids sup.spawned) (run.instance_id ∷ []) o.safe (good, tt));
            known = rw (ids-append sup.spawned (run ∷ [])) (
                All-append _ (spawned_ids sup.spawned) (run.instance_id ∷ [])
                  (known-insert run.instance_id _ sup.instances (spawned_ids sup.spawned) o.known)
                  (
                    rw
                        (
                          get-insert run.instance_id run.instance_id _ sup.instances,
                          eq_refl run.instance_id,
                        )
                        refl,
                    tt,
                  ));
          })
  ]
]

-- Whatever frames come in, duplicates and aborts included, and however the instances move on: the
-- agent spawns a task at most once for an id, only for an id that is safe as a file name, and never
-- forgets it, so that a repeated RunFault injects nothing.
pub commands-IsOnce : (sup : Instances) (cs : List Command) → IsOnce sup → IsOnce (commands sup cs)
unfolding commands command handle_abort_fault set_view
commands-IsOnce sup [] o = o
commands-IsOnce sup (runs run ∷ cs) o =
    commands-IsOnce (handle_run_fault sup run) cs (run-IsOnce sup run o)
commands-IsOnce sup (aborts id ∷ cs) o =
    commands-IsOnce (handle_abort_fault sup id) cs (with_handle-IsOnce sup id _ o)
commands-IsOnce sup (moves id state ∷ cs) o =
    commands-IsOnce (set_view sup id state) cs (with_handle-IsOnce sup id _ o)
