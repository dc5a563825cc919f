-- ===== src/Agent/Instances/Reported.antt =====
-- crates/agent/src/supervisor.rs, `report_frame`: the report holds the live instances, each once.
use faultforge.Prelude.{
  ℕ, suc, ◌≡◌, ◌∙◌, refl, String, Bool, ◌&&◌, List, [], ◌∷◌, if◌then◌else◌, arith,
}
use faultforge.Prelude.Int.{ℤ}
use faultforge.Prelude.Sort.{count, IsOrdered, count-sort_by, IsOrdered-sort_by, text_le_total}
use faultforge.Proto.Messages.{WireStatus}
use faultforge.Agent.Instances.{
  InstanceHandle, Instances, is_live, status_of, live_statuses, status_le, report_frame,
}

-- How many live instances have a status that does.
abbrev pub count_live : (WireStatus → Bool) → ℤ → List (String × InstanceHandle) → ℕ
count_live p now [] = 0
count_live p now ((id, h) ∷ hs) =
    let rest = count_live p now hs in
    if is_live h.state && p (status_of now id h) then suc rest else rest

module _ (p : WireStatus → Bool) where
  count-live_statuses :
      (now : ℤ) (hs : List (String × InstanceHandle))
      → count p (live_statuses now hs) ≡ count_live p now hs
  unfolding live_statuses
  count-live_statuses now [] = refl
  count-live_statuses now ((id, h) ∷ hs) = ground (arith, count-live_statuses now hs)

-- The report after a registration has every live instance as often as the agent has it, with its
-- state's wire number and its digest, and no terminal one; it is in the order of the ids.
pub report_frame-IsOrdered :
    (sup : Instances) (now : ℤ) (p : WireStatus → Bool)
    → (count p (report_frame sup now) ≡ count_live p now sup.instances)
      × IsOrdered status_le (report_frame sup now)
unfolding report_frame
report_frame-IsOrdered sup now p = (
  count-sort_by status_le p (live_statuses now sup.instances)
      ∙ count-live_statuses p now sup.instances,
  IsOrdered-sort_by status_le (λ a b. text_le_total a.instance_id b.instance_id)
      (live_statuses now sup.instances),
)
