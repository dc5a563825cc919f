-- ===== src/Master/Management/Listed.antt =====
-- crates/master/src/management.rs and dispatch.rs: the lists that the API gives.
use mathlib.Core.List.{Perm}
use mathlib.Core.List.Perm
use faultforge.Prelude.{
  ◌≡◌, ◌⊎◌, ◌<◌, ◌+◌, inl, inr, refl, true, false, Bool-cases, List, [], ◌∷◌, map, arith,
}
use faultforge.Prelude.Int.{pos_part, neg_part, ltb_ℤ}
use faultforge.Prelude.Sort.{perm-sort_by, IsOrdered, IsOrdered-sort_by, text_le, text_le_total}
use faultforge.Master.Experiment.{Experiment}
use faultforge.Master.Dispatch.Frames.{Dispatcher}
use faultforge.Master.Dispatch.Listing.{values, experiment_le, list_experiments}
use faultforge.Master.Management.{agents, summaries, agent_le, list_agents, summaries_of}
use faultforge.Master.Management.Views.{AgentView, SummaryView, agent_view, experiment_summary}

-- Each entry stands in this relation to the next.
abbrev pub IsChained : {A : Type 0} → (A → A → Type 0) → List A → Type 0
IsChained R [] = Unit
IsChained R (x ∷ []) = Unit
IsChained R (x ∷ y ∷ ys) = R x y × IsChained R (y ∷ ys)

abbrev pub IsNamedBefore : AgentView → AgentView → Type 0
IsNamedBefore a b = text_le a.hostname b.hostname ≡ true

-- It started earlier; or at the same time, and its id is no greater.
abbrev pub IsStartedBefore : SummaryView → SummaryView → Type 0
IsStartedBefore a b =
    (pos_part a.started_unix_ms + neg_part b.started_unix_ms
      < pos_part b.started_unix_ms + neg_part a.started_unix_ms)
    ⊎ ((pos_part a.started_unix_ms + neg_part b.started_unix_ms
          ≡ pos_part b.started_unix_ms + neg_part a.started_unix_ms)
        × (text_le a.id b.id ≡ true))

experiment_le_total : (a b : Experiment) → experiment_le a b ≡ false → experiment_le b a ≡ true
experiment_le_total a b h = ground (arith, text_le_total a.id b.id)

agents-IsChained :
    (views : List AgentView) → IsOrdered agent_le views → IsChained IsNamedBefore views
agents-IsChained [] o = tt
agents-IsChained (a ∷ []) o = tt
agents-IsChained (a ∷ b ∷ views) (first, o) = (first, agents-IsChained (b ∷ views) o)

summaries_before :
    (a b : Experiment)
    → experiment_le a b ≡ true
    → IsStartedBefore (experiment_summary a) (experiment_summary b)
unfolding experiment_summary
summaries_before a b h = elim (Bool-cases (ltb_ℤ a.started_unix_ms b.started_unix_ms)) [
  | inl earlier ↦ inl (ground arith)
  | inr late ↦ inr (ground arith, ground arith)
]

summaries-IsChained :
    (listed : List Experiment)
    → IsOrdered experiment_le listed
    → IsChained IsStartedBefore (map experiment_summary listed)
summaries-IsChained [] o = tt
summaries-IsChained (a ∷ []) o = tt
summaries-IsChained (a ∷ b ∷ listed) (first, o) =
    (summaries_before a b first, summaries-IsChained (b ∷ listed) o)

-- `GET /agents` answers with the view of each agent of the registry once, every hostname no greater
-- than the next one's; and `GET /experiments` with the summary of each record of the store once, each
-- started before the next one, or at the same time with an id that is no greater.
pub lists-AreOrdered :
    (d : Dispatcher)
    → ((views : List AgentView) × ((list_agents d ≡ record { status = 200; body = agents views })
          × (Perm views (map agent_view (values d.registry)) × IsChained IsNamedBefore views)))
      × ((listed : List SummaryView) × ((summaries_of d
              ≡ record { status = 200; body = summaries listed })
            × (Perm listed (map experiment_summary (values d.store))
                × IsChained IsStartedBefore listed)))
unfolding list_agents summaries_of list_experiments
lists-AreOrdered d = (
  (
    _,
    (
      refl,
      (
        perm-sort_by agent_le _,
        agents-IsChained _
            (IsOrdered-sort_by agent_le (λ a b. text_le_total a.hostname b.hostname) _),
      ),
    ),
  ),
  (
    _,
    (
      refl,
      (
        Perm.map experiment_summary (perm-sort_by experiment_le _),
        summaries-IsChained _ (IsOrdered-sort_by experiment_le experiment_le_total _),
      ),
    ),
  ),
)
