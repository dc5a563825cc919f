-- ===== src/Master/Dispatch/Listing.antt =====
-- crates/master/src/dispatch.rs: `list_experiments`, in the order of the tuples that it compares.
use faultforge.Prelude.{String, Bool, ◌&&◌, ◌||◌, not, List, [], ◌∷◌}
use faultforge.Prelude.Int.{ltb_ℤ}
use faultforge.Prelude.Sort.{sort_by, text_le}
use faultforge.Master.Experiment.{Experiment}
use faultforge.Master.Dispatch.Frames.{Dispatcher}

-- `values().cloned()`
abbrev pub values {ℓ} : {V : Type ℓ} → List (String × V) → List V
values [] = []
values ((k, v) ∷ m) = v ∷ values m

abbrev pub experiment_le : Experiment → Experiment → Bool
experiment_le a b =
    ltb_ℤ a.started_unix_ms b.started_unix_ms
    || not (ltb_ℤ b.started_unix_ms a.started_unix_ms) && text_le a.id b.id

unfoldable pub list_experiments : Dispatcher → List Experiment
list_experiments d = sort_by experiment_le (values d.store)
