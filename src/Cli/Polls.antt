-- ===== src/Cli/Polls.antt =====
-- crates/cli/src/script.rs against crates/master/src/dispatch.rs: the master as the polls of `wait_until_terminal` find it.
use faultforge.Prelude.{
  eq_refl, Bool-cases, inl, inr, String, true, Option, none, some, All, List, [], ◌∷◌, ◌++◌, ◌≡◌,
  refl, if◌then◌else◌, arith, Option-cases,
}
use faultforge.Prelude.Int.{ℤ}
use faultforge.Prelude.Dict.{get, get-insert}
use faultforge.Fault.Params.{Params}
use faultforge.Master.Experiment.{ExperimentDefinition, Experiment, is_concluded, mint_id}
use faultforge.Master.Dispatch.Frames.{Dispatcher}
use faultforge.Master.Dispatch.Store.{
  IsSoundStore, resolve_concludes, Call, expires, handle, run as run_calls, run-IsSoundStore,
}
use faultforge.Master.Experiment.Validate.{validate}
use faultforge.Master.Dispatch.Start.{gather_host_facts, start_experiment, start_validated}
use faultforge.Master.Dispatch.Kept.{HasEntry, run_keeps, run-append}
use faultforge.Master.Dispatch.Concluded.{HasConcluded, IsUnminted, run-concluded}
use mathlib.Core.Path.{subst}

-- the first of the polled records that is concluded
unfoldable pub first_concluded : List (Dispatcher × ℤ) → String → Option Experiment
first_concluded [] id = none
first_concluded ((d, now) ∷ polls) id =
    let rest = first_concluded polls id in
    elim (get id d.store) [ none ↦ none | some e ↦ if is_concluded e then some e else rest ]

module _ (encode : Params → Option String) where
  -- the master at each poll, after the calls that came since the one before
  abbrev pub watched : Dispatcher → List (List Call × ℤ) → List (Dispatcher × ℤ)
  watched d [] = []
  watched d ((cs, now) ∷ batches) =
      (run_calls encode d cs, now) ∷ watched (run_calls encode d cs) batches

  pub started-HasEntry :
      (d : Dispatcher) (now : ℤ) (x : ExperimentDefinition)
      → validate x d.catalog (gather_host_facts d x) ≡ []
      → HasEntry (mint_id now d.seq) (start_experiment encode d x now).0.store
  unfolding start_experiment start_validated
  started-HasEntry d now x clean =
      rw
        (
          clean,
          get-insert (mint_id now d.seq) (mint_id now d.seq) _ d.store,
          eq_refl (mint_id now d.seq),
        )
        refl

  pub watched-HasEntry :
      (id : String) (d : Dispatcher) (batches : List (List Call × ℤ))
      → HasEntry id d.store
      → All (λ p. HasEntry id p.0.store) (watched d batches)
  watched-HasEntry id d [] h = tt
  watched-HasEntry id d ((cs, now) ∷ batches) h =
      let h' = run_keeps encode id d cs h in
      (h', watched-HasEntry id (run_calls encode d cs) batches h')

  -- the calls before the polls
  abbrev pub calls_of : List (List Call × ℤ) → List Call
  calls_of [] = []
  calls_of ((cs, now) ∷ batches) = cs ++ calls_of batches

  -- the master right after the deadline, which comes after these calls
  abbrev pub expired : String → Dispatcher → List (List Call × ℤ) → List Call → ℤ → Dispatcher
  expired id d batches cs t =
      handle encode (run_calls encode (run_calls encode d (calls_of batches)) cs) (expires id t)

  concluded_entry :
      (id : String) (d : Dispatcher)
      → HasConcluded id d.store
      → (e : Experiment) × (get id d.store ≡ some e) × (is_concluded e ≡ true)
  concluded_entry id d h = elim (Option-cases (get id d.store)) [
    | inl missing ↦ absurd (ground (arith, h))
    | inr (e, found) ↦ (e, found, rw found at h)
  ]

  expired-HasConcluded :
      (id : String) (d : Dispatcher) (cs : List Call) (t : ℤ)
      → HasEntry id d.store
      → IsSoundStore d.store
      → HasConcluded id (expired id d [] cs t).store
  unfolding handle run_calls
  expired-HasConcluded id d cs t h sound =
      let d' = run_calls encode d cs in
      elim (Option-cases (get id d'.store)) [
        | inl missing ↦ absurd (ground (arith, run_keeps encode id d cs h))
        | inr (e, found) ↦
            let (e', found', over) =
              resolve_concludes d' id t e (run-IsSoundStore encode d cs sound) found in
            rw (found') over
      ]

  -- one poll past the deadline finds the record concluded
  pub first_concluded-watched :
      (id : String) (d : Dispatcher) (batches : List (List Call × ℤ)) (cs after : List Call)
      (t now : ℤ)
      → HasEntry id d.store
      → IsSoundStore d.store
      → IsUnminted encode id (expired id d batches cs t) after
      → (e : Experiment) × (first_concluded
            (watched d (batches ++ (cs ++ expires id t ∷ after, now) ∷ []))
            id
          ≡ some e)
        × (is_concluded e ≡ true)
  unfolding first_concluded run_calls
  first_concluded-watched id d [] cs after t now h sound unminted =
      let d' = expired id d [] cs t in
      let (e, found, over) =
        concluded_entry id (run_calls encode d' after)
          (run-concluded encode id d' after unminted (expired-HasConcluded id d cs t h sound)) in
      (
        e,
        rw (run-append encode d cs (expires id t ∷ after), found, over, first_concluded) refl,
        over,
      )
  first_concluded-watched id d ((ds, at) ∷ batches) cs after t now h sound unminted =
      let d' = run_calls encode d ds in
      let h' = run_keeps encode id d ds h in
      let (e', found', over) =
        first_concluded-watched id d' batches cs after t now h' (run-IsSoundStore encode d ds sound)
          (subst
            (λ r. IsUnminted encode id (handle encode (run_calls encode r cs) (expires id t)) after)
            (run-append encode d ds (calls_of batches)) unminted) in
      elim (Option-cases (get id d'.store)) [
        | inl missing ↦ absurd (ground arith)
        | inr (e, found) ↦ elim (Bool-cases (is_concluded e)) [
          | inl already ↦ (e, rw (found, already, first_concluded) refl, already)
          | inr on ↦ (e', rw (found, on, first_concluded) found', over)
        ]
      ]
