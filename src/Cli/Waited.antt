-- ===== src/Cli/Waited.antt =====
-- crates/cli/src/script.rs against crates/master/src: `experiment run --wait`, from the submission to the exit
-- code. The command sees the master as it is at each poll.
use faultforge.Prelude.{
  Bool-cases, inl, inr, String, true, false, Option, none, some, All, List, [], ◌∷◌, ◌++◌, map, ◌≡◌,
  refl, arith, Option-cases,
}
use faultforge.Prelude.Int.{ℤ}
use faultforge.Prelude.Dict.{get}
use faultforge.Prelude.Text.{is_empty}
use faultforge.Master.Experiment.Ids.{mint_id_nonempty}
use faultforge.Fault.Params.{Params}
use faultforge.Master.Experiment.{ExperimentDefinition, Experiment, is_concluded, mint_id}
use faultforge.Master.Dispatch.Frames.{Dispatcher}
use faultforge.Master.Dispatch.Handlers.{get_experiment as stored}
use faultforge.Master.Dispatch.Store.{
  IsSoundStore, Call, starts, expires, handle, handle-IsSoundStore,
}
use faultforge.Master.Experiment.Validate.{validate}
use faultforge.Master.Experiment.Mint.{mint_experiment}
use faultforge.Master.Dispatch.Start.{gather_host_facts, start_experiment, start_validated}
use faultforge.Master.Dispatch.Kept.{HasEntry}
use faultforge.Master.Dispatch.Concluded.{IsUnminted}
use faultforge.Master.Management as Management
use faultforge.Master.Management.{show_experiment, experiment_response}
use faultforge.Master.Management.Views.{experiment_view}
use faultforge.Master.Management.Routes.{route-show_experiment, route-run_experiment}
use faultforge.Cli.Link.{Link, IsFaithful, Carries, connected, exchange-connected}
use faultforge.Cli.Api.{Http, value, ok, get as get_, post, get_experiment, run_experiment}
use faultforge.Cli.Output.{OutputFormat}
use faultforge.Cli.Polls.{
  first_concluded, watched, expired, started-HasEntry, watched-HasEntry, first_concluded-watched,
}
use faultforge.Cli.Actions.{code_of}
use faultforge.Cli.Script.{
  Shell, written, experiment, run_file, run, run_command, wait_until_terminal, waited,
  run_experiment_file, read_file, submitted, printed, write_line,
}
use faultforge.Cli.Seen.{seen, seen_result, seen-is_terminal, phase_code, outcome_exit_code-seen}

-- the client's view of the master at each poll
abbrev pub servers :
    {B : Type 0}
    → Link ExperimentDefinition B
    → (Params → Option String)
    → List (Dispatcher × ℤ)
    → List (Http ExperimentDefinition B)
servers link encode = map (λ p. connected link encode p.0 p.1)

module _ {B : Type 0} (link : Link ExperimentDefinition B) (encode : Params → Option String)
    (faithful : IsFaithful link) (shell : Shell ExperimentDefinition) (format : OutputFormat) where
  get_experiment-connected :
      (d : Dispatcher) (now : ℤ) (id : String) (e : Experiment)
      → is_empty id ≡ false
      → Carries link ("experiments" ∷ id ∷ [])
      → get id d.store ≡ some e
      → get_experiment (connected link encode d now) id ≡ ok (seen e)
  unfolding get_experiment show_experiment experiment_response stored
  get_experiment-connected d now id e filled path found = rw (
    exchange-connected link encode d now get_ ("experiments" ∷ id ∷ []) none path,
    route-show_experiment encode d (Management.refused 415) now id filled,
    found,
    faithful.reads (experiment_view e),
  )

  wait_until_terminal-connected :
      (id : String) (polls : List (Dispatcher × ℤ))
      → is_empty id ≡ false
      → Carries link ("experiments" ∷ id ∷ [])
      → All (λ p. HasEntry id p.0.store) polls
      → wait_until_terminal shell format (servers link encode polls) id
        ≡ seen_result (first_concluded polls id)
  unfolding wait_until_terminal first_concluded
  wait_until_terminal-connected id [] filled path all = refl
  wait_until_terminal-connected id ((d, now) ∷ polls) filled path (here, all) =
      elim (Option-cases (get id d.store)) [
        | inl missing ↦ absurd (ground arith)
        | inr (e, found) ↦ elim (Bool-cases (is_concluded e)) [
          | inl over ↦
              rw
                (
                  get_experiment-connected d now id e filled path found,
                  found,
                  seen-is_terminal e,
                  over,
                  wait_until_terminal,
                  first_concluded,
                )
                refl
          | inr on ↦
              rw
                (
                  get_experiment-connected d now id e filled path found,
                  found,
                  seen-is_terminal e,
                  on,
                  wait_until_terminal,
                  first_concluded,
                )
                (wait_until_terminal-connected id polls filled path all)
        ]
      ]

  -- what a submission that passes validation leaves behind it, and what its sender reads
  run_experiment-connected :
      (d : Dispatcher) (now : ℤ) (x : ExperimentDefinition)
      → Carries link ("experiments" ∷ [])
      → link.extract x ≡ Management.definition x
      → validate x d.catalog (gather_host_facts d x) ≡ []
      → run_experiment (connected link encode d now) x
        ≡ ok (
            seen
              (mint_experiment (mint_id now d.seq) x d.default_grace_secs now d.deadline_margin_ms))
  unfolding run_experiment Management.run_experiment start_experiment start_validated
      Management.start_response
  run_experiment-connected d now x path carried clean =
      rw
        (
          exchange-connected link encode d now post ("experiments" ∷ []) (some x) path,
          carried,
          route-run_experiment encode d (Management.definition x) now,
          clean,
        )
        (rw
          (faithful.reads (
            experiment_view (
              mint_experiment (mint_id now d.seq) x d.default_grace_secs now d.deadline_margin_ms)))
          refl)

  run_file-connected :
      (d : Dispatcher) (now : ℤ) (x : ExperimentDefinition) (file : String)
      (polls : List (Http ExperimentDefinition B))
      → Carries link ("experiments" ∷ [])
      → link.extract x ≡ Management.definition x
      → shell.read file ≡ value x
      → validate x d.catalog (gather_host_facts d x) ≡ []
      → run shell format (ok (connected link encode d now)) polls (experiment (run_file file true))
        ≡ waited shell format (wait_until_terminal shell format polls (mint_id now d.seq))
  unfolding run run_command run_experiment_file read_file submitted mint_experiment experiment_view
  run_file-connected d now x file polls path carried parsed clean =
      rw (parsed, run_experiment-connected d now x path carried clean) refl

  waited-code :
      (e : Experiment)
      → shell.write ≡ written
      → code_of (waited shell format (some (ok (seen e)))) ≡ some (phase_code e.phase)
  unfolding waited printed write_line
  waited-code e w = rw (w, outcome_exit_code-seen e)

  -- An experiment whose file parses and which a faithful link carries to a master with a sound
  -- store, where it passes validation, over paths that come to the router as the client wrote them:
  -- whatever calls the master takes before each poll, if the deadline is among those before the
  -- last one, and no start between the deadline and that poll mints the experiment's id again,
  -- `experiment run --wait` ends. With a standard output that takes what is written, its exit code
  -- is that of the outcome of the first record that a poll finds concluded: 0 for COMPLETED, 4 for
  -- ABORTED, 5 for ERROR.
  pub run_waits :
      (d : Dispatcher) (now : ℤ) (x : ExperimentDefinition) (file : String)
      (batches : List (List Call × ℤ)) (cs after : List Call) (t later : ℤ)
      → Carries link ("experiments" ∷ [])
      → Carries link ("experiments" ∷ mint_id now d.seq ∷ [])
      → link.extract x ≡ Management.definition x
      → shell.read file ≡ value x
      → shell.write ≡ written
      → validate x d.catalog (gather_host_facts d x) ≡ []
      → IsSoundStore d.store
      → IsUnminted encode
          (mint_id now d.seq)
          (expired encode (mint_id now d.seq) (start_experiment encode d x now).0 batches cs t)
          after
      → let id = mint_id now d.seq in
        let polls =
          watched encode
            (start_experiment encode d x now).0
            (batches ++ (cs ++ expires id t ∷ after, later) ∷ []) in
        (e : Experiment) × (first_concluded polls id ≡ some e)
        × (is_concluded e ≡ true)
        × (code_of (
              run shell format
                (ok (connected link encode d now))
                (servers link encode polls)
                (experiment (run_file file true)))
            ≡ some (phase_code e.phase))
  unfolding handle
  run_waits d now x file batches cs after t later path shown carried parsed w clean sound unminted =
      let id = mint_id now d.seq in
      let d' = (start_experiment encode d x now).0 in
      let polls = watched encode d' (batches ++ (cs ++ expires id t ∷ after, later) ∷ []) in
      let here = started-HasEntry encode d now x clean in
      let (e, found, over) =
        first_concluded-watched encode id d' batches cs after t later here
          (handle-IsSoundStore encode d (starts x now) sound) unminted in
      (
        e,
        found,
        over,
        rw
            (
              run_file-connected d now x file (servers link encode polls) path carried parsed clean,
              wait_until_terminal-connected id polls (mint_id_nonempty now d.seq) shown
                  (watched-HasEntry encode id d' _ here),
              found,
            )
            (waited-code e w),
      )
