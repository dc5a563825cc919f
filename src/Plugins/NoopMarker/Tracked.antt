-- ===== src/Plugins/NoopMarker/Tracked.antt =====
-- crates/plugins/noop-marker/src/main.rs: the marker file is the fault that the exit codes tell of.
use faultforge.Prelude.{
  ℕ, ◌≡◌, refl, ◌∙◌, ap, String, Bool, true, false, none, some, List, [], ◌∷◌, if◌then◌else◌,
  is_some, arith, Option-cases, Bool-cases, not, ◌&&◌, inl, inr,
}
use mathlib.Core.Path.{subst}
use mathlib.Core.Option.{some-injective}
use faultforge.Prelude.Dict.{get}
use faultforge.Fault.State.{active, done}
use faultforge.Fault.Protocol.{
  PluginCommand, preflight, inject, report, abort, cleanup, Phase, Disposition, exit_success,
  classify_exit, command_eq,
}
use faultforge.Fault.Params.{text}
use faultforge.Fault.Events.{PluginInput}
use faultforge.Plugins.NoopMarker.{
  Os, Disk, Marker, MarkerFile, status, write_marker, inject_marker, report_marker, revert,
  run_command, run, marker_path_of,
}
use faultforge.Plugins.NoopMarker.Agrees.{switch, run-Agrees}

-- one command of an instance
pub record Call : Type 0 where
  pub command : PluginCommand
  pub phase : Phase
  pub disk : Disk
  pub now : ℕ

-- The commands of an instance, one after the other, and what the agent makes of each exit code.
unfoldable pub runs :
    Os → PluginInput → List Call → MarkerFile → MarkerFile × List (PluginCommand × Disposition)
runs os input [] file = (file, [])
runs os input (c ∷ cs) file =
    let (file', outcome) = run os c.command c.disk (record input { phase = c.phase }) c.now file in
    let (last, answers) = runs os input cs file' in
    (last, (c.command, classify_exit outcome.exit) ∷ answers)

abbrev pub switched : List (PluginCommand × Disposition) → Bool → Bool
switched [] on = on
switched ((c, d) ∷ rest) on = switched rest (switch c d on)

module _ (os : Os) where
  -- A file that is there is JSON.
  abbrev Readable : MarkerFile → Type 0
  Readable file = (content : String) → file ≡ some content → os.parse content ≡ none

  written :
      (content : String) (m : Marker)
      → some (os.to_json m) ≡ some content
      → ((m : Marker) → os.parse (os.to_json m) ≡ none)
      → os.parse content ≡ none
  written content m same json =
      subst (λ c. os.parse c ≡ none) (some-injective (os.to_json m) content same) (json m)

  inject-Readable :
      (disk : Disk) (input : PluginInput) (now : ℕ) (path : String) (file : MarkerFile)
      → ((m : Marker) → os.parse (os.to_json m) ≡ none)
      → Readable file
      → Readable (inject_marker os disk input now path file).0
  unfolding inject_marker write_marker
  inject-Readable disk input now path file json h = elim (Option-cases (os.parent path)) [
    | inl root ↦ rw (root, inject_marker, write_marker) h
    | inr (dir, up) ↦ elim (Option-cases disk.write) [
      | inl good ↦
          rw (up, good, inject_marker, write_marker) (λ content same. written content _ same json)
      | inr (e, bad) ↦ rw (up, bad, inject_marker, write_marker) h
    ]
  ]

  revert-Readable :
      (disk : Disk) (input : PluginInput) (now : ℕ) (file : MarkerFile)
      → Readable file
      → Readable (revert os disk input now file).0
  unfolding revert
  revert-Readable disk input now file h = elim (Option-cases disk.remove) [
    | inl good ↦ rw (good, revert) (λ content same. absurd (ground arith))
    | inr (e, bad) ↦ rw (bad, revert) h
  ]

  run-Readable :
      (c : PluginCommand) (disk : Disk) (input : PluginInput) (now : ℕ) (file : MarkerFile)
      → ((m : Marker) → os.parse (os.to_json m) ≡ none)
      → Readable file
      → Readable (run os c disk input now file).0
  unfolding run run_command
  run-Readable c disk input now file json h =
      elim (Option-cases (marker_path_of (get "marker_path" input.params))) [
        | inl missing ↦ rw (missing, run) h
        | inr (path, found) ↦
            elim (Bool-cases (not (command_eq c preflight) && not (os.absolute path))) [
              | inl relative ↦ rw (found, relative, run) h
              | inr rooted ↦ rw (found, rooted, run) (started c path)
            ]
      ]
    where
      started :
          (c : PluginCommand) (path : String)
          → Readable (run_command os c disk input now path file).0
      started preflight path = h
      started inject path = inject-Readable disk input now path file json h
      started report path = h
      started abort path = revert-Readable disk input now file h
      started cleanup path = revert-Readable disk input now file h

  runs-Agrees :
      (input : PluginInput) (calls : List Call) (file : MarkerFile)
      → is_some (runs os input calls file).0 ≡ switched (runs os input calls file).1 (is_some file)
  unfolding runs
  runs-Agrees input [] file = refl
  runs-Agrees input (c ∷ cs) file =
      let result = run os c.command c.disk (record input { phase = c.phase }) c.now file in
      runs-Agrees input cs result.0
      ∙ ap (switched (runs os input cs result.0).1)
          (run-Agrees os c.command c.disk (record input { phase = c.phase }) c.now file)

  runs-Readable :
      (input : PluginInput) (calls : List Call) (file : MarkerFile)
      → ((m : Marker) → os.parse (os.to_json m) ≡ none)
      → Readable file
      → Readable (runs os input calls file).0
  unfolding runs
  runs-Readable input [] file json h = h
  runs-Readable input (c ∷ cs) file json h =
      runs-Readable input cs
        (run os c.command c.disk (record input { phase = c.phase }) c.now file).0 json
        (run-Readable c.command c.disk (record input { phase = c.phase }) c.now file json h)

  report_tells :
      (disk : Disk) (input : PluginInput) (now : ℕ) (file : MarkerFile)
      → Readable file
      → disk.read ≡ none
      → report_marker os disk input now file ≡ record {
        events = status os input now (if is_some file then active else done) ∷ [];
        exit = exit_success;
      }
  unfolding report_marker
  report_tells disk input now none h read = rw (read, report_marker) refl
  report_tells disk input now (some content) h read = rw (read, h content refl, report_marker) refl

-- For an instance whose marker path is absolute, whatever its commands are and whatever the file
-- operations answer: the marker file is there exactly if the exit codes say so, which is from an
-- inject that succeeds to an abort or cleanup that succeeds. And where what serde_json writes is JSON
-- and the file can be read, a report then says Active if it is there and Done if not, with success.
pub runs_tell :
    (os : Os) (input : PluginInput) (path : String) (calls : List Call) (disk : Disk) (now : ℕ)
    → ((m : Marker) → os.parse (os.to_json m) ≡ none)
    → get "marker_path" input.params ≡ some (text path)
    → os.absolute path ≡ true
    → disk.read ≡ none
    → let (file, answers) = runs os input calls none in
      (is_some file ≡ switched answers false)
      × (run os report disk input now file ≡ (
        file,
        record {
          events = status os input now (if switched answers false then active else done) ∷ [];
          exit = exit_success;
        },
      ))
unfolding run run_command
runs_tell os input path calls disk now json found rooted read =
    let file = (runs os input calls none).0 in
    let agrees = runs-Agrees os input calls none in
    let readable = runs-Readable os input calls none json (λ content same. absurd (ground arith)) in
    (
      agrees,
      rw (found, rooted, run, run_command)
          (ap (λ o. (file, o))
            (report_tells os disk input now file readable read
              ∙ ap
                  (λ b. record {
                    events = status os input now (if b then active else done) ∷ [];
                    exit = exit_success;
                  })
                  agrees)),
    )
