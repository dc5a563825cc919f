-- ===== src/Plugins/NoopMarker/Agrees.antt =====
-- crates/plugins/noop-marker/src/main.rs: the exit code of a command tells what became of the marker.
use faultforge.Prelude.{
  ℕ, ◌≡◌, refl, String, Bool, true, false, List, [], is_some, Option-cases, Bool-cases, not, ◌&&◌,
  inl, inr,
}
use faultforge.Prelude.Dict.{get}
use faultforge.Fault.Protocol.{
  PluginCommand, preflight, inject, report, abort, cleanup, Disposition, success, classify_exit,
  command_eq,
}
use faultforge.Fault.Events.{PluginInput, PluginEvent}
use faultforge.Plugins.NoopMarker.{
  Os, Disk, MarkerFile, Outcome, write_marker, inject_marker, revert, run_command, run,
  marker_path_of, exit_unexpected,
}

-- The fault as the agent sees it: on from an inject that succeeds to an abort or cleanup that does.
abbrev pub switch : PluginCommand → Disposition → Bool → Bool
switch inject success on = true
switch abort success on = false
switch cleanup success on = false
switch _ _ on = on

module _ (os : Os) where
  -- A result that agrees with the switch.
  abbrev pub Agrees : PluginCommand → MarkerFile → MarkerFile × Outcome → Type 0
  Agrees c file result = is_some result.0 ≡ switch c (classify_exit result.1.exit) (is_some file)

  inject-Agrees :
      (disk : Disk) (input : PluginInput) (now : ℕ) (path : String) (file : MarkerFile)
      → Agrees inject file (inject_marker os disk input now path file)
  unfolding inject_marker write_marker classify_exit
  inject-Agrees disk input now path file = elim (Option-cases (os.parent path)) [
    | inl root ↦ rw (root, inject_marker, write_marker) refl
    | inr (dir, up) ↦ elim (Option-cases disk.write) [
      | inl good ↦ rw (up, good, inject_marker, write_marker) refl
      | inr (e, bad) ↦ rw (up, bad, inject_marker, write_marker) refl
    ]
  ]

  revert-Agrees :
      (disk : Disk) (input : PluginInput) (now : ℕ) (file : MarkerFile)
      → Agrees abort file (revert os disk input now file)
  unfolding revert classify_exit
  revert-Agrees disk input now file = elim (Option-cases disk.remove) [
    | inl good ↦ rw (good, revert) refl
    | inr (e, bad) ↦ rw (bad, revert) refl
  ]

  run_command-Agrees :
      (c : PluginCommand) (disk : Disk) (input : PluginInput) (now : ℕ) (path : String)
      (file : MarkerFile)
      → Agrees c file (run_command os c disk input now path file)
  unfolding run_command
  run_command-Agrees preflight disk input now path file = refl
  run_command-Agrees inject disk input now path file = inject-Agrees disk input now path file
  run_command-Agrees report disk input now path file = refl
  run_command-Agrees abort disk input now path file = revert-Agrees disk input now file
  run_command-Agrees cleanup disk input now path file = revert-Agrees disk input now file

  -- a command that is refused before it starts
  refused-Agrees :
      (c : PluginCommand) (file : MarkerFile) (events : List PluginEvent)
      → Agrees c file (file, record { events = events; exit = exit_unexpected })
  unfolding classify_exit
  refused-Agrees preflight file events = refl
  refused-Agrees inject file events = refl
  refused-Agrees report file events = refl
  refused-Agrees abort file events = refl
  refused-Agrees cleanup file events = refl

  pub run-Agrees :
      (c : PluginCommand) (disk : Disk) (input : PluginInput) (now : ℕ) (file : MarkerFile)
      → Agrees c file (run os c disk input now file)
  unfolding run
  run-Agrees c disk input now file =
      elim (Option-cases (marker_path_of (get "marker_path" input.params))) [
        | inl missing ↦ rw (missing, run) (refused-Agrees c file [])
        | inr (path, found) ↦
            elim (Bool-cases (not (command_eq c preflight) && not (os.absolute path))) [
              | inl relative ↦ rw (found, relative, run) (refused-Agrees c file [])
              | inr rooted ↦ rw (found, rooted, run) (run_command-Agrees c disk input now path file)
            ]
      ]
