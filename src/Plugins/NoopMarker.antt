-- ===== src/Plugins/NoopMarker.antt =====
-- crates/plugins/noop-marker/src/main.rs: the reference plugin, whose fault is a marker file. `Os`
-- stands for the path functions of the standard library, serde_json and humantime, and a `Disk` for
-- what the file operations of one command answer.
pub mod Agrees
pub mod Tracked
use Prim.Native.String.{◌++◌ as cat}
use faultforge.Prelude.{
  ℕ, String, Bool, true, false, not, ◌&&◌, Option, none, some, List, [], ◌∷◌, if◌then◌else◌,
}
use faultforge.Prelude.Int.{ℤ, pos}
use faultforge.Prelude.Dict.{get}
use faultforge.Fault.State.{InstanceState, injecting, active, recovering, done}
use faultforge.Fault.Protocol.{
  PluginCommand, preflight, inject, report, abort, cleanup, command_eq, exit_success,
  exit_preflight_failed, exit_inject_failed, exit_cleanup_failed,
}
use faultforge.Fault.Params.{Params, Value, text}
use faultforge.Fault.Events.{PluginInput, PluginEvent, Level, status_event, log_event}

-- generic unexpected failure
abbrev pub exit_unexpected : ℤ
exit_unexpected = pos 1

abbrev plugin_identity : String
plugin_identity = "noop-marker@1"

pub record Marker : Type 0 where
  pub instance_id : String
  pub plugin : String
  pub deadline_unix : ℤ
  pub params : Params
  pub written_at_unix : ℤ

pub record Outcome : Type 0 where
  pub events : List PluginEvent
  pub exit : ℤ

-- `parse` gives the error of a text that is not JSON.
pub record Os : Type 0 where
  pub absolute : String → Bool
  pub parent : String → Option String
  pub to_json : Marker → String
  pub parse : String → Option String
  pub timestamp : ℕ → String

-- what `create_dir` gives
pub data DirResult : Type 0 where
  ok already_exists : DirResult
  other : (error : String) → DirResult

-- The errors of the file operations; `none` is none. A file that is not there is seen in the file itself.
pub record Disk : Type 0 where
  pub create_dir : DirResult
  pub probe : Option String
  pub write : Option String
  pub read : Option String
  pub remove : Option String

-- What is at the path of the marker.
abbrev pub MarkerFile : Type 0
MarkerFile = Option String

-- `input.params.get("marker_path")` with `as_str`
unfoldable pub marker_path_of : Option Value → Option String
marker_path_of (some (text path)) = some path
marker_path_of _ = none

module _ (os : Os) where
  abbrev pub status : PluginInput → ℕ → InstanceState → PluginEvent
  status input now state = status_event (os.timestamp now) input.instance_id state

  abbrev pub log : PluginInput → ℕ → Level → String → PluginEvent
  log input now level msg = log_event (os.timestamp now) input.instance_id level msg

  abbrev pub fail : PluginInput → ℕ → ℤ → String → Outcome
  fail input now exit msg = record { events = log input now Level.error msg ∷ []; exit = exit }

  -- the probe file
  probed : Disk → PluginInput → ℕ → String → Outcome
  probed disk input now dir = elim disk.probe [
    | some e ↦
        fail input now exit_preflight_failed
          (cat (cat (cat "marker directory " dir) " is not writable: ") e)
    | none ↦ record { events = status input now InstanceState.preflight ∷ []; exit = exit_success }
  ]

  -- the `match` on `create_dir`
  created : Disk → PluginInput → ℕ → String → DirResult → Outcome
  unfolding probed
  created disk input now dir (other e) =
      fail input now exit_preflight_failed
        (cat (cat (cat "cannot create marker directory " dir) ": ") e)
  created disk input now dir _ = probed disk input now dir

  unfoldable pub preflight_marker : Disk → PluginInput → ℕ → String → Outcome
  unfolding created
  preflight_marker disk input now path =
      if os.absolute path
      then elim (os.parent path) [
        | none ↦ fail input now exit_preflight_failed "marker_path has no parent directory"
        | some dir ↦ created disk input now dir disk.create_dir
      ]
      else fail input now exit_preflight_failed (cat "marker_path is not absolute: " path)

  -- `write_marker`: the file at the path, and the error
  unfoldable pub write_marker :
      Disk → PluginInput → ℕ → String → MarkerFile → MarkerFile × Option String
  write_marker disk input now path file = elim (os.parent path) [
    | none ↦ (file, some "marker_path has no parent directory")
    | some dir ↦ elim disk.write [
      | some e ↦ (file, some e)
      | none ↦ (
        some (
            os.to_json (record {
              instance_id = input.instance_id;
              plugin = plugin_identity;
              deadline_unix = input.deadline_unix;
              params = input.params;
              written_at_unix = pos now;
            })),
        none,
      )
    ]
  ]

  injected : PluginInput → ℕ → MarkerFile × Option String → MarkerFile × Outcome
  injected input now (file, none) = (
    file,
    record {
      events = status input now injecting ∷ status input now active ∷ [];
      exit = exit_success;
    },
  )
  injected input now (file, some e) = (
    file,
    record {
      events =
          status input now injecting ∷ log input now Level.error (cat "inject failed: " e) ∷ [];
      exit = exit_inject_failed;
    },
  )

  unfoldable pub inject_marker : Disk → PluginInput → ℕ → String → MarkerFile → MarkerFile × Outcome
  unfolding injected
  inject_marker disk input now path file =
      injected input now (write_marker disk input now path file)

  unfoldable pub report_marker : Disk → PluginInput → ℕ → MarkerFile → Outcome
  report_marker disk input now file = elim disk.read [
    | some e ↦ fail input now exit_unexpected (cat "cannot read marker: " e)
    | none ↦ elim file [
      | none ↦ record { events = status input now done ∷ []; exit = exit_success }
      | some content ↦ elim (os.parse content) [
        | none ↦ record { events = status input now active ∷ []; exit = exit_success }
        | some e ↦ fail input now exit_unexpected (cat "marker present but not parseable JSON: " e)
      ]
    ]
  ]

  unfoldable pub revert : Disk → PluginInput → ℕ → MarkerFile → MarkerFile × Outcome
  revert disk input now file =
      let first = status input now recovering in
      elim disk.remove [
        | none ↦ (none, record { events = first ∷ status input now done ∷ []; exit = exit_success })
        | some e ↦ (
          file,
          record {
            events = first ∷ log input now Level.error (cat "failed to remove marker: " e) ∷ [];
            exit = exit_cleanup_failed;
          },
        )
      ]

  -- the last `match` of `run`
  unfoldable pub run_command :
      PluginCommand → Disk → PluginInput → ℕ → String → MarkerFile → MarkerFile × Outcome
  run_command preflight disk input now path file = (file, preflight_marker disk input now path)
  run_command inject disk input now path file = inject_marker disk input now path file
  run_command report disk input now path file = (file, report_marker disk input now file)
  run_command abort disk input now path file = revert disk input now file
  run_command cleanup disk input now path file = revert disk input now file

  unfoldable pub run : PluginCommand → Disk → PluginInput → ℕ → MarkerFile → MarkerFile × Outcome
  unfolding marker_path_of
  run command disk input now file = elim (marker_path_of (get "marker_path" input.params)) [
    | none ↦ (file, fail input now exit_unexpected "params.marker_path missing or not a string")
    | some path ↦
        if not (command_eq command preflight) && not (os.absolute path)
        then (file, fail input now exit_unexpected (cat "marker_path is not absolute: " path))
        else run_command command disk input now path file
  ]
