-- ===== src/Scenarios/Marker.antt =====
-- crates/plugins/noop-marker/src/main.rs: an instance whose cleanup fails once.
use Prim.Native.String.{◌++◌}
use faultforge.Prelude.{◌≡◌, refl, true, false, some, none, List, [], ◌∷◌, if◌then◌else◌, is_some}
use faultforge.Prelude.Int.{pos}
use faultforge.Prelude.Dict.{get}
use faultforge.Fault.State.{active, done}
use faultforge.Fault.Protocol.{inject, report, abort, runtime, exit_success}
use faultforge.Fault.Params.{text}
use faultforge.Fault.Events.{PluginInput}
use faultforge.Plugins.NoopMarker.{Os, Disk, DirResult, status, run}
use faultforge.Plugins.NoopMarker.Tracked.{Call, runs, switched, runs_tell}

abbrev os : Os
os = record {
  absolute = λ path. true;
  parent = λ path. some "/tmp";
  to_json = λ m. "{" ++ (m.instance_id ++ "}");
  parse = λ content. none;
  timestamp = λ now. "2026-01-01T00:00:00Z";
}

abbrev sound : Disk
sound = record {
  create_dir = DirResult.already_exists;
  probe = none;
  write = none;
  read = none;
  remove = none;
}

abbrev input : PluginInput
input = record {
  instance_id = "exp-5-0:a:0";
  params = ("marker_path", text "/tmp/marker") ∷ [];
  deadline_unix = pos 45;
  phase = runtime;
}

abbrev calls : List Call
calls =
    record { command = inject; phase = runtime; disk = sound; now = 5 }
    ∷ record {
      command = abort;
      phase = runtime;
      disk = record sound { remove = some "busy" };
      now = 6;
    }
    ∷ []

path_given : get "marker_path" input.params ≡ some (text "/tmp/marker")
unfolding get
path_given = refl

runs_tell_example :
    let (file, answers) = runs os input calls none in
    (is_some file ≡ switched answers false)
    × (run os report sound input 7 file ≡ (
      file,
      record {
        events = status os input 7 (if switched answers false then active else done) ∷ [];
        exit = exit_success;
      },
    ))
runs_tell_example = runs_tell os input "/tmp/marker" calls sound 7 (λ m. refl) path_given refl refl
