-- ===== src/Agent/Host.antt =====
-- crates/agent/src/journal.rs and taint.rs: what the agent keeps on the host's disk. What a file
-- operation comes to is an argument: `some why` is its error. Timestamps are left out.
use Prim.Native.String.{◌++◌}
use faultforge.Prelude.{ℕ, String, Option, none, some, List, if◌then◌else◌, is_some}
use faultforge.Prelude.Int.{ℤ}
use faultforge.Prelude.Dict.{insert, remove}
use faultforge.Fault.Params.{Params}

pub record JournalEntry : Type 0 where
  pub version : ℕ
  pub instance_id : String
  pub plugin_name : String
  pub plugin_version : String
  pub plugin_digest : String
  pub params : Params
  pub started_unix_ms : ℤ
  pub duration_secs : ℕ
  pub grace_secs : ℕ
  pub deadline_unix : ℤ

-- The journal directory: the entry in each instance's file.
abbrev pub Journal : Type 0
Journal = List (String × JournalEntry)

-- `Journal::write`: the entry is there in full or not at all
unfoldable pub write : Option String → JournalEntry → Journal → Journal
write none entry journal = insert entry.instance_id entry journal
write (some why) entry journal = journal

-- `Journal::remove`
unfoldable pub remove_entry : Option String → String → Journal → Journal
remove_entry none instance_id journal = remove instance_id journal
remove_entry (some why) instance_id journal = journal

pub record TaintRecord : Type 0 where
  pub reason : String
  pub instance_id : String

-- The file `tainted.json`, as reading it finds it.
pub data TaintFile : Type 0 where
  absent : TaintFile
  unreadable corrupt : String → TaintFile
  holds : TaintRecord → TaintFile

-- `Taint::current`
unfoldable pub current : TaintFile → Option TaintRecord
current absent = none
current (unreadable why) =
    some (record { reason = "taint record unreadable: " ++ why; instance_id = "" })
current (corrupt why) = some (record { reason = "taint record corrupt: " ++ why; instance_id = "" })
current (holds r) = some r

persisted : Option String → TaintRecord → TaintFile → TaintFile
persisted none r file = holds r
persisted (some why) r file = file

-- `Taint::mark`
unfoldable pub mark : Option String → TaintRecord → TaintFile → TaintFile
unfolding persisted
mark failure r file = if is_some (current file) then file else persisted failure r file

-- `Taint::clear`
unfoldable pub clear : Option String → TaintFile → TaintFile
clear none file = absent
clear (some why) file = file
