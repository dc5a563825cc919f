-- ===== src/Agent/Replay/Boot.antt =====
-- crates/agent/src/supervisor.rs, `replay_journal`, with the listing of crates/agent/src/journal.rs. The
-- texts of read errors, what each invocation comes to, and the errors of the file operations, are
-- arguments.
use Prim.Native.String.{◌++◌ as concat}
use faultforge.Prelude.{
  ℕ, String, Option, none, some, List, [], ◌∷◌, ◌++◌, ◌==◌, if◌then◌else◌, or_else,
}
use faultforge.Prelude.Int.{ℤ}
use faultforge.Prelude.Sort.{sort_by, text_le}
use faultforge.Agent.Host.{JournalEntry, Journal, TaintRecord, TaintFile, current, mark}
use faultforge.Agent.Supervisor.{AgentMessage, taint_status_frame}
use faultforge.Agent.Replay.{Disk, Replay, replay_loop, begin}

abbrev pub journal_version : ℕ
journal_version = 1

pub data JournalReadError : Type 0 where
  read corrupt : (why : String) → JournalReadError
  unknown_version : ℕ → JournalReadError

pub data EntryRead : Type 0 where
  ok : JournalEntry → EntryRead
  err : JournalReadError → EntryRead

-- What a file holds: nothing that can be read, text that is no JSON, or a JSON value with its
-- `version` member, where that is a `u32`. A value decodes as an entry, or not, with the complaint.
pub data StoredFile : Type 0 where
  unreadable not_json : (why : String) → StoredFile
  entry : (version : Option ℕ) → JournalEntry → StoredFile
  no_entry : (version : Option ℕ) → (why : String) → StoredFile

versioned : Option ℕ → EntryRead → EntryRead
versioned none decoded = err (unknown_version 0)
versioned (some v) decoded = if v == journal_version then decoded else err (unknown_version v)

unfoldable pub read_entry : StoredFile → EntryRead
unfolding versioned
read_entry (unreadable why) = err (read why)
read_entry (not_json why) = err (corrupt why)
read_entry (entry version e) = versioned version (ok e)
read_entry (no_entry version why) = versioned version (err (corrupt why))

-- A directory entry that cannot be read, one with another extension, or a `.json` file. The agent names
-- the file of an entry after its instance id, and the removal goes by the id: that a foreign file may
-- have another name is left out.
pub data DirFile : Type 0 where
  broken other : DirFile
  json : StoredFile → DirFile

pub data Directory : Type 0 where
  absent unlistable : Directory
  files : List DirFile → Directory

list_files : List DirFile → Option (List EntryRead)
list_files [] = some []
list_files (broken ∷ fs) = none
list_files (other ∷ fs) = list_files fs
list_files (json f ∷ fs) =
    let rest = list_files fs in elim rest [ none ↦ none | some reads ↦ some (read_entry f ∷ reads) ]

-- `show_error` stands for the texts of the errors.
module _ (show_error : JournalReadError → String) where
  sort_key : EntryRead → String
  sort_key (EntryRead.ok e) = e.instance_id
  sort_key (EntryRead.err e) = show_error e

  sorted : Option (List EntryRead) → Option (List EntryRead)
  unfolding sort_key
  sorted none = none
  sorted (some reads) = some (sort_by (λ a b. text_le (sort_key a) (sort_key b)) reads)

  -- `Journal::list`, where `none` is an error
  unfoldable pub list : Directory → Option (List EntryRead)
  unfolding list_files sorted
  list absent = some []
  list unlistable = none
  list (files fs) = sorted (list_files fs)

-- What the replay leaves: the disk, and the frames for the first session.
pub record Boot : Type 0 where
  pub journal : Journal
  pub taint : TaintFile
  pub frames : List AgentMessage

module _ (now_secs : ℤ) (disk : JournalEntry → Disk) (mark_error : Option String)
    (show_error : JournalReadError → String) where
  after_replay : Boot → Option Replay → Boot
  after_replay b none = b
  after_replay b (some r) = record {
    journal = r.journal;
    taint = r.taint;
    frames = b.frames ++ r.out;
  }

  -- one round of the loop; five rounds are enough for `replay_entry`
  unfoldable pub replay_read : EntryRead → Boot → Boot
  unfolding after_replay
  replay_read (ok e) b =
      after_replay b (replay_loop e (disk e) 5 (begin e (disk e) now_secs b.journal b.taint))
  replay_read (err why) b =
      let r : TaintRecord = record {
        reason = concat "unreadable journal entry at startup: " (show_error why);
        instance_id = "";
      } in
      let taint = mark mark_error r b.taint in
      record b {
        taint = taint;
        frames = b.frames ++ taint_status_frame (or_else (current taint) (some r)) ∷ [];
      }

  unfoldable pub replay_reads : List EntryRead → Boot → Boot
  replay_reads [] b = b
  replay_reads (e ∷ es) b = replay_reads es (replay_read e b)

  replay_listed : Option (List EntryRead) → Boot → Boot
  unfolding replay_reads
  replay_listed none b = b
  replay_listed (some es) b = replay_reads es b

  unfoldable pub replay_journal : Directory → Journal → TaintFile → Boot
  unfolding replay_listed
  replay_journal dir journal taint =
      replay_listed (list show_error dir) (record { journal = journal; taint = taint; frames = [] })
