-- ===== src/Raft/Disk.antt =====
-- The files of raft/persist.go and raft/snapshot.go: raft-state.bin and raft-snapshot.bin. Both are
-- written to a temporary file, synced and renamed, so a write replaces the whole file or, where one
-- of these steps fails, leaves it. The operating system's answers are a list that the writes and
-- reads consume from the front; past its end they succeed.
use raft_implementation.Prelude.{ℕ, String, Option, none, some, List, [], ◌∷◌}
use raft_implementation.Raft.Log.{Bytes, LogEntry}

pub record PersistedState : Type 0 where
  pub current_term : ℕ
  pub voted_for : String
  pub entries : List LogEntry

pub record SnapshotFile : Type 0 where
  pub index : ℕ
  pub term : ℕ
  pub payload : Bytes

-- The step of a write or of a read that failed.
pub data IoError : Type 0 where
  create_failed encode_failed sync_failed rename_failed open_failed decode_failed : IoError

pub record Disk : Type 0 where
  pub state_file : Option PersistedState
  pub snapshot_file : Option SnapshotFile
  pub answers : List (Option IoError)

abbrev pub empty_disk : Disk
empty_disk = record { state_file = none; snapshot_file = none; answers = [] }

abbrev pub first_answer : List (Option IoError) → Option IoError
first_answer [] = none
first_answer (a ∷ _) = a

abbrev pub later_answers : List (Option IoError) → List (Option IoError)
later_answers [] = []
later_answers (_ ∷ rest) = rest

-- What a file holds after a write that was answered so.
abbrev pub written {ℓ} : {A : Type ℓ} → Option IoError → A → Option A → Option A
written none new old = some new
written (some _) new old = old

-- `persist`, which drops every error.
unfoldable pub write_state : PersistedState → Disk → Disk
write_state s d = record d {
  state_file = written (first_answer d.answers) s d.state_file;
  answers = later_answers d.answers;
}

-- `saveSnapshot`, which returns its error.
unfoldable pub save_snapshot : SnapshotFile → Disk → Option IoError × Disk
save_snapshot s d = (
  first_answer d.answers,
  record d {
    snapshot_file = written (first_answer d.answers) s d.snapshot_file;
    answers = later_answers d.answers;
  },
)

-- What a read returns: nothing where there is no file or the read fails.
abbrev pub readable {ℓ} : {A : Type ℓ} → Option IoError → Option A → Option A
readable none file = file
readable (some _) file = none

-- `loadState` gives nothing both for a missing file and for an error, which `Run` ignores.
unfoldable pub read_state : Disk → Option PersistedState × Disk
read_state d =
    (readable (first_answer d.answers) d.state_file, record d { answers = later_answers d.answers })

-- `loadSnapshotFile`.
unfoldable pub load_snapshot_file : Disk → Option SnapshotFile × Disk
load_snapshot_file d = (
  readable (first_answer d.answers) d.snapshot_file,
  record d { answers = later_answers d.answers },
)
