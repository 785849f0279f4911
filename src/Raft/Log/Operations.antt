-- ===== src/Raft/Log/Operations.antt =====
-- The three operations that change a log, taken together.
use raft_implementation.Prelude.{
  ℕ, ◌+◌, ◌-◌, ◌<◌, ◌≡◌, ◌&&◌, List, length, get_or, ltb, leb, ◌==◌, u64_mod, if◌then◌else◌,
}
use raft_implementation.Raft.Log.{
  Log, LogEntry, zero_entry, sentinel, get, last_index, snapshot_index, append, truncate_from,
  compact_to,
}
use raft_implementation.Raft.Log.Shape.{IsLog, Contiguous}
use raft_implementation.Raft.Log.Keeps.{append-IsLog, truncate_from-IsLog, compact_to-IsLog}
use raft_implementation.Raft.Log.Reads.{get-append, get-truncate_from, get-compact_to}

pub data LogOp : Type 0 where
  append_op : List LogEntry → LogOp
  truncate_op : ℕ → LogOp
  compact_op : (index term : ℕ) → LogOp

abbrev pub act : LogOp → Log → Log
act (append_op es) l = append l es
act (truncate_op i) l = truncate_from l i
act (compact_op i t) l = compact_to l i t

-- Entries fit if they carry on where the log ends; all indexes stay within 64 bits.
abbrev pub Fits : LogOp → Log → Type 0
Fits (append_op es) l =
    Contiguous (last_index l + 1) es × (snapshot_index l + length l.entries + length es < u64_mod)
Fits (truncate_op i) l = i < u64_mod
Fits (compact_op i t) l = i + 1 < u64_mod

-- What an index reads after an operation.
abbrev pub read_after : LogOp → Log → ℕ → LogEntry
read_after (append_op es) l j =
    if ltb (last_index l) j then get_or es (j - last_index l - 1) zero_entry else get l j
read_after (truncate_op i) l j = if ltb (snapshot_index l) i && leb i j then zero_entry else get l j
read_after (compact_op i t) l j =
    if leb i (snapshot_index l)
    then get l j
    else if ltb j i
    then zero_entry
    else if j == i
    then sentinel i t
    else get l j

-- Appending entries that carry on where a well-formed log ends, and truncation and compaction at
-- any index, all within 64 bits: the log stays well-formed, and every index reads what the
-- operation says.
pub act-IsLog :
    (op : LogOp) (l : Log)
    → IsLog l
    → Fits op l
    → IsLog (act op l) × ((j : ℕ) → j < u64_mod → get (act op l) j ≡ read_after op l j)
act-IsLog (append_op es) l w f = (append-IsLog l w es f.0 f.1, λ j h. get-append l w es j f.0 f.1 h)
act-IsLog (truncate_op i) l w f =
    (truncate_from-IsLog l w i f, λ j h. get-truncate_from l w i j f h)
act-IsLog (compact_op i t) l w f = (compact_to-IsLog l w i t f, λ j h. get-compact_to l w i t j f h)
