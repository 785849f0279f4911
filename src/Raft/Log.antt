-- ===== src/Raft/Log.antt =====
-- raft/log.go: the replicated log of one node, with a sentinel at the snapshot boundary.
pub mod Basic
pub mod Shape
pub mod Bounds
pub mod Keeps
pub mod Reads
pub mod Slices
pub mod Operations
use raft_implementation.Prelude.{
  ℕ, ◌+◌, ◌-◌, String, Bool, false, ◌&&◌, ◌||◌, List, [], ◌∷◌, ◌++◌, ltb, leb, ◌==◌, if◌then◌else◌,
  length, get_or, take, drop, add64, sub64,
}

abbrev pub Bytes : Type 0
Bytes = List ℕ

pub record LogEntry : Type 0 where
  pub term : ℕ
  pub index : ℕ
  pub command : Bytes
  pub is_config : Bool
  pub config_op : String
  pub config_peer : String

-- The zero value `LogEntry{}`.
abbrev pub zero_entry : LogEntry
zero_entry = record {
  term = 0;
  index = 0;
  command = [];
  is_config = false;
  config_op = "";
  config_peer = "";
}

-- `LogEntry{Index: index, Term: term}`.
abbrev pub sentinel : ℕ → ℕ → LogEntry
sentinel i t = record zero_entry { term = t; index = i }

-- `entries[0]` is the sentinel; where Go panics on an empty slice, the zero entry is read.
pub record Log : Type 0 where
  pub entries : List LogEntry

abbrev pub new_log : Log
new_log = record { entries = sentinel 0 0 ∷ [] }

unfoldable pub snapshot_index : Log → ℕ
snapshot_index l = (get_or l.entries 0 zero_entry).index

unfoldable pub snapshot_term : Log → ℕ
snapshot_term l = (get_or l.entries 0 zero_entry).term

unfoldable pub append : Log → List LogEntry → Log
append l es = record { entries = l.entries ++ es }

unfoldable pub get : Log → ℕ → LogEntry
unfolding snapshot_index
get l i =
    let offset = snapshot_index l in
    if ltb i offset || leb (length l.entries) (sub64 i offset)
    then zero_entry
    else get_or l.entries (sub64 i offset) zero_entry

unfoldable pub last_index : Log → ℕ
unfolding snapshot_index
last_index l = sub64 (add64 (snapshot_index l) (length l.entries)) 1

unfoldable pub last_term : Log → ℕ
last_term l = (get_or l.entries (length l.entries - 1) zero_entry).term

unfoldable pub truncate_from : Log → ℕ → Log
unfolding snapshot_index
truncate_from l i =
    let offset = snapshot_index l in
    let physical = sub64 i offset in
    if leb i offset
    then l
    else if ltb physical (length l.entries)
    then record { entries = take physical l.entries }
    else l

unfoldable pub compact_to : Log → ℕ → ℕ → Log
unfolding snapshot_index
compact_to l i t =
    let offset = snapshot_index l in
    let physical = sub64 i offset in
    if leb i offset
    then l
    else if leb (length l.entries) physical
    then record { entries = sentinel i t ∷ [] }
    else record { entries = sentinel i t ∷ drop (add64 physical 1) l.entries }

unfoldable pub first_index_in : ℕ → List LogEntry → ℕ
first_index_in t [] = 0
first_index_in t (e ∷ es) = if e.term == t then e.index else first_index_in t es

unfoldable pub first_index_for_term : Log → ℕ → ℕ
unfolding first_index_in
first_index_for_term l t = first_index_in t l.entries

-- `entries[from:to]` of a Go slice.
abbrev pub subslice : ℕ → ℕ → List LogEntry → List LogEntry
subslice from to es = take (to - from) (drop from es)

-- The first line of `slice`, which skips the compacted entries.
abbrev pub clamp_from : ℕ → ℕ → ℕ
clamp_from offset from = if leb from offset then add64 offset 1 else from

unfoldable pub slice : Log → ℕ → ℕ → List LogEntry
unfolding snapshot_index
slice l from₀ to =
    let offset = snapshot_index l in
    let from = clamp_from offset from₀ in
    let phys_from = sub64 from offset in
    let phys_to = sub64 to offset in
    let size = length l.entries in
    if leb to from
    then []
    else if leb size phys_from
    then []
    else subslice phys_from (if ltb size phys_to then size else phys_to) l.entries
