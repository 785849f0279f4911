-- ===== src/Raft/Snapshot.antt =====
-- raft/snapshot.go and `loadState` of raft/persist.go: compaction, snapshot transfer and restart.
pub mod Transfer
pub mod Restart
use raft_implementation.Prelude.{
  ℕ, String, ◌||◌, not, Option, none, some, ltb, leb, ◌==◌, if◌then◌else◌, insert, string_eq, add64,
}
use raft_implementation.Raft.Log.{Bytes, get, snapshot_index, compact_to}
use raft_implementation.Raft.Rpc.{InstallSnapshotArgs, InstallSnapshotReply}
use raft_implementation.Raft.Disk.{
  IoError, SnapshotFile, save_snapshot, read_state, load_snapshot_file,
}
use raft_implementation.Raft.Node.{RaftNode, persist, notify_heartbeat, is_leader}
use raft_implementation.Raft.Election.{become_follower, observe_term}
use raft_implementation.Raft.Replication.{match_index_of}

-- The part of `TakeSnapshot` after the file is written.
abbrev compacted : ℕ → ℕ → Bytes → RaftNode → RaftNode
compacted index term payload n =
    persist (record n { snapshot_payload = payload; log = compact_to n.log index term })

-- The error that `TakeSnapshot` returns is that of the write.
unfoldable pub take_snapshot : Bytes → RaftNode → RaftNode × Option IoError
unfolding persist save_snapshot
take_snapshot payload n =
    let index = n.last_applied in
    let term = (get n.log index).term in
    let (failure, d) =
      save_snapshot (record { index = index; term = term; payload = payload }) n.disk in
    let saved = record n { disk = d } in
    if (index == 0) || leb index (snapshot_index n.log) then (n, none) else elim failure [
      | some e ↦ (saved, some e)
      | none ↦ (compacted index term payload saved, none)
    ]

-- `if x < y { x = y }`.
abbrev pub raised : ℕ → ℕ → ℕ
raised x y = if ltb x y then y else x

-- The handler once the snapshot is on disk.
unfoldable pub install : InstallSnapshotArgs → RaftNode → RaftNode
unfolding persist
install args n =
    let loaded = record n {
      snapshot_payload = args.payload;
      log = compact_to n.log args.last_included_index args.last_included_term;
      last_applied = raised n.last_applied args.last_included_index;
      commit_index = raised n.commit_index args.last_included_index;
    } in
    record (persist loaded) {
      snapshot_notify = some (record {
        index = args.last_included_index;
        term = args.last_included_term;
        payload = args.payload;
      });
    }

-- The handler for a snapshot of the current term.
unfoldable pub receive_snapshot : InstallSnapshotArgs → RaftNode → RaftNode
unfolding install save_snapshot
receive_snapshot args n =
    let file : SnapshotFile = record {
      index = args.last_included_index;
      term = args.last_included_term;
      payload = args.payload;
    } in
    let (failure, d) = save_snapshot file n.disk in
    if leb args.last_included_index (snapshot_index n.log) then n else elim failure [
      | some e ↦ record n { disk = d }
      | none ↦ install args (record n { disk = d })
    ]

unfoldable pub handle_install_snapshot :
    InstallSnapshotArgs → RaftNode → RaftNode × InstallSnapshotReply
unfolding observe_term receive_snapshot
handle_install_snapshot args n₀ =
    let n = observe_term args.term n₀ in
    let reply : InstallSnapshotReply = record { term = n.current_term } in
    if ltb args.term n.current_term
    then (n, reply)
    else (receive_snapshot args (notify_heartbeat (record n { leader_id = args.leader_id })), reply)

-- `sendSnapshotToPeer`, from the reply on.
unfoldable pub on_snapshot_reply :
    String → ℕ → InstallSnapshotArgs → Option InstallSnapshotReply → RaftNode → RaftNode
unfolding become_follower
on_snapshot_reply peer term args none n = n
on_snapshot_reply peer term args (some reply) n =
    let old_match = match_index_of peer n in
    let m = raised old_match args.last_included_index in
    let matched =
      if ltb old_match args.last_included_index
      then insert peer args.last_included_index n.match_index
      else n.match_index in
    if ltb n.current_term reply.term
    then become_follower reply.term n
    else if not (is_leader n.state) || not (n.current_term == term)
    then n
    else record n { match_index = matched; next_index = insert peer (add64 m 1) n.next_index }

-- `loadState` of raft/persist.go.
unfoldable pub load_state : RaftNode → RaftNode
unfolding read_state
load_state n =
    let (file, d) = read_state n.disk in
    elim file [
      | none ↦ record n { disk = d }
      | some s ↦ record n {
        disk = d;
        current_term = s.current_term;
        voted_for = s.voted_for;
        log = record { entries = s.entries };
      }
    ]

-- `restoreFromSnapshot`: the node, and the bytes that the state machine is restored from.
unfoldable pub restore_from_snapshot : RaftNode → RaftNode × Option Bytes
unfolding load_snapshot_file
restore_from_snapshot n =
    let (file, d) = load_snapshot_file n.disk in
    elim file [
      | none ↦ (record n { disk = d }, none)
      | some s ↦
          (if s.index == 0 then (record n { disk = d }, none) else (
            record n {
              disk = d;
              snapshot_payload = s.payload;
              log = compact_to n.log s.index s.term;
              last_applied = raised n.last_applied s.index;
              commit_index = raised n.commit_index s.index;
            },
            some s.payload,
          ))
    ]
