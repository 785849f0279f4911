-- ===== src/Raft/Snapshot/Transfer.antt =====
-- The snapshot handler: what an installed snapshot does to the log and to the indices, and what the
-- state machine is then restored from.
use raft_implementation.Prelude.{ℕ, ◌<◌, ◌≡◌, refl, some, none, arith, u64_mod, ap, ◌∙◌}
use raft_implementation.Raft.Log.{Log, get, compact_to, snapshot_index}
use raft_implementation.Raft.Log.Shape.{IsLog}
use raft_implementation.Raft.Log.Reads.{get-compact_to}
use raft_implementation.Raft.Rpc.{InstallSnapshotArgs}
use raft_implementation.Raft.Disk.{first_answer, write_state}
use raft_implementation.Raft.Node.{RaftNode, persist}
use raft_implementation.Raft.StateMachine.{StateMachine}
use raft_implementation.Raft.Apply.{Applier, on_snapshot_notify}
use raft_implementation.Raft.Snapshot.{raised, handle_install_snapshot, receive_snapshot}

rolls_back_node :
    (args : InstallSnapshotArgs) (n : RaftNode)
    → args.term ≡ n.current_term
    → snapshot_index n.log < args.last_included_index
    → args.last_included_index < n.last_applied
    → first_answer n.disk.answers ≡ none
    → let m = (handle_install_snapshot args n).0 in
      (m.last_applied ≡ n.last_applied)
      × (m.snapshot_notify
          ≡ some (record {
            index = args.last_included_index;
            term = args.last_included_term;
            payload = args.payload;
          }))
unfolding handle_install_snapshot
rolls_back_node args n same newer older ok = ground arith

-- A snapshot of the current term that lies above the log's boundary but below what the node has
-- applied, if its file is saved, makes the apply loop restore the state machine from it, and
-- leaves the last applied index where it was.
pub install_snapshot-rolls_back :
    (sm : StateMachine) (args : InstallSnapshotArgs) (a : Applier sm)
    → args.term ≡ a.node.current_term
    → snapshot_index a.node.log < args.last_included_index
    → args.last_included_index < a.node.last_applied
    → first_answer a.node.disk.answers ≡ none
    → let b = on_snapshot_notify sm (record a { node = (handle_install_snapshot args a.node).0 }) in
      (b.node.last_applied ≡ a.node.last_applied) × (b.app ≡ (sm.restore args.payload a.app).0)
unfolding on_snapshot_notify
install_snapshot-rolls_back sm args a same newer older ok =
    let (applied, note) = rolls_back_node args a.node same newer older ok in
    rw (note, on_snapshot_notify) (applied, refl)

-- A snapshot above the log's boundary, if its file is saved, compacts the log to it, whatever the
-- log held, raises the commit index and the last applied index to its index where they are below
-- it, and is in the snapshot file.
pub receive_snapshot_installs :
    (args : InstallSnapshotArgs) (n : RaftNode)
    → snapshot_index n.log < args.last_included_index
    → first_answer n.disk.answers ≡ none
    → let m = receive_snapshot args n in
      (m.log ≡ compact_to n.log args.last_included_index args.last_included_term)
      × (m.last_applied ≡ raised n.last_applied args.last_included_index)
      × (m.commit_index ≡ raised n.commit_index args.last_included_index)
      × (m.disk.snapshot_file
          ≡ some (record {
            index = args.last_included_index;
            term = args.last_included_term;
            payload = args.payload;
          }))
unfolding receive_snapshot persist write_state
receive_snapshot_installs args n newer ok = ground arith

-- A snapshot above the boundary of a well-formed log, if its file is saved, leaves every entry
-- above its index, whatever term the log had at that index.
pub receive_snapshot_keeps_suffix :
    (args : InstallSnapshotArgs) (n : RaftNode) (j : ℕ)
    → IsLog n.log
    → snapshot_index n.log < args.last_included_index
    → args.last_included_index < j
    → j < u64_mod
    → first_answer n.disk.answers ≡ none
    → get (receive_snapshot args n).log j ≡ get n.log j
receive_snapshot_keeps_suffix args n j w newer after fits ok =
    let (compacts, _, _, _) = receive_snapshot_installs args n newer ok in
    let reads =
      get-compact_to n.log w args.last_included_index args.last_included_term j (omega arith)
        fits in
    ap (λ (l : Log). get l j) compacts ∙ reads ∙ ground arith
