-- ===== src/Raft/Apply/Between.antt =====
-- raft/apply.go: the two halves of a round of the inner loop. The first holds the lock; the second
-- applies the entry without it, so that other calls may come in between.
use raft_implementation.Prelude.{
  ℕ, ◌<◌, ◌≡◌, refl, false, none, some, ◌∷◌, arith, if◌then◌else◌, add64, Bool-cases, inl, inr,
}
use raft_implementation.Raft.Log.{Bytes, LogEntry, get, snapshot_index}
use raft_implementation.Raft.Disk.{first_answer, write_state}
use raft_implementation.Raft.Node.{RaftNode, persist}
use raft_implementation.Raft.Membership.{apply_config_entry}
use raft_implementation.Raft.StateMachine.{StateMachine}
use raft_implementation.Raft.Apply.{entry_msg, Applier, apply_entry, apply_next}
use raft_implementation.Raft.Snapshot.{take_snapshot}

take_snapshot_saved :
    (payload : Bytes) (n : RaftNode)
    → snapshot_index n.log < n.last_applied
    → first_answer n.disk.answers ≡ none
    → let m = (take_snapshot payload n).0 in
      (m.disk.snapshot_file
        ≡ some (record {
          index = n.last_applied;
          term = (get n.log n.last_applied).term;
          payload = payload;
        }))
      × (m.last_applied ≡ n.last_applied)
unfolding take_snapshot persist write_state
take_snapshot_saved payload n above ok = ground arith

module _ (sm : StateMachine) where
  -- Under the lock: count up, read the entry, apply a membership change.
  unfoldable pub take_entry : ℕ → Applier sm → Applier sm × LogEntry
  take_entry now a =
      let i = add64 a.node.last_applied 1 in
      let e = get a.node.log i in
      let n = record a.node { last_applied = i } in
      (record a { node = if e.is_config then apply_config_entry now e n else n }, e)

  -- Without the lock: apply any other entry and send its result.
  unfoldable pub apply_taken : LogEntry → Applier sm → Applier sm
  apply_taken e a =
      let (app', result) = sm.apply e.command a.app in
      if e.is_config
      then a
      else record a { app = app'; sent = entry_msg e.index e.term e.command result ∷ a.sent }

  -- With nothing in between, the halves are the round.
  pub apply_taken-take_entry :
      (now : ℕ) (a : Applier sm)
      → let (b, e) = take_entry now a in apply_taken e b ≡ apply_next sm now a
  unfolding take_entry apply_taken apply_next apply_entry
  apply_taken-take_entry now a =
      elim (Bool-cases (get a.node.log (add64 a.node.last_applied 1)).is_config) [
        | inl h ↦ rw h refl
        | inr h ↦ rw h refl
      ]

  -- While an entry that is no membership change is counted as applied but not yet applied, and its
  -- index lies above the log boundary: a snapshot of the state machine that is saved at this
  -- moment is saved under the index of that entry, with the data from before it, and the node goes
  -- on as if the entry were in it.
  pub take_entry-take_snapshot :
      (now : ℕ) (a : Applier sm) (payload : Bytes)
      → (get a.node.log (add64 a.node.last_applied 1)).is_config ≡ false
      → snapshot_index a.node.log < add64 a.node.last_applied 1
      → first_answer a.node.disk.answers ≡ none
      → sm.snapshot a.app ≡ some payload
      → let (b, e) = take_entry now a in
        let m = (take_snapshot payload b.node).0 in
        let done = apply_taken e (record b { node = m }) in
        (sm.snapshot b.app ≡ some payload)
        × (m.disk.snapshot_file
            ≡ some
                (record { index = add64 a.node.last_applied 1; term = e.term; payload = payload }))
        × (done.node.last_applied ≡ add64 a.node.last_applied 1)
        × (done.app ≡ (sm.apply e.command a.app).0)
  unfolding take_entry apply_taken
  take_entry-take_snapshot now a payload plain above ok taken =
      let n = record a.node { last_applied = add64 a.node.last_applied 1 } in
      let saved = take_snapshot_saved payload n above ok in
      rw (plain, take_entry, apply_taken) (taken, saved.0, saved.1, refl)
