-- ===== src/Raft/Apply.antt =====
-- raft/apply.go: the loop that hands committed entries to the state machine. The lock is given up
-- around `Apply`; a step here is one entry, `apply_loop` is a run with no other step between, and
-- Between has the two halves of a step.
pub mod Replay
pub mod Between
use raft_implementation.Prelude.{
  ℕ, zero, suc, ◌-◌, false, none, some, List, ◌∷◌, ltb, if◌then◌else◌, add64,
}
use raft_implementation.Raft.Log.{Bytes, LogEntry, get}
use raft_implementation.Raft.Node.{RaftNode, SnapshotToApply}
use raft_implementation.Raft.Membership.{apply_config_entry}
use raft_implementation.Raft.StateMachine.{StateMachine}

-- `ApplyMsg`, one constructor for each value of `IsSnapshot`.
pub data ApplyMsg (R : Type 0) : Type 0 where
  entry_msg : (index term : ℕ) → Bytes → R → ApplyMsg R
  snapshot_msg : (index term : ℕ) → Bytes → ApplyMsg R

module _ (sm : StateMachine) where
  open sm use {State, Result}

  -- The node, the state machine and what was sent on `applyCh`, the newest first.
  pub record Applier : Type 0 where
    pub node : RaftNode
    pub app : State
    pub sent : List (ApplyMsg Result)

module _ (sm : StateMachine) where
  open sm use {State, Result}

  -- What is done with one entry.
  unfoldable pub apply_entry : ℕ → LogEntry → Applier sm → Applier sm
  apply_entry now e a =
      let (app', result) = sm.apply e.command a.app in
      if e.is_config
      then record a { node = apply_config_entry now e a.node }
      else record a { app = app'; sent = entry_msg e.index e.term e.command result ∷ a.sent }

  -- One round of the inner loop: count up, read the entry, apply it.
  unfoldable pub apply_next : ℕ → Applier sm → Applier sm
  unfolding apply_entry
  apply_next now a =
      let i = add64 a.node.last_applied 1 in
      apply_entry now (get a.node.log i) (record a { node = record a.node { last_applied = i } })

  -- `for n.lastApplied < n.commitIndex`, on fuel.
  unfoldable pub apply_loop : ℕ → ℕ → Applier sm → Applier sm
  apply_loop zero now a = a
  apply_loop (suc fuel) now a =
      let rest = apply_loop fuel now (apply_next now a) in
      if ltb a.node.last_applied a.node.commit_index then rest else a

  -- The case `<-n.commitNotifyC`.
  unfoldable pub on_commit_notify : ℕ → Applier sm → Applier sm
  unfolding apply_loop
  on_commit_notify now a =
      let woken = record a { node = record a.node { commit_pending = false } } in
      if a.node.commit_pending
      then apply_loop (a.node.commit_index - a.node.last_applied) now woken
      else a

  -- The case `<-n.snapshotNotifyC`.
  abbrev restored : SnapshotToApply → Applier sm → Applier sm
  restored s a = record a {
    node = record a.node { snapshot_notify = none };
    app = (sm.restore s.payload a.app).0;
    sent = snapshot_msg s.index s.term s.payload ∷ a.sent;
  }

  unfoldable pub on_snapshot_notify : Applier sm → Applier sm
  on_snapshot_notify a = elim a.node.snapshot_notify [ none ↦ a | some s ↦ restored s a ]
