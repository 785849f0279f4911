-- ===== src/Raft/Apply/Replay.antt =====
-- The apply loop against a plain replay of the log.
use raft_implementation.Prelude.{
  ℕ, zero, suc, ◌+◌, ◌<◌, ◌≡◌, refl, ap, ◌∙◌, true, inl, inr, arith, u64_mod, add64, add64_lem, ltb,
  ltb→lt, ltb→le, le→ltb, ◌≤◌, lt→ltb, if◌then◌else◌, Bool-cases,
}
use raft_implementation.Raft.Log.{Log, LogEntry, get}
use raft_implementation.Raft.Node.{RaftNode}
use raft_implementation.Raft.Membership.{apply_config_entry}
use raft_implementation.Raft.StateMachine.{StateMachine}
use raft_implementation.Raft.Apply.{Applier, apply_entry, apply_next, apply_loop}

-- What an applied membership change leaves alone.
pub record SameProgress (n m : RaftNode) : Type 0 where
  pub same_log : m.log ≡ n.log
  pub same_commit : m.commit_index ≡ n.commit_index
  pub same_applied : m.last_applied ≡ n.last_applied
  pub same_term : m.current_term ≡ n.current_term

pub apply_config_entry-SameProgress :
    (now : ℕ) (e : LogEntry) (n : RaftNode) → SameProgress n (apply_config_entry now e n)
unfolding apply_config_entry
apply_config_entry-SameProgress now e n = ground arith

module _ (sm : StateMachine) where
  open sm use {State}

  -- The state after one entry: a membership change does not reach the state machine.
  abbrev pub replay_one : LogEntry → State → State
  replay_one e s = if e.is_config then s else (sm.apply e.command s).0

  -- The state after the k entries that follow index i.
  unfoldable pub replay : ℕ → ℕ → Log → State → State
  replay zero i l s = s
  replay (suc k) i l s = replay k (i + 1) l (replay_one (get l (i + 1)) s)

  apply_entry_lem :
      (now : ℕ) (e : LogEntry) (a : Applier sm)
      → SameProgress a.node (apply_entry sm now e a).node
        × ((apply_entry sm now e a).app ≡ replay_one e a.app)
  unfolding apply_entry apply_config_entry
  apply_entry_lem now e a =
      let same = apply_config_entry-SameProgress now e a.node in
      elim (Bool-cases e.is_config) [
        | inl t ↦ rw t (same, refl)
        | inr f ↦ rw f (
          record { same_log = refl; same_commit = refl; same_applied = refl; same_term = refl },
          refl,
        )
      ]

  -- One round of the loop.
  apply_next_lem :
      (now : ℕ) (a : Applier sm)
      → a.node.last_applied + 1 < u64_mod
      → ((apply_next sm now a).node.log ≡ a.node.log)
        × ((apply_next sm now a).node.commit_index ≡ a.node.commit_index)
        × ((apply_next sm now a).node.last_applied ≡ a.node.last_applied + 1)
        × ((apply_next sm now a).app ≡ replay_one (get a.node.log (a.node.last_applied + 1)) a.app)
  unfolding apply_next
  apply_next_lem now a h =
      let l = add64_lem a.node.last_applied 1 h in
      let (same, app) =
        apply_entry_lem now (get a.node.log (add64 a.node.last_applied 1))
          (record a { node = record a.node { last_applied = add64 a.node.last_applied 1 } }) in
      (
        same.same_log,
        same.same_commit,
        same.same_applied ∙ l,
        app ∙ ap (λ i. replay_one (get a.node.log i) a.app) l,
      )

  -- With as much fuel as entries are missing, and a commit index that fits 64 bits, the loop
  -- leaves the log, ends at the commit index, and the state machine has taken the missing entries
  -- of the log, one after the other and each once, membership changes left out.
  pub apply_loop-replay :
      (k now : ℕ) (a : Applier sm)
      → a.node.last_applied + k ≡ a.node.commit_index
      → a.node.commit_index < u64_mod
      → ((apply_loop sm k now a).node.log ≡ a.node.log)
        × ((apply_loop sm k now a).node.last_applied ≡ a.node.commit_index)
        × ((apply_loop sm k now a).app ≡ replay k a.node.last_applied a.node.log a.app)
  unfolding apply_loop replay apply_next
  apply_loop-replay zero now a gap h = (refl, omega (arith, gap), refl)
  apply_loop-replay (suc k) now a gap h =
      let more : ltb a.node.last_applied a.node.commit_index ≡ true =
        lt→ltb _ _ (omega (arith, gap)) in
      let (log, commit, applied, app) = apply_next_lem now a (omega (arith, gap, h)) in
      let (log', applied', app') =
        apply_loop-replay k now (apply_next sm now a) (omega (arith, gap, commit, applied))
          (omega (arith, h, commit)) in
      let state : (apply_loop sm k now (apply_next sm now a)).app
          ≡ replay k (a.node.last_applied + 1) a.node.log
              (replay_one (get a.node.log (a.node.last_applied + 1)) a.app) =
        rw (applied, log, app) at app' in
      rw more (log' ∙ log, applied' ∙ commit, state)

  -- With fuel for at least the missing entries, and a commit index that fits 64 bits, the loop has
  -- run to its end: the last applied index has reached the commit index, and more fuel gives the
  -- same.
  pub apply_loop-ends :
      (k m now : ℕ) (a : Applier sm)
      → k ≤ m
      → a.node.commit_index ≤ a.node.last_applied + k
      → a.node.commit_index < u64_mod
      → (apply_loop sm m now a ≡ apply_loop sm k now a)
        × ((apply_loop sm k now a).node.commit_index ≤ (apply_loop sm k now a).node.last_applied)
  unfolding apply_loop
  apply_loop-ends zero zero now a enough gap h = (refl, omega (arith, gap))
  apply_loop-ends zero (suc m) now a enough gap h = (
    rw (le→ltb a.node.last_applied a.node.commit_index (omega (arith, gap))) refl,
    omega (arith, gap),
  )
  apply_loop-ends (suc k) zero now a enough gap h = absurd (omega (arith, enough))
  apply_loop-ends (suc k) (suc m) now a enough gap h =
      elim (Bool-cases (ltb a.node.last_applied a.node.commit_index)) [
        | inr done ↦ rw done (refl, ltb→le _ _ done)
        | inl more ↦
            let (log, commit, applied, app) =
              apply_next_lem now a (omega (arith, ltb→lt _ _ more, h)) in
            rw more (
              apply_loop-ends k m now (apply_next sm now a) (omega (arith, enough))
                (omega (arith, gap, commit, applied)) (omega (arith, h, commit)))
      ]
