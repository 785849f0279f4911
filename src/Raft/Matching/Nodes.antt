-- ===== src/Raft/Matching/Nodes.antt =====
-- What each step does to one node: most leave its log and elect nobody.
use raft_implementation.Prelude.{
  ℕ, ◌+◌, ◌<◌, ◌≤◌, ◌≡◌, ◌⊎◌, inl, inr, refl, sym, subst, String, true, none, some, Option, List,
  [], ◌∷◌, arith, str_eq, eq_iff, Bool-cases, add64, add64_lem, u64_mod,
}
use raft_implementation.Raft.Rpc.{
  RequestVoteArgs, RequestVoteReply, AppendEntriesArgs, AppendEntriesReply, InstallSnapshotArgs,
  InstallSnapshotReply,
}
use raft_implementation.Raft.Log.{last_index}
use raft_implementation.Raft.Node.{Config, RaftNode, candidate, leader, new_raft_node}
use raft_implementation.Raft.Election.{
  Ballot, handle_request_vote, become_candidate, become_leader, init_peers, on_vote_reply,
}
use raft_implementation.Raft.Replication.{on_append_reply}
use raft_implementation.Raft.Snapshot.{on_snapshot_reply}
use raft_implementation.Raft.EventLoop.{on_heartbeat_tick, boot, eligible, after_pre_vote}
use raft_implementation.Raft.Steps.{
  Event, vote_request, append_request, snapshot_request, pre_vote_done, vote_reply, append_reply,
  snapshot_reply, heartbeat_tick, command, peer_added, peer_removed, snapshot_taken, config_applied,
  step,
}
use raft_implementation.Raft.Votes.{VoteKept}
use raft_implementation.Raft.Votes.Keeps.{handle_request_vote-VoteKept, on_vote_reply-VoteKept}
use raft_implementation.Raft.Votes.Once.{step-VoteKept}
use raft_implementation.Raft.Cluster.{
  Cluster, Step, quiet, restart, campaign, open_poll, vote, count_answer, IsCleanRestart, update,
}
use raft_implementation.Raft.Cluster.Steady.{
  Steady, handle_request_vote-Steady, quiet-Steady, restart-Steady,
}
use raft_implementation.Raft.Cluster.Moves.{Taken, on_vote_reply-Taken}
use raft_implementation.Raft.Matching.{IsPlain, IsApart}

-- The leadership stays, and a candidacy is as old as the term or newer.
pub record Ages (n m : RaftNode) : Type 0 where
  pub no_new_leader : m.state ≡ leader → (n.state ≡ leader) × (m.current_term ≡ n.current_term)
  pub term_grows : n.current_term ≤ m.current_term
  pub candidacy :
      m.state ≡ candidate
      → ((n.state ≡ candidate) × (m.current_term ≡ n.current_term))
        ⊎ (n.current_term < m.current_term)

pub record Follows (n m : RaftNode) : Type 0 where
  pub ages : Ages n m
  pub same_log : m.log ≡ n.log

pub Ages-refl : (n : RaftNode) → Ages n n
Ages-refl n = record {
  no_new_leader = λ e. (e, refl);
  term_grows = omega arith;
  candidacy = λ e. inl (e, refl);
}

pub Ages-Steady : (n m : RaftNode) → Steady n m → VoteKept n m → Ages n m
Ages-Steady n m s k = record {
  no_new_leader = s.no_new_leader;
  term_grows = k.term_grows;
  candidacy = λ e. inl (s.no_new_candidate e);
}

pub Follows-refl : (n : RaftNode) → Follows n n
Follows-refl n = record { ages = Ages-refl n; same_log = refl }

Steady-Follows : (n m : RaftNode) → Steady n m → VoteKept n m → m.log ≡ n.log → Follows n m
Steady-Follows n m s k same = record { ages = Ages-Steady n m s k; same_log = same }

pub update-Follows :
    (f : String → RaftNode) (i : String) (m : RaftNode) (j : String)
    → Follows (f i) m
    → Follows (f j) (update f i m j)
update-Follows f i m j h = elim (Bool-cases (str_eq i j)) [
  | inl same ↦ rw same (subst (λ k. Follows (f k) m) ((eq_iff i j).0 same) h)
  | inr other ↦ rw other (Follows-refl (f j))
]

log-handle_request_vote :
    (now : ℕ) (args : RequestVoteArgs) (n : RaftNode)
    → (handle_request_vote now args n).0.log ≡ n.log
unfolding handle_request_vote
log-handle_request_vote now args n = ground arith

log-on_append_reply :
    (now : ℕ) (peer : String) (term : ℕ) (args : AppendEntriesArgs) (r : Option AppendEntriesReply)
    (n : RaftNode)
    → (on_append_reply now peer term args r n).log ≡ n.log
unfolding on_append_reply
log-on_append_reply now peer term args none n = refl
log-on_append_reply now peer term args (some r) n = ground arith

log-on_snapshot_reply :
    (peer : String) (term : ℕ) (args : InstallSnapshotArgs) (r : Option InstallSnapshotReply)
    (n : RaftNode)
    → (on_snapshot_reply peer term args r n).log ≡ n.log
unfolding on_snapshot_reply
log-on_snapshot_reply peer term args none n = refl
log-on_snapshot_reply peer term args (some r) n = ground arith

log-on_heartbeat_tick : (now : ℕ) (n : RaftNode) → (on_heartbeat_tick now n).0.log ≡ n.log
unfolding on_heartbeat_tick
log-on_heartbeat_tick now n = ground arith

log-plain_step : (e : Event) (n : RaftNode) → IsPlain e → (step e n).log ≡ n.log
unfolding step
log-plain_step (vote_request now args) n h = log-handle_request_vote now args n
log-plain_step (append_request now args) n h = absurd h
log-plain_step (snapshot_request args) n h = absurd h
log-plain_step (pre_vote_done won) n h = absurd h
log-plain_step (vote_reply now r b) n h = absurd h
log-plain_step (append_reply now peer term args r) n h = log-on_append_reply now peer term args r n
log-plain_step (snapshot_reply peer term args r) n h = log-on_snapshot_reply peer term args r n
log-plain_step (heartbeat_tick now) n h = log-on_heartbeat_tick now n
log-plain_step (command c) n h = absurd h
log-plain_step (peer_added now addr) n h = absurd h
log-plain_step (peer_removed now addr) n h = absurd h
log-plain_step (snapshot_taken payload) n h = absurd h
log-plain_step (config_applied now e) n h = absurd h

-- A restart without a snapshot file finds the log as it was.
log-restart :
    (n : RaftNode) (cfg : Config)
    → IsCleanRestart n cfg
    → n.disk.snapshot_file ≡ none
    → (boot (new_raft_node cfg n.disk)).0.log ≡ n.log
unfolding boot new_raft_node
log-restart n cfg h no_file = ground arith

campaign-Follows :
    (n : RaftNode)
    → eligible n ≡ true
    → n.current_term + 1 < u64_mod
    → Follows n (after_pre_vote true n)
unfolding after_pre_vote become_candidate
campaign-Follows n may room = ground (arith, add64_lem n.current_term 1 room)

-- The steps apart from replication let every node follow.
pub apart-Follows :
    (ids : List String) (c d : Cluster) (st : Step ids c d)
    → IsApart ids c d st
    → (j : String) → Follows (c.node j) (d.node j)
apart-Follows ids c _ (quiet i e m q r) h j = update-Follows c.node i _ j (
    Steady-Follows (c.node i) _ (quiet-Steady e (c.node i) q r) (step-VoteKept e (c.node i) r)
      (log-plain_step e (c.node i) h))
apart-Follows ids c _ (restart i cfg m clean) h j =
    let (steady, kept) = restart-Steady (c.node i) cfg clean in
    update-Follows c.node i _ j
      (Steady-Follows (c.node i) _ steady kept (log-restart (c.node i) cfg clean h))
apart-Follows ids c _ (campaign i m may room) h j =
    update-Follows c.node i _ j (campaign-Follows (c.node i) may room)
apart-Follows ids c _ (open_poll i k m) h j = Follows-refl (c.node j)
apart-Follows ids c _ (vote k v now args m q) h j = update-Follows c.node v _ j (
    Steady-Follows (c.node v) _ (handle_request_vote-Steady now args (c.node v))
      (handle_request_vote-VoteKept now args (c.node v))
      (log-handle_request_vote now args (c.node v)))
apart-Follows ids c _ (count_answer k v now m fresh) h j = absurd h

log-init_peers :
    (next now : ℕ) (ps : List String) (n : RaftNode)
    → ((init_peers next now ps n).log ≡ n.log)
      × ((init_peers next now ps n).current_term ≡ n.current_term)
      × ((init_peers next now ps n).state ≡ n.state)
unfolding init_peers
log-init_peers next now [] n = (refl, refl, refl)
log-init_peers next now (p ∷ ps) n = log-init_peers next now ps _

-- A candidate that has become leader of its term.
pub record IsElected (n m : RaftNode) : Type 0 where
  pub was : n.state ≡ candidate
  pub leads : m.state ≡ leader
  pub same_term : m.current_term ≡ n.current_term
  pub same_log : m.log ≡ n.log

become_leader-IsElected :
    (now : ℕ) (n : RaftNode) → n.state ≡ candidate → IsElected n (become_leader now n)
unfolding become_leader
become_leader-IsElected now n was =
    let (same_log, same_term, same_state) =
      log-init_peers (add64 (last_index n.log) 1) now n.peers
        (record n { state = leader; leader_id = n.id }) in
    record { was = was; leads = same_state; same_term = same_term; same_log = same_log }

log-become_leader : (now : ℕ) (n : RaftNode) → (become_leader now n).log ≡ n.log
unfolding become_leader
log-become_leader now n =
    (log-init_peers _ now n.peers (record n { state = leader; leader_id = n.id })).0

log-on_vote_reply :
    (now : ℕ) (r : Option RequestVoteReply) (b : Ballot) (n : RaftNode)
    → (on_vote_reply now r b n).1.log ≡ n.log
unfolding on_vote_reply
log-on_vote_reply now none b n = refl
log-on_vote_reply now (some r) b n = ground (arith, log-become_leader now n)

-- A counted answer lets its candidate follow, or elects it.
pub on_vote_reply-Follows :
    (now : ℕ) (r : Option RequestVoteReply) (b : Ballot) (n : RaftNode)
    → Follows n (on_vote_reply now r b n).1 ⊎ IsElected n (on_vote_reply now r b n).1
on_vote_reply-Follows now r b n = elim (on_vote_reply-Taken now r b n) [
  | Taken.ignored same steady ↦
      inl
        (Steady-Follows n _ steady (on_vote_reply-VoteKept now r b n) (log-on_vote_reply now r b n))
  | Taken.added reply e g was term more next ↦ elim next [
    | inl same ↦ inl (subst (Follows n) (sym same) (Follows-refl n))
    | inr (won, crowned) ↦
        inr (subst (IsElected n) (sym crowned) (become_leader-IsElected now n was))
  ]
]
