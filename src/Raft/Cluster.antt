-- ===== src/Raft/Cluster.antt =====
-- A cluster of fixed membership: nodes that take the steps of raft/*.go in any order, with the
-- elections in progress and the answers that travel back to them. Messages may be lost, delayed and
-- reordered: an answer is counted at any later time or never.
pub mod Quorum
pub mod Steady
pub mod Invariant
pub mod Moves
pub mod Preserve
pub mod Counting
pub mod Safety
use raft_implementation.Prelude.{
  ℕ, ◌+◌, ◌<◌, ◌≢◌, String, Bool, true, false, Option, none, some, List, [], ◌∷◌, ◌≡◌, str_eq, ltb,
  ◌==◌, ◌&&◌, if◌then◌else◌, u64_mod,
}
use raft_implementation.Raft.Rpc.{RequestVoteArgs, RequestVoteReply}
use raft_implementation.Raft.Node.{Config, RaftNode, persisted, new_raft_node}
use raft_implementation.Raft.Election.{Ballot, start_election, handle_request_vote, on_vote_reply}
use raft_implementation.Raft.EventLoop.{eligible, boot, after_pre_vote}
use raft_implementation.Raft.Cluster.Quorum.{mem}
use raft_implementation.Raft.Steps.{
  Event, vote_request, append_request, snapshot_request, pre_vote_done, append_reply,
  snapshot_reply, heartbeat_tick, command, snapshot_taken, step,
}
use raft_implementation.Raft.Votes.Once.{IsRegular}

abbrev pub update {ℓ} : {A : Type ℓ} → (String → A) → String → A → String → A
update f k v j = if str_eq k j then v else f j

-- One call of `startElection`: its owner, its ballot, the request that its goroutines send, the
-- voters counted in it, and the answers that the voters gave.
pub record Poll : Type 0 where
  pub owner : String
  pub ballot : Ballot
  pub request : RequestVoteArgs
  pub tally : String → Bool
  pub answers : String → Option RequestVoteReply

-- `ever v t` is the candidate that v has voted for in term t, or "": a record of the past, which no
-- step reads.
pub record Cluster : Type 0 where
  pub node : String → RaftNode
  pub poll : ℕ → Poll
  pub ever : String → ℕ → String

-- The history with one more vote.
abbrev pub cast_in : (String → ℕ → String) → String → ℕ → String → String → ℕ → String
cast_in ever v t cand u s = if str_eq v u && (t == s) then cand else ever u s

-- The steps of one node that neither vote nor campaign nor change the membership.
abbrev pub IsQuiet : Event → Type 0
IsQuiet (vote_request now args) = args.is_pre_vote ≡ true
IsQuiet (append_request now args) = Unit
IsQuiet (snapshot_request args) = Unit
IsQuiet (append_reply now peer term args r) = Unit
IsQuiet (snapshot_reply peer term args r) = Unit
IsQuiet (heartbeat_tick now) = Unit
IsQuiet (command b) = Unit
IsQuiet (snapshot_taken b) = Unit
IsQuiet _ = ⊥

abbrev pub set_node : Cluster → String → RaftNode → Cluster
set_node c i n = record c { node = update c.node i n }

abbrev pub set_poll : Cluster → ℕ → Poll → Cluster
set_poll c k p = record c { poll = λ j. if k == j then p else c.poll j }

-- The poll that `startElection` opens. Its own vote counts.
abbrev pub opened : String → RaftNode → Poll
opened i n = record {
  owner = i;
  ballot = (start_election n).0;
  request = (start_election n).1;
  tally = update (λ v. false) i true;
  answers = λ v. none;
}

-- The cluster once voter v has handled the request of poll k.
abbrev pub voted : Cluster → ℕ → String → ℕ → RequestVoteArgs → Cluster
voted c k v now args =
    let r = handle_request_vote now args (c.node v) in
    record (set_node c v r.0) {
      poll = λ j.
          if k == j
          then record (c.poll k) { answers = update (c.poll k).answers v (some r.1) }
          else c.poll j;
      ever = if r.1.vote_granted then cast_in c.ever v args.term args.candidate_id else c.ever;
    }

-- The cluster once the owner of poll k has taken v's answer.
abbrev pub counted : Cluster → ℕ → String → ℕ → Cluster
counted c k v now =
    let p = c.poll k in
    let r = on_vote_reply now (p.answers v) p.ballot (c.node p.owner) in
    set_poll (set_node c p.owner r.1) k (record p {
      ballot = r.0;
      tally = if ltb p.ballot.votes r.0.votes then update p.tally v true else p.tally;
    })

-- The request that the goroutines of poll k send: of its owner, in its term.
pub record IsRequestOf (p : Poll) (args : RequestVoteArgs) : Type 0 where
  pub from_owner : args.candidate_id ≡ p.owner
  pub of_term : args.term ≡ p.ballot.term
  pub real : args.is_pre_vote ≡ false
  pub sent : args ≡ p.request

-- A restart with the same configuration, from a disk that holds the node's state and is readable.
pub record IsCleanRestart (n : RaftNode) (cfg : Config) : Type 0 where
  pub same_id : cfg.id ≡ n.id
  pub same_peers : cfg.peers ≡ n.peers
  pub saved : n.disk.state_file ≡ some (persisted n)
  pub readable : n.disk.answers ≡ []

module _ (ids : List String) where
  pub data Step (c : Cluster) : Cluster → Type 0 where
    quiet :
        (i : String) (e : Event)
        → mem i ids ≡ true
        → IsQuiet e
        → IsRegular e (c.node i)
        → Step c (set_node c i (step e (c.node i)))
    restart :
        (i : String) (cfg : Config)
        → mem i ids ≡ true
        → IsCleanRestart (c.node i) cfg
        → Step c (set_node c i (boot (new_raft_node cfg (c.node i).disk)).0)
    campaign :
        (i : String)
        → mem i ids ≡ true
        → eligible (c.node i) ≡ true
        → (c.node i).current_term + 1 < u64_mod
        → Step c (record (set_node c i (after_pre_vote true (c.node i))) {
          ever = cast_in c.ever i ((c.node i).current_term + 1) i;
        })
    open_poll :
        (i : String) (k : ℕ) → mem i ids ≡ true → Step c (set_poll c k (opened i (c.node i)))
    vote :
        (k : ℕ) (v : String) (now : ℕ) (args : RequestVoteArgs)
        → mem v ids ≡ true
        → IsRequestOf (c.poll k) args
        → Step c (voted c k v now args)
    count_answer :
        (k : ℕ) (v : String) (now : ℕ)
        → mem v ids ≡ true
        → (c.poll k).tally v ≡ false
        → Step c (counted c k v now)

  pub data Reach (c : Cluster) : Cluster → Type 0 where
    still : Reach c c
    later : {d e : Cluster} → Reach c d → Step d e → Reach c e
