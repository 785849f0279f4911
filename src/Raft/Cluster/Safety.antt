-- ===== src/Raft/Cluster/Safety.antt =====
-- Election safety: the invariant holds in every reachable cluster, so a term has one leader at most.
use raft_implementation.Prelude.{
  ◌+◌, ◌<◌, ◌≤◌, ◌≡◌, inl, refl, sym, ◌∙◌, subst, String, true, false, none, List, arith, length,
  str_eq, eq_iff, u64_mod, false≢true,
}
use raft_implementation.Raft.Disk.{empty_disk}
use raft_implementation.Raft.Node.{Config, RaftNode, leader, new_raft_node}
use raft_implementation.Raft.Election.{become_candidate}
use raft_implementation.Raft.EventLoop.{eligible, after_pre_vote}
use raft_implementation.Raft.Votes.Once.{step-VoteKept}
use raft_implementation.Raft.Cluster.{
  Cluster, Step, quiet, restart, campaign, open_poll, vote, count_answer, Reach, still, later,
  cast_in, set_node,
}
use raft_implementation.Raft.Cluster.Quorum.{mem, count_none, counts_meet}
use raft_implementation.Raft.Cluster.Steady.{quiet-Steady, restart-Steady}
use raft_implementation.Raft.Cluster.Invariant.{
  History, quorum, votes_for, NodeOk, Inv, NodeOk-Steady, NodeOk-Extends, PollOk-Extends,
}
use raft_implementation.Raft.Cluster.Moves.{cast_in_other, cast_in-Extends, NodeOk-candidate}
use raft_implementation.Raft.Cluster.Preserve.{
  AreNames, update_all, named_of, set_node-Inv, set_poll-Inv, opened-PollOk, voted-Inv,
}
use raft_implementation.Raft.Cluster.Counting.{counted-Inv}

-- Each node is configured with its own name and with as many peers as there are other names.
pub record AreConfigs (ids : List String) (cfg : String → Config) : Type 0 where
  pub own_id : (i : String) → mem i ids ≡ true → (cfg i).id ≡ i
  pub all_peers : (i : String) → mem i ids ≡ true → length (cfg i).peers + 1 ≡ length ids

-- Fresh nodes, nobody has voted, and no election is open. An unused poll belongs to some name.
unfoldable pub start : List String → String → (String → Config) → Cluster
start ids o cfg = record {
  node = λ i. new_raft_node (cfg i) empty_disk;
  poll = λ k. record {
    owner = o;
    ballot = record { term = 0; votes = 0; majority = quorum ids };
    request = record {
      term = 0;
      candidate_id = o;
      last_log_index = 0;
      last_log_term = 0;
      is_pre_vote = false;
    };
    tally = λ v. false;
    answers = λ v. none;
  };
  ever = λ v t. "";
}

pub start-Inv :
    (ids : List String) (o : String) (cfg : String → Config)
    → AreConfigs ids cfg
    → mem o ids ≡ true
    → Inv ids (start ids o cfg)
unfolding start new_raft_node
start-Inv ids o cfg h m = record {
  nodes = λ i mi. record {
    id_ok = h.own_id i mi;
    size_ok = h.all_peers i mi;
    future = λ t lt. refl;
    present = inl refl;
    own_vote = λ e. absurd (ground arith);
    elected = λ e. absurd (ground arith);
  };
  polls = λ k. record {
    owner_ok = m;
    votes_ok = sym (count_none ids);
    majority_ok = refl;
    tally_ok = λ v ne e. absurd (false≢true e);
    answers_ok = λ v r e g. cc;
  };
}

eligible-campaigns : (n : RaftNode) → eligible n ≡ true → after_pre_vote true n ≡ become_candidate n
unfolding after_pre_vote
eligible-campaigns n may = rw may

NodeOk-candidate_at :
    (ids : List String) (ever : History) (i : String) (n : RaftNode)
    → n.current_term + 1 < u64_mod
    → NodeOk ids ever i n
    → NodeOk ids (cast_in ever i (n.current_term + 1) i) i (become_candidate n)
NodeOk-candidate_at ids ever i n room h =
    subst (λ j. NodeOk ids (cast_in ever j (n.current_term + 1) j) j (become_candidate n)) h.id_ok
      (NodeOk-candidate ids ever n room (subst (λ j. NodeOk ids ever j n) (sym h.id_ok) h))

module _ (ids : List String) (names : AreNames ids) where
  campaign-Inv :
      (c : Cluster) (i : String)
      → Inv ids c
      → mem i ids ≡ true
      → eligible (c.node i) ≡ true
      → (c.node i).current_term + 1 < u64_mod
      → Inv ids (record (set_node c i (after_pre_vote true (c.node i))) {
        ever = cast_in c.ever i ((c.node i).current_term + 1) i;
      })
  campaign-Inv c i h m may room =
      let n = c.node i in
      let t = n.current_term + 1 in
      let ok = h.nodes i m in
      let ever' = cast_in c.ever i t i in
      let ext = cast_in-Extends c.ever i t i (inl (ok.future t (omega arith))) in
      let campaigns : after_pre_vote true n ≡ become_candidate n = eligible-campaigns n may in
      let here : NodeOk ids ever' i (after_pre_vote true n) =
        rw campaigns (NodeOk-candidate_at ids c.ever i n room ok) in
      record {
        nodes = λ j mj. update_all (NodeOk ids ever') c.node i (after_pre_vote true n) j here (λ ne.
            NodeOk-Extends ids c.ever ever' ext j (c.node j) (named_of ids names j mj)
              (λ s. cast_in_other c.ever i j t i s ne) (h.nodes j mj));
        polls = λ k.
            PollOk-Extends ids c.ever ever' ext (c.poll k)
              (named_of ids names (c.poll k).owner (h.polls k).owner_ok) (h.polls k);
      }

  pub Step-Inv : {c d : Cluster} → Step ids c d → Inv ids c → Inv ids d
  Step-Inv {c} (quiet i e m q r) h = set_node-Inv ids names c i _ h (
      NodeOk-Steady ids c.ever i (c.node i) _ (quiet-Steady e (c.node i) q r)
        (step-VoteKept e (c.node i) r) (h.nodes i m))
  Step-Inv {c} (restart i cfg m clean) h =
      let (steady, kept) = restart-Steady (c.node i) cfg clean in
      set_node-Inv ids names c i _ h
        (NodeOk-Steady ids c.ever i (c.node i) _ steady kept (h.nodes i m))
  Step-Inv {c} (campaign i m may room) h = campaign-Inv c i h m may room
  Step-Inv {c} (open_poll i k m) h =
      set_poll-Inv ids names c k _ h (opened-PollOk ids names c.ever i (c.node i) m (h.nodes i m))
  Step-Inv {c} (vote k v now args m q) h = voted-Inv ids names c k v now args h m q
  Step-Inv {c} (count_answer k v now m fresh) h = counted-Inv ids names c k v now h m fresh

  Reach-Inv : {c d : Cluster} → Inv ids c → Reach ids c d → Inv ids d
  Reach-Inv h still = h
  Reach-Inv h (later r s) = Step-Inv s (Reach-Inv h r)

  -- Two leaders of a term have a voter in common, and it has voted once.
  pub one_leader :
      (c : Cluster) (i j : String)
      → Inv ids c
      → mem i ids ≡ true
      → mem j ids ≡ true
      → (c.node i).state ≡ leader
      → (c.node j).state ≡ leader
      → (c.node i).current_term ≡ (c.node j).current_term
      → i ≡ j
  one_leader c i j h mi mj li lj same =
      let won_i = (h.nodes i mi).elected li in
      let won_j : quorum ids ≤ votes_for ids c.ever j (c.node i).current_term =
        rw same ((h.nodes j mj).elected lj) in
      let t = (c.node i).current_term in
      let (v, for_i, for_j) =
        counts_meet (λ u. str_eq (c.ever u t) i) (λ u. str_eq (c.ever u t) j) ids (omega arith) in
      sym ((eq_iff (c.ever v t) i).0 for_i) ∙ (eq_iff (c.ever v t) j).0 for_j

-- Election safety. From fresh nodes with distinct names that are not empty and with the same
-- membership, by any steps (handlers in any order, answers lost, late or reordered, restarts from a
-- disk that holds the last state) in which no leader steps down for want of a quorum and no
-- membership changes, two leaders of the same term are the same node.
pub election_safety :
    (ids : List String) (o : String) (cfg : String → Config) (c : Cluster) (i j : String)
    → AreNames ids
    → AreConfigs ids cfg
    → mem o ids ≡ true
    → Reach ids (start ids o cfg) c
    → mem i ids ≡ true
    → mem j ids ≡ true
    → (c.node i).state ≡ leader
    → (c.node j).state ≡ leader
    → (c.node i).current_term ≡ (c.node j).current_term
    → i ≡ j
election_safety ids o cfg c i j names h m r mi mj li lj same =
    one_leader ids names c i j (Reach-Inv ids names (start-Inv ids o cfg h m) r) mi mj li lj same
