-- ===== src/Raft/Examples/Elections.antt =====
-- Elections in a cluster of the nodes a, b and c.
use raft_implementation.Prelude.{
  Option, leb, length, count, ◌+◌, ◌<◌, ◌≡◌, ◌≢◌, refl, String, true, false, some, none, List, [],
  ◌∷◌, arith, false≢true, str_eq, eq_iff, if◌then◌else◌, u64_mod, add64, sub64, lookup,
}
use raft_implementation.Raft.Log.{last_term, last_index}
use raft_implementation.Raft.Election.PreVote.{start_pre_vote_iff}
use raft_implementation.Raft.Rpc.{RequestVoteReply, RequestVoteArgs}
use raft_implementation.Raft.Disk.{write_state}
use raft_implementation.Raft.Node.{RaftNode, Config, new_raft_node, leader, majority_of}
use raft_implementation.Raft.Election.{
  granted, start_pre_vote, handle_request_vote, become_candidate, start_election, on_vote_reply,
  become_leader,
}
use raft_implementation.Raft.EventLoop.{
  after_pre_vote, check_quorum, on_heartbeat_tick, count_heard, eligible, boot,
}
use raft_implementation.Raft.Steps.{heartbeat_tick, step, run}
use raft_implementation.Raft.Votes.{VoteKept}
use raft_implementation.Raft.Votes.Once.{
  AreRegular, has_lost_quorum, votes_once, check_quorum-votes_again,
}
use raft_implementation.Raft.Votes.Saved.{granted_vote-saved}
use raft_implementation.Raft.Cluster.{
  Cluster, Reach, still, later, campaign, open_poll, vote, count_answer, IsRequestOf,
  IsCleanRestart, set_node, set_poll, opened, voted, counted, cast_in,
}
use raft_implementation.Raft.Cluster.Steady.{Steady, restart-Steady}
use raft_implementation.Raft.Cluster.Preserve.{AreNames}
use raft_implementation.Raft.Cluster.Safety.{AreConfigs, start, election_safety}
use raft_implementation.Raft.Examples.{config_of, fresh_b}

-- A candidate a of term 1 asks for a vote.
abbrev pub request_a : RequestVoteArgs
request_a = record {
  term = 1;
  candidate_id = "a";
  last_log_index = 0;
  last_log_term = 0;
  is_pre_vote = false;
}

grants : (handle_request_vote 5 request_a fresh_b).1.vote_granted ≡ true
unfolding handle_request_vote new_raft_node last_term last_index sub64 add64
grants = refl

grants_again :
    (handle_request_vote 9 request_a
      (run (heartbeat_tick 7 ∷ []) (handle_request_vote 5 request_a fresh_b).0)).1.vote_granted
    ≡ true
unfolding handle_request_vote run step on_heartbeat_tick new_raft_node last_term last_index sub64
    add64
grants_again = refl

follower_ticks : AreRegular (heartbeat_tick 7 ∷ []) (handle_request_vote 5 request_a fresh_b).0
unfolding handle_request_vote new_raft_node last_term last_index sub64 add64
follower_ticks = (refl, tt)

name_a : request_a.candidate_id ≢ ""
name_a e = false≢true ((eq_iff "a" "").1 e)

votes_once_example : request_a.candidate_id ≡ request_a.candidate_id
votes_once_example =
    votes_once 5 9 request_a request_a fresh_b (heartbeat_tick 7 ∷ []) refl refl refl name_a
      follower_ticks grants grants_again

granted_vote-saved_example :
    let m = (handle_request_vote 5 request_a fresh_b).0 in
    (m.voted_for ≡ "a")
    × (m.current_term ≡ 1)
    × (m.disk.state_file
        ≡ some (record { current_term = 1; voted_for = "a"; entries = fresh_b.log.entries }))
unfolding new_raft_node
granted_vote-saved_example = granted_vote-saved 5 request_a fresh_b refl refl grants

-- A leader that voted for itself and has not heard its peers for a second.
abbrev lonely_b : RaftNode
lonely_b = record fresh_b { current_term = 1; voted_for = "b"; state = leader }

lonely : has_lost_quorum 1000 lonely_b ≡ true
unfolding count_heard new_raft_node lookup
lonely = refl

check_quorum-votes_again_example :
    ((check_quorum 1000 lonely_b).current_term ≡ 1)
    × ((handle_request_vote 1001 request_a (check_quorum 1000 lonely_b)).1.vote_granted ≡ true)
    × ((handle_request_vote 1001 request_a (check_quorum 1000 lonely_b)).0.voted_for ≡ "a")
unfolding new_raft_node last_term last_index sub64 add64
check_quorum-votes_again_example =
    check_quorum-votes_again 1000 1001 request_a lonely_b refl lonely refl refl refl

-- A node b that has saved its vote restarts with it.
abbrev voted_b : RaftNode
voted_b = (handle_request_vote 5 request_a fresh_b).0

clean : IsCleanRestart voted_b (config_of "b" ("a" ∷ "c" ∷ []))
unfolding handle_request_vote new_raft_node last_term last_index sub64 add64 write_state
clean = record { same_id = refl; same_peers = refl; saved = refl; readable = refl }

restart-Steady_example :
    let m = (boot (new_raft_node (config_of "b" ("a" ∷ "c" ∷ [])) voted_b.disk)).0 in
    Steady voted_b m × VoteKept voted_b m
restart-Steady_example = restart-Steady voted_b (config_of "b" ("a" ∷ "c" ∷ [])) clean

-- The three nodes.
abbrev pub names : List String
names = "a" ∷ "b" ∷ "c" ∷ []

abbrev pub configs : String → Config
configs i = config_of i (
    if str_eq i "a"
    then "b" ∷ "c" ∷ []
    else if str_eq i "b"
    then "a" ∷ "c" ∷ []
    else "a" ∷ "b" ∷ [])

pub names-AreNames : AreNames names
names-AreNames = record { distinct = (refl, (refl, (refl, tt))); named = refl }

pub configs-AreConfigs : AreConfigs names configs
configs-AreConfigs = record { own_id = λ i m. refl; all_peers = λ i m. ground arith }

-- a campaigns, b votes for it, and a counts the vote.
abbrev pub at_start : Cluster
at_start = start names "a" configs

pub may : eligible (at_start.node "a") ≡ true
unfolding start new_raft_node
may = refl

pub room : (at_start.node "a").current_term + 1 < u64_mod
unfolding start new_raft_node
room = ground arith

abbrev pub campaigning : Cluster
campaigning = record (set_node at_start "a" (after_pre_vote true (at_start.node "a"))) {
  ever = cast_in at_start.ever "a" ((at_start.node "a").current_term + 1) "a";
}

abbrev pub polling : Cluster
polling = set_poll campaigning 0 (opened "a" (campaigning.node "a"))

abbrev pub after_vote : Cluster
after_vote = voted polling 0 "b" 5 request_a

abbrev pub after_count : Cluster
after_count = counted after_vote 0 "b" 6

pub asks : IsRequestOf (polling.poll 0) request_a
unfolding start new_raft_node after_pre_vote become_candidate add64 start_election last_index
    last_term sub64
asks = record { from_owner = refl; of_term = refl; real = refl; sent = refl }

pub fresh_answer : (after_vote.poll 0).tally "b" ≡ false
unfolding start new_raft_node after_pre_vote become_candidate add64
fresh_answer = refl

elects : Reach names at_start after_count
elects =
    later
      (later (later (later still (campaign "a" refl may room)) (open_poll "a" 0 refl))
        (vote 0 "b" 5 request_a refl asks))
      (count_answer 0 "b" 6 refl fresh_answer)

pub wins : (after_count.node "a").state ≡ leader
unfolding start new_raft_node after_pre_vote become_candidate add64 sub64 handle_request_vote
    last_term last_index on_vote_reply start_election become_leader
wins = refl

abbrev winner : String
winner = "a"

election_safety_example : winner ≡ winner
election_safety_example =
    election_safety names "a" configs after_count "a" "a" names-AreNames configs-AreConfigs refl
      elects refl refl wins wins refl

abbrev yes_answer : Option RequestVoteReply
yes_answer = some (record { term = 0; vote_granted = true })

some_peer : 0 < length fresh_b.peers
unfolding new_raft_node
some_peer = ground arith

start_pre_vote_iff_example :
    start_pre_vote fresh_b (none ∷ yes_answer ∷ [])
    ≡ leb (majority_of fresh_b.peers) (1 + count granted (none ∷ yes_answer ∷ []))
start_pre_vote_iff_example = start_pre_vote_iff fresh_b (none ∷ yes_answer ∷ []) some_peer
