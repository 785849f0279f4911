-- ===== src/Raft/Election.antt =====
-- raft/election.go: state transitions, the two rounds of an election and the vote handler.
pub mod PreVote
use raft_implementation.Prelude.{
  ℕ, ◌+◌, String, Bool, false, true, ◌&&◌, ◌||◌, not, Option, none, some, List, [], ◌∷◌, ltb, leb,
  ◌==◌, str_eq, if◌then◌else◌, insert, string_eq, add64,
}
use raft_implementation.Raft.Log.{Log, last_index, last_term}
use raft_implementation.Raft.Rpc.{RequestVoteArgs, RequestVoteReply}
use raft_implementation.Raft.Node.{
  follower, candidate, leader, RaftNode, persist, notify_heartbeat, majority_of, is_candidate,
}

unfoldable pub become_follower : ℕ → RaftNode → RaftNode
unfolding persist
become_follower term n =
    persist (record n { state = follower; current_term = term; voted_for = ""; leader_id = "" })

unfoldable pub become_candidate : RaftNode → RaftNode
unfolding persist
become_candidate n = persist (record n {
  state = candidate;
  current_term = add64 n.current_term 1;
  voted_for = n.id;
  leader_id = "";
})

-- The loop of `becomeLeader` over the peers; `now` is the time that it reads once.
unfoldable pub init_peers : ℕ → ℕ → List String → RaftNode → RaftNode
init_peers next now [] n = n
init_peers next now (p ∷ ps) n = init_peers next now ps (record n {
  next_index = insert p next n.next_index;
  match_index = insert p 0 n.match_index;
  last_heard_from = insert p now n.last_heard_from;
})

unfoldable pub become_leader : ℕ → RaftNode → RaftNode
unfolding init_peers
become_leader now n =
    init_peers (add64 (last_index n.log) 1) now n.peers
      (record n { state = leader; leader_id = n.id })

-- `candidateUpToDate` (§5.4.1).
abbrev pub up_to_date : RequestVoteArgs → Log → Bool
up_to_date args l =
    ltb (last_term l) args.last_log_term
    || (args.last_log_term == last_term l && leb (last_index l) args.last_log_index)

-- `time.Since(last) < threshold`, where the zero time lies further back than any threshold.
abbrev pub heard_within : ℕ → ℕ → Option ℕ → Bool
heard_within now threshold none = false
heard_within now threshold (some t) = ltb now (t + threshold)

-- The first branch of `HandleRequestVote`: a probe that changes no state.
unfoldable pub answer_pre_vote : ℕ → RequestVoteArgs → RaftNode → RequestVoteReply
answer_pre_vote now args n =
    if heard_within now n.config.election_timeout_min_ms n.last_leader_contact
    then record { term = n.current_term; vote_granted = false }
    else record { term = n.current_term; vote_granted = up_to_date args n.log }

-- What follows `if args.Term > n.currentTerm { n.becomeFollower(args.Term) }`.
unfoldable pub answer_vote : RequestVoteArgs → RaftNode → RaftNode × RequestVoteReply
unfolding persist
answer_vote args n =
    let can_vote = str_eq n.voted_for "" || str_eq n.voted_for args.candidate_id in
    if ltb args.term n.current_term
    then (n, record { term = n.current_term; vote_granted = false })
    else if can_vote && up_to_date args n.log
    then (
      notify_heartbeat (persist (record n { voted_for = args.candidate_id })),
      record { term = n.current_term; vote_granted = true },
    )
    else (n, record { term = n.current_term; vote_granted = false })

-- `if term > n.currentTerm { n.becomeFollower(term) }`.
unfoldable pub observe_term : ℕ → RaftNode → RaftNode
unfolding become_follower
observe_term term n = if ltb n.current_term term then become_follower term n else n

unfoldable pub handle_request_vote : ℕ → RequestVoteArgs → RaftNode → RaftNode × RequestVoteReply
unfolding answer_pre_vote answer_vote observe_term
handle_request_vote now args n =
    if args.is_pre_vote
    then (n, answer_pre_vote now args n)
    else answer_vote args (observe_term args.term n)

-- startPreVote and startElection build the same arguments up to the term and the flag.
abbrev vote_args : ℕ → Bool → RaftNode → RequestVoteArgs
vote_args term probe n = record {
  term = term;
  candidate_id = n.id;
  last_log_index = last_index n.log;
  last_log_term = last_term n.log;
  is_pre_vote = probe;
}

unfoldable pub pre_vote_args : RaftNode → RequestVoteArgs
pre_vote_args n = vote_args (add64 n.current_term 1) true n

unfoldable pub election_args : RaftNode → RequestVoteArgs
election_args n = vote_args n.current_term false n

-- What a peer's goroutine puts on the channel: a failed call counts as a refusal.
abbrev pub granted : Option RequestVoteReply → Bool
granted none = false
granted (some r) = r.vote_granted

-- The loop of `startPreVote` over the answers in the order in which they come.
unfoldable pub count_pre_votes : ℕ → ℕ → List (Option RequestVoteReply) → Bool
count_pre_votes majority votes [] = false
count_pre_votes majority votes (r ∷ rs) =
    let counted =
      if leb majority (votes + 1) then true else count_pre_votes majority (votes + 1) rs in
    let skipped = count_pre_votes majority votes rs in if granted r then counted else skipped

-- `startPreVote`, given the peers' answers.
unfoldable pub start_pre_vote : RaftNode → List (Option RequestVoteReply) → Bool
unfolding count_pre_votes
start_pre_vote n replies =
    let won = count_pre_votes (majority_of n.peers) 1 replies in
    elim n.peers [ [] ↦ false | p ∷ ps ↦ won ]

-- An election in progress: what `startElection` captures, and the votes counted so far.
pub record Ballot : Type 0 where
  pub term : ℕ
  pub votes : ℕ
  pub majority : ℕ

unfoldable pub start_election : RaftNode → Ballot × RequestVoteArgs
unfolding election_args
start_election n =
    (record { term = n.current_term; votes = 1; majority = majority_of n.peers }, election_args n)

-- The goroutine of one peer in `startElection`, from its reply on.
unfoldable pub on_vote_reply : ℕ → Option RequestVoteReply → Ballot → RaftNode → Ballot × RaftNode
unfolding become_follower
on_vote_reply now none b n = (b, n)
on_vote_reply now (some reply) b n =
    if ltb n.current_term reply.term
    then (b, become_follower reply.term n)
    else if not (is_candidate n.state) || not (n.current_term == b.term)
    then (b, n)
    else if not reply.vote_granted
    then (b, n)
    else (
      record b { votes = b.votes + 1 },
      (if leb b.majority (b.votes + 1) then become_leader now n else n),
    )
