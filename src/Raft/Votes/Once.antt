-- ===== src/Raft/Votes/Once.antt =====
-- A node votes once in a term, unless it is a leader that has lost its quorum.
use raft_implementation.Prelude.{
  ℕ, ◌+◌, ◌<◌, ◌≤◌, Bool, true, false, List, [], ◌∷◌, ◌≡◌, ◌≢◌, arith, eq_iff, u64_mod, ltb,
  if◌then◌else◌, sym, ◌∙◌, refl,
}
use raft_implementation.Raft.Rpc.{RequestVoteArgs}
use raft_implementation.Raft.Node.{RaftNode, leader, is_leader, majority_of}
use raft_implementation.Raft.Election.{handle_request_vote, up_to_date, become_follower}
use raft_implementation.Raft.EventLoop.{
  check_quorum, count_heard, on_heartbeat_tick, after_pre_vote,
}
use raft_implementation.Raft.Steps.{
  Event, vote_request, append_request, snapshot_request, pre_vote_done, vote_reply, append_reply,
  snapshot_reply, heartbeat_tick, command, peer_added, peer_removed, snapshot_taken, config_applied,
  step, run,
}
use raft_implementation.Raft.Votes.{VoteKept}
use raft_implementation.Raft.Votes.Keeps.{
  VoteKept-refl, VoteKept-trans, handle_request_vote-VoteKept, become_candidate-VoteKept,
  on_vote_reply-VoteKept, handle_append_entries-VoteKept, handle_install_snapshot-VoteKept,
  on_append_reply-VoteKept, on_snapshot_reply-VoteKept, take_snapshot-VoteKept, submit-VoteKept,
  add_peer-VoteKept, remove_peer-VoteKept, apply_config_entry-VoteKept,
}

-- A leader that has heard too few peers; the next tick makes it step down.
abbrev pub has_lost_quorum : ℕ → RaftNode → Bool
has_lost_quorum now n =
    if is_leader n.state
    then ltb (count_heard now n.config.election_timeout_max_ms n.last_heard_from n.peers + 1)
        (majority_of n.peers)
    else false

-- The steps considered: the term has room to grow, and no tick finds the quorum lost.
abbrev pub IsRegular : Event → RaftNode → Type 0
IsRegular (pre_vote_done won) n = n.current_term + 1 < u64_mod
IsRegular (heartbeat_tick now) n = has_lost_quorum now n ≡ false
IsRegular _ n = Unit

abbrev pub AreRegular : List Event → RaftNode → Type 0
AreRegular [] n = Unit
AreRegular (e ∷ es) n = IsRegular e n × AreRegular es (step e n)

after_pre_vote-VoteKept :
    (won : Bool) (n : RaftNode) → n.current_term + 1 < u64_mod → VoteKept n (after_pre_vote won n)
unfolding after_pre_vote
after_pre_vote-VoteKept won n h = ground (arith, become_candidate-VoteKept n h)

tick-VoteKept :
    (now : ℕ) (n : RaftNode)
    → has_lost_quorum now n ≡ false
    → VoteKept n (on_heartbeat_tick now n).0
unfolding on_heartbeat_tick
tick-VoteKept now n h = ground arith

pub step-VoteKept : (e : Event) (n : RaftNode) → IsRegular e n → VoteKept n (step e n)
unfolding step
step-VoteKept (vote_request now args) n h = handle_request_vote-VoteKept now args n
step-VoteKept (append_request now args) n h = handle_append_entries-VoteKept now args n
step-VoteKept (snapshot_request args) n h = handle_install_snapshot-VoteKept args n
step-VoteKept (pre_vote_done won) n h = after_pre_vote-VoteKept won n h
step-VoteKept (vote_reply now r b) n h = on_vote_reply-VoteKept now r b n
step-VoteKept (append_reply now peer term args r) n h =
    on_append_reply-VoteKept now peer term args r n
step-VoteKept (snapshot_reply peer term args r) n h = on_snapshot_reply-VoteKept peer term args r n
step-VoteKept (heartbeat_tick now) n h = tick-VoteKept now n h
step-VoteKept (command c) n h = submit-VoteKept c n
step-VoteKept (peer_added now addr) n h = add_peer-VoteKept now addr n
step-VoteKept (peer_removed now addr) n h = remove_peer-VoteKept now addr n
step-VoteKept (snapshot_taken payload) n h = take_snapshot-VoteKept payload n
step-VoteKept (config_applied now e) n h = apply_config_entry-VoteKept now e n

-- Over any run of regular steps the term does not fall, and a vote stays as long as its term.
pub run-VoteKept : (es : List Event) (n : RaftNode) → AreRegular es n → VoteKept n (run es n)
unfolding run
run-VoteKept [] n h = VoteKept-refl n
run-VoteKept (e ∷ es) n h = VoteKept-trans (step-VoteKept e n h.0) (run-VoteKept es (step e n) h.1)

-- What a granted vote leaves behind, and what it found.
pub granted_vote :
    (now : ℕ) (args : RequestVoteArgs) (n : RaftNode)
    → args.is_pre_vote ≡ false
    → (handle_request_vote now args n).1.vote_granted ≡ true
    → ((handle_request_vote now args n).0.voted_for ≡ args.candidate_id)
      × ((handle_request_vote now args n).0.current_term ≡ args.term)
      × (n.current_term ≡ args.term → n.voted_for ≢ "" → n.voted_for ≡ args.candidate_id)
unfolding handle_request_vote
granted_vote now args n real g =
    ground (arith, eq_iff n.voted_for "", eq_iff n.voted_for args.candidate_id)

-- Two real votes that a node grants in the same term go to the same candidate, if the first
-- candidate's name is not empty and the steps between them are regular: no tick finds the quorum
-- of a leader lost, and no term overflows.
pub votes_once :
    (now now' : ℕ) (args args' : RequestVoteArgs) (n : RaftNode) (es : List Event)
    → args.is_pre_vote ≡ false
    → args'.is_pre_vote ≡ false
    → args.term ≡ args'.term
    → args.candidate_id ≢ ""
    → AreRegular es (handle_request_vote now args n).0
    → (handle_request_vote now args n).1.vote_granted ≡ true
    → (handle_request_vote now' args' (run es (handle_request_vote now args n).0)).1.vote_granted
      ≡ true
    → args.candidate_id ≡ args'.candidate_id
votes_once now now' args args' n es real real' same named regular g g' =
    let m = (handle_request_vote now args n).0 in
    let first = granted_vote now args n real g in
    let kept = run-VoteKept es m regular in
    let second = granted_vote now' args' (run es m) real' g' in
    let before = handle_request_vote-VoteKept now' args' (run es m) in
    let k = run es m in
    let bound : k.current_term ≤ args'.term = omega (arith, before.term_grows, second.1) in
    let same_term : m.current_term ≡ k.current_term = omega (arith, kept.term_grows, first.1) in
    let voted : m.voted_for ≢ "" = λ e. named (sym first.0 ∙ e) in
    let stays = kept.vote_stays same_term voted in
    let still : k.voted_for ≢ "" = λ e. voted (sym stays ∙ e) in
    sym first.0 ∙ sym stays ∙ second.2 (sym same_term ∙ first.1 ∙ same) still

check_quorum-lost :
    (now : ℕ) (n : RaftNode)
    → n.state ≡ leader
    → has_lost_quorum now n ≡ true
    → check_quorum now n ≡ become_follower n.current_term n
unfolding check_quorum
check_quorum-lost now n lead lost =
    let leads : is_leader n.state ≡ true = rw lead in
    let few : ltb (count_heard now n.config.election_timeout_max_ms n.last_heard_from n.peers + 1)
          (majority_of n.peers)
        ≡ true =
      rw leads at lost in
    rw (leads, few)

become_follower_fields :
    (t : ℕ) (n : RaftNode)
    → ((become_follower t n).current_term ≡ t)
      × ((become_follower t n).voted_for ≡ "")
      × ((become_follower t n).log ≡ n.log)
unfolding become_follower
become_follower_fields t n = (refl, refl, refl)

-- A node with a free vote grants it to any up-to-date candidate of its term.
pub free_vote-granted :
    (now : ℕ) (args : RequestVoteArgs) (m : RaftNode)
    → args.is_pre_vote ≡ false
    → args.term ≡ m.current_term
    → m.voted_for ≡ ""
    → up_to_date args m.log ≡ true
    → ((handle_request_vote now args m).1.vote_granted ≡ true)
      × ((handle_request_vote now args m).0.voted_for ≡ args.candidate_id)
unfolding handle_request_vote
free_vote-granted now args m real same free fresh = ground (arith, eq_iff m.voted_for "")

-- A leader that has lost its quorum steps down without leaving its term, and a real request of
-- that term by an up-to-date candidate is then granted, whoever had the leader's vote before.
pub check_quorum-votes_again :
    (now now' : ℕ) (args : RequestVoteArgs) (n : RaftNode)
    → n.state ≡ leader
    → has_lost_quorum now n ≡ true
    → args.is_pre_vote ≡ false
    → args.term ≡ n.current_term
    → up_to_date args n.log ≡ true
    → ((check_quorum now n).current_term ≡ n.current_term)
      × ((handle_request_vote now' args (check_quorum now n)).1.vote_granted ≡ true)
      × ((handle_request_vote now' args (check_quorum now n)).0.voted_for ≡ args.candidate_id)
check_quorum-votes_again now now' args n lead lost real same fresh =
    let m = become_follower n.current_term n in
    let (term_same, free, log_same) = become_follower_fields n.current_term n in
    let (grants, for_it) =
      free_vote-granted now' args m real (same ∙ sym term_same) free (rw log_same fresh) in
    rw (check_quorum-lost now n lead lost) (term_same, grants, for_it)
