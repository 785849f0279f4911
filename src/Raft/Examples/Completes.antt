-- ===== src/Raft/Examples/Completes.antt =====
-- The entry that a and b hold in term 1 is in the log of b, which leads term 2.
use raft_implementation.Prelude.{
  ◌<◌, ◌≤◌, ◌+◌, ◌≡◌, inl, inr, refl, String, Bool, true, false, ◌||◌, str_eq, eq_iff, Bool-cases,
  subst, sym, arith, u64_mod, add64, sub64, lookup_or, insert, length,
}
use raft_implementation.Raft.Log.{get, last_index, last_term, append, slice}
use raft_implementation.Raft.Rpc.{RequestVoteArgs}
use raft_implementation.Raft.Node.{new_raft_node, leader}
use raft_implementation.Raft.Election.{
  handle_request_vote, become_candidate, become_follower, start_election, on_vote_reply,
  become_leader,
}
use raft_implementation.Raft.Replication.{
  build_args, handle_append_entries, append_checked, check_previous, accept_entries, merge_entries,
  yield_to_leader, follow_commit,
}
use raft_implementation.Raft.EventLoop.{eligible, after_pre_vote}
use raft_implementation.Raft.Membership.{submit}
use raft_implementation.Raft.Steps.{step}
use raft_implementation.Raft.Cluster.{
  campaign, open_poll, vote, set_node, set_poll, cast_in, opened, voted, IsRequestOf,
}
use raft_implementation.Raft.Cluster.Safety.{start}
use raft_implementation.Raft.Matching.{Replicas, Replicate, next, apart, count, counting}
use raft_implementation.Raft.Matching.Safety.{fresh_replicas}
use raft_implementation.Raft.Complete.{IsHolding, HasHeld}
use raft_implementation.Raft.Complete.Acks.{HasEntry, acceptance-HasEntry}
use raft_implementation.Raft.Complete.Agree.{IsChosen, chosen_agree}
use raft_implementation.Raft.Complete.Safety.{leader_completeness}
use raft_implementation.Raft.Examples.Elections.{names, configs, names-AreNames, configs-AreConfigs}
use raft_implementation.Raft.Examples.Matchings.{r0, r4, r5, sent, sent_run, mail_run}

-- b takes the message that a has sent.
taken :
    (0 < length sent.entries)
    × ((handle_append_entries 8 sent (r4.cluster.node "b")).1.success ≡ true)
unfolding fresh_replicas start new_raft_node after_pre_vote become_candidate add64 sub64
    handle_request_vote last_term last_index on_vote_reply start_election become_leader step submit
    handle_append_entries build_args slice lookup_or insert append append_checked check_previous get
    yield_to_leader
taken = (ground arith, refl)

acceptance-HasEntry_example :
    let m = (handle_append_entries 8 sent (r4.cluster.node "b")).0 in
    (m.current_term ≡ sent.term) × HasEntry sent 0 m
acceptance-HasEntry_example =
    acceptance-HasEntry names "a" configs r4 "b" 0 8 0 sent names-AreNames configs-AreConfigs refl
      sent_run refl refl taken.0 taken.1

-- b campaigns in term 2, asks for votes, gets the vote of a and counts it.
abbrev r6 : Replicas
r6 = record r5 {
  cluster = record (set_node r5.cluster "b" (after_pre_vote true (r5.cluster.node "b"))) {
    ever = cast_in r5.cluster.ever "b" ((r5.cluster.node "b").current_term + 1) "b";
  };
}

abbrev r7 : Replicas
r7 = record r6 { cluster = set_poll r6.cluster 1 (opened "b" (r6.cluster.node "b")) }

abbrev request_b : RequestVoteArgs
request_b = record {
  term = 2;
  candidate_id = "b";
  last_log_index = 1;
  last_log_term = 1;
  is_pre_vote = false;
}

abbrev r8 : Replicas
r8 = record r7 { cluster = voted r7.cluster 1 "a" 20 request_b }

abbrev r9 : Replicas
r9 = counting r8 1 "a" 21

-- What the four steps ask for.
may_step :
    (eligible (r5.cluster.node "b") ≡ true)
    × ((r5.cluster.node "b").current_term + 1 < u64_mod)
    × IsRequestOf (r7.cluster.poll 1) request_b
    × ((r8.cluster.poll 1).tally "a" ≡ false)
unfolding fresh_replicas start new_raft_node after_pre_vote become_candidate add64 sub64
    handle_request_vote last_term last_index on_vote_reply start_election become_leader step submit
    handle_append_entries build_args slice lookup_or insert append append_checked check_previous
    accept_entries merge_entries get yield_to_leader follow_commit become_follower
may_step = (
  refl,
  ground arith,
  record { from_owner = refl; of_term = refl; real = refl; sent = refl },
  refl,
)

abbrev later_run : Replicate names r0 r9
later_run =
    next
      (next
        (next (next mail_run (apart _ (campaign "b" refl may_step.0 may_step.1) tt))
          (apart _ (open_poll "b" 1 refl) tt))
        (apart _ (vote 1 "a" 20 request_b refl may_step.2) tt))
      (count 1 "a" 21 refl may_step.3)

-- a and b are two of three.
abbrev holders : String → Bool
holders v = str_eq v "a" || str_eq v "b"

-- Both hold the entry once the message has arrived, and b leads in the end.
held_then : IsHolding (r5.cluster.node "a") 1 1 × IsHolding (r5.cluster.node "b") 1 1
unfolding fresh_replicas start new_raft_node after_pre_vote become_candidate add64 sub64
    handle_request_vote last_term last_index on_vote_reply start_election become_leader step submit
    handle_append_entries build_args slice lookup_or insert append append_checked check_previous
    accept_entries merge_entries get yield_to_leader follow_commit become_follower
held_then = (
  record { in_term = refl; positive = omega arith; within = ground arith; its_term = refl },
  record { in_term = refl; positive = omega arith; within = ground arith; its_term = refl },
)

ends :
    ((r9.cluster.node "b").state ≡ leader)
    × (1 < (r9.cluster.node "b").current_term)
    × (1 ≤ last_index (r9.cluster.node "a").log)
    × (1 ≤ last_index (r9.cluster.node "b").log)
    × ((get (r9.cluster.node "a").log 1).term ≡ 1)
    × ((get (r9.cluster.node "b").log 1).term ≡ 1)
unfolding fresh_replicas start new_raft_node after_pre_vote become_candidate add64 sub64
    handle_request_vote last_term last_index on_vote_reply start_election become_leader step submit
    handle_append_entries build_args slice lookup_or insert append append_checked check_previous
    accept_entries merge_entries get yield_to_leader follow_commit become_follower
ends = (refl, ground arith, ground arith, ground arith, refl, refl)

have_held : (v : String) → holders v ≡ true → HasHeld names later_run v 1 1
have_held v h = elim (Bool-cases (str_eq v "a")) [
  | inl is_a ↦
      subst (λ w. HasHeld names later_run w 1 1) (sym ((eq_iff v "a").0 is_a))
        (inl (inl (inl (inl (inr held_then.0)))))
  | inr other ↦
      let is_b : str_eq v "b" ≡ true = ground arith in
      subst (λ w. HasHeld names later_run w 1 1) (sym ((eq_iff v "b").0 is_b))
        (inl (inl (inl (inl (inr held_then.1)))))
]

leader_completeness_example :
    (1 ≤ last_index (r9.cluster.node "b").log) × ((get (r9.cluster.node "b").log 1).term ≡ 1)
leader_completeness_example =
    leader_completeness names "a" configs r9 later_run holders 1 1 "b" names-AreNames
      configs-AreConfigs refl (omega arith) have_held refl ends.0 ends.1

first : IsChosen names (HasHeld names later_run) 1 1
first = record { holders = holders; majority = omega arith; held = have_held }

chosen_agree_example : get (r9.cluster.node "a").log 1 ≡ get (r9.cluster.node "b").log 1
chosen_agree_example =
    chosen_agree names "a" configs r9 later_run "a" "b" 1 1 1 names-AreNames configs-AreConfigs refl
      refl refl ends.2 ends.3
      (subst (λ t. IsChosen names (HasHeld names later_run) t 1) (sym ends.4) first)
      (subst (λ t. IsChosen names (HasHeld names later_run) t 1) (sym ends.5) first) (omega arith)
      (omega arith) (omega arith)
