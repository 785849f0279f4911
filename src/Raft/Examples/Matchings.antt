-- ===== src/Raft/Examples/Matchings.antt =====
-- A leader takes a command and sends it to a follower.
use raft_implementation.Prelude.{
  ℕ, ◌<◌, ◌≤◌, ◌+◌, ◌≡◌, refl, String, none, [], ◌∷◌, arith, length, u64_mod, add64, sub64,
  lookup_or, insert,
}
use raft_implementation.Raft.Log.{get, last_index, last_term, append, slice}
use raft_implementation.Raft.Rpc.{AppendEntriesArgs}
use raft_implementation.Raft.Node.{new_raft_node, leader}
use raft_implementation.Raft.Election.{
  handle_request_vote, become_candidate, start_election, on_vote_reply, become_leader,
}
use raft_implementation.Raft.Replication.{
  build_args, message_for, append_entries, handle_append_entries, append_checked, check_previous,
  accept_entries, merge_entries, yield_to_leader, follow_commit,
}
use raft_implementation.Raft.EventLoop.{after_pre_vote}
use raft_implementation.Raft.Membership.{submit}
use raft_implementation.Raft.Steps.{step}
use raft_implementation.Raft.Cluster.{campaign, open_poll, vote}
use raft_implementation.Raft.Cluster.Safety.{start}
use raft_implementation.Raft.Matching.{
  Replicas, Replicate, begin, next, apart, count, send, arrive, take_command, counting, commanding,
  sending, delivering,
}
use raft_implementation.Raft.Matching.Safety.{fresh_replicas, log_matching, leader_keeps_log}
use raft_implementation.Raft.Matching.Applied.{applied_agree}
use raft_implementation.Raft.StateMachine.{StateMachine}
use raft_implementation.Raft.Apply.{Applier, apply_loop}
use raft_implementation.Raft.Examples.Elections.{
  request_a, names, configs, after_vote, may, room, asks, fresh_answer, names-AreNames,
  configs-AreConfigs,
}

abbrev pub r0 : Replicas
r0 = fresh_replicas names "a" configs

abbrev pub r1 : Replicas
r1 = record r0 { cluster = after_vote }

abbrev pub r2 : Replicas
r2 = counting r1 0 "b" 6

abbrev pub r3 : Replicas
r3 = commanding r2 "a" (7 ∷ [])

abbrev pub sent : AppendEntriesArgs
sent = build_args "b" (r3.cluster.node "a")

abbrev pub r4 : Replicas
r4 = sending r3 0 sent

abbrev pub r5 : Replicas
r5 = delivering r4 "b" 8 sent

pub has_room : length (r2.cluster.node "a").log.entries + 1 < u64_mod
unfolding fresh_replicas start new_raft_node after_pre_vote become_candidate add64 sub64
    handle_request_vote last_term last_index on_vote_reply start_election become_leader
has_room = omega arith

pub leads : (r3.cluster.node "a").state ≡ leader
unfolding fresh_replicas start new_raft_node after_pre_vote become_candidate add64 sub64
    handle_request_vote last_term last_index on_vote_reply start_election become_leader step submit
leads = refl

pub is_sent : message_for (r3.cluster.node "a") "b" ≡ append_entries sent
unfolding fresh_replicas start new_raft_node after_pre_vote become_candidate add64 sub64
    handle_request_vote last_term last_index on_vote_reply start_election become_leader step submit
    message_for lookup_or insert append
is_sent = refl

pub elected_run : Replicate names r0 r2
unfolding fresh_replicas start
elected_run =
    next
      (next
        (next (next begin (apart _ (campaign "a" refl may room) tt))
          (apart _ (open_poll "a" 0 refl) tt))
        (apart _ (vote 0 "b" 5 request_a refl asks) tt))
      (count 0 "b" 6 refl fresh_answer)

command_run : Replicate names r2 r3
command_run = next begin (take_command "a" (7 ∷ []) refl has_room)

abbrev pub sent_run : Replicate names r0 r4
sent_run =
    next (next elected_run (take_command "a" (7 ∷ []) refl has_room))
      (send 0 "a" "b" sent refl leads is_sent)

abbrev pub mail_run : Replicate names r0 r5
mail_run = next sent_run (arrive 0 "b" 8 sent refl refl)

wins : (r2.cluster.node "a").state ≡ leader
unfolding fresh_replicas start new_raft_node after_pre_vote become_candidate add64 sub64
    handle_request_vote last_term last_index on_vote_reply start_election become_leader
wins = refl

same_term : (r2.cluster.node "a").current_term ≡ (r3.cluster.node "a").current_term
unfolding fresh_replicas start new_raft_node after_pre_vote become_candidate add64 sub64
    handle_request_vote last_term last_index on_vote_reply start_election become_leader step submit
same_term = refl

sender_length : 1 ≤ last_index (r5.cluster.node "a").log
unfolding fresh_replicas start new_raft_node after_pre_vote become_candidate add64 sub64
    handle_request_vote last_term last_index on_vote_reply start_election become_leader step submit
    handle_append_entries build_args slice lookup_or insert append append_checked check_previous
    accept_entries merge_entries get yield_to_leader follow_commit
sender_length = ground arith

receiver_length : 1 ≤ last_index (r5.cluster.node "b").log
unfolding fresh_replicas start new_raft_node after_pre_vote become_candidate add64 sub64
    handle_request_vote last_term last_index on_vote_reply start_election become_leader step submit
    handle_append_entries build_args slice lookup_or insert append append_checked check_previous
    accept_entries merge_entries get yield_to_leader follow_commit
receiver_length = ground arith

agree_at : (get (r5.cluster.node "a").log 1).term ≡ (get (r5.cluster.node "b").log 1).term
unfolding fresh_replicas start new_raft_node after_pre_vote become_candidate add64 sub64
    handle_request_vote last_term last_index on_vote_reply start_election become_leader step submit
    handle_append_entries build_args slice lookup_or insert append append_checked check_previous
    accept_entries merge_entries get yield_to_leader follow_commit
agree_at = refl

log_matching_example : get (r5.cluster.node "a").log 1 ≡ get (r5.cluster.node "b").log 1
log_matching_example =
    log_matching names "a" configs r5 "a" "b" 1 names-AreNames configs-AreConfigs refl mail_run refl
      refl (omega arith) sender_length receiver_length agree_at 1 (omega arith) (omega arith)

abbrev chief : String
chief = "a"

leader_keeps_log_example :
    let l = (r2.cluster.node "a").log in
    let l' = (r3.cluster.node "a").log in
    (chief ≡ chief)
    × (last_index l ≤ last_index l')
    × ((y : ℕ) → 0 < y → y ≤ last_index l → get l' y ≡ get l y)
leader_keeps_log_example =
    leader_keeps_log names "a" configs r2 r3 "a" "a" names-AreNames configs-AreConfigs refl
      elected_run command_run refl refl wins leads same_term

-- A state machine that counts commands.
abbrev counter : StateMachine
counter = record {
  State = ℕ;
  Result = Unit;
  Err = Unit;
  apply = λ c n. (n + 1, tt);
  snapshot = λ n. none;
  restore = λ b n. (n, none);
}

-- a and b have committed the entry and applied nothing.
abbrev applier : String → Applier counter
applier i = record {
  node = record (r5.cluster.node i) { commit_index = 1; last_applied = 0 };
  app = 0;
  sent = [];
}

applied_agree_example :
    (apply_loop counter 1 5 (applier "a")).app ≡ (apply_loop counter 1 9 (applier "b")).app
applied_agree_example =
    applied_agree counter names "a" configs r5 "a" "b" 1 1 5 9 (applier "a") (applier "b")
      names-AreNames configs-AreConfigs refl mail_run refl refl refl refl refl refl (omega arith)
      sender_length receiver_length agree_at refl refl refl
