-- ===== src/Raft/Replication.antt =====
-- raft/replication.go: what a leader sends, how it takes the answers, and the append handler.
pub mod Merge
pub mod Commit
pub mod Handler
pub mod Outcomes
pub mod Round
pub mod Tracking
use raft_implementation.Prelude.{
  ℕ, zero, suc, ◌-◌, String, Bool, false, true, ◌&&◌, ◌||◌, not, Option, none, some, List, [], ◌∷◌,
  map, ltb, leb, ◌==◌, if◌then◌else◌, insert, lookup_or, string_eq, add64, sub64, length, get_or,
}
use raft_implementation.Raft.Log.{
  Log, LogEntry, get, last_index, snapshot_index, snapshot_term, append, truncate_from, slice,
  first_index_for_term,
}
use raft_implementation.Raft.Rpc.{AppendEntriesArgs, AppendEntriesReply, InstallSnapshotArgs}
use raft_implementation.Raft.Node.{
  follower, RaftNode, persist, notify_heartbeat, notify_commit, majority_of, is_candidate,
  is_leader,
}
use raft_implementation.Raft.Election.{become_follower}

-- nextIndex[peer] and matchIndex[peer]: a missing key reads 0.
abbrev pub next_index_of : String → RaftNode → ℕ
next_index_of p n = lookup_or 0 p n.next_index

abbrev pub match_index_of : String → RaftNode → ℕ
match_index_of p n = lookup_or 0 p n.match_index

unfoldable pub build_args : String → RaftNode → AppendEntriesArgs
build_args peer n =
    let next = next_index_of peer n in
    let prev = sub64 next 1 in
    record {
      term = n.current_term;
      leader_id = n.id;
      prev_log_index = prev;
      prev_log_term = (get n.log prev).term;
      entries = slice n.log next (add64 (last_index n.log) 1);
      leader_commit = n.commit_index;
    }

unfoldable pub build_snapshot_args : RaftNode → InstallSnapshotArgs
build_snapshot_args n = record {
  term = n.current_term;
  leader_id = n.id;
  last_included_index = snapshot_index n.log;
  last_included_term = snapshot_term n.log;
  payload = n.snapshot_payload;
}

pub data Message : Type 0 where
  append_entries : AppendEntriesArgs → Message
  install_snapshot : InstallSnapshotArgs → Message

-- A peer whose next entry is compacted away gets the snapshot.
unfoldable pub message_for : RaftNode → String → Message
unfolding build_args build_snapshot_args
message_for n peer =
    if leb (next_index_of peer n) (snapshot_index n.log)
    then install_snapshot (build_snapshot_args n)
    else append_entries (build_args peer n)

-- One message to each peer.
unfoldable pub outgoing : RaftNode → List (String × Message)
unfolding message_for
outgoing n = map (λ p. (p, message_for n p)) n.peers

unfoldable pub send_heartbeats : RaftNode → RaftNode × List (String × Message)
unfolding outgoing
send_heartbeats n = (record n { heartbeats_sent = add64 n.heartbeats_sent 1 }, outgoing n)

-- `sort.Slice` with `>`.
unfoldable pub insert_desc : ℕ → List ℕ → List ℕ
insert_desc x [] = x ∷ []
insert_desc x (y ∷ ys) = if ltb x y then y ∷ insert_desc x ys else x ∷ y ∷ ys

unfoldable pub sort_desc : List ℕ → List ℕ
unfolding insert_desc
sort_desc [] = []
sort_desc (x ∷ xs) = insert_desc x (sort_desc xs)

-- The leader's own last index and what the peers are known to hold.
unfoldable pub replicated : RaftNode → List ℕ
replicated n = last_index n.log ∷ map (λ p. match_index_of p n) n.peers

unfoldable pub quorum_index : RaftNode → ℕ
quorum_index n = get_or (sort_desc (replicated n)) (majority_of n.peers - 1) 0

unfoldable pub maybe_commit : RaftNode → RaftNode
maybe_commit n =
    let q = quorum_index n in
    if ltb n.commit_index q && ((get n.log q).term == n.current_term)
    then notify_commit (record n { commit_index = q })
    else n

-- The loop that looks for the last entry of a term, from index i down to 1; 0 if there is none.
unfoldable pub find_term : Log → ℕ → ℕ → ℕ
find_term l t zero = 0
find_term l t (suc i) =
    let below = find_term l t i in if (get l (suc i)).term == t then suc i else below

-- Where to go on after a rejection.
unfoldable pub backed_up : Log → AppendEntriesReply → ℕ
unfolding find_term
backed_up l reply =
    let found = find_term l reply.conflict_term (last_index l) in
    let next =
      if reply.conflict_term == 0
      then reply.conflict_index
      else if ltb 0 found
      then add64 found 1
      else reply.conflict_index in
    if ltb next 1 then 1 else next

unfoldable pub on_accept : String → AppendEntriesArgs → RaftNode → RaftNode
unfolding maybe_commit
on_accept peer args n =
    let new_match = add64 args.prev_log_index (length args.entries) in
    let old_match = match_index_of peer n in
    let m = if ltb old_match new_match then new_match else old_match in
    let matched =
      if ltb old_match new_match then insert peer new_match n.match_index else n.match_index in
    maybe_commit
      (record n { match_index = matched; next_index = insert peer (add64 m 1) n.next_index })

-- `sendToPeer`, from the reply on. `term` is the leader's term when the arguments were built.
unfoldable pub on_append_reply :
    ℕ → String → ℕ → AppendEntriesArgs → Option AppendEntriesReply → RaftNode → RaftNode
unfolding become_follower on_accept backed_up
on_append_reply now peer term args none n = n
on_append_reply now peer term args (some reply) n =
    let heard = record n { last_heard_from = insert peer now n.last_heard_from } in
    if ltb n.current_term reply.term
    then become_follower reply.term n
    else if not (is_leader n.state) || not (n.current_term == term)
    then n
    else if reply.success
    then on_accept peer args heard
    else record heard { next_index = insert peer (backed_up n.log reply) heard.next_index }

-- The first lines of the append handler: a newer term, or a candidate that has lost.
unfoldable pub yield_to_leader : ℕ → RaftNode → RaftNode
unfolding become_follower
yield_to_leader term n =
    if ltb n.current_term term
    then become_follower term n
    else if (term == n.current_term) && is_candidate n.state
    then record n { state = follower }
    else n

-- The consistency check: nothing if it passes, and the rejection otherwise.
unfoldable pub check_previous : AppendEntriesArgs → RaftNode → Option AppendEntriesReply
check_previous args n =
    let prev = get n.log args.prev_log_index in
    if not (ltb 0 args.prev_log_index)
    then none
    else if prev.term == 0
    then some (record {
      term = n.current_term;
      success = false;
      conflict_term = 0;
      conflict_index = add64 (last_index n.log) 1;
    })
    else if not (prev.term == args.prev_log_term)
    then some (record {
      term = n.current_term;
      success = false;
      conflict_term = prev.term;
      conflict_index = first_index_for_term n.log prev.term;
    })
    else none

-- The loop over the entries of a message: the tail of the list is `args.Entries[i:]`.
unfoldable pub merge_entries : Log → List LogEntry → Log
merge_entries l [] = l
merge_entries l (e ∷ es) =
    let rest = merge_entries l es in
    let existing = get l e.index in
    if leb e.index (snapshot_index l)
    then rest
    else if existing.term == 0
    then append l (e ∷ es)
    else if not (existing.term == e.term)
    then append (truncate_from l e.index) (e ∷ es)
    else rest

-- A follower commits as far as the leader has, but not past its own last entry.
unfoldable pub follow_commit : ℕ → RaftNode → RaftNode
follow_commit leader_commit n =
    let last = last_index n.log in
    if ltb n.commit_index leader_commit
    then notify_commit
        (record n { commit_index = if ltb leader_commit last then leader_commit else last })
    else n

abbrev pub is_empty {ℓ} : {A : Type ℓ} → List A → Bool
is_empty [] = true
is_empty (_ ∷ _) = false

-- What the handler does once the previous entry is found to match.
unfoldable pub accept_entries : AppendEntriesArgs → RaftNode → RaftNode
unfolding follow_commit persist
accept_entries args n =
    let saved =
      persist
        (follow_commit args.leader_commit (record n { log = merge_entries n.log args.entries })) in
    if is_empty args.entries
    then record saved { heartbeats_recv = add64 saved.heartbeats_recv 1 }
    else saved

abbrev accepted : ℕ → AppendEntriesReply
accepted term = record { term = term; success = true; conflict_term = 0; conflict_index = 0 }

abbrev stale : ℕ → AppendEntriesReply
stale term = record { term = term; success = false; conflict_term = 0; conflict_index = 0 }

-- The handler from the consistency check on.
unfoldable pub append_checked : AppendEntriesArgs → RaftNode → RaftNode × AppendEntriesReply
append_checked args n = elim (check_previous args n) [
  | some rejection ↦ (n, rejection)
  | none ↦ (accept_entries args n, accepted n.current_term)
]

-- A message of the current term: remember the leader and the time, and reset the election timer.
abbrev pub greeted : ℕ → AppendEntriesArgs → RaftNode → RaftNode
greeted now args n =
    notify_heartbeat (record n { leader_id = args.leader_id; last_leader_contact = some now })

unfoldable pub handle_append_entries :
    ℕ → AppendEntriesArgs → RaftNode → RaftNode × AppendEntriesReply
handle_append_entries now args n₀ =
    let n = yield_to_leader args.term n₀ in
    if ltb args.term n.current_term
    then (n, stale n.current_term)
    else append_checked args (greeted now args n)
