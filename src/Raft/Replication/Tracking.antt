-- ===== src/Raft/Replication/Tracking.antt =====
-- What a leader records of its peers from their replies.
use raft_implementation.Prelude.{
  ℕ, ◌≤◌, ◌≡◌, String, true, some, arith, eq_iff, length, ltb, if◌then◌else◌, str_eq, Bool-cases,
  inl, inr, add64, GoMap, string_eq, subst, lookup_or, insert, lookup_or-insert, ap, ◌∙◌,
}
use raft_implementation.Raft.Rpc.{AppendEntriesArgs, AppendEntriesReply}
use raft_implementation.Raft.Node.{RaftNode, leader, is_leader}
use raft_implementation.Raft.Replication.{
  match_index_of, next_index_of, maybe_commit, on_accept, on_append_reply,
}

-- Committing changes no record of a peer.
maybe_commit_tracks :
    (n : RaftNode)
    → ((maybe_commit n).match_index ≡ n.match_index) × ((maybe_commit n).next_index ≡ n.next_index)
unfolding maybe_commit
maybe_commit_tracks n = ground arith

abbrev pub raised_match : String → AppendEntriesArgs → RaftNode → ℕ
raised_match peer args n =
    let new_match = add64 args.prev_log_index (length args.entries) in
    if ltb (match_index_of peer n) new_match then new_match else match_index_of peer n

lookup-raised :
    (peer j : String) (new : ℕ) (m : GoMap String ℕ)
    → lookup_or 0 j (if ltb (lookup_or 0 peer m) new then insert peer new m else m) ≡ (
        if str_eq peer j
        then (if ltb (lookup_or 0 peer m) new then new else lookup_or 0 peer m)
        else lookup_or 0 j m)
lookup-raised peer j new m = elim (Bool-cases (str_eq peer j)) [
  | inl same ↦
      subst
        (λ i. lookup_or 0 i (if ltb (lookup_or 0 peer m) new then insert peer new m else m) ≡ (
          if str_eq peer i
          then (if ltb (lookup_or 0 peer m) new then new else lookup_or 0 peer m)
          else lookup_or 0 i m))
        ((eq_iff peer j).0 same)
        (ground (arith, lookup_or-insert 0 peer peer new m, eq_iff peer peer))
  | inr other ↦ ground (arith, lookup_or-insert 0 peer j new m)
]

on_accept_tracks :
    (peer j : String) (args : AppendEntriesArgs) (n : RaftNode)
    → (match_index_of j (on_accept peer args n)
        ≡ (if str_eq peer j then raised_match peer args n else match_index_of j n))
      × (next_index_of j (on_accept peer args n)
          ≡ (if str_eq peer j then add64 (raised_match peer args n) 1 else next_index_of j n))
unfolding on_accept
on_accept_tracks peer j args n =
    let new_match = add64 args.prev_log_index (length args.entries) in
    let moved : RaftNode = record n {
      match_index =
          if ltb (match_index_of peer n) new_match
          then insert peer new_match n.match_index
          else n.match_index;
      next_index = insert peer (add64 (raised_match peer args n) 1) n.next_index;
    } in
    let (matches, nexts) = maybe_commit_tracks moved in
    (
      ap (lookup_or 0 j) matches ∙ lookup-raised peer j new_match n.match_index,
      ap (lookup_or 0 j) nexts
          ∙ lookup_or-insert 0 peer j (add64 (raised_match peer args n) 1) n.next_index,
    )

-- For a leader that gets an acceptance of its own term or an earlier one, to a message of its
-- term: the peer's match index is raised to what the message reached, its next index is the one
-- after, and the records of the other peers stay.
pub on_append_reply-success :
    (now : ℕ) (peer : String) (args : AppendEntriesArgs) (r : AppendEntriesReply) (n : RaftNode)
    → n.state ≡ leader
    → r.term ≤ n.current_term
    → r.success ≡ true
    → let m = on_append_reply now peer n.current_term args (some r) n in
      (j : String)
      → (match_index_of j m
          ≡ (if str_eq peer j then raised_match peer args n else match_index_of j n))
        × (next_index_of j m
            ≡ (if str_eq peer j then add64 (raised_match peer args n) 1 else next_index_of j n))
unfolding on_append_reply
on_append_reply-success now peer args r n lead term ok j =
    let heard : RaftNode = record n { last_heard_from = insert peer now n.last_heard_from } in
    let leads : is_leader n.state ≡ true = rw lead in
    let accepts : on_append_reply now peer n.current_term args (some r) n
        ≡ on_accept peer args heard =
      ground arith in
    rw accepts (on_accept_tracks peer j args heard)
