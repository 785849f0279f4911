-- ===== src/Raft/Complete/Acks.antt =====
-- What a follower's acceptance says of it: the ground on which a leader counts replicas.
use raft_implementation.Prelude.{
  ℕ, ◌+◌, ◌<◌, ◌≤◌, ◌≡◌, ◌∙◌, inl, inr, sym, ap, subst, String, true, some, List, arith, length,
  get_or,
}
use raft_implementation.Raft.Log.{LogEntry, zero_entry, get, last_index}
use raft_implementation.Raft.Rpc.{AppendEntriesArgs}
use raft_implementation.Raft.Node.{Config, RaftNode}
use raft_implementation.Raft.Replication.{handle_append_entries, greeted, yield_to_leader}
use raft_implementation.Raft.Replication.Outcomes.{append_accepted}
use raft_implementation.Raft.Steps.{append_request, step}
use raft_implementation.Raft.Cluster.Quorum.{mem}
use raft_implementation.Raft.Cluster.Preserve.{AreNames}
use raft_implementation.Raft.Cluster.Safety.{AreConfigs}
use raft_implementation.Raft.Matching.{Book, Replicas, Replicate, arrive}
use raft_implementation.Raft.Matching.Logs.{IsGood, IsGood-match, IsCopied}
use raft_implementation.Raft.Matching.Growth.{update_self}
use raft_implementation.Raft.Matching.Safety.{
  fresh_replicas, fresh-Matched, Move-Keeps, Replicate-Keeps,
}
use raft_implementation.Raft.Complete.Nodes.{append_checked_frame}

accepted_term :
    (now : ℕ) (args : AppendEntriesArgs) (n : RaftNode)
    → (handle_append_entries now args n).1.success ≡ true
    → (handle_append_entries now args n).0.current_term ≡ args.term
unfolding handle_append_entries yield_to_leader
accepted_term now args n ok =
    let frame = append_checked_frame args (greeted now args (yield_to_leader args.term n)) in
    ground arith

-- Node i has the k-th entry of the message at its index.
abbrev pub HasEntry : AppendEntriesArgs → ℕ → RaftNode → Type 0
HasEntry args k m =
    let x = args.prev_log_index + 1 + k in
    (x ≤ last_index m.log) × (get m.log x ≡ get_or args.entries k zero_entry)

-- A good log that took a copy of the leader's entries, with their terms, has the entries.
accepted-HasEntry :
    (book : Book) (now k : ℕ) (args : AppendEntriesArgs) (n : RaftNode)
    → (c : IsCopied book args) → IsGood book n.log
    → IsGood book c.its_log
    → IsGood book (handle_append_entries now args n).0.log
    → k < length args.entries
    → (handle_append_entries now args n).1.success ≡ true
    → HasEntry args k (handle_append_entries now args n).0
accepted-HasEntry book now k args n c before theirs after lt ok =
    let m = (handle_append_entries now args n).0 in
    let x = args.prev_log_index + 1 + k in
    let (_, merged, _, _) =
      append_accepted now args n before.is_log before.has_terms c.is_append ok in
    let term : (get m.log x).term ≡ (get c.its_log x).term =
      merged.agrees k lt (omega (arith, before.whole))
      ∙ ap (λ (e : LogEntry). e.term) (c.copies k lt) in
    let same =
      IsGood-match book m.log c.its_log x after theirs (omega arith) (omega (arith, merged.covers))
        (omega (arith, c.covers)) term in
    (omega (arith, merged.covers), same.reads x (omega arith) (omega arith) ∙ sym (c.copies k lt))

-- In the runs of log_matching: a node that accepts a message that a leader has sent is then in the
-- message's term, and has, at the index of each entry of the message, that whole entry.
pub acceptance-HasEntry :
    (ids : List String) (o : String) (cfg : String → Config) (s : Replicas) (i : String)
    (mail now k : ℕ) (args : AppendEntriesArgs)
    → AreNames ids
    → AreConfigs ids cfg
    → mem o ids ≡ true
    → Replicate ids (fresh_replicas ids o cfg) s
    → mem i ids ≡ true
    → s.mail mail ≡ some args
    → k < length args.entries
    → (handle_append_entries now args (s.cluster.node i)).1.success ≡ true
    → let m = (handle_append_entries now args (s.cluster.node i)).0 in
      (m.current_term ≡ args.term) × HasEntry args k m
unfolding step
acceptance-HasEntry ids o cfg s i mail now k args names h mo run mi there lt ok =
    let n = s.cluster.node i in
    let m = (handle_append_entries now args n).0 in
    let before = (Replicate-Keeps ids names run (fresh-Matched ids o cfg h mo)).0 in
    let after = (Move-Keeps ids names (arrive mail i now args mi there) before).0 in
    let at = update_self s.cluster.node i (step (append_request now args) n) in
    let good : IsGood s.book m.log =
      subst (λ (r : RaftNode). IsGood s.book r.log) at (after.nodes i mi).good in
    (
      accepted_term now args n ok,
      elim (before.honest mail args there) [
        | inl none_sent ↦ absurd (let size = ap length none_sent in omega arith)
        | inr c ↦
            accepted-HasEntry s.book now k args n c (before.nodes i mi).good
              (before.listed _ c.by c.its_log c.listed).good good lt ok
      ],
    )
