-- ===== src/Raft/Cluster/Preserve.antt =====
-- Opened polls, votes and counted answers keep the invariant of a cluster.
use raft_implementation.Prelude.{
  ℕ, ◌≡◌, ◌≢◌, ◌⊎◌, inl, inr, refl, sym, ap, ◌∙◌, subst, String, true, false, some, List, arith,
  str_eq, eq_iff, Bool-cases, ltb, ltb→lt, ltb→le, ◌==◌, if◌then◌else◌, false≢true,
}
use raft_implementation.Raft.Rpc.{RequestVoteArgs, RequestVoteReply}
use raft_implementation.Raft.Node.{RaftNode}
use raft_implementation.Raft.Election.{handle_request_vote, start_election}
use raft_implementation.Raft.Votes.Keeps.{handle_request_vote-VoteKept}
use raft_implementation.Raft.Votes.Once.{granted_vote}
use raft_implementation.Raft.Cluster.{
  Cluster, Poll, cast_in, update, set_node, set_poll, opened, voted, IsRequestOf,
}
use raft_implementation.Raft.Cluster.Quorum.{mem, count_one, Distinct}
use raft_implementation.Raft.Cluster.Steady.{handle_request_vote-Steady}
use raft_implementation.Raft.Cluster.Invariant.{
  History, NodeOk, PollOk, Inv, Extends, NodeOk-Steady, NodeOk-Extends, PollOk-Extends,
}
use raft_implementation.Raft.Cluster.Moves.{
  cast_in_self, cast_in_other, cast_in_later, cast_in-Extends, NodeOk-voted,
}

-- A statement of every name, after the node of one name is replaced.
pub update_all :
    (P : String → RaftNode → Type 0) (f : String → RaftNode) (i : String) (n : RaftNode)
    (j : String)
    → P i n
    → (i ≢ j → P j (f j))
    → P j (update f i n j)
update_all P f i n j here there = elim (Bool-cases (str_eq i j)) [
  | inl same ↦ rw same (subst (λ k. P k n) ((eq_iff i j).0 same) here)
  | inr other ↦ rw other (there (λ e. false≢true (sym other ∙ (eq_iff i j).1 e)))
]

-- The same for the polls.
poll_all :
    (P : Poll → Type 0) (f : ℕ → Poll) (k : ℕ) (p : Poll) (j : ℕ)
    → P p
    → P (f j)
    → P (if k == j then p else f j)
poll_all P f k p j here there = elim (Bool-cases (k == j)) [
  | inl same ↦ rw same here
  | inr other ↦ rw other there
]

-- The names of a cluster: distinct, none of them empty.
pub record AreNames (ids : List String) : Type 0 where
  pub distinct : Distinct ids
  pub named : mem "" ids ≡ false

-- What a voter may have cast before in the term in which it now grants a vote.
pub free_for :
    (ids : List String) (ever : History) (v : String) (now : ℕ) (args : RequestVoteArgs)
    (n : RaftNode)
    → NodeOk ids ever v n
    → args.is_pre_vote ≡ false
    → (handle_request_vote now args n).1.vote_granted ≡ true
    → (ever v args.term ≡ "") ⊎ (ever v args.term ≡ args.candidate_id)
free_for ids ever v now args n h real g =
    let (vote_for, term, same) = granted_vote now args n real g in
    let grows = (handle_request_vote-VoteKept now args n).term_grows in
    elim (Bool-cases (ltb n.current_term args.term)) [
      | inl newer ↦ inl (h.future args.term (ltb→lt n.current_term args.term newer))
      | inr old ↦
          let low = ltb→le n.current_term args.term old in
          let current : n.current_term ≡ args.term = omega arith in
          let back = ap (ever v) (sym current) in
          elim h.present [
            | inl e ↦ inl (back ∙ e)
            | inr e ↦ elim (Bool-cases (str_eq n.voted_for "")) [
              | inl b ↦ inl (back ∙ e ∙ (eq_iff n.voted_for "").0 b)
              | inr f ↦
                  inr (
                    back ∙ e ∙ same current (λ q. false≢true (sym f ∙ (eq_iff n.voted_for "").1 q)))
            ]
          ]
    ]

module _ (ids : List String) (names : AreNames ids) where
  pub named_of : (i : String) → mem i ids ≡ true → i ≢ ""
  named_of i m e = false≢true (sym names.named ∙ subst (λ j. mem j ids ≡ true) e m)

  -- A node that is replaced by one in the same good standing.
  pub set_node-Inv :
      (c : Cluster) (i : String) (m : RaftNode)
      → Inv ids c
      → NodeOk ids c.ever i m
      → Inv ids (set_node c i m)
  set_node-Inv c i m h ok = record {
    nodes = λ j mj. update_all (NodeOk ids c.ever) c.node i m j ok (λ ne. h.nodes j mj);
    polls = h.polls;
  }

  pub set_poll-Inv :
      (c : Cluster) (k : ℕ) (p : Poll) → Inv ids c → PollOk ids c.ever p → Inv ids (set_poll c k p)
  set_poll-Inv c k p h ok = record {
    nodes = h.nodes;
    polls = λ j. poll_all (PollOk ids c.ever) c.poll k p j ok (h.polls j);
  }

  pub opened-PollOk :
      (ever : History) (i : String) (n : RaftNode)
      → mem i ids ≡ true
      → NodeOk ids ever i n
      → PollOk ids ever (opened i n)
  unfolding start_election
  opened-PollOk ever i n m h = record {
    owner_ok = m;
    votes_ok = sym (count_one i ids names.distinct m);
    majority_ok = omega (arith, h.size_ok);
    tally_ok = λ v ne e. absurd (ne (sym ((eq_iff i v).0 (ground arith))));
    answers_ok = λ v r e g. cc;
  }

  answered-PollOk :
      (ever : History) (p : Poll) (v : String) (r : RequestVoteReply)
      → PollOk ids ever p
      → (r.vote_granted ≡ true → ever v p.ballot.term ≡ p.owner)
      → PollOk ids ever (record p { answers = update p.answers v (some r) })
  answered-PollOk ever p v r h ok = record {
    owner_ok = h.owner_ok;
    votes_ok = h.votes_ok;
    majority_ok = h.majority_ok;
    tally_ok = h.tally_ok;
    answers_ok = λ u r' e g. elim (Bool-cases (str_eq v u)) [
      | inl same ↦
          let is_r : some r ≡ some r' = rw same at e in
          let yes_vote : r.vote_granted ≡ true = ground arith in
          subst (λ w. ever w p.ballot.term ≡ p.owner) ((eq_iff v u).0 same) (ok yes_vote)
      | inr other ↦ h.answers_ok u r' (rw other at e) g
    ];
  }

  -- A voter has answered, and the history has grown at most by its vote.
  answered-Inv :
      (c : Cluster) (k : ℕ) (v : String) (m : RaftNode) (r : RequestVoteReply) (ever' : History)
      → Inv ids c
      → NodeOk ids ever' v m
      → Extends c.ever ever'
      → ((u : String) (t : ℕ) → v ≢ u → ever' u t ≡ c.ever u t)
      → (r.vote_granted ≡ true → ever' v (c.poll k).ballot.term ≡ (c.poll k).owner)
      → Inv ids (record (set_node c v m) {
        poll = λ j.
            if k == j
            then record (c.poll k) { answers = update (c.poll k).answers v (some r) }
            else c.poll j;
        ever = ever';
      })
  answered-Inv c k v m r ever' h ok ext others vote_ok =
      let named = λ (j : ℕ). named_of (c.poll j).owner (h.polls j).owner_ok in
      let grown = λ (j : ℕ). PollOk-Extends ids c.ever ever' ext (c.poll j) (named j) (h.polls j) in
      record {
        nodes = λ j mj. update_all (NodeOk ids ever') c.node v m j ok (λ ne.
            NodeOk-Extends ids c.ever ever' ext j (c.node j) (named_of j mj) (λ t. others j t ne)
              (h.nodes j mj));
        polls = λ j.
            poll_all (PollOk ids ever') c.poll k _ j
              (answered-PollOk ever' (c.poll k) v r (grown k) vote_ok) (grown j);
      }

  refused-Inv :
      (c : Cluster) (k : ℕ) (v : String) (now : ℕ) (args : RequestVoteArgs)
      → Inv ids c
      → mem v ids ≡ true
      → (handle_request_vote now args (c.node v)).1.vote_granted ≡ false
      → Inv ids (voted c k v now args)
  refused-Inv c k v now args h m no_vote =
      let n = c.node v in
      let r = handle_request_vote now args n in
      let same_ever : (voted c k v now args).ever ≡ c.ever = rw no_vote in
      let ok =
        NodeOk-Steady ids c.ever v n r.0 (handle_request_vote-Steady now args n)
          (handle_request_vote-VoteKept now args n) (h.nodes v m) in
      let result =
        answered-Inv c k v r.0 r.1 c.ever h ok (λ u t e. refl) (λ u t e. refl)
          (λ g. absurd (false≢true (sym no_vote ∙ g))) in
      subst (λ (f : History). Inv ids (record (voted c k v now args) { ever = f })) (sym same_ever)
        result

  granted-Inv :
      (c : Cluster) (k : ℕ) (v : String) (now : ℕ) (args : RequestVoteArgs)
      → Inv ids c
      → mem v ids ≡ true
      → IsRequestOf (c.poll k) args
      → (handle_request_vote now args (c.node v)).1.vote_granted ≡ true
      → Inv ids (voted c k v now args)
  granted-Inv c k v now args h m q g =
      let n = c.node v in
      let r = handle_request_vote now args n in
      let ever' = cast_in c.ever v args.term args.candidate_id in
      let same_ever : (voted c k v now args).ever ≡ ever' = rw g in
      let ok_n = h.nodes v m in
      let (vote_for, term, before) = granted_vote now args n q.real g in
      let ext =
        cast_in-Extends c.ever v args.term args.candidate_id
          (free_for ids c.ever v now args n ok_n q.real g) in
      let self = cast_in_self c.ever v args.term args.candidate_id in
      let ok =
        NodeOk-voted ids c.ever ever' v n r.0 (handle_request_vote-Steady now args n)
          (handle_request_vote-VoteKept now args n) ext (named_of v m)
          (λ t ne. cast_in_later c.ever v v args.term args.candidate_id t (λ e. ne (term ∙ e)))
          (ap (ever' v) term ∙ self ∙ sym vote_for) ok_n in
      let result =
        answered-Inv c k v r.0 r.1 ever' h ok ext
          (λ u t ne. cast_in_other c.ever v u args.term args.candidate_id t ne)
          (λ _. ap (ever' v) (sym q.of_term) ∙ self ∙ q.from_owner) in
      subst (λ (f : History). Inv ids (record (voted c k v now args) { ever = f })) (sym same_ever)
        result

  pub voted-Inv :
      (c : Cluster) (k : ℕ) (v : String) (now : ℕ) (args : RequestVoteArgs)
      → Inv ids c
      → mem v ids ≡ true
      → IsRequestOf (c.poll k) args
      → Inv ids (voted c k v now args)
  voted-Inv c k v now args h m q =
      elim (Bool-cases (handle_request_vote now args (c.node v)).1.vote_granted) [
        | inl g ↦ granted-Inv c k v now args h m q g
        | inr no_vote ↦ refused-Inv c k v now args h m no_vote
      ]
