-- ===== src/Raft/Cluster/Moves.antt =====
-- What a vote, a candidacy and a counted answer do to one node and one poll.
use raft_implementation.Prelude.{
  ℕ, ◌+◌, ◌<◌, ◌≤◌, ◌≡◌, ◌≢◌, ◌⊎◌, inl, inr, refl, sym, ◌∙◌, String, true, Option, some, none, List,
  [], ◌∷◌, arith, str_eq, eq_iff, Bool-cases, ◌&&◌, ltb, leb, leb→le, add64_lem, u64_mod, ◌==◌, not,
  ◌||◌,
}
use raft_implementation.Raft.Rpc.{RequestVoteReply}
use raft_implementation.Raft.Node.{RaftNode, candidate, leader, is_candidate}
use raft_implementation.Raft.Election.{
  Ballot, become_candidate, become_leader, init_peers, on_vote_reply,
}
use raft_implementation.Raft.Votes.{VoteKept}
use raft_implementation.Raft.Cluster.{cast_in}
use raft_implementation.Raft.Cluster.Steady.{Steady}
use raft_implementation.Raft.Cluster.Invariant.{
  History, quorum, votes_for, NodeOk, Extends, votes_for-Extends, Extends-keeps,
}

pub cast_in_self : (ever : History) (v : String) (t : ℕ) (c : String) → cast_in ever v t c v t ≡ c
cast_in_self ever v t c = ground (arith, eq_iff v v)

pub cast_in_other :
    (ever : History) (v u : String) (t : ℕ) (c : String) (s : ℕ)
    → v ≢ u
    → cast_in ever v t c u s ≡ ever u s
cast_in_other ever v u t c s ne = ground (arith, eq_iff v u)

pub cast_in_later :
    (ever : History) (v u : String) (t : ℕ) (c : String) (s : ℕ)
    → t ≢ s
    → cast_in ever v t c u s ≡ ever u s
cast_in_later ever v u t c s ne = ground arith

-- A vote for a candidate, by a voter that has voted for nobody else in that term, changes no vote of
-- the past.
pub cast_in-Extends :
    (ever : History) (v : String) (t : ℕ) (c : String)
    → (ever v t ≡ "") ⊎ (ever v t ≡ c)
    → Extends ever (cast_in ever v t c)
cast_in-Extends ever v t c free u s some_vote = elim (Bool-cases (str_eq v u && (t == s))) [
  | inr other ↦ rw other
  | inl same ↦
      let voter : v ≡ u = ground (arith, eq_iff v u) in
      let term : t ≡ s = ground arith in
      let vote : ever v t ≡ ever u s = λ i. ever (voter i) (term i) in
      elim free [
        | inl none_yet ↦ absurd (some_vote (sym vote ∙ none_yet))
        | inr his ↦ rw same (sym his ∙ vote)
      ]
]

-- A node that has voted in its new term.
module _ (ids : List String) (ever ever' : History) (v : String) (n m : RaftNode) where
  pub NodeOk-voted :
      Steady n m
      → VoteKept n m
      → Extends ever ever'
      → v ≢ ""
      → ((t : ℕ) → m.current_term ≢ t → ever' v t ≡ ever v t)
      → ever' v m.current_term ≡ m.voted_for
      → NodeOk ids ever v n
      → NodeOk ids ever' v m
  NodeOk-voted s k ext named elsewhere vote h = record {
    id_ok = s.same_id ∙ h.id_ok;
    size_ok = rw s.same_peers h.size_ok;
    future = λ t lt. elsewhere t (omega arith) ∙ h.future t (omega (arith, k.term_grows));
    present = inr vote;
    own_vote = λ e.
        let (was, same) = s.no_new_candidate e in
        Extends-keeps ever ever' v v m.current_term ext named (rw same (h.own_vote was));
    elected = λ e.
        let (was, same) = s.no_new_leader e in
        let before : quorum ids ≤ votes_for ids ever v m.current_term = rw same (h.elected was) in
        omega (arith, votes_for-Extends ids ever ever' v m.current_term ext named);
  }

become_candidate_fields :
    (n : RaftNode)
    → n.current_term + 1 < u64_mod
    → ((become_candidate n).current_term ≡ n.current_term + 1)
      × ((become_candidate n).id ≡ n.id)
      × ((become_candidate n).peers ≡ n.peers)
      × ((become_candidate n).state ≡ candidate)
      × ((become_candidate n).voted_for ≡ n.id)
unfolding become_candidate
become_candidate_fields n room = (add64_lem n.current_term 1 room, refl, refl, refl, refl)

-- A node that campaigns votes for itself in the next term.
pub NodeOk-candidate :
    (ids : List String) (ever : History) (n : RaftNode)
    → n.current_term + 1 < u64_mod
    → NodeOk ids ever n.id n
    → NodeOk ids (cast_in ever n.id (n.current_term + 1) n.id) n.id (become_candidate n)
NodeOk-candidate ids ever n room h =
    let (term, same_id, same_peers, is_cand, vote) = become_candidate_fields n room in
    let ever' = cast_in ever n.id (n.current_term + 1) n.id in
    let own : ever' n.id (become_candidate n).current_term ≡ n.id =
      rw term (cast_in_self ever n.id (n.current_term + 1) n.id) in
    record {
      id_ok = same_id;
      size_ok = rw same_peers h.size_ok;
      future = λ t lt.
          cast_in_later ever n.id n.id (n.current_term + 1) n.id t (omega arith)
          ∙ h.future t (omega arith);
      present = inr (own ∙ sym vote);
      own_vote = λ e. own;
      elected = λ e. absurd (ground arith);
    }

-- The two ways in which the answer of one peer is taken.
pub data Taken (now : ℕ) (r : Option RequestVoteReply) (b : Ballot) (n : RaftNode) : Type 0 where
  ignored : (on_vote_reply now r b n).0 ≡ b → Steady n (on_vote_reply now r b n).1 → Taken now r b n
  added :
      (reply : RequestVoteReply)
      → r ≡ some reply
      → reply.vote_granted ≡ true
      → n.state ≡ candidate
      → n.current_term ≡ b.term
      → (on_vote_reply now r b n).0 ≡ record b { votes = b.votes + 1 }
      → ((on_vote_reply now r b n).1 ≡ n)
        ⊎ ((b.majority ≤ b.votes + 1) × ((on_vote_reply now r b n).1 ≡ become_leader now n))
      → Taken now r b n

pub on_vote_reply-Taken :
    (now : ℕ) (r : Option RequestVoteReply) (b : Ballot) (n : RaftNode) → Taken now r b n
on_vote_reply-Taken now none b n = unfold on_vote_reply in Taken.ignored refl (ground arith)
on_vote_reply-Taken now (some r) b n = elim (Bool-cases (ltb n.current_term r.term)) [
  | inl newer ↦
      Taken.ignored (unfold on_vote_reply in rw newer)
        (unfold on_vote_reply in rw newer (ground arith))
  | inr known ↦ elim (Bool-cases (not (is_candidate n.state) || not (n.current_term == b.term))) [
    | inl late ↦
        Taken.ignored (unfold on_vote_reply in rw (known, late))
          (unfold on_vote_reply in rw (known, late) (ground arith))
    | inr current ↦ elim (Bool-cases r.vote_granted) [
      | inr refused ↦
          Taken.ignored (unfold on_vote_reply in rw (known, current, refused))
            (unfold on_vote_reply in rw (known, current, refused) (ground arith))
      | inl granted ↦
          Taken.added r refl granted (ground arith) (ground arith)
            (unfold on_vote_reply in rw (known, current, granted))
            (elim (Bool-cases (leb b.majority (b.votes + 1))) [
              | inl won ↦ inr (
                leb→le b.majority (b.votes + 1) won,
                unfold on_vote_reply in rw (known, current, granted, won),
              )
              | inr few ↦ inl (unfold on_vote_reply in rw (known, current, granted, few))
            ])
    ]
  ]
]

-- Becoming leader changes neither the name, the membership, the term nor the vote.
pub record Crowned (n m : RaftNode) : Type 0 where
  pub same_id : m.id ≡ n.id
  pub same_peers : m.peers ≡ n.peers
  pub same_term : m.current_term ≡ n.current_term
  pub same_vote : m.voted_for ≡ n.voted_for
  pub same_state : m.state ≡ n.state

init_peers-Crowned :
    (next now : ℕ) (ps : List String) (n : RaftNode) → Crowned n (init_peers next now ps n)
unfolding init_peers
init_peers-Crowned next now [] n = ground arith
init_peers-Crowned next now (p ∷ ps) n =
    let later = init_peers-Crowned next now ps _ in
    record {
      same_id = later.same_id;
      same_peers = later.same_peers;
      same_term = later.same_term;
      same_vote = later.same_vote;
      same_state = later.same_state;
    }

module _ (ids : List String) (ever : History) (i : String) (now : ℕ) (n : RaftNode) where
  -- A candidate that the votes cast make a majority for becomes a leader with a majority.
  pub NodeOk-leader :
      NodeOk ids ever i n
      → n.state ≡ candidate
      → quorum ids ≤ votes_for ids ever i n.current_term
      → NodeOk ids ever i (become_leader now n)
  unfolding become_leader
  NodeOk-leader h was many =
      let c = init_peers-Crowned _ now n.peers (record n { state = leader; leader_id = n.id }) in
      record {
        id_ok = c.same_id ∙ h.id_ok;
        size_ok = rw c.same_peers h.size_ok;
        future = λ t lt. h.future t (omega (arith, c.same_term));
        present = rw (c.same_term, c.same_vote) h.present;
        own_vote = λ e. absurd (ground (arith, c.same_state));
        elected = λ e. rw c.same_term many;
      }
