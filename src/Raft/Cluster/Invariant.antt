-- ===== src/Raft/Cluster/Invariant.antt =====
-- The invariant of a cluster: what a node's state says of the votes that were cast.
use raft_implementation.Prelude.{
  ℕ, ◌+◌, ◌/◌, ◌<◌, ◌≤◌, ◌≡◌, ◌≢◌, ◌⊎◌, inl, inr, sym, ap, ◌∙◌, String, true, some, List, arith,
  length, count, str_eq, eq_iff, Bool-cases, ltb, ltb→lt, ltb→le, false≢true,
}
use raft_implementation.Raft.Rpc.{RequestVoteReply}
use raft_implementation.Raft.Node.{RaftNode, candidate, leader}
use raft_implementation.Raft.Votes.{VoteKept}
use raft_implementation.Raft.Cluster.{Cluster, Poll}
use raft_implementation.Raft.Cluster.Quorum.{mem, count_mono}
use raft_implementation.Raft.Cluster.Steady.{Steady}

abbrev pub History : Type 0
History = String → ℕ → String

-- A majority of the names.
abbrev pub quorum : List String → ℕ
quorum ids = length ids / 2 + 1

-- How many of the names have voted for i in term t.
abbrev pub votes_for : List String → History → String → ℕ → ℕ
votes_for ids ever i t = count (λ v. str_eq (ever v t) i) ids

pub record NodeOk (ids : List String) (ever : History) (i : String) (n : RaftNode) : Type 0 where
  pub id_ok : n.id ≡ i
  pub size_ok : length n.peers + 1 ≡ length ids
  pub future : (t : ℕ) → n.current_term < t → ever i t ≡ ""
  pub present : (ever i n.current_term ≡ "") ⊎ (ever i n.current_term ≡ n.voted_for)
  pub own_vote : n.state ≡ candidate → ever i n.current_term ≡ i
  pub elected : n.state ≡ leader → quorum ids ≤ votes_for ids ever i n.current_term

pub record PollOk (ids : List String) (ever : History) (p : Poll) : Type 0 where
  pub owner_ok : mem p.owner ids ≡ true
  pub votes_ok : p.ballot.votes ≡ count p.tally ids
  pub majority_ok : p.ballot.majority ≡ quorum ids
  pub tally_ok : (v : String) → v ≢ p.owner → p.tally v ≡ true → ever v p.ballot.term ≡ p.owner
  pub answers_ok :
      (v : String) (r : RequestVoteReply)
      → p.answers v ≡ some r
      → r.vote_granted ≡ true
      → ever v p.ballot.term ≡ p.owner

pub record Inv (ids : List String) (c : Cluster) : Type 0 where
  pub nodes : (i : String) → mem i ids ≡ true → NodeOk ids c.ever i (c.node i)
  pub polls : (k : ℕ) → PollOk ids c.ever (c.poll k)

-- No vote of the past is changed.
abbrev pub Extends : History → History → Type 0
Extends ever ever' = (v : String) (t : ℕ) → ever v t ≢ "" → ever' v t ≡ ever v t

pub Extends-keeps :
    (ever ever' : History) (v i : String) (t : ℕ)
    → Extends ever ever'
    → i ≢ ""
    → ever v t ≡ i
    → ever' v t ≡ i
Extends-keeps ever ever' v i t ext named e = ext v t (λ h. named (sym e ∙ h)) ∙ e

pub votes_for-Extends :
    (ids : List String) (ever ever' : History) (i : String) (t : ℕ)
    → Extends ever ever'
    → i ≢ ""
    → votes_for ids ever i t ≤ votes_for ids ever' i t
votes_for-Extends ids ever ever' i t ext named = count_mono _ _ ids λ v h.
    (eq_iff (ever' v t) i).1 (Extends-keeps ever ever' v i t ext named ((eq_iff (ever v t) i).0 h))

module _ (ids : List String) (ever ever' : History) (ext : Extends ever ever') where
  -- A poll stays right as votes are added.
  pub PollOk-Extends : (p : Poll) → p.owner ≢ "" → PollOk ids ever p → PollOk ids ever' p
  PollOk-Extends p named h = record {
    owner_ok = h.owner_ok;
    votes_ok = h.votes_ok;
    majority_ok = h.majority_ok;
    tally_ok = λ v ne e. Extends-keeps ever ever' v p.owner _ ext named (h.tally_ok v ne e);
    answers_ok = λ v r e g. Extends-keeps ever ever' v p.owner _ ext named (h.answers_ok v r e g);
  }

  -- A node stays right as others vote.
  pub NodeOk-Extends :
      (i : String) (n : RaftNode)
      → i ≢ ""
      → ((t : ℕ) → ever' i t ≡ ever i t)
      → NodeOk ids ever i n
      → NodeOk ids ever' i n
  NodeOk-Extends i n named same h = record {
    id_ok = h.id_ok;
    size_ok = h.size_ok;
    future = λ t lt. same t ∙ h.future t lt;
    present = elim h.present [
      | inl e ↦ inl (same n.current_term ∙ e)
      | inr e ↦ inr (same n.current_term ∙ e)
    ];
    own_vote = λ e. same n.current_term ∙ h.own_vote e;
    elected = λ e.
        omega (arith, h.elected e, votes_for-Extends ids ever ever' i n.current_term ext named);
  }

-- What a steady step leaves of the vote of its term.
present_kept :
    (ever : History) (i : String) (n m : RaftNode)
    → VoteKept n m
    → ((t : ℕ) → n.current_term < t → ever i t ≡ "")
    → (ever i n.current_term ≡ "") ⊎ (ever i n.current_term ≡ n.voted_for)
    → (ever i m.current_term ≡ "") ⊎ (ever i m.current_term ≡ m.voted_for)
present_kept ever i n m k future present = elim (Bool-cases (ltb n.current_term m.current_term)) [
  | inl grew ↦ inl (future m.current_term (ltb→lt n.current_term m.current_term grew))
  | inr stayed ↦
      let low = ltb→le n.current_term m.current_term stayed in
      let same : n.current_term ≡ m.current_term = omega (arith, k.term_grows) in
      let back = ap (ever i) (sym same) in
      elim present [
        | inl e ↦ inl (back ∙ e)
        | inr e ↦ elim (Bool-cases (str_eq n.voted_for "")) [
          | inl b ↦ inl (back ∙ e ∙ (eq_iff n.voted_for "").0 b)
          | inr f ↦
              let named : n.voted_for ≢ "" =
                λ q. false≢true (sym f ∙ (eq_iff n.voted_for "").1 q) in
              inr (back ∙ e ∙ sym (k.vote_stays same named))
        ]
      ]
]

-- A node stays right over a steady step.
pub NodeOk-Steady :
    (ids : List String) (ever : History) (i : String) (n m : RaftNode)
    → Steady n m
    → VoteKept n m
    → NodeOk ids ever i n
    → NodeOk ids ever i m
NodeOk-Steady ids ever i n m s k h = record {
  id_ok = s.same_id ∙ h.id_ok;
  size_ok = rw s.same_peers h.size_ok;
  future = λ t lt. h.future t (omega (arith, k.term_grows));
  present = present_kept ever i n m k h.future h.present;
  own_vote = λ e. let (was, same) = s.no_new_candidate e in rw same (h.own_vote was);
  elected = λ e. let (was, same) = s.no_new_leader e in rw same (h.elected was);
}
