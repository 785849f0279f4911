-- ===== src/Raft/Complete/Polls.antt =====
-- The polls stay sincere: requests describe the candidate's log, and votes come with vouchers.
use raft_implementation.Prelude.{
  ℕ, ◌≤◌, ◌≡◌, inl, inr, refl, sym, ap, ◌∙◌, subst, String, true, false, some, arith, str_eq,
  eq_iff, Bool-cases, ltb, if◌then◌else◌,
}
use raft_implementation.Raft.Rpc.{RequestVoteArgs, RequestVoteReply}
use raft_implementation.Raft.Node.{RaftNode, candidate}
use raft_implementation.Raft.Election.{
  Ballot, up_to_date, handle_request_vote, start_election, on_vote_reply,
}
use raft_implementation.Raft.Cluster.{Cluster, Poll, IsRequestOf, opened, update}
use raft_implementation.Raft.Cluster.Moves.{Taken, on_vote_reply-Taken}
use raft_implementation.Raft.Matching.{Book}
use raft_implementation.Raft.Matching.Logs.{IsGood, Grows, Grows-refl}
use raft_implementation.Raft.Complete.{Past, seen_in, Kept, Voucher, Describes, IsSincere}
use raft_implementation.Raft.Complete.Kept.{Kept-AreSame, Voucher-later}
use raft_implementation.Raft.Complete.Nodes.{Passes}

module _ (past : Past) (book book' : Book) (grows : Grows book book') (c d : Cluster)
    (passes : (v : String) → Passes book book' (c.node v) (d.node v)) where
  pub Voucher-step :
      (v : String) (u b : ℕ) (request : RequestVoteArgs)
      → Voucher past book v u b request (c.node v).current_term
      → Voucher (seen_in past d) book' v u b request (d.node v).current_term
  Voucher-step v u b request =
      Voucher-later book book' grows past d v u b (c.node v).current_term request (passes v).older

  described-step :
      (o : String) (t : ℕ) (request : RequestVoteArgs)
      → t ≤ (c.node o).current_term
      → ((c.node o).state ≡ candidate
          → (c.node o).current_term ≡ t
          → Describes request (c.node o).log)
      → (d.node o).state ≡ candidate
      → (d.node o).current_term ≡ t
      → Describes request (d.node o).log
  described-step o t request low before bids term = elim ((passes o).bids bids) [
    | inl (was, same_term, same_log) ↦
        subst (Describes request) (sym same_log) (before was (sym same_term ∙ term))
    | inr more ↦ absurd (omega arith)
  ]

  -- A poll that takes no step.
  pub IsSincere-step : (p : Poll) → IsSincere past book c p → IsSincere (seen_in past d) book' d p
  IsSincere-step p h = record {
    opened_at = omega (arith, h.opened_at, (passes p.owner).older);
    described = described-step p.owner p.ballot.term p.request h.opened_at h.described;
    answered = λ v r e g. Voucher-step v _ _ p.request (h.answered v r e g);
    tallied = λ v ne e. Voucher-step v _ _ p.request (h.tallied v ne e);
  }

-- A poll that opens.
pub opened-IsSincere :
    (past : Past) (book : Book) (d : Cluster) (i : String) (n : RaftNode)
    → d.node i ≡ n
    → IsSincere past book d (opened i n)
unfolding start_election
opened-IsSincere past book d i n same = record {
  opened_at = omega (arith, ap (λ (m : RaftNode). m.current_term) same);
  described = λ bids term. rw same (refl, refl);
  answered = λ v r e g. cc;
  tallied = λ v ne e. absurd (ground (arith, eq_iff i v));
}

-- A vote that is granted was checked against the voter's log and is of its term by then.
pub granted-UpToDate :
    (now : ℕ) (args : RequestVoteArgs) (n : RaftNode)
    → args.is_pre_vote ≡ false
    → (handle_request_vote now args n).1.vote_granted ≡ true
    → (up_to_date args n.log ≡ true)
      × ((handle_request_vote now args n).0.current_term ≡ args.term)
      × (n.current_term ≤ args.term)
unfolding handle_request_vote
granted-UpToDate now args n real g = ground arith

-- The voucher of a voter that grants the request of a poll.
pub vote-Voucher :
    (past : Past) (book : Book) (d : Cluster) (p : Poll) (v : String) (now : ℕ)
    (args : RequestVoteArgs) (n : RaftNode)
    → IsRequestOf p args
    → IsGood book n.log
    → ((t x : ℕ) → past v t x → Kept book t x n.current_term n.log)
    → d.node v ≡ (handle_request_vote now args n).0
    → (handle_request_vote now args n).1.vote_granted ≡ true
    → Voucher (seen_in past d) book v p.ballot.term p.ballot.term p.request (d.node v).current_term
vote-Voucher past book d p v now args n q good held same g =
    let (passed, term, low) = granted-UpToDate now args n q.real g in
    let here : (d.node v).current_term ≡ p.ballot.term =
      ap (λ (m : RaftNode). m.current_term) same ∙ term ∙ q.of_term in
    record {
      log = n.log;
      good = good;
      passed = subst (λ r. up_to_date r n.log ≡ true) q.sent passed;
      kept = λ t x before was. elim was [
        | inl earlier ↦
            Kept-AreSame book book (Grows-refl book) t x _ _ n.log n.log
              (omega (arith, low, q.of_term))
              (λ y. record { within = y; within' = y; reads = λ k a b. refl }) (held t x earlier)
        | inr holds ↦ absurd (omega (arith, holds.in_term))
      ];
      late = omega (arith, here);
    }

-- A poll with one more answer.
pub answered-IsSincere :
    (past : Past) (book : Book) (d : Cluster) (p : Poll) (v : String) (r : RequestVoteReply)
    → (r.vote_granted ≡ true
        → Voucher past book v p.ballot.term p.ballot.term p.request (d.node v).current_term)
    → IsSincere past book d p
    → IsSincere past book d (record p { answers = update p.answers v (some r) })
answered-IsSincere past book d p v r fresh h = record {
  opened_at = h.opened_at;
  described = h.described;
  answered = λ u s e g. elim (Bool-cases (str_eq v u)) [
    | inl same ↦
        let e' : some r ≡ some s = rw same at e in
        let one : r ≡ s = cc in
        subst
          (λ w. Voucher past book w p.ballot.term p.ballot.term p.request (d.node w).current_term)
          ((eq_iff v u).0 same) (fresh (ap (λ (x : RequestVoteReply). x.vote_granted) one ∙ g))
    | inr other ↦ h.answered u s (rw other at e) g
  ];
  tallied = h.tallied;
}

-- A poll whose owner has taken an answer.
module _ (now : ℕ) (p : Poll) (v : String) (n : RaftNode) where
  abbrev ballot : Ballot
  ballot = (on_vote_reply now (p.answers v) p.ballot n).0

  same_term : ballot.term ≡ p.ballot.term
  same_term = elim (on_vote_reply-Taken now (p.answers v) p.ballot n) [
    | Taken.ignored same steady ↦ ap (λ (b : Ballot). b.term) same
    | Taken.added reply e g was term more next ↦ ap (λ (b : Ballot). b.term) more
  ]

  counted_answer :
      ltb p.ballot.votes ballot.votes ≡ true
      → (r : RequestVoteReply) × (p.answers v ≡ some r) × (r.vote_granted ≡ true)
  counted_answer more = elim (on_vote_reply-Taken now (p.answers v) p.ballot n) [
    | Taken.ignored same steady ↦ absurd (ground (arith, ap (λ (b : Ballot). b.votes) same))
    | Taken.added reply e g was term _ next ↦ (reply, e, g)
  ]

  pub tallied-IsSincere :
      (past : Past) (book : Book) (d : Cluster)
      → IsSincere past book d p
      → IsSincere past book d (record p {
        ballot = ballot;
        tally = if ltb p.ballot.votes ballot.votes then update p.tally v true else p.tally;
      })
  tallied-IsSincere past book d h = record {
    opened_at = rw same_term h.opened_at;
    described = λ bids term. h.described bids (term ∙ same_term);
    answered = λ u r e g. rw same_term (h.answered u r e g);
    tallied = λ u ne e. rw same_term (elim (Bool-cases (ltb p.ballot.votes ballot.votes)) [
      | inr few ↦ h.tallied u ne (rw few at e)
      | inl more ↦ elim (Bool-cases (str_eq v u)) [
        | inr other ↦ h.tallied u ne (rw (more, other) at e)
        | inl same ↦
            let (r, answer, g) = counted_answer more in
            subst
              (λ w.
                Voucher past book w p.ballot.term p.ballot.term p.request (d.node w).current_term)
              ((eq_iff v u).0 same) (h.answered v r answer g)
      ]
    ]);
  }
