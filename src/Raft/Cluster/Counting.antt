-- ===== src/Raft/Cluster/Counting.antt =====
-- Counted answers keep the invariant of a cluster, and a candidate that they make leader has the
-- votes of a majority.
use raft_implementation.Prelude.{
  ℕ, ◌+◌, ◌≤◌, ◌≡◌, inl, inr, sym, ap, ◌∙◌, subst, String, Bool, true, false, some, List, arith,
  count, str_eq, eq_iff, Bool-cases, ltb, le→ltb, lt→ltb, if◌then◌else◌, false≢true,
}
use raft_implementation.Raft.Rpc.{RequestVoteReply}
use raft_implementation.Raft.Node.{RaftNode, candidate}
use raft_implementation.Raft.Election.{Ballot}
use raft_implementation.Raft.Votes.Keeps.{on_vote_reply-VoteKept}
use raft_implementation.Raft.Cluster.{Cluster, Poll, update, set_node, set_poll, counted}
use raft_implementation.Raft.Cluster.Quorum.{mem, count_mono, count-mark, Distinct}
use raft_implementation.Raft.Cluster.Invariant.{
  History, votes_for, NodeOk, PollOk, Inv, NodeOk-Steady,
}
use raft_implementation.Raft.Cluster.Moves.{Taken, on_vote_reply-Taken, NodeOk-leader}
use raft_implementation.Raft.Cluster.Preserve.{AreNames, set_node-Inv, set_poll-Inv}

-- The poll after an answer of v that left the ballot b.
abbrev tallied : Poll → String → Ballot → Poll
tallied p v b = record p {
  ballot = b;
  tally = if ltb p.ballot.votes b.votes then update p.tally v true else p.tally;
}

abbrev one_more : Ballot → Ballot
one_more b = record b { votes = b.votes + 1 }

module _ (ids : List String) (ever : History) (p : Poll) (v : String) where
  ignored-PollOk : PollOk ids ever p → PollOk ids ever (tallied p v p.ballot)
  ignored-PollOk h =
      let same : (tallied p v p.ballot).tally ≡ p.tally =
        rw (le→ltb p.ballot.votes p.ballot.votes (omega arith)) in
      subst (λ (t : String → Bool). PollOk ids ever (record p { tally = t })) (sym same) h

  added-PollOk :
      (reply : RequestVoteReply)
      → Distinct ids
      → mem v ids ≡ true
      → p.tally v ≡ false
      → p.answers v ≡ some reply
      → reply.vote_granted ≡ true
      → PollOk ids ever p
      → PollOk ids ever (record p { ballot = one_more p.ballot; tally = update p.tally v true })
  added-PollOk reply d m fresh e g h = record {
    owner_ok = h.owner_ok;
    votes_ok = omega (arith, count-mark v p.tally ids d m fresh, h.votes_ok);
    majority_ok = h.majority_ok;
    tally_ok = λ u ne t. elim (Bool-cases (str_eq v u)) [
      | inl same ↦
          subst (λ w. ever w p.ballot.term ≡ p.owner) ((eq_iff v u).0 same)
            (h.answers_ok v reply e g)
      | inr other ↦ h.tally_ok u ne (rw other at t)
    ];
    answers_ok = h.answers_ok;
  }

  -- The marks of a poll whose owner is a candidate of its term are votes for it.
  marks-le-votes :
      (n : RaftNode)
      → NodeOk ids ever p.owner n
      → n.state ≡ candidate
      → n.current_term ≡ p.ballot.term
      → PollOk ids ever p
      → count p.tally ids ≤ votes_for ids ever p.owner n.current_term
  marks-le-votes n ok was term h = count_mono p.tally _ ids λ u t.
      (eq_iff (ever u n.current_term) p.owner).1 (elim (Bool-cases (str_eq u p.owner)) [
        | inl same ↦
            subst (λ w. ever w n.current_term ≡ p.owner) (sym ((eq_iff u p.owner).0 same))
              (ok.own_vote was)
        | inr other ↦
            ap (ever u) term ∙ h.tally_ok u (λ e. false≢true (sym other ∙ (eq_iff u p.owner).1 e)) t
      ])

module _ (ids : List String) (names : AreNames ids) where
  both-Inv :
      (c : Cluster) (k : ℕ) (m : RaftNode) (p : Poll)
      → Inv ids c
      → NodeOk ids c.ever (c.poll k).owner m
      → PollOk ids c.ever p
      → Inv ids (set_poll (set_node c (c.poll k).owner m) k p)
  both-Inv c k m p h ok pok =
      let d = set_node c (c.poll k).owner m in
      set_poll-Inv ids names d k p (set_node-Inv ids names c (c.poll k).owner m h ok) pok

  pub counted-Inv :
      (c : Cluster) (k : ℕ) (v : String) (now : ℕ)
      → Inv ids c
      → mem v ids ≡ true
      → (c.poll k).tally v ≡ false
      → Inv ids (counted c k v now)
  counted-Inv c k v now h m fresh =
      let p = c.poll k in
      let n = c.node p.owner in
      let ok = h.nodes p.owner (h.polls k).owner_ok in
      let kept = on_vote_reply-VoteKept now (p.answers v) p.ballot n in
      elim (on_vote_reply-Taken now (p.answers v) p.ballot n) [
        | Taken.ignored same steady ↦
            both-Inv c k _ _ h (NodeOk-Steady ids c.ever p.owner n _ steady kept ok) (
              subst (λ b. PollOk ids c.ever (tallied p v b)) (sym same)
                (ignored-PollOk ids c.ever p v (h.polls k)))
        | Taken.added reply e g was term more next ↦
            let pok = added-PollOk ids c.ever p v reply names.distinct m fresh e g (h.polls k) in
            let marked : (tallied p v (one_more p.ballot)).tally ≡ update p.tally v true =
              rw (lt→ltb p.ballot.votes (p.ballot.votes + 1) (omega arith)) in
            let p' : Poll = record p {
              ballot = one_more p.ballot;
              tally = update p.tally v true;
            } in
            let marks = marks-le-votes ids c.ever p' v n ok was term pok in
            both-Inv c k _ _ h
              (elim next [
                | inl same ↦ subst (NodeOk ids c.ever p.owner) (sym same) ok
                | inr (won, crowned) ↦ subst (NodeOk ids c.ever p.owner) (sym crowned) (
                    NodeOk-leader ids c.ever p.owner now n ok was
                      (omega (arith, won, pok.votes_ok, pok.majority_ok, marks)))
              ])
              (subst (λ b. PollOk ids c.ever (tallied p v b)) (sym more)
                (subst
                  (λ (t : String → Bool).
                    PollOk ids c.ever (record (tallied p v (one_more p.ballot)) { tally = t }))
                  (sym marked) pok))
      ]
