-- ===== src/Raft/Complete/Nodes.antt =====
-- What a step does to one node: to the terms in its log, to what it held, and to its candidacy.
use raft_implementation.Prelude.{
  ℕ, ◌+◌, ◌<◌, ◌≤◌, ◌≡◌, ◌≢◌, ◌⊎◌, inl, inr, sym, ap, ◌∙◌, subst, String, some, arith, Bool-cases,
  ltb, ltb→lt, ltb→le,
}
use raft_implementation.Raft.Log.{Log, LogEntry, get, last_index}
use raft_implementation.Raft.Rpc.{AppendEntriesArgs}
use raft_implementation.Raft.Node.{RaftNode, candidate, leader}
use raft_implementation.Raft.Replication.{
  yield_to_leader, append_checked, accept_entries, greeted, handle_append_entries,
}
use raft_implementation.Raft.Matching.{Book}
use raft_implementation.Raft.Matching.Logs.{AreSame, IsGood, IsHonest, IsCopied, Grows, Grows-refl}
use raft_implementation.Raft.Matching.Nodes.{Follows, IsElected}
use raft_implementation.Raft.Matching.Deliver.{IsCut, handled-IsGood, handled_empty}
use raft_implementation.Raft.Complete.{Kept, TermsUpTo}
use raft_implementation.Raft.Complete.Kept.{Kept-AreSame}
use raft_implementation.Raft.Complete.Logs.{TermsUpTo-AreSame, TermsUpTo-later, cut-Kept}

pub record Passes (book book' : Book) (n m : RaftNode) : Type 0 where
  pub older : n.current_term ≤ m.current_term
  pub aged : TermsUpTo n.log n.current_term → TermsUpTo m.log m.current_term
  pub zeroth : (get n.log 0).term ≡ 0 → (get m.log 0).term ≡ 0
  pub kept :
      (t x : ℕ)
      → t ≤ n.current_term
      → Kept book t x n.current_term n.log
      → Kept book' t x m.current_term m.log
  pub bids :
      m.state ≡ candidate
      → ((n.state ≡ candidate) × (m.current_term ≡ n.current_term) × (m.log ≡ n.log))
        ⊎ (n.current_term < m.current_term)

AreSame-self : (l m : Log) (x : ℕ) → m ≡ l → x ≤ last_index l → AreSame m l x
AreSame-self l m x same low = record {
  within = subst (λ y. x ≤ last_index y) (sym same) low;
  within' = low;
  reads = λ k a b. ap (λ y. get y k) same;
}

module _ (book book' : Book) (grows : Grows book book') where
  same_log-Passes :
      (n m : RaftNode)
      → n.current_term ≤ m.current_term
      → m.log ≡ n.log
      → (m.state ≡ candidate
          → ((n.state ≡ candidate) × (m.current_term ≡ n.current_term))
            ⊎ (n.current_term < m.current_term))
      → Passes book book' n m
  same_log-Passes n m older same bids = record {
    older = older;
    aged =
        λ h. subst (λ l. TermsUpTo l m.current_term) (sym same) (TermsUpTo-later n.log _ _ older h);
    zeroth = subst (λ l. (get l 0).term ≡ 0) (sym same);
    kept = λ t x low.
        Kept-AreSame book book' grows t x _ _ n.log m.log older (AreSame-self n.log m.log x same);
    bids = λ e. elim (bids e) [ inl (was, term) ↦ inl (was, term, same) | inr more ↦ inr more ];
  }

  pub Follows-Passes : (n m : RaftNode) → Follows n m → Passes book book' n m
  Follows-Passes n m f = same_log-Passes n m f.ages.term_grows f.same_log f.ages.candidacy

  pub IsElected-Passes : (n m : RaftNode) → IsElected n m → Passes book book' n m
  IsElected-Passes n m w =
      let leads = w.leads in
      same_log-Passes n m (omega (arith, w.same_term)) w.same_log (λ e. absurd (ground arith))

  -- A leader that takes a command.
  pub longer-Passes :
      (n m : RaftNode)
      → m.state ≡ leader
      → m.current_term ≡ n.current_term
      → AreSame n.log m.log (last_index n.log)
      → get n.log 0 ≡ get m.log 0
      → last_index m.log ≡ last_index n.log + 1
      → (get m.log (last_index n.log + 1)).term ≡ n.current_term
      → Passes book book' n m
  longer-Passes n m leads term like zeroth ends new = record {
    older = omega (arith, term);
    aged = λ h k a b. elim (Bool-cases (ltb (last_index n.log) k)) [
      | inr old ↦
          let low = ltb→le (last_index n.log) k old in
          subst (λ (e : LogEntry). e.term ≤ m.current_term) (like.reads k a low)
            (omega (arith, h k a low, term))
      | inl above ↦
          let this : k ≡ last_index n.log + 1 = omega (arith, ltb→lt (last_index n.log) k above) in
          subst (λ j. (get m.log j).term ≤ m.current_term) (sym this) (omega (arith, new, term))
    ];
    zeroth = subst (λ (e : LogEntry). e.term ≡ 0) zeroth;
    kept = λ t x low.
        Kept-AreSame book book' grows t x _ _ n.log m.log (omega (arith, term)) (λ in_n. record {
          within = omega (arith, ends);
          within' = in_n;
          reads = λ k a b. sym (like.reads k a (omega arith));
        });
    bids = λ e. absurd (ground arith);
  }

pub append_checked_frame :
    (args : AppendEntriesArgs) (k : RaftNode)
    → ((append_checked args k).0.current_term ≡ k.current_term)
      × ((append_checked args k).0.state ≡ k.state)
unfolding append_checked accept_entries
append_checked_frame args k = ground arith

-- A message that changes a log is of the receiver's term by then, and its receiver no candidate.
handled_current :
    (now : ℕ) (args : AppendEntriesArgs) (n : RaftNode)
    → let m = (handle_append_entries now args n).0 in
      (m.log ≡ n.log)
      ⊎ ((m.current_term ≡ args.term) × (n.current_term ≤ args.term) × (m.state ≢ candidate))
unfolding handle_append_entries yield_to_leader
handled_current now args n =
    let frame = append_checked_frame args (greeted now args (yield_to_leader args.term n)) in
    ground arith

-- A message that arrives.
module _ (book : Book) (now : ℕ) (args : AppendEntriesArgs) (n : RaftNode) where
  abbrev after : RaftNode
  after = (handle_append_entries now args n).0

  cut-Passes :
      (c : IsCopied book args)
      → TermsUpTo c.its_log args.term
      → after.current_term ≡ args.term
      → n.current_term ≤ args.term
      → after.state ≢ candidate
      → IsCut n.log c.its_log after.log
      → Passes book book n after
  cut-Passes c booked term low settled cut = record {
    older = omega (arith, term);
    aged = λ h. TermsUpTo-AreSame c.its_log after.log _ cut.same (rw term booked);
    zeroth = subst (λ (e : LogEntry). e.term ≡ 0) (sym (cut.before 0 (omega arith)));
    kept = λ t x old h.
        cut-Kept book n.log after.log c.its_log cut t x n.current_term after.current_term c.by
          (omega (arith, term)) (omega (arith, term)) (ap book term ∙ c.listed) h;
    bids = λ e. absurd (settled e);
  }

  pub arrival-Passes :
      n.current_term ≤ after.current_term
      → (after.state ≡ candidate → (n.state ≡ candidate) × (after.current_term ≡ n.current_term))
      → IsGood book n.log
      → IsHonest book args
      → ((by : String) (l : Log)
          → book args.term ≡ some (by, l)
          → IsGood book l × TermsUpTo l args.term)
      → Passes book book n after
  arrival-Passes older bids good honest listed =
      let same_log : after.log ≡ n.log → Passes book book n after = λ same.
        same_log-Passes book book (Grows-refl book) n after older same (λ e. inl (bids e)) in
      elim honest [
        | inl none_sent ↦ same_log (handled_empty now args n none_sent)
        | inr c ↦
            let (its_good, booked) = listed c.by c.its_log c.listed in
            elim (handled-IsGood book now args n c good its_good) [
              | inl same ↦ same_log same
              | inr (_, cut) ↦ elim (handled_current now args n) [
                | inl same ↦ same_log same
                | inr (term, low, settled) ↦ cut-Passes c booked term low settled cut
              ]
            ]
      ]
