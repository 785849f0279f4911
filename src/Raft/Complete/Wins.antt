-- ===== src/Raft/Complete/Wins.antt =====
-- An election that is won: a majority of voters, each with a voucher against the winner's log.
use raft_implementation.Prelude.{
  ℕ, ◌+◌, ◌-◌, ◌<◌, ◌≤◌, ◌≡◌, inl, inr, sym, ap, ◌∙◌, subst, String, true, false, some, none, List,
  arith, str_eq, eq_iff, Bool-cases, false≢true, ◌==◌, ==_iff,
}
use raft_implementation.Raft.Log.{Log, get, last_index}
use raft_implementation.Raft.Rpc.{RequestVoteArgs, RequestVoteReply}
use raft_implementation.Raft.Node.{candidate}
use raft_implementation.Raft.Election.{up_to_date}
use raft_implementation.Raft.Cluster.{Poll, update}
use raft_implementation.Raft.Cluster.Quorum.{mem, count-mark}
use raft_implementation.Raft.Cluster.Preserve.{AreNames}
use raft_implementation.Raft.Matching.{Book, Replicas}
use raft_implementation.Raft.Matching.Logs.{AreSame-refl}
use raft_implementation.Raft.Complete.{Past, Kept, Voucher, Describes, Win, Complete}

-- While nobody leads term u, nobody strayed there.
Voucher-lower :
    (past : Past) (book : Book) (v : String) (u c : ℕ) (request : RequestVoteArgs)
    → book u ≡ none
    → Voucher past book v u u request c
    → Voucher past book v u (u - 1) request c
Voucher-lower past book v u c request free h = record {
  log = h.log;
  good = h.good;
  passed = h.passed;
  kept = λ t x low was. elim (h.kept t x low was) [
    | inl holds ↦ inl holds
    | inr s ↦ inr (record {
      by = s.by;
      its_log = s.its_log;
      listed = s.listed;
      within = s.within;
      later = s.later;
      after = s.after;
      until = elim (Bool-cases (s.later == u)) [
        | inr other ↦ ground (arith, s.until)
        | inl same ↦
            let listed : book u ≡ some (s.rival, s.rival_log) =
              ap book (sym ((==_iff s.later u).0 same)) ∙ s.rival_listed in
            absurd (let no : none ≡ some (s.rival, s.rival_log) = sym free ∙ listed in cc)
      ];
      rival = s.rival;
      rival_log = s.rival_log;
      rival_listed = s.rival_listed;
      place = s.place;
      positive = s.positive;
      low = s.low;
      in_rival = s.in_rival;
      differs = s.differs;
    })
  ];
  late = h.late;
}

-- A request passes against the log that it describes.
described-passes :
    (request : RequestVoteArgs) (l : Log) → Describes request l → up_to_date request l ≡ true
described-passes request l (index, term) = ground arith

module _ (ids : List String) (names : AreNames ids) (past : Past) (s : Replicas)
    (h : Complete ids past s) (k : ℕ) where
  abbrev p : Poll
  p = s.cluster.poll k

  abbrev u : ℕ
  u = p.ballot.term

  abbrev bid : Log
  bid = (s.cluster.node p.owner).log

  -- The owner's own vote.
  own_voucher :
      (s.cluster.node p.owner).current_term ≡ u
      → Describes p.request bid
      → Voucher past s.book p.owner u u p.request (s.cluster.node p.owner).current_term
  own_voucher same described =
      let mo = (h.matched.base.polls k).owner_ok in
      record {
        log = bid;
        good = (h.matched.nodes p.owner mo).good;
        passed = described-passes p.request bid described;
        kept = λ t x low was. subst (λ b. Kept s.book t x b bid) same (h.held p.owner t x mo was).1;
        late = omega (arith, same);
      }

  -- No entry of the winner's log is of the new term.
  bid_older :
      (s.cluster.node p.owner).current_term ≡ u
      → s.book u ≡ none
      → (j : ℕ) → 0 < j
      → j ≤ last_index bid
      → (get bid j).term < u
  bid_older same free j pos low =
      let mo = (h.matched.base.polls k).owner_ok in
      let upto = h.aged p.owner mo j pos low in
      let traced = (h.matched.nodes p.owner mo).good.traced j pos low in
      elim (Bool-cases ((get bid j).term == u)) [
        | inr other ↦ ground (arith, same)
        | inl tie ↦
            let at : (get bid j).term ≡ u = (==_iff _ _).0 tie in
            let listed = ap s.book (sym at) ∙ traced.listed in
            absurd (let no : none ≡ some (traced.by, traced.its_log) = sym free ∙ listed in cc)
      ]

  pub elected-Win :
      (v : String) (reply : RequestVoteReply)
      → mem v ids ≡ true
      → p.tally v ≡ false
      → p.answers v ≡ some reply
      → reply.vote_granted ≡ true
      → (s.cluster.node p.owner).state ≡ candidate
      → (s.cluster.node p.owner).current_term ≡ u
      → p.ballot.majority ≤ p.ballot.votes + 1
      → s.book u ≡ none
      → Win ids past s.book s.cluster u bid
  elected-Win v reply mv fresh answer g was same won free =
      let ok = h.matched.base.polls k in
      let sincere = h.polls k in
      let described = sincere.described was same in
      record {
        bid = bid;
        good = (h.matched.nodes p.owner ok.owner_ok).good;
        same = AreSame-refl bid;
        zeroth = h.zeroth p.owner ok.owner_ok;
        older = bid_older same free;
        request = p.request;
        described = described;
        voters = update p.tally v true;
        majority =
            omega (
              arith,
              ok.majority_ok,
              ok.votes_ok,
              count-mark v p.tally ids names.distinct mv fresh,
            );
        vouched = λ w e.
            Voucher-lower past s.book w u _ p.request free (elim (Bool-cases (str_eq v w)) [
              | inl this ↦
                  subst (λ y. Voucher past s.book y u u p.request (s.cluster.node y).current_term)
                    ((eq_iff v w).0 this) (sincere.answered v reply answer g)
              | inr other ↦ elim (Bool-cases (str_eq p.owner w)) [
                | inl own ↦
                    subst (λ y. Voucher past s.book y u u p.request (s.cluster.node y).current_term)
                      ((eq_iff p.owner w).0 own) (own_voucher same described)
                | inr not_own ↦
                    sincere.tallied w (λ y. false≢true (sym not_own ∙ (eq_iff p.owner w).1 (sym y)))
                      (rw other at e)
              ]
            ]);
      }
