-- ===== src/Raft/Complete/Kept.antt =====
-- What was held stays held as the book grows.
use raft_implementation.Prelude.{
  ℕ, ◌-◌, ◌≤◌, ◌≡◌, inl, inr, refl, sym, ap, ◌∙◌, subst, String, List, arith,
}
use raft_implementation.Raft.Log.{Log, LogEntry, last_index}
use raft_implementation.Raft.Rpc.{RequestVoteArgs}
use raft_implementation.Raft.Node.{RaftNode}
use raft_implementation.Raft.Cluster.{Cluster}
use raft_implementation.Raft.Matching.{Book}
use raft_implementation.Raft.Matching.Logs.{AreSame, AreSame-trans, IsGood, Grows, IsGood-Grows}
use raft_implementation.Raft.Complete.{IsHolding, Past, seen_in, Holds, Strays, Kept, Voucher, Win}

module _ (book book' : Book) (grows : Grows book book') where
  Holds-Grows : (t x : ℕ) (l m : Log) → AreSame m l x → Holds book t x l → Holds book' t x m
  Holds-Grows t x l m like h =
      let (g, listed, same) = grows t h.by h.its_log h.listed in
      let old = AreSame-trans l h.its_log g x _ h.same same h.same.within' in
      record {
        by = h.by;
        its_log = g;
        listed = listed;
        same = AreSame-trans m l g x x like old (omega arith);
        positive = h.positive;
        its_term =
            subst (λ (e : LogEntry). e.term ≡ t) (same.reads x h.positive h.same.within')
              h.its_term;
      }

  pub Strays-Grows : (t x b b' : ℕ) → b ≤ b' → Strays book t x b → Strays book' t x b'
  Strays-Grows t x b b' more h =
      let (g, listed, same) = grows t h.by h.its_log h.listed in
      let (g', listed', same') = grows h.later h.rival h.rival_log h.rival_listed in
      record {
        by = h.by;
        its_log = g;
        listed = listed;
        within = omega (arith, h.within, same.within');
        later = h.later;
        after = h.after;
        until = omega (arith, h.until);
        rival = h.rival;
        rival_log = g';
        rival_listed = listed';
        place = h.place;
        positive = h.positive;
        low = h.low;
        in_rival = omega (arith, h.in_rival, same'.within');
        differs = λ e. h.differs (
            same'.reads h.place h.positive h.in_rival
            ∙ e
            ∙ sym (same.reads h.place h.positive (omega (arith, h.low, h.within))));
      }

  -- A log that is the same up to x, in a later term.
  pub Kept-AreSame :
      (t x b b' : ℕ) (l m : Log)
      → b ≤ b'
      → (x ≤ last_index l → AreSame m l x)
      → Kept book t x b l
      → Kept book' t x b' m
  Kept-AreSame t x b b' l m more like (inl h) = inl (Holds-Grows t x l m (like h.same.within) h)
  Kept-AreSame t x b b' l m more like (inr h) = inr (Strays-Grows t x b b' more h)

  pub Kept-Grows : (t x b : ℕ) (l : Log) → Kept book t x b l → Kept book' t x b l
  Kept-Grows t x b l =
      Kept-AreSame t x b b l l (omega arith)
        (λ low. record { within = low; within' = low; reads = λ k a c. refl })

  -- A voucher outlasts a step: its voter is past the terms of which it speaks.
  pub Voucher-later :
      (past : Past) (d : Cluster) (v : String) (u b c : ℕ) (request : RequestVoteArgs)
      → c ≤ (d.node v).current_term
      → Voucher past book v u b request c
      → Voucher (seen_in past d) book' v u b request (d.node v).current_term
  Voucher-later past d v u b c request more h = record {
    log = h.log;
    good = IsGood-Grows book book' grows h.log h.good;
    passed = h.passed;
    kept = λ t x low was. elim was [
      | inl before ↦ Kept-Grows t x b h.log (h.kept t x low before)
      | inr now ↦ absurd (omega (arith, h.late, now.in_term))
    ];
    late = omega (arith, h.late);
  }

  pub Win-later :
      (ids : List String) (past : Past) (c d : Cluster) (u : ℕ) (l m : Log)
      → ((v : String) → (c.node v).current_term ≤ (d.node v).current_term)
      → AreSame l m (last_index l)
      → Win ids past book c u l
      → Win ids (seen_in past d) book' d u m
  Win-later ids past c d u l m older like h = record {
    bid = h.bid;
    good = IsGood-Grows book book' grows h.bid h.good;
    same = AreSame-trans h.bid l m _ _ h.same like h.same.within';
    zeroth = h.zeroth;
    older = h.older;
    request = h.request;
    described = h.described;
    voters = h.voters;
    majority = h.majority;
    vouched = λ v e. Voucher-later past d v u (u - 1) _ h.request (older v) (h.vouched v e);
  }

-- An entry that is of the term in which it is held is its leader's.
pub IsHolding-Holds :
    (book : Book) (n : RaftNode) (t x : ℕ)
    → IsGood book n.log
    → IsHolding n t x
    → Holds book t x n.log
IsHolding-Holds book n t x good h =
    let tr = good.traced x h.positive h.within in
    record {
      by = tr.by;
      its_log = tr.its_log;
      listed = ap book (sym h.its_term) ∙ tr.listed;
      same = tr.same;
      positive = h.positive;
      its_term =
          subst (λ (e : LogEntry). e.term ≡ t) (tr.same.reads x h.positive (omega arith))
            h.its_term;
    }
