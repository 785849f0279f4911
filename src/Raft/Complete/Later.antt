-- ===== src/Raft/Complete/Later.antt =====
-- Every later leader has the entry that a majority has held: by induction on the term.
use raft_implementation.Prelude.{
  ℕ, zero, suc, ◌-◌, ◌<◌, ◌≤◌, ◌≡◌, ◌⊎◌, inl, inr, sym, ap, ◌∙◌, subst, String, Bool, true, some,
  List, arith, count, Bool-cases, ◌==◌, ==_iff, leb, leb→le, leb→lt,
}
use raft_implementation.Raft.Log.{Log, LogEntry, get, last_index, last_term}
use raft_implementation.Raft.Rpc.{RequestVoteArgs}
use raft_implementation.Raft.Election.{up_to_date}
use raft_implementation.Raft.Cluster.Quorum.{counts_meet}
use raft_implementation.Raft.Cluster.Invariant.{quorum}
use raft_implementation.Raft.Matching.{Replicas}
use raft_implementation.Raft.Matching.Logs.{
  AreSame, AreSame-sym, AreSame-trans, AreSame-below, IsGood,
}
use raft_implementation.Raft.Complete.{Past, Holds, Strays, Win, Describes, Complete}
use raft_implementation.Raft.Complete.Logs.{last_term-get}

-- What the check of a vote says of the two logs.
passed-cases :
    (request : RequestVoteArgs) (bid l : Log)
    → Describes request bid
    → up_to_date request l ≡ true
    → (last_term l < last_term bid)
      ⊎ ((last_term bid ≡ last_term l) × (last_index l ≤ last_index bid))
passed-cases request bid l (index, term) h = ground arith

module _ (ids : List String) (past : Past) (s : Replicas) (h : Complete ids past s) (t x : ℕ) where
  -- What agrees with the log of t's leader up to x has its entry.
  has_entry : (m l : Log) → AreSame m l x → Holds s.book t x l → Holds s.book t x m
  has_entry m l like held = record {
    by = held.by;
    its_log = held.its_log;
    listed = held.listed;
    same = AreSame-trans m l held.its_log x x like held.same (omega arith);
    positive = held.positive;
    its_term = held.its_term;
  }

  -- No leader that has the entry strayed from it.
  not_strayed : (b : ℕ) (r : Strays s.book t x b) → Holds s.book t x r.rival_log → ⊥
  not_strayed b r held =
      let listed = r.listed in
      let listed' = held.listed in
      let one : held.its_log ≡ r.its_log = cc in
      r.differs (held.same.reads r.place r.positive r.low ∙ ap (λ l. get l r.place) one)

  module _ (u : ℕ) (m : Log) (w : Win ids past s.book s.cluster u m) (l : Log)
      (good : IsGood s.book l) (held : Holds s.book t x l) where
    abbrev bid : Log
    bid = w.bid

    -- The winner's last entry is of the voter's last term, and its log is no shorter.
    same_term-Holds :
        last_term bid ≡ last_term l → last_index l ≤ last_index bid → Holds s.book t x m
    same_term-Holds tie long =
        let end = held.same.within in
        let from = good.traced (last_index l) (omega (arith, held.positive)) (omega arith) in
        let from' = w.good.traced (last_index bid) (omega (arith, held.positive)) (omega arith) in
        let terms : (get l (last_index l)).term ≡ (get bid (last_index bid)).term =
          sym (last_term-get l good.is_log good.whole)
          ∙ sym tie
          ∙ last_term-get bid w.good.is_log w.good.whole in
        let listed = ap s.book terms ∙ from'.listed in
        let listed' = from.listed in
        let one : from'.its_log ≡ from.its_log = cc in
        let bid_like = subst (λ y. AreSame bid y (last_index bid)) one from'.same in
        let bid_l : AreSame bid l (last_index l) =
          AreSame-trans bid from.its_log l _ _ (AreSame-below bid from.its_log _ _ bid_like long)
            (AreSame-sym l from.its_log _ from.same) (omega arith) in
        let m_bid = AreSame-sym bid m _ (AreSame-below bid m _ x w.same (omega arith)) in
        has_entry m l
          (AreSame-trans m bid l x x m_bid (AreSame-below bid l _ x bid_l end) (omega arith)) held

    -- The entry's term is at most the last term of a log that has it.
    term-le : t ≤ last_term l
    term-le =
        let end = held.same.within in
        let from = good.traced (last_index l) (omega (arith, held.positive)) (omega arith) in
        let upto =
          h.booked _ from.by from.its_log from.listed x held.positive
            (omega (arith, from.same.within')) in
        let there : (get from.its_log x).term ≡ t =
          ap (λ (e : LogEntry). e.term)
            (sym (from.same.reads x held.positive end)
              ∙ held.same.reads x held.positive (omega arith))
          ∙ held.its_term in
        omega (arith, last_term-get l good.is_log good.whole)

    -- A log with a positive last term has a last entry, of an older term than the new leader's.
    last_entry : last_term l < last_term bid → (0 < last_index bid) × (last_term bid < u)
    last_entry newer =
        let last = last_term-get bid w.good.is_log w.good.whole in
        elim (Bool-cases (last_index bid == 0)) [
          | inr more ↦
              let some_last : 0 < last_index bid = ground arith in
              let under = w.older (last_index bid) some_last (omega arith) in
              (some_last, omega arith)
          | inl empty ↦
              let zeroth = ap (λ k. (get bid k).term) ((==_iff (last_index bid) 0).0 empty) in
              absurd (omega (arith, w.zeroth))
        ]

    -- The winner's last entry is of a later term, whose leader has the entry.
    newer-Holds :
        last_term l < last_term bid
        → ((by : String) (y : Log) → s.book (last_term bid) ≡ some (by, y) → Holds s.book t x y)
        → Holds s.book t x m
    newer-Holds newer earlier =
        let last = last_term-get bid w.good.is_log w.good.whole in
        let (some_last, _) = last_entry newer in
        let from = w.good.traced (last_index bid) some_last (omega arith) in
        let theirs = earlier from.by from.its_log (ap s.book last ∙ from.listed) in
        elim (Bool-cases (leb x (last_index bid))) [
          | inl within ↦
              let low = leb→le x (last_index bid) within in
              let m_bid = AreSame-sym bid m x (AreSame-below bid m _ x w.same low) in
              has_entry m from.its_log
                (AreSame-trans m bid from.its_log x x m_bid
                  (AreSame-below bid from.its_log _ x from.same low) (omega arith))
                theirs
          | inr past_end ↦
              let low = leb→lt x (last_index bid) past_end in
              let read =
                from.same.reads (last_index bid) some_last (omega arith)
                ∙ theirs.same.reads (last_index bid) some_last (omega arith) in
              let upto =
                h.booked t theirs.by theirs.its_log theirs.listed (last_index bid) some_last
                  (omega (arith, theirs.same.within')) in
              let same_term = ap (λ (e : LogEntry). e.term) read in absurd (omega (arith, term-le))
        ]

  module _ (holders : String → Bool) (majority : quorum ids ≤ count holders ids)
      (have : (v : String) → holders v ≡ true → past v t x) where
    -- A winner has the entry if all leaders between have it.
    winner-Holds :
        (u : ℕ) (j : String) (m : Log)
        → t < u
        → s.book u ≡ some (j, m)
        → ((w : ℕ) (by : String) (y : Log)
            → t < w
            → w < u
            → s.book w ≡ some (by, y)
            → Holds s.book t x y)
        → Holds s.book t x m
    winner-Holds u j m low listed earlier =
        let w = h.won u j m listed in
        let (v, holds, voted) = counts_meet holders w.voters ids (omega (arith, w.majority)) in
        let vote = w.vouched v voted in
        elim (vote.kept t x low (have v holds)) [
          | inr r ↦ absurd (
              not_strayed (u - 1) r (
                earlier r.later r.rival r.rival_log r.after (omega (arith, r.until, r.after))
                  r.rival_listed))
          | inl held ↦ elim (passed-cases w.request w.bid vote.log w.described vote.passed) [
            | inr (tie, long) ↦ same_term-Holds u m w vote.log vote.good held tie long
            | inl newer ↦ newer-Holds u m w vote.log vote.good held newer (λ by y at.
                earlier (last_term w.bid) by y
                  (omega (arith, term-le u m w vote.log vote.good held))
                  (last_entry u m w vote.log vote.good held newer).1 at)
          ]
        ]

    pub leader-Holds :
        (fuel u : ℕ) (j : String) (m : Log)
        → u ≤ fuel
        → t < u
        → s.book u ≡ some (j, m)
        → Holds s.book t x m
    leader-Holds zero u j m few low listed = absurd (omega arith)
    leader-Holds (suc fuel) u j m few low listed =
        winner-Holds u j m low listed
          (λ w by y above under. leader-Holds fuel w by y (omega arith) above)
