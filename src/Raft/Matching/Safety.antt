-- ===== src/Raft/Matching/Safety.antt =====
-- Log matching: the invariant holds in every reachable cluster.
use raft_implementation.Prelude.{
  ℕ, ◌+◌, ◌<◌, ◌≤◌, ◌≡◌, ◌⊎◌, inl, inr, refl, sym, ap, ◌∙◌, subst, String, true, none, some, List,
  [], arith, Bool-cases, ◌==◌, leb, leb→lt, leb→le, sub64, add64, add64_lem,
}
use raft_implementation.Raft.Log.{Log, get, last_index, snapshot_index, new_log, slice}
use raft_implementation.Raft.Log.Shape.{IsLog}
use raft_implementation.Raft.Log.Basic.{last_index_lem}
use raft_implementation.Raft.Rpc.{AppendEntriesArgs}
use raft_implementation.Raft.Node.{Config, RaftNode, leader, new_raft_node}
use raft_implementation.Raft.Replication.{
  handle_append_entries, next_index_of, message_for, append_entries, build_args,
}
use raft_implementation.Raft.Replication.Round.{build_args-Carries}
use raft_implementation.Raft.Votes.Once.{step-VoteKept}
use raft_implementation.Raft.Steps.{append_request, step}
use raft_implementation.Raft.Cluster.{quiet, set_node}
use raft_implementation.Raft.Cluster.Quorum.{mem}
use raft_implementation.Raft.Cluster.Steady.{quiet-Steady, handle_append_entries-Steady}
use raft_implementation.Raft.Cluster.Preserve.{AreNames, named_of, update_all}
use raft_implementation.Raft.Cluster.Safety.{Step-Inv, start, start-Inv, AreConfigs}
use raft_implementation.Raft.Matching.{
  Book, Replicas, Move, apart, count, send, arrive, take_command, Replicate, begin, next, sending,
  delivering,
}
use raft_implementation.Raft.Matching.Logs.{
  AreSame, IsGood, IsGood-match, IsHonest, Grows-refl, Grows-trans,
}
use raft_implementation.Raft.Matching.Nodes.{Ages, Ages-refl, Ages-Steady}
use raft_implementation.Raft.Matching.Deliver.{
  IsCut-differ, handled-IsGood, handled_empty, handled_leader,
}
use raft_implementation.Raft.Matching.Preserve.{IsEntered, IsListed-Ages, Matched, apart-Matched}
use raft_implementation.Raft.Matching.Growth.{Keeps, counting-Keeps, commanding-Keeps}

slice_past : (l : Log) (from to : ℕ) → snapshot_index l < from → to ≤ from → slice l from to ≡ []
unfolding slice
slice_past l from to above past = ground arith

empty_past :
    (peer : String) (n : RaftNode)
    → IsLog n.log
    → last_index n.log + 1 < next_index_of peer n
    → (build_args peer n).entries ≡ []
unfolding build_args
empty_past peer n w past =
    let bound = last_index_lem n.log w in
    slice_past n.log (next_index_of peer n) _ (omega (arith, w.has_sentinel))
      (omega (arith, w.fits, w.has_sentinel, add64_lem (last_index n.log) 1))

-- A leader's message is honest: past the end of its log it carries nothing.
build_args-IsHonest :
    (book : Book) (i peer : String) (n : RaftNode)
    → book n.current_term ≡ some (i, n.log)
    → IsGood book n.log
    → 0 < next_index_of peer n
    → IsHonest book (build_args peer n)
build_args-IsHonest book i peer n listed good above =
    let bound = last_index_lem n.log good.is_log in
    elim (Bool-cases (leb (next_index_of peer n) (last_index n.log + 1))) [
      | inl within ↦
          let c = build_args-Carries peer n (record {
            is_log = good.is_log;
            above = omega (arith, good.whole);
            within = leb→le _ _ within;
          }) in
          inr (record {
            by = i;
            its_log = n.log;
            listed = unfold build_args in listed;
            is_append = c.is_append;
            prev_term = λ pos. c.prev_term;
            covers = omega (arith, c.size);
            copies = c.reads;
          })
      | inr past ↦ inl (empty_past peer n good.is_log (omega (arith, leb→lt _ _ past)))
    ]

sent_append :
    (n : RaftNode) (peer : String) (args : AppendEntriesArgs)
    → message_for n peer ≡ append_entries args
    → (snapshot_index n.log < next_index_of peer n) × (build_args peer n ≡ args)
unfolding message_for
sent_append n peer args e = elim (Bool-cases (leb (next_index_of peer n) (snapshot_index n.log))) [
  | inl old ↦ absurd (let e' = rw old at e in cc)
  | inr new ↦ (leb→lt _ _ new, let e' = rw new at e in cc)
]

module _ (ids : List String) (names : AreNames ids) where
  sending-Matched :
      (s : Replicas) (k : ℕ) (i peer : String) (args : AppendEntriesArgs)
      → Matched ids s
      → mem i ids ≡ true
      → (s.cluster.node i).state ≡ leader
      → message_for (s.cluster.node i) peer ≡ append_entries args
      → Matched ids (sending s k args)
  sending-Matched s k i peer args h mi leads e = record {
    base = h.base;
    nodes = h.nodes;
    listed = h.listed;
    honest = λ j args' e'. elim (Bool-cases (k == j)) [
      | inr other ↦ h.honest j args' (rw other at e')
      | inl this ↦
          let ok = h.nodes i mi in
          let (above, built) = sent_append (s.cluster.node i) peer args e in
          let e'' : some args ≡ some args' = rw this at e' in
          let same : args ≡ args' = cc in
          subst (IsHonest s.book) (built ∙ same) (
            build_args-IsHonest s.book i peer (s.cluster.node i) (ok.leads leads) ok.good
              (omega arith))
    ];
  }

  -- The receiver of an honest message keeps its log, or has a good one and does not lead.
  handled_log :
      (s : Replicas) (i : String) (now : ℕ) (args : AppendEntriesArgs)
      → Matched ids s
      → IsHonest s.book args
      → IsEntered s.book i (s.cluster.node i)
      → let n = s.cluster.node i in
        let m = (handle_append_entries now args n).0 in
        (m.log ≡ n.log) ⊎ (IsGood s.book m.log × (m.state ≡ leader → m.log ≡ n.log))
  handled_log s i now args h (inl none_sent) ok =
      inl (handled_empty now args (s.cluster.node i) none_sent)
  handled_log s i now args h (inr c) ok =
      let n = s.cluster.node i in
      elim (handled-IsGood s.book now args n c ok.good (h.listed _ c.by c.its_log c.listed).good) [
        | inl same ↦ inl same
        | inr (good, cut) ↦ inr (
          good,
          λ e. elim (handled_leader now args n e) [
            | inl same ↦ same
            | inr term ↦
                let (was, _) = (handle_append_entries-Steady now args n).no_new_leader e in
                let mine : s.book args.term ≡ some (i, n.log) = ap s.book term ∙ ok.leads was in
                let theirs = c.listed in
                absurd (IsCut-differ _ _ _ cut (let own : n.log ≡ c.its_log = cc in own))
          ],
        )
      ]

  handled-IsEntered :
      (s : Replicas) (i : String) (now : ℕ) (args : AppendEntriesArgs)
      → Matched ids s
      → IsHonest s.book args
      → IsEntered s.book i (s.cluster.node i)
      → IsEntered s.book i (step (append_request now args) (s.cluster.node i))
  unfolding step
  handled-IsEntered s i now args h honest ok =
      let n = s.cluster.node i in
      let steady = handle_append_entries-Steady now args n in
      let outcome = handled_log s i now args h honest ok in
      record {
        good = elim outcome [
          | inl same ↦ subst (IsGood s.book) (sym same) ok.good
          | inr (good, _) ↦ good
        ];
        leads = λ e.
            let (was, term) = steady.no_new_leader e in
            let same : (handle_append_entries now args n).0.log ≡ n.log = elim outcome [
              | inl same ↦ same
              | inr (_, kept) ↦ kept e
            ] in
            rw (term, same) (ok.leads was);
        leader_term = λ e. let (was, term) = steady.no_new_leader e in rw term (ok.leader_term was);
        candidate_term =
            λ e. let (was, term) = steady.no_new_candidate e in rw term (ok.candidate_term was);
      }

  delivering-Matched :
      (s : Replicas) (k : ℕ) (i : String) (now : ℕ) (args : AppendEntriesArgs)
      → Matched ids s
      → mem i ids ≡ true
      → s.mail k ≡ some args
      → Matched ids (delivering s i now args)
  delivering-Matched s k i now args h mi e =
      let n = s.cluster.node i in
      let m = step (append_request now args) n in
      let d = set_node s.cluster i m in
      let base = Step-Inv ids names {d = d} (quiet i (append_request now args) mi tt tt) h.base in
      let ages =
        Ages-Steady n m (quiet-Steady (append_request now args) n tt tt)
          (step-VoteKept (append_request now args) n tt) in
      let here = handled-IsEntered s i now args h (h.honest k args e) (h.nodes i mi) in
      record {
        base = base;
        nodes =
            λ j mj. update_all (IsEntered s.book) s.cluster.node i m j here (λ ne. h.nodes j mj);
        listed = λ t j l x.
            let ok = h.listed t j l x in
            let aged =
              update_all (λ u r. Ages (s.cluster.node u) r) s.cluster.node i m j ages
                (λ ne. Ages-refl (s.cluster.node j)) in
            IsListed-Ages ids s.cluster d s.book t j l (named_of ids names j ok.member)
              (λ u v y. refl) aged ok;
        honest = h.honest;
      }

  pub Move-Keeps : {s r : Replicas} → Move ids s r → Matched ids s → Keeps ids s r
  Move-Keeps {s} (apart d st a) h = (apart-Matched ids names s d st a h, Grows-refl s.book)
  Move-Keeps {s} (count k v now m fresh) h = counting-Keeps ids names s k v now h m fresh
  Move-Keeps {s} (send k i peer args m leads e) h =
      (sending-Matched s k i peer args h m leads e, Grows-refl s.book)
  Move-Keeps {s} (arrive k i now args m e) h =
      (delivering-Matched s k i now args h m e, Grows-refl s.book)
  Move-Keeps {s} (take_command i b m room) h = commanding-Keeps ids names s i b h m room

  pub Replicate-Keeps : {s r : Replicas} → Replicate ids s r → Matched ids s → Keeps ids s r
  Replicate-Keeps {s} begin h = (h, Grows-refl s.book)
  Replicate-Keeps (next r m) h =
      let (here, grows) = Replicate-Keeps r h in
      let (there, grows') = Move-Keeps m here in (there, Grows-trans _ _ _ grows grows')

-- Fresh nodes, no mail, and nobody has led.
unfoldable pub fresh_replicas : List String → String → (String → Config) → Replicas
unfolding start
fresh_replicas ids o cfg = record { cluster = start ids o cfg; mail = λ k. none; book = λ t. none }

fresh-IsGood : (book : Book) → IsGood book new_log
unfolding last_index add64 sub64
fresh-IsGood book = record {
  is_log = record { has_sentinel = omega arith; contiguous = (refl, tt); fits = omega arith };
  whole = refl;
  has_terms = λ i a b. absurd (omega arith);
  traced = λ i a b. absurd (omega arith);
}

pub fresh-Matched :
    (ids : List String) (o : String) (cfg : String → Config)
    → AreConfigs ids cfg
    → mem o ids ≡ true
    → Matched ids (fresh_replicas ids o cfg)
unfolding fresh_replicas start new_raft_node
fresh-Matched ids o cfg h m = record {
  base = start-Inv ids o cfg h m;
  nodes = λ i mi. record {
    good = fresh-IsGood (λ t. none);
    leads = λ e. absurd (ground arith);
    leader_term = λ e. absurd (ground arith);
    candidate_term = λ e. absurd (ground arith);
  };
  listed = λ t j l e. cc;
  honest = λ k args e. cc;
}

-- Log matching. From fresh nodes with distinct names that are not empty and with the same
-- membership, by any steps without snapshots (elections and clean restarts as in election_safety,
-- commands that fit 64 bits, append messages of leaders that arrive late, twice or never): if two
-- nodes have entries of the same term at an index above 0, their logs are the same from index 1 up
-- to it.
pub log_matching :
    (ids : List String) (o : String) (cfg : String → Config) (s : Replicas) (i j : String) (x : ℕ)
    → AreNames ids
    → AreConfigs ids cfg
    → mem o ids ≡ true
    → Replicate ids (fresh_replicas ids o cfg) s
    → mem i ids ≡ true
    → mem j ids ≡ true
    → 0 < x
    → x ≤ last_index (s.cluster.node i).log
    → x ≤ last_index (s.cluster.node j).log
    → (get (s.cluster.node i).log x).term ≡ (get (s.cluster.node j).log x).term
    → (y : ℕ) → 0 < y
    → y ≤ x
    → get (s.cluster.node i).log y ≡ get (s.cluster.node j).log y
log_matching ids o cfg s i j x names h m r mi mj pos low_i low_j e y pos_y below =
    let k = (Replicate-Keeps ids names r (fresh-Matched ids o cfg h m)).0 in
    (IsGood-match s.book _ _ x (k.nodes i mi).good (k.nodes j mj).good pos low_i low_j e).reads y
      pos_y below

-- Leaders over time, in the same runs: if a node leads a term in a state, and a node leads that
-- term in a state reached from there, it is the same node, and its log has kept every entry and
-- may have grown.
pub leader_keeps_log :
    (ids : List String) (o : String) (cfg : String → Config) (s r : Replicas) (i j : String)
    → AreNames ids
    → AreConfigs ids cfg
    → mem o ids ≡ true
    → Replicate ids (fresh_replicas ids o cfg) s
    → Replicate ids s r
    → mem i ids ≡ true
    → mem j ids ≡ true
    → (s.cluster.node i).state ≡ leader
    → (r.cluster.node j).state ≡ leader
    → (s.cluster.node i).current_term ≡ (r.cluster.node j).current_term
    → let l = (s.cluster.node i).log in
      let l' = (r.cluster.node j).log in
      (i ≡ j)
      × (last_index l ≤ last_index l')
      × ((y : ℕ) → 0 < y → y ≤ last_index l → get l' y ≡ get l y)
leader_keeps_log ids o cfg s r i j names h m before after mi mj leads leads' term =
    let first = (Replicate-Keeps ids names before (fresh-Matched ids o cfg h m)).0 in
    let (second, grows) = Replicate-Keeps ids names after first in
    let (l', listed, same) = grows _ i _ ((first.nodes i mi).leads leads) in
    let theirs : r.book (s.cluster.node i).current_term ≡ some (j, (r.cluster.node j).log) =
      rw term ((second.nodes j mj).leads leads') in
    let owner : i ≡ j = cc in
    let now : l' ≡ (r.cluster.node j).log = cc in
    let end =
      subst (λ x. AreSame (s.cluster.node i).log x (last_index (s.cluster.node i).log)) now same in
    (owner, end.within', λ y a b. sym (end.reads y a b))
