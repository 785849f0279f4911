-- ===== src/Raft/Matching/Growth.antt =====
-- Elections and commands keep the invariant of a cluster that replicates.
use raft_implementation.Prelude.{
  ℕ, ◌+◌, ◌-◌, ◌<◌, ◌≤◌, ◌≡◌, ◌≢◌, inl, inr, refl, sym, ap, ◌∙◌, subst, String, true, false, none,
  some, Option-cases, List, [], ◌∷◌, arith, length, str_eq, eq_iff, Bool-cases, add64_lem, u64_mod,
  ltb, ltb→lt, ltb→le, false≢true, get_or,
}
use raft_implementation.Raft.Log.{
  Log, LogEntry, Bytes, zero_entry, get, last_index, snapshot_index, append,
}
use raft_implementation.Raft.Log.Shape.{Contiguous}
use raft_implementation.Raft.Log.Basic.{last_index_lem}
use raft_implementation.Raft.Log.Bounds.{snapshot_index-append}
use raft_implementation.Raft.Log.Keeps.{append-IsLog}
use raft_implementation.Raft.Log.Reads.{get-append, last_index-append}
use raft_implementation.Raft.Node.{RaftNode, candidate, leader, is_leader}
use raft_implementation.Raft.Membership.{submit, command_entry}
use raft_implementation.Raft.Election.{on_vote_reply}
use raft_implementation.Raft.Steps.{command, step}
use raft_implementation.Raft.Cluster.{Cluster, quiet, count_answer, set_node, counted, update}
use raft_implementation.Raft.Cluster.Quorum.{mem, counts_meet}
use raft_implementation.Raft.Cluster.Invariant.{Inv, Extends, votes_for-Extends}
use raft_implementation.Raft.Cluster.Preserve.{AreNames, named_of}
use raft_implementation.Raft.Cluster.Safety.{Step-Inv}
use raft_implementation.Raft.Matching.{Book, Replicas, write_book, entered, counting, commanding}
use raft_implementation.Raft.Matching.Logs.{
  AreSame, AreSame-refl, IsTraced, IsTraced-Grows, AreSame-trans, IsGood, Grows, Grows-refl,
  Grows-write, IsGood-Grows,
}
use raft_implementation.Raft.Matching.Nodes.{
  Follows, Follows-refl, IsElected, on_vote_reply-Follows,
}
use raft_implementation.Raft.Matching.Preserve.{Matched, follow-Matched}
use raft_implementation.Raft.Matching.Written.{IsWrite, write-Matched}

pub update_self : (f : String → RaftNode) (i : String) (m : RaftNode) → update f i m i ≡ m
update_self f i m = rw ((eq_iff i i).1 refl)

pub update_other :
    (f : String → RaftNode) (i : String) (m : RaftNode) (j : String) → i ≢ j → update f i m j ≡ f j
update_other f i m j ne = elim (Bool-cases (str_eq i j)) [
  | inl same ↦ absurd (ne ((eq_iff i j).0 same))
  | inr other ↦ rw other
]

-- A leader's log with one more entry of its term.
module _ (book : Book) (i : String) (l : Log) (e : LogEntry) (listed : book e.term ≡ some (i, l))
    (good : IsGood book l) (term_pos : 0 < e.term) (at : e.index ≡ last_index l + 1)
    (room : length l.entries + 1 < u64_mod) where
  abbrev pub longer : Log
  longer = append l (e ∷ [])

  abbrev in_order : Contiguous (last_index l + 1) (e ∷ [])
  in_order = (at, tt)

  fits : snapshot_index l + length l.entries + length (e ∷ []) < u64_mod
  fits = omega (arith, good.whole)

  pub ends : last_index longer ≡ last_index l + 1
  ends = last_index-append l good.is_log (e ∷ []) in_order fits

  pub reads_old : (k : ℕ) → k ≤ last_index l → get l k ≡ get longer k
  reads_old k low =
      let bound = last_index_lem l good.is_log in
      ground
        (arith, good.is_log.fits, get-append l good.is_log (e ∷ []) k in_order fits (omega arith))

  pub reads_new : get longer (last_index l + 1) ≡ e
  reads_new =
      let bound = last_index_lem l good.is_log in
      let zeroth : last_index l + 1 - last_index l - 1 ≡ 0 = omega arith in
      ground (
        arith,
        good.is_log.has_sentinel,
        get-append l good.is_log (e ∷ []) (last_index l + 1) in_order fits (omega arith),
        ap (λ k. get_or (e ∷ []) k zero_entry) zeroth,
      )

  pub longer-AreSame : AreSame l longer (last_index l)
  longer-AreSame = record {
    within = omega arith;
    within' = omega (arith, ends);
    reads = λ k a b. reads_old k b;
  }

  pub longer-Grows : Grows book (write_book book e.term i longer)
  longer-Grows = Grows-write book e.term i longer (inr (l, listed, longer-AreSame))

  longer-IsTraced :
      (k : ℕ)
      → 0 < k
      → k ≤ last_index longer
      → IsTraced (write_book book e.term i longer) (get longer k).term longer k
  longer-IsTraced k a b = elim (Bool-cases (ltb (last_index l) k)) [
    | inr old ↦
        let low = ltb→le (last_index l) k old in
        let t =
          IsTraced-Grows book (write_book book e.term i longer) longer-Grows _ l k
            (good.traced k a low) in
        let here = reads_old k low in
        record {
          by = t.by;
          its_log = t.its_log;
          listed =
              subst
                (λ (x : LogEntry). write_book book e.term i longer x.term ≡ some (t.by, t.its_log))
                here t.listed;
          same =
              AreSame-trans longer l t.its_log k k
                (record {
                  within = b;
                  within' = low;
                  reads = λ j c d. sym (reads_old j (omega arith));
                })
                t.same (omega arith);
        }
    | inl new ↦
        let this : k ≡ last_index l + 1 = omega (arith, ends, ltb→lt (last_index l) k new) in
        let term : (get longer k).term ≡ e.term =
          ap (λ j. (get longer j).term) this ∙ ap (λ (x : LogEntry). x.term) reads_new in
        record {
          by = i;
          its_log = longer;
          listed = rw term (ground arith);
          same = record { within = b; within' = b; reads = λ j c d. refl };
        }
  ]

  pub longer-IsGood : IsGood (write_book book e.term i longer) longer
  longer-IsGood = record {
    is_log = append-IsLog l good.is_log (e ∷ []) in_order fits;
    whole = snapshot_index-append l good.is_log (e ∷ []) ∙ good.whole;
    has_terms = λ k a b. elim (Bool-cases (ltb (last_index l) k)) [
      | inr old ↦
          let low = ltb→le (last_index l) k old in
          subst (λ (x : LogEntry). 0 < x.term) (reads_old k low)
            (good.has_terms k (omega (arith, good.whole)) low)
      | inl new ↦
          let this : k ≡ last_index l + 1 = omega (arith, ends, ltb→lt (last_index l) k new) in
          subst (λ j. 0 < (get longer j).term) (sym this)
            (subst (λ (x : LogEntry). 0 < x.term) (sym reads_new) term_pos)
    ];
    traced = longer-IsTraced;
  }

pub submit_leads :
    (b : Bytes) (n : RaftNode)
    → is_leader n.state ≡ true
    → ((step (command b) n).log ≡ append n.log (command_entry b n ∷ []))
      × ((step (command b) n).state ≡ n.state)
      × ((step (command b) n).current_term ≡ n.current_term)
unfolding step submit
submit_leads b n leads = ground arith

pub submit_refused : (b : Bytes) (n : RaftNode) → is_leader n.state ≡ false → step (command b) n ≡ n
unfolding step submit
submit_refused b n follows = ground arith

-- The invariant holds afterwards, and no leader of the book has lost an entry.
abbrev pub Keeps : List String → Replicas → Replicas → Type 0
Keeps ids s r = Matched ids r × Grows s.book r.book

module _ (ids : List String) (names : AreNames ids) where
  entered_leader-Keeps :
      (s : Replicas) (d : Cluster) (i : String)
      → (d.node i).state ≡ leader
      → Matched ids s
      → IsWrite ids s d i
      → Keeps ids s (record s { cluster = d; book = entered s.book i (d.node i) })
  entered_leader-Keeps s d i leads h w = rw leads (write-Matched ids names s d i h w, w.grows)

  -- A step of node i in which it follows: the book is as it was, also where it is written.
  entered-Keeps :
      (s : Replicas) (d : Cluster) (i : String)
      → Matched ids s
      → Inv ids d
      → mem i ids ≡ true
      → Extends s.cluster.ever d.ever
      → Follows (s.cluster.node i) (d.node i)
      → ((j : String) → i ≢ j → d.node j ≡ s.cluster.node j)
      → Keeps ids s (record s { cluster = d; book = entered s.book i (d.node i) })
  entered-Keeps s d i h base mi ext f others =
      let n = s.cluster.node i in
      let m = d.node i in
      elim (Bool-cases (is_leader m.state)) [
        | inr not_leading ↦ rw not_leading (
          follow-Matched ids names s d h base ext (λ j mj. elim (Bool-cases (str_eq i j)) [
            | inl same ↦ subst (λ k. Follows (s.cluster.node k) (d.node k)) ((eq_iff i j).0 same) f
            | inr other ↦
                subst (Follows (s.cluster.node j))
                  (sym (others j (λ e. false≢true (sym other ∙ (eq_iff i j).1 e))))
                  (Follows-refl (s.cluster.node j))
          ]),
          Grows-refl s.book,
        )
        | inl leading ↦
            let leads : m.state ≡ leader = ground arith in
            let (was, same) = f.ages.no_new_leader leads in
            let ok = h.nodes i mi in
            let listed : s.book m.current_term ≡ some (i, m.log) =
              rw (same, f.same_log) (ok.leads was) in
            let grows =
              Grows-write s.book m.current_term i m.log (inr (m.log, listed, AreSame-refl m.log)) in
            entered_leader-Keeps s d i leads h (record {
              base = base;
              member = mi;
              leads = leads;
              positive = rw same (ok.leader_term was);
              others = others;
              term_grows = f.ages.term_grows;
              ext = ext;
              grows = grows;
              good =
                  IsGood-Grows s.book _ grows m.log
                    (subst (IsGood s.book) (sym f.same_log) ok.good);
            })
      ]

  -- In the term of a candidate that wins, nobody has led before.
  pub unlisted :
      (s : Replicas) (d : Cluster) (i : String)
      → Matched ids s
      → Inv ids d
      → mem i ids ≡ true
      → Extends s.cluster.ever d.ever
      → IsElected (s.cluster.node i) (d.node i)
      → s.book (d.node i).current_term ≡ none
  unlisted s d i h base mi ext won = elim (Option-cases (s.book (d.node i).current_term)) [
    | inl free ↦ free
    | inr ((j, l), e) ↦
        let t = (d.node i).current_term in
        let old = h.listed t j l e in
        let won_i = (base.nodes i mi).elected won.leads in
        let won_j = votes_for-Extends ids _ _ j t ext (named_of ids names j old.member) in
        let (v, for_i, for_j) =
          counts_meet (λ u. str_eq (d.ever u t) i) (λ u. str_eq (d.ever u t) j) ids
            (omega (arith, old.won)) in
        let same : j ≡ i =
          sym ((eq_iff (d.ever v t) j).0 for_j) ∙ (eq_iff (d.ever v t) i).0 for_i in
        let over =
          old.over (subst (λ k. (s.cluster.node k).state ≡ candidate) (sym same) won.was) in
        absurd
          (omega (arith, won.same_term, subst (λ k. t < (s.cluster.node k).current_term) same over))
  ]

  elected-Keeps :
      (s : Replicas) (d : Cluster) (i : String)
      → Matched ids s
      → Inv ids d
      → mem i ids ≡ true
      → Extends s.cluster.ever d.ever
      → IsElected (s.cluster.node i) (d.node i)
      → ((j : String) → i ≢ j → d.node j ≡ s.cluster.node j)
      → Keeps ids s (record s { cluster = d; book = entered s.book i (d.node i) })
  elected-Keeps s d i h base mi ext won others =
      let n = s.cluster.node i in
      let m = d.node i in
      let ok = h.nodes i mi in
      let grows =
        Grows-write s.book m.current_term i m.log (inl (unlisted s d i h base mi ext won)) in
      entered_leader-Keeps s d i won.leads h (record {
        base = base;
        member = mi;
        leads = won.leads;
        positive = rw won.same_term (ok.candidate_term won.was);
        others = others;
        term_grows = omega (arith, won.same_term);
        ext = ext;
        grows = grows;
        good = IsGood-Grows s.book _ grows m.log (subst (IsGood s.book) (sym won.same_log) ok.good);
      })

  pub counting-Keeps :
      (s : Replicas) (k : ℕ) (v : String) (now : ℕ)
      → Matched ids s
      → mem v ids ≡ true
      → (s.cluster.poll k).tally v ≡ false
      → Keeps ids s (counting s k v now)
  counting-Keeps s k v now h mv fresh =
      let c = s.cluster in
      let p = c.poll k in
      let d = counted c k v now in
      let m = (on_vote_reply now (p.answers v) p.ballot (c.node p.owner)).1 in
      let at : d.node p.owner ≡ m = update_self c.node p.owner m in
      let base = Step-Inv ids names {d = d} (count_answer k v now mv fresh) h.base in
      let owner_ok = (h.base.polls k).owner_ok in
      elim (on_vote_reply-Follows now (p.answers v) p.ballot (c.node p.owner)) [
        | inl f ↦
            entered-Keeps s d p.owner h base owner_ok (λ u t e. refl)
              (subst (Follows (c.node p.owner)) (sym at) f) (update_other c.node p.owner m)
        | inr won ↦
            elected-Keeps s d p.owner h base owner_ok (λ u t e. refl)
              (subst (IsElected (c.node p.owner)) (sym at) won) (update_other c.node p.owner m)
      ]

  pub commanding-Keeps :
      (s : Replicas) (i : String) (b : Bytes)
      → Matched ids s
      → mem i ids ≡ true
      → length (s.cluster.node i).log.entries + 1 < u64_mod
      → Keeps ids s (commanding s i b)
  commanding-Keeps s i b h mi room =
      let c = s.cluster in
      let n = c.node i in
      let m = step (command b) n in
      let d = set_node c i m in
      let at : d.node i ≡ m = update_self c.node i m in
      let base = Step-Inv ids names {d = d} (quiet i (command b) mi tt tt) h.base in
      let ok = h.nodes i mi in
      elim (Bool-cases (is_leader n.state)) [
        | inr follows ↦
            let same : n ≡ d.node i = sym (at ∙ submit_refused b n follows) in
            entered-Keeps s d i h base mi (λ u t e. refl) (subst (Follows n) same (Follows-refl n))
              (update_other c.node i m)
        | inl leads ↦
            let (log_m, state_m, term_m) = submit_leads b n leads in
            let was : n.state ≡ leader = ground arith in
            let e = command_entry b n in
            let bound = last_index_lem n.log ok.good.is_log in
            let e_at : e.index ≡ last_index n.log + 1 =
              add64_lem (last_index n.log) 1
                (omega (arith, ok.good.is_log.fits, ok.good.is_log.has_sentinel, ok.good.whole)) in
            let listed : s.book e.term ≡ some (i, n.log) = ok.leads was in
            let grows =
              longer-Grows s.book i n.log e listed ok.good (ok.leader_term was) e_at room in
            let good =
              longer-IsGood s.book i n.log e listed ok.good (ok.leader_term was) e_at room in
            let leads_d : (d.node i).state ≡ leader = rw (at, state_m) was in
            let term_d : (d.node i).current_term ≡ n.current_term = rw at term_m in
            let log_d : (d.node i).log ≡ append n.log (e ∷ []) = rw at log_m in
            entered_leader-Keeps s d i leads_d h (record {
              base = base;
              member = mi;
              leads = leads_d;
              positive = rw term_d (ok.leader_term was);
              others = update_other c.node i m;
              term_grows = omega (arith, term_d);
              ext = λ u t x. refl;
              grows = rw (term_d, log_d) grows;
              good = rw (term_d, log_d) good;
            })
      ]
