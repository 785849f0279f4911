-- ===== src/Raft/Matching/Written.antt =====
-- The steps that write the book: a candidate that is elected, a leader that takes a command.
use raft_implementation.Prelude.{
  ℕ, ◌<◌, ◌≤◌, ◌≡◌, ◌≢◌, inl, inr, sym, ap, ◌∙◌, subst, String, true, some, Option, List, arith,
  str_eq, eq_iff, Bool-cases, ◌==◌, ==_iff, false≢true,
}
use raft_implementation.Raft.Log.{Log}
use raft_implementation.Raft.Node.{leader}
use raft_implementation.Raft.Cluster.{Cluster}
use raft_implementation.Raft.Cluster.Quorum.{mem}
use raft_implementation.Raft.Cluster.Invariant.{Inv, Extends, votes_for-Extends}
use raft_implementation.Raft.Cluster.Preserve.{AreNames, named_of}
use raft_implementation.Raft.Cluster.Safety.{one_leader}
use raft_implementation.Raft.Matching.{Book, Replicas, write_book}
use raft_implementation.Raft.Matching.Logs.{IsGood, Grows, IsGood-Grows, IsHonest-Grows}
use raft_implementation.Raft.Matching.Nodes.{Ages, Ages-refl}
use raft_implementation.Raft.Matching.Preserve.{IsListed, IsEntered, IsListed-Ages, Matched}

-- What a write of the book needs: node i of the new cluster d leads, and its log may stand in the
-- book; the other nodes are as they were.
pub record IsWrite (ids : List String) (s : Replicas) (d : Cluster) (i : String) : Type 0 where
  pub base : Inv ids d
  pub member : mem i ids ≡ true
  pub leads : (d.node i).state ≡ leader
  pub positive : 0 < (d.node i).current_term
  pub others : (j : String) → i ≢ j → d.node j ≡ s.cluster.node j
  pub term_grows : (s.cluster.node i).current_term ≤ (d.node i).current_term
  pub ext : Extends s.cluster.ever d.ever
  pub grows : Grows s.book (write_book s.book (d.node i).current_term i (d.node i).log)
  pub good : IsGood (write_book s.book (d.node i).current_term i (d.node i).log) (d.node i).log

pub entry_parts :
    (i j : String) (l m : Log)
    → ◌≡◌ {A = Option (String × Log)} (some (i, l)) (some (j, m))
    → (i ≡ j) × (l ≡ m)
entry_parts i j l m e = (cc, cc)

module _ (ids : List String) (names : AreNames ids) (s : Replicas) (d : Cluster) (i : String) where
  abbrev book' : Book
  book' = write_book s.book (d.node i).current_term i (d.node i).log

  written_self : book' (d.node i).current_term ≡ some (i, (d.node i).log)
  written_self = ground arith

  written_node :
      IsWrite ids s d i
      → (j : String) → mem j ids ≡ true
      → i ≢ j
      → IsEntered s.book j (s.cluster.node j)
      → IsEntered book' j (d.node j)
  written_node w j m ne h =
      let same = w.others j ne in
      subst (IsEntered book' j) (sym same) (record {
        good = IsGood-Grows s.book book' w.grows _ h.good;
        leads = λ e.
            elim (Bool-cases ((d.node i).current_term == (s.cluster.node j).current_term)) [
              | inl tie ↦ absurd (
                  ne (
                    one_leader ids names d i j w.base w.member m w.leads
                      (ap (λ n. n.state) same ∙ e)
                      ((==_iff _ _).0 tie ∙ sym (ap (λ n. n.current_term) same))))
              | inr apart ↦ rw apart (h.leads e)
            ];
        leader_term = h.leader_term;
        candidate_term = h.candidate_term;
      })

  written_entry :
      IsWrite ids s d i
      → (t : ℕ) (j : String) (l : Log) → IsListed ids s.cluster s.book t j l
      → IsListed ids d book' t j l
  written_entry w t j l h = elim (Bool-cases (str_eq i j)) [
    | inl same ↦
        let at : i ≡ j = (eq_iff i j).0 same in
        record {
          member = h.member;
          good = IsGood-Grows s.book book' w.grows l h.good;
          won =
              omega
                (arith, h.won, votes_for-Extends ids _ _ j t w.ext (named_of ids names j h.member));
          past =
              subst (λ k. t ≤ (d.node k).current_term) at
                (omega (
                  arith,
                  subst (λ k. t ≤ (s.cluster.node k).current_term) (sym at) h.past,
                  w.term_grows,
                ));
          over = λ e.
              let leads : (d.node j).state ≡ leader =
                subst (λ k. (d.node k).state ≡ leader) at w.leads in
              cc;
        }
    | inr other ↦
        let node = w.others j (λ e. false≢true (sym other ∙ (eq_iff i j).1 e)) in
        let ages : Ages (s.cluster.node j) (d.node j) =
          subst (Ages (s.cluster.node j)) (sym node) (Ages-refl (s.cluster.node j)) in
        let old =
          IsListed-Ages ids s.cluster d s.book t j l (named_of ids names j h.member) w.ext ages h in
        record {
          member = old.member;
          good = IsGood-Grows s.book book' w.grows l old.good;
          won = old.won;
          past = old.past;
          over = old.over;
        }
  ]

  written_top : IsWrite ids s d i → IsListed ids d book' (d.node i).current_term i (d.node i).log
  written_top w = record {
    member = w.member;
    good = w.good;
    won = (w.base.nodes i w.member).elected w.leads;
    past = omega arith;
    over = λ e. let leads = w.leads in cc;
  }

  pub write-Matched :
      Matched ids s → IsWrite ids s d i → Matched ids (record s { cluster = d; book = book' })
  write-Matched h w = record {
    base = w.base;
    nodes = λ j m. elim (Bool-cases (str_eq i j)) [
      | inl same ↦
          subst (λ k. IsEntered book' k (d.node k)) ((eq_iff i j).0 same)
            (record {
              good = w.good;
              leads = λ e. written_self;
              leader_term = λ e. w.positive;
              candidate_term = λ e. w.positive;
            })
      | inr other ↦
          written_node w j m (λ e. false≢true (sym other ∙ (eq_iff i j).1 e)) (h.nodes j m)
    ];
    listed = λ t j l e. elim (Bool-cases ((d.node i).current_term == t)) [
      | inl this ↦
          let at : (d.node i).current_term ≡ t = (==_iff _ _).0 this in
          let e' = rw this at e in
          let (owner, its) = entry_parts i j (d.node i).log l e' in
          subst (λ k. IsListed ids d book' t k l) owner
            (subst (λ x. IsListed ids d book' t i x) its
              (subst (λ u. IsListed ids d book' u i (d.node i).log) at (written_top w)))
      | inr other ↦ written_entry w t j l (h.listed t j l (rw other at e))
    ];
    honest = λ k args e. IsHonest-Grows s.book book' w.grows args (h.honest k args e);
  }
