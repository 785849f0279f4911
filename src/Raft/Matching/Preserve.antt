-- ===== src/Raft/Matching/Preserve.antt =====
-- The invariant of a cluster that replicates, and the steps that keep it.
use raft_implementation.Prelude.{
  ℕ, ◌<◌, ◌≤◌, ◌≡◌, ◌≢◌, inl, inr, refl, sym, subst, String, true, some, List, arith, Bool-cases,
}
use raft_implementation.Raft.Log.{Log}
use raft_implementation.Raft.Rpc.{AppendEntriesArgs}
use raft_implementation.Raft.Node.{RaftNode, candidate, leader}
use raft_implementation.Raft.Cluster.{
  Cluster, Step, quiet, restart, campaign, open_poll, vote, count_answer,
}
use raft_implementation.Raft.Cluster.Quorum.{mem}
use raft_implementation.Raft.Cluster.Invariant.{quorum, votes_for, Inv, Extends, votes_for-Extends}
use raft_implementation.Raft.Cluster.Moves.{cast_in-Extends}
use raft_implementation.Raft.Cluster.Preserve.{AreNames, named_of, free_for}
use raft_implementation.Raft.Cluster.Safety.{Step-Inv}
use raft_implementation.Raft.Election.{handle_request_vote}
use raft_implementation.Raft.Matching.{Book, Replicas, IsApart}
use raft_implementation.Raft.Matching.Logs.{IsGood, IsHonest}
use raft_implementation.Raft.Matching.Nodes.{Ages, Follows, apart-Follows}

-- An entry of the book: a node that a majority has elected in that term, and a good log.
pub record IsListed (ids : List String) (c : Cluster) (book : Book) (t : ℕ) (j : String) (l : Log)
    : Type 0 where
  pub member : mem j ids ≡ true
  pub good : IsGood book l
  pub won : quorum ids ≤ votes_for ids c.ever j t
  pub past : t ≤ (c.node j).current_term
  pub over : (c.node j).state ≡ candidate → t < (c.node j).current_term

-- What the state of one node has to do with the book.
pub record IsEntered (book : Book) (i : String) (n : RaftNode) : Type 0 where
  pub good : IsGood book n.log
  pub leads : n.state ≡ leader → book n.current_term ≡ some (i, n.log)
  pub leader_term : n.state ≡ leader → 0 < n.current_term
  pub candidate_term : n.state ≡ candidate → 0 < n.current_term

pub record Matched (ids : List String) (s : Replicas) : Type 0 where
  pub base : Inv ids s.cluster
  pub nodes : (i : String) → mem i ids ≡ true → IsEntered s.book i (s.cluster.node i)
  pub listed :
      (t : ℕ) (j : String) (l : Log) → s.book t ≡ some (j, l) → IsListed ids s.cluster s.book t j l
  pub honest : (k : ℕ) (args : AppendEntriesArgs) → s.mail k ≡ some args → IsHonest s.book args

IsEntered-Follows :
    (book : Book) (i : String) (n m : RaftNode)
    → Follows n m
    → IsEntered book i n
    → IsEntered book i m
IsEntered-Follows book i n m f h = record {
  good = subst (IsGood book) (sym f.same_log) h.good;
  leads = λ e. let (was, same) = f.ages.no_new_leader e in rw (same, f.same_log) (h.leads was);
  leader_term = λ e. let (was, same) = f.ages.no_new_leader e in rw same (h.leader_term was);
  candidate_term = λ e. elim (f.ages.candidacy e) [
    | inl (was, same) ↦ rw same (h.candidate_term was)
    | inr more ↦ omega arith
  ];
}

pub IsListed-Ages :
    (ids : List String) (c d : Cluster) (book : Book) (t : ℕ) (j : String) (l : Log)
    → j ≢ ""
    → Extends c.ever d.ever
    → Ages (c.node j) (d.node j)
    → IsListed ids c book t j l
    → IsListed ids d book t j l
IsListed-Ages ids c d book t j l named ext f h = record {
  member = h.member;
  good = h.good;
  won = omega (arith, h.won, votes_for-Extends ids c.ever d.ever j t ext named);
  past = omega (arith, h.past, f.term_grows);
  over = λ e. elim (f.candidacy e) [
    | inl (was, same) ↦ rw same (h.over was)
    | inr more ↦ omega (arith, h.past)
  ];
}

module _ (ids : List String) (names : AreNames ids) where
  -- No step changes a vote of the past.
  pub Step-Extends : {c d : Cluster} → Step ids c d → Inv ids c → Extends c.ever d.ever
  Step-Extends (quiet i e m q r) h = λ u t e'. refl
  Step-Extends (restart i cfg m clean) h = λ u t e'. refl
  Step-Extends {c} (campaign i m may room) h =
      cast_in-Extends c.ever i _ i (inl ((h.nodes i m).future _ (omega arith)))
  Step-Extends (open_poll i k m) h = λ u t e'. refl
  Step-Extends {c} {d} (vote k v now args m q) h =
      let n = c.node v in
      elim (Bool-cases (handle_request_vote now args n).1.vote_granted) [
        | inl g ↦ rw g (
            cast_in-Extends c.ever v args.term args.candidate_id
              (free_for ids c.ever v now args n (h.nodes v m) q.real g))
        | inr no_vote ↦ rw no_vote (λ u t e'. refl)
      ]
  Step-Extends (count_answer k v now m fresh) h = λ u t e'. refl

  -- A step in which every node follows.
  pub follow-Matched :
      (s : Replicas) (d : Cluster)
      → Matched ids s
      → Inv ids d
      → Extends s.cluster.ever d.ever
      → ((j : String) → mem j ids ≡ true → Follows (s.cluster.node j) (d.node j))
      → Matched ids (record s { cluster = d })
  follow-Matched s d h base ext f = record {
    base = base;
    nodes = λ i m. IsEntered-Follows s.book i _ _ (f i m) (h.nodes i m);
    listed = λ t j l e.
        let ok = h.listed t j l e in
        IsListed-Ages ids s.cluster d s.book t j l (named_of ids names j ok.member) ext
          (f j ok.member).ages ok;
    honest = h.honest;
  }

  pub apart-Matched :
      (s : Replicas) (d : Cluster) (st : Step ids s.cluster d)
      → IsApart ids s.cluster d st
      → Matched ids s
      → Matched ids (record s { cluster = d })
  apart-Matched s d st a h =
      follow-Matched s d h (Step-Inv ids names st h.base) (Step-Extends st h.base)
        (λ j m. apart-Follows ids s.cluster d st a j)
