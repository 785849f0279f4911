-- ===== src/Raft/Complete/Leading.antt =====
-- A node that leads before and after a step.
use raft_implementation.Prelude.{◌≤◌, ◌≡◌, sym, subst, String, true, List}
use raft_implementation.Raft.Log.{last_index}
use raft_implementation.Raft.Node.{leader}
use raft_implementation.Raft.Cluster.{Cluster}
use raft_implementation.Raft.Cluster.Quorum.{mem}
use raft_implementation.Raft.Matching.{Book, Replicas}
use raft_implementation.Raft.Matching.Logs.{AreSame, AreSame-refl, Grows}
use raft_implementation.Raft.Matching.Nodes.{Follows}
use raft_implementation.Raft.Complete.{Past, seen_in, Complete, Win}
use raft_implementation.Raft.Complete.Kept.{Win-later}

-- The log of a leader has stayed or grown at its end.
module _ (ids : List String) (past : Past) (s : Replicas) (h : Complete ids past s) (d : Cluster)
    (i : String) (mi : mem i ids ≡ true) where
  -- Who led before was elected before.
  pub leading-Win :
      (book' : Book)
      → Grows s.book book'
      → ((v : String) → (s.cluster.node v).current_term ≤ (d.node v).current_term)
      → (s.cluster.node i).state ≡ leader
      → (d.node i).current_term ≡ (s.cluster.node i).current_term
      → AreSame (s.cluster.node i).log (d.node i).log (last_index (s.cluster.node i).log)
      → Win ids (seen_in past d) book' d (d.node i).current_term (d.node i).log
  leading-Win book' grows older was term like =
      let n = s.cluster.node i in
      let listed = (h.matched.nodes i mi).leads was in
      rw term (
        Win-later s.book book' grows ids past s.cluster d n.current_term n.log (d.node i).log older
          like (h.won n.current_term i n.log listed))

  pub follow-AreSame :
      Follows (s.cluster.node i) (d.node i)
      → AreSame (s.cluster.node i).log (d.node i).log (last_index (s.cluster.node i).log)
  follow-AreSame f =
      let l = (s.cluster.node i).log in
      subst (λ m. AreSame l m (last_index l)) (sym f.same_log) (AreSame-refl l)
