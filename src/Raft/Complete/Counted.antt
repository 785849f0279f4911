-- ===== src/Raft/Complete/Counted.antt =====
-- An answer that is counted carries the invariant, also where it elects a leader.
use raft_implementation.Prelude.{
  ℕ, ◌≡◌, inl, inr, refl, sym, ap, ◌∙◌, subst, String, true, false, none, List, arith, Bool-cases,
  ◌==◌,
}
use raft_implementation.Raft.Log.{last_index}
use raft_implementation.Raft.Node.{RaftNode, leader}
use raft_implementation.Raft.Election.{on_vote_reply}
use raft_implementation.Raft.Cluster.{Cluster, count_answer, counted}
use raft_implementation.Raft.Cluster.Quorum.{mem}
use raft_implementation.Raft.Cluster.Preserve.{AreNames, update_all}
use raft_implementation.Raft.Cluster.Moves.{Taken, on_vote_reply-Taken}
use raft_implementation.Raft.Cluster.Safety.{Step-Inv}
use raft_implementation.Raft.Matching.{Book, Replicas, counting, entered}
use raft_implementation.Raft.Matching.Logs.{AreSame, AreSame-refl, Grows}
use raft_implementation.Raft.Matching.Nodes.{Follows, IsElected, on_vote_reply-Follows}
use raft_implementation.Raft.Matching.Growth.{update_self, unlisted, counting-Keeps}
use raft_implementation.Raft.Complete.{Past, seen_in, IsSincere, Complete, Win}
use raft_implementation.Raft.Complete.Kept.{Win-later}
use raft_implementation.Raft.Complete.Nodes.{Passes, Follows-Passes, IsElected-Passes}
use raft_implementation.Raft.Complete.Polls.{IsSincere-step, tallied-IsSincere}
use raft_implementation.Raft.Complete.Wins.{elected-Win}
use raft_implementation.Raft.Complete.Carry.{carry_entered}
use raft_implementation.Raft.Complete.Steps.{Passes-refl}
use raft_implementation.Raft.Complete.Leading.{leading-Win, follow-AreSame}

module _ (ids : List String) (names : AreNames ids) (past : Past) (s : Replicas)
    (h : Complete ids past s) where
  module _ (k : ℕ) (v : String) (now : ℕ) (mv : mem v ids ≡ true)
      (fresh : (s.cluster.poll k).tally v ≡ false) where
    abbrev o : String
    o = (s.cluster.poll k).owner

    abbrev n : RaftNode
    n = s.cluster.node o

    abbrev d : Cluster
    d = counted s.cluster k v now

    abbrev m : RaftNode
    m = (on_vote_reply now ((s.cluster.poll k).answers v) (s.cluster.poll k).ballot n).1

    here : d.node o ≡ m
    here = update_self s.cluster.node o m

    abbrev book' : Book
    book' = entered s.book o (d.node o)

    counted-Passes :
        Grows s.book book' → (w : String) → Passes s.book book' (s.cluster.node w) (d.node w)
    counted-Passes grows w =
        update_all (λ u r. Passes s.book book' (s.cluster.node u) r) s.cluster.node o m w
          (elim (on_vote_reply-Follows now ((s.cluster.poll k).answers v) (s.cluster.poll k).ballot
            n) [
              | inl f ↦ Follows-Passes s.book book' grows n m f
              | inr won ↦ IsElected-Passes s.book book' grows n m won
            ])
          (λ ne. Passes-refl s.book book' (s.cluster.node w) grows)

    counted-IsSincere : Grows s.book book' → (j : ℕ) → IsSincere (seen_in past d) book' d (d.poll j)
    counted-IsSincere grows j =
        let old : (i : ℕ) → IsSincere (seen_in past d) book' d (s.cluster.poll i) = λ i.
          IsSincere-step past s.book book' grows s.cluster d (counted-Passes grows)
            (s.cluster.poll i) (h.polls i) in
        elim (Bool-cases (k == j)) [
          | inr other ↦ rw other (old j)
          | inl this ↦
              rw this
                (tallied-IsSincere now (s.cluster.poll k) v n (seen_in past d) book' d (old k))
        ]

    -- Who is elected by this answer has won.
    elected_now :
        Grows s.book book'
        → IsElected n (d.node o)
        → Win ids (seen_in past d) book' d (d.node o).current_term (d.node o).log
    elected_now grows won =
        let p = s.cluster.poll k in
        let leads : m.state ≡ leader = ap (λ (x : RaftNode). x.state) (sym here) ∙ won.leads in
        let was = won.was in
        let mo = (h.matched.base.polls k).owner_ok in
        let base = Step-Inv ids names {d = d} (count_answer k v now mv fresh) h.matched.base in
        let free : s.book (d.node o).current_term ≡ none =
          unlisted ids names s d o h.matched base mo (λ u t e. refl) won in
        elim (on_vote_reply-Taken now (p.answers v) p.ballot n) [
          | Taken.ignored same steady ↦
              let (led, _) = steady.no_new_leader leads in absurd (ground arith)
          | Taken.added reply e g _ term more next ↦ elim next [
            | inl same ↦
                let led = ap (λ (x : RaftNode). x.state) (sym same) ∙ leads in absurd (ground arith)
            | inr (majority, _) ↦
                let at : (d.node o).current_term ≡ p.ballot.term = won.same_term ∙ term in
                let win =
                  elected-Win ids names past s h k v reply mv fresh e g was term majority
                    (ap s.book (sym at) ∙ free) in
                subst (λ y. Win ids (seen_in past d) book' d y (d.node o).log) (sym at)
                  (Win-later s.book book' grows ids past s.cluster d p.ballot.term n.log
                    (d.node o).log (λ w. (counted-Passes grows w).older)
                    (subst (λ l. AreSame n.log l (last_index n.log)) (sym won.same_log)
                      (AreSame-refl n.log))
                    win)
          ]
        ]

    pub counting-Complete :
        Complete ids (seen_in past (counting s k v now).cluster) (counting s k v now)
    counting-Complete =
        let (matched, grows) = counting-Keeps ids names s k v now h.matched mv fresh in
        let mo = (h.matched.base.polls k).owner_ok in
        let passes = counted-Passes grows in
        carry_entered ids past s h d o mo matched grows passes (counted-IsSincere grows) (λ leads.
          elim (on_vote_reply-Follows now ((s.cluster.poll k).answers v) (s.cluster.poll k).ballot
            n) [
              | inr won ↦ elected_now grows (subst (IsElected n) (sym here) won)
              | inl f ↦
                  let f' : Follows n (d.node o) = subst (Follows n) (sym here) f in
                  let (was, term) = f'.ages.no_new_leader leads in
                  leading-Win ids past s h d o mo book' grows (λ w. (passes w).older) was term
                    (follow-AreSame ids past s h d o mo f')
            ])
