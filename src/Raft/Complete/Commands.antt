-- ===== src/Raft/Complete/Commands.antt =====
-- A command that is taken carries the invariant.
use raft_implementation.Prelude.{
  ◌+◌, ◌<◌, ◌≡◌, inl, inr, sym, ap, ◌∙◌, subst, String, true, some, List, arith, Bool-cases, length,
  u64_mod, add64_lem,
}
use raft_implementation.Raft.Log.{LogEntry, Bytes, last_index, get}
use raft_implementation.Raft.Log.Basic.{last_index_lem}
use raft_implementation.Raft.Node.{RaftNode, leader, is_leader}
use raft_implementation.Raft.Membership.{command_entry}
use raft_implementation.Raft.Steps.{command, step}
use raft_implementation.Raft.Cluster.{Cluster, set_node}
use raft_implementation.Raft.Cluster.Quorum.{mem}
use raft_implementation.Raft.Cluster.Preserve.{AreNames, update_all}
use raft_implementation.Raft.Matching.{Book, Replicas, commanding, entered}
use raft_implementation.Raft.Matching.Logs.{AreSame, Grows}
use raft_implementation.Raft.Matching.Growth.{
  update_self, submit_leads, submit_refused, ends, reads_old, reads_new, longer-AreSame,
  commanding-Keeps,
}
use raft_implementation.Raft.Complete.{Past, seen_in, Complete}
use raft_implementation.Raft.Complete.Nodes.{Passes, longer-Passes}
use raft_implementation.Raft.Complete.Polls.{IsSincere-step}
use raft_implementation.Raft.Complete.Carry.{carry_entered}
use raft_implementation.Raft.Complete.Steps.{Passes-refl}
use raft_implementation.Raft.Complete.Leading.{leading-Win}

module _ (ids : List String) (names : AreNames ids) (past : Past) (s : Replicas)
    (h : Complete ids past s) where
  module _ (i : String) (b : Bytes) (mi : mem i ids ≡ true)
      (room : length (s.cluster.node i).log.entries + 1 < u64_mod) where
    abbrev sender : RaftNode
    sender = s.cluster.node i

    abbrev taken : RaftNode
    taken = step (command b) sender

    abbrev after : Cluster
    after = set_node s.cluster i taken

    abbrev its_book : Book
    its_book = entered s.book i (after.node i)

    at_sender : after.node i ≡ taken
    at_sender = update_self s.cluster.node i taken

    -- A leader's log is one entry longer.
    command_appends :
        is_leader sender.state ≡ true
        → AreSame sender.log taken.log (last_index sender.log)
          × (get sender.log 0 ≡ get taken.log 0)
          × (last_index taken.log ≡ last_index sender.log + 1)
          × ((get taken.log (last_index sender.log + 1)).term ≡ sender.current_term)
    command_appends leads =
        let (log_m, state_m, term_m) = submit_leads b sender leads in
        let ok = h.matched.nodes i mi in
        let was : sender.state ≡ leader = ground arith in
        let e = command_entry b sender in
        let l = sender.log in
        let w = ok.good.is_log in
        let bound = last_index_lem l w in
        let e_at : e.index ≡ last_index l + 1 =
          add64_lem (last_index l) 1 (omega (arith, w.fits, w.has_sentinel, ok.good.whole)) in
        let listed : s.book e.term ≡ some (i, l) = ok.leads was in
        let pos = ok.leader_term was in
        (
          subst (λ y. AreSame l y (last_index l)) (sym log_m)
              (longer-AreSame s.book i l e listed ok.good pos e_at room),
          subst (λ y. get l 0 ≡ get y 0) (sym log_m)
              (reads_old s.book i l e listed ok.good pos e_at room 0 (omega arith)),
          ap last_index log_m ∙ ends s.book i l e listed ok.good pos e_at room,
          ap (λ y. (get y (last_index l + 1)).term) log_m
              ∙ ap (λ (x : LogEntry). x.term) (reads_new s.book i l e listed ok.good pos e_at room),
        )

    taken-Passes : (book' : Book) → Grows s.book book' → Passes s.book book' sender taken
    taken-Passes book' grows = elim (Bool-cases (is_leader sender.state)) [
      | inr follows ↦
          subst (Passes s.book book' sender) (sym (submit_refused b sender follows))
            (Passes-refl s.book book' sender grows)
      | inl leads ↦
          let (_, state_m, term_m) = submit_leads b sender leads in
          let (like, zeroth, ends, new) = command_appends leads in
          longer-Passes s.book book' grows sender taken (ground arith) term_m like zeroth ends new
    ]

    taken-leads :
        taken.state ≡ leader
        → (sender.state ≡ leader)
          × (taken.current_term ≡ sender.current_term)
          × AreSame sender.log taken.log (last_index sender.log)
    taken-leads e = elim (Bool-cases (is_leader sender.state)) [
      | inr follows ↦
          let same = submit_refused b sender follows in
          let was = ap (λ (x : RaftNode). x.state) (sym same) ∙ e in absurd (ground arith)
      | inl leads ↦
          let (_, state_m, term_m) = submit_leads b sender leads in
          (sym state_m ∙ e, term_m, (command_appends leads).0)
    ]

    pub commanding-Complete :
        Complete ids (seen_in past (commanding s i b).cluster) (commanding s i b)
    commanding-Complete =
        let (matched, grows) = commanding-Keeps ids names s i b h.matched mi room in
        let passes : (w : String) → Passes s.book its_book (s.cluster.node w) (after.node w) = λ w.
          update_all (λ u r. Passes s.book its_book (s.cluster.node u) r) s.cluster.node i taken w
            (taken-Passes its_book grows)
            (λ ne. Passes-refl s.book its_book (s.cluster.node w) grows) in
        carry_entered ids past s h after i mi matched grows passes
          (λ j.
            IsSincere-step past s.book its_book grows s.cluster after passes (s.cluster.poll j)
              (h.polls j))
          (λ leads.
            let (was, term, like) =
              taken-leads (ap (λ (x : RaftNode). x.state) (sym at_sender) ∙ leads) in
            leading-Win ids past s h after i mi its_book grows (λ w. (passes w).older) was
              (ap (λ (x : RaftNode). x.current_term) at_sender ∙ term)
              (subst (λ (x : RaftNode). AreSame sender.log x.log (last_index sender.log))
                (sym at_sender) like))
