-- ===== src/Sidecar/Quorum.antt =====
-- The scenarios that look at all online nodes: the follower that is lost, and the majority that is
-- paused.
use raft_implementation.Prelude.{
  ℕ, ◌≡◌, refl, sym, ◌∙◌, true, false, arith, String, Bool, Option, none, some, List, [], ◌∷◌, ◌++◌,
  map, str_eq, if◌then◌else◌, if-elim, string_eq, ltb, length, take, All, any, ◌||◌,
}
use raft_implementation.Sidecar.Registry.{NodeDef, RaftStatus, Sidecar, is_paused}
use raft_implementation.Sidecar.Docker.{Environment}
use raft_implementation.Sidecar.Lifecycle.{pause_node, unpause_node}
use raft_implementation.Sidecar.Pauses.{
  SameControl, SameControl-trans, is_paused-same, IsSwitched, pause_node-IsSwitched,
  unpause_node-IsSwitched,
}
use raft_implementation.Sidecar.Restores.{
  IsSearch, IsSearch-SameControl, IsRestored, find_leader-IsSearch, cycle-IsRestored,
  with_found-IsRestored, isolate_leader-IsRestored, leader_churn-IsRestored, ask-SameControl,
  IsFree, ask-IsFree,
}
use raft_implementation.Sidecar.Scenarios.{
  ask, find_leader, online_nodes, add_answer, first_follower, lose_node, lose_follower,
  isolate_leader, leader_churn, to_pause, restore_all, or_restore, pause_all, quorum_loss,
  unless_failed,
}

paused_still :
    (here there p : Bool)
    → (there || (if here then true else p)) ≡ ((if here then true else there) || p)
paused_still here there p = ground arith

module _ {W : Type 0} (env : Environment W) where
  -- The nodes that answered are not paused.
  abbrev IsOnline : Sidecar W → Sidecar W × List (NodeDef × RaftStatus) → Type 0
  IsOnline s (s', online) = SameControl s s' × All (λ x. is_paused x.0.id s ≡ false) online

  unpaused_at :
      (s s' : Sidecar W) (online : List (NodeDef × RaftStatus))
      → SameControl s s'
      → All (λ x. is_paused x.0.id s' ≡ false) online
      → All (λ x. is_paused x.0.id s ≡ false) online
  unpaused_at s s' [] same h = tt
  unpaused_at s s' (x ∷ xs) same h =
      (sym (is_paused-same s s' x.0.id same) ∙ h.0, unpaused_at s s' xs same h.1)

  add_answer-IsOnline :
      (s s₁ : Sidecar W) (n : NodeDef) (st : Option RaftStatus)
      (x : Sidecar W × List (NodeDef × RaftStatus))
      → IsFree env n s st
      → SameControl s s₁
      → IsOnline s₁ x
      → IsOnline s (add_answer env n st x)
  add_answer-IsOnline s s₁ n none (s₂, online) free same h =
      (SameControl-trans s s₁ s₂ same h.0, unpaused_at s s₁ online same h.1)
  add_answer-IsOnline s s₁ n (some st) (s₂, online) free same h =
      (SameControl-trans s s₁ s₂ same h.0, (free, unpaused_at s s₁ online same h.1))

  online_nodes-IsOnline : (ns : List NodeDef) (s : Sidecar W) → IsOnline s (online_nodes env ns s)
  unfolding online_nodes
  online_nodes-IsOnline [] s = ((refl, refl), tt)
  online_nodes-IsOnline (n ∷ ns) s =
      let x = ask env (λ id. false) n s in
      add_answer-IsOnline s x.0 n x.1 (online_nodes env ns x.0) (ask-IsFree env (λ id. false) n s)
        (ask-SameControl env (λ id. false) n s) (online_nodes-IsOnline ns x.0)

  first_follower-IsSearch :
      (s s' : Sidecar W) (online : List (NodeDef × RaftStatus))
      → IsOnline s (s', online)
      → IsSearch env s (s', first_follower env online)
  unfolding first_follower
  first_follower-IsSearch s s' [] h = h.0
  first_follower-IsSearch s s' ((n, st) ∷ online) h =
      if-elim (λ found. IsSearch env s (s', found)) (str_eq st.state "follower") (some n)
        (first_follower env online) (λ e. (h.0, h.1.0))
        (λ e. first_follower-IsSearch s s' online (h.0, h.1.1))

  lose_node-IsRestored :
      (all : List NodeDef) (node : NodeDef) (s : Sidecar W)
      → is_paused node.id s ≡ false
      → IsRestored env s (lose_node env all node s)
  unfolding lose_node
  lose_node-IsRestored all node s free =
      let x₁ = pause_node env node s in
      let found = find_leader env (λ id. str_eq id node.id) all x₁.0 in
      cycle-IsRestored env _ _ _ node s found.0 found.1 x₁ (unpause_node env node found.0) free
        (pause_node-IsSwitched env node s)
        (IsSearch-SameControl env x₁.0 found (find_leader-IsSearch env _ all x₁.0))
        (unpause_node-IsSwitched env node found.0)

  pub lose_follower-IsRestored : (s : Sidecar W) → IsRestored env s (lose_follower env s)
  unfolding lose_follower
  lose_follower-IsRestored s =
      let x = online_nodes env s.nodes s in
      with_found-IsRestored env _ s (x.0, first_follower env x.1) _
        (first_follower-IsSearch s x.0 x.1 (online_nodes-IsOnline s.nodes s))
        (λ n s' free.
          if-elim (IsRestored env s') (ltb (length x.1) 2) _ _ (λ h. refl)
            (λ h. lose_node-IsRestored s.nodes n s' free))

  unpause_node-nodes :
      (n : NodeDef) (s : Sidecar W) (x : Sidecar W × Option String)
      → IsSwitched env false n s x
      → x.0.nodes ≡ s.nodes
  unpause_node-nodes n s (s', none) h = h.0
  unpause_node-nodes n s (s', some e) h = h.0

  restore_all-nodes : (ns : List NodeDef) (s : Sidecar W) → (restore_all env ns s).nodes ≡ s.nodes
  unfolding restore_all
  restore_all-nodes [] s = refl
  restore_all-nodes (n ∷ ns) s =
      restore_all-nodes ns (unpause_node env n s).0
      ∙ unpause_node-nodes n s (unpause_node env n s) (unpause_node-IsSwitched env n s)

  -- After a loop that pauses all of its nodes, they are paused, and what was paused before.
  abbrev pub IsPaused : List NodeDef → Sidecar W → Sidecar W × Option String → Type 0
  IsPaused ns s (s', none) =
      (s'.nodes ≡ s.nodes)
      × ((j : String) → is_paused j s' ≡ (any (λ n. str_eq n.id j) ns || is_paused j s))
  IsPaused ns s (s', some err) = s'.nodes ≡ s.nodes

  or_restore-IsPaused :
      (done : List NodeDef) (n : NodeDef) (ns : List NodeDef) (s : Sidecar W)
      (x rest : Sidecar W × Option String)
      → IsSwitched env true n s x
      → IsPaused ns x.0 rest
      → IsPaused (n ∷ ns) s (or_restore env done n x rest)
  or_restore-IsPaused done n ns s (s', some e) rest h k = restore_all-nodes done s' ∙ h.0
  or_restore-IsPaused done n ns s (s', none) (s'', some e) h k = k ∙ h.0
  or_restore-IsPaused done n ns s (s', none) (s'', none) h k = (
    k.0 ∙ h.0,
    λ j.
        k.1 j
        ∙ rw (h.1 j) (paused_still (str_eq n.id j) (any (λ m. str_eq m.id j) ns) (is_paused j s)),
  )

  pause_all-IsPaused :
      (done ns : List NodeDef) (s : Sidecar W) → IsPaused ns s (pause_all env done ns s)
  unfolding pause_all
  pause_all-IsPaused done [] s = (refl, λ j. refl)
  pause_all-IsPaused done (n ∷ ns) s =
      let x = pause_node env n s in
      or_restore-IsPaused done n ns s x _ (pause_node-IsSwitched env n s)
        (pause_all-IsPaused (done ++ n ∷ []) ns x.0)

  unless_failed-nodes :
      (s : Sidecar W) (ns : List NodeDef) (x : Sidecar W × Option String)
      → IsPaused ns s x
      → (unless_failed env "" x (restore_all env ns x.0, none)).0.nodes ≡ s.nodes
  unless_failed-nodes s ns (s', none) h = restore_all-nodes ns s' ∙ h.0
  unless_failed-nodes s ns (s', some e) h = h

  pub quorum_loss-nodes : (s : Sidecar W) → (quorum_loss env s).0.nodes ≡ s.nodes
  unfolding quorum_loss
  quorum_loss-nodes s =
      let x = online_nodes env s.nodes s in
      let online = map (λ y. y.0) x.1 in
      let victims = take (to_pause (length online)) online in
      let same = (online_nodes-IsOnline s.nodes s).0.0 in
      if-elim {A = Sidecar W × Option String} (λ y. y.0.nodes ≡ s.nodes) (ltb (length online) 3) _ _
        (λ h. same)
        (λ h. unless_failed-nodes x.0 victims _ (pause_all-IsPaused [] victims x.0) ∙ same)

  -- Each of the three scenarios that pause one node at a time leaves the registry as it was; and
  -- if it passes, the pause flag of every node is what it was before, whatever docker and the
  -- nodes answer.
  pub scenarios-IsRestored :
      (rounds : ℕ) (s : Sidecar W)
      → IsRestored env s (isolate_leader env rounds s)
        × IsRestored env s (lose_follower env s)
        × IsRestored env s (leader_churn env rounds s)
  scenarios-IsRestored rounds s = (
    isolate_leader-IsRestored env rounds s,
    lose_follower-IsRestored s,
    leader_churn-IsRestored env rounds s,
  )
