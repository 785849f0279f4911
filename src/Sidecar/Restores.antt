-- ===== src/Sidecar/Restores.antt =====
-- The scenarios that pause one node at a time leave no node paused when they pass.
use raft_implementation.Prelude.{
  ℕ, zero, suc, ◌≡◌, refl, sym, ap, ◌∙◌, inl, inr, true, false, ◌||◌, arith, String, Bool, Option,
  none, some, List, [], ◌∷◌, str_eq, if◌then◌else◌, if-elim, Bool-cases, string_eq, eq_iff, ◌+◌,
}
use raft_implementation.Sidecar.Registry.{NodeDef, RaftStatus, Sidecar, is_paused}
use raft_implementation.Sidecar.Docker.{Environment}
use raft_implementation.Sidecar.Cluster.{fetch_raft_status}
use raft_implementation.Sidecar.Lifecycle.{with_world, pause_node, unpause_node}
use raft_implementation.Sidecar.Status.{says_leader}
use raft_implementation.Sidecar.Pauses.{
  SameControl, SameControl-trans, is_paused-same, IsSwitched, pause_node-IsSwitched,
  unpause_node-IsSwitched,
}
use raft_implementation.Sidecar.Scenarios.{
  ask, find_leader, found_or, poll_leader, unless_failed, with_found, finished, fail_over,
  isolate_leader, churn_round, churn, leader_churn,
}

flag_back :
    (id j : String) (p₁ p₂ : Bool) (p : String → Bool)
    → p id ≡ false
    → p₁ ≡ (if str_eq id j then true else p j)
    → p₂ ≡ p₁
    → (if str_eq id j then false else p₂) ≡ p j
flag_back id j p₁ p₂ p free h k = elim (Bool-cases (str_eq id j)) [
  | inl same ↦ rw same (sym free ∙ ap p ((eq_iff id j).0 same))
  | inr other ↦ rw other (k ∙ h ∙ rw other refl)
]

module _ {W : Type 0} (env : Environment W) where
  -- A search finds a node that is not paused, if any, and changes no flag.
  abbrev pub IsSearch : Sidecar W → Sidecar W × Option NodeDef → Type 0
  IsSearch s (s', none) = SameControl s s'
  IsSearch s (s', some n) = SameControl s s' × (is_paused n.id s ≡ false)

  pub ask-SameControl :
      (skip : String → Bool) (n : NodeDef) (s : Sidecar W) → SameControl s (ask env skip n s).0
  unfolding ask
  ask-SameControl skip n s =
      if-elim {A = Sidecar W × Option RaftStatus} (λ x. SameControl s x.0)
        (skip n.id || is_paused n.id s) (s, none)
        (with_world (fetch_raft_status env n.http_port s.world).0 s, _) (λ h. (refl, refl))
        (λ h. (refl, refl))

  -- A node that was asked is not paused.
  abbrev pub IsFree : NodeDef → Sidecar W → Option RaftStatus → Type 0
  IsFree n s none = Unit
  IsFree n s (some st) = is_paused n.id s ≡ false

  IsFree-any :
      (n : NodeDef) (s : Sidecar W) (st : Option RaftStatus)
      → is_paused n.id s ≡ false
      → IsFree n s st
  IsFree-any n s none h = tt
  IsFree-any n s (some st) h = h

  pub ask-IsFree :
      (skip : String → Bool) (n : NodeDef) (s : Sidecar W) → IsFree n s (ask env skip n s).1
  unfolding ask
  ask-IsFree skip n s =
      let st = (fetch_raft_status env n.http_port s.world).1 in
      if-elim {A = Sidecar W × Option RaftStatus} (λ x. IsFree n s x.1)
        (skip n.id || is_paused n.id s) (s, none)
        (with_world (fetch_raft_status env n.http_port s.world).0 s, st) (λ h. tt)
        (λ h. IsFree-any n s st (ground arith))

  leader-IsFree :
      (n : NodeDef) (s : Sidecar W) (st : Option RaftStatus)
      → IsFree n s st
      → says_leader st ≡ true
      → is_paused n.id s ≡ false
  leader-IsFree n s none h k = absurd (ground arith)
  leader-IsFree n s (some st) h k = h

  IsSearch-after :
      (s s' : Sidecar W) (x : Sidecar W × Option NodeDef)
      → SameControl s s'
      → IsSearch s' x
      → IsSearch s x
  IsSearch-after s s' (s'', none) h k = SameControl-trans s s' s'' h k
  IsSearch-after s s' (s'', some n) h k =
      (SameControl-trans s s' s'' h k.0, sym (is_paused-same s s' n.id h) ∙ k.1)

  pub find_leader-IsSearch :
      (skip : String → Bool) (all : List NodeDef) (s : Sidecar W)
      → IsSearch s (find_leader env skip all s)
  unfolding find_leader
  find_leader-IsSearch skip [] s = (refl, refl)
  find_leader-IsSearch skip (n ∷ ns) s =
      let s' = (ask env skip n s).0 in
      let same = ask-SameControl skip n s in
      if-elim (IsSearch s) (says_leader (ask env skip n s).1) (s', some n)
        (find_leader env skip ns s')
        (λ h. (same, leader-IsFree n s (ask env skip n s).1 (ask-IsFree skip n s) h))
        (λ h.
          IsSearch-after s s' (find_leader env skip ns s') same (find_leader-IsSearch skip ns s'))

  found_or-IsSearch :
      (s : Sidecar W) (x next : Sidecar W × Option NodeDef)
      → IsSearch s x
      → IsSearch x.0 next
      → IsSearch s (found_or env x next)
  found_or-IsSearch s (s', some n) next h k = h
  found_or-IsSearch s (s', none) next h k = IsSearch-after s s' next h k

  poll_leader-IsSearch :
      (rounds : ℕ) (skip : String → Bool) (all : List NodeDef) (s : Sidecar W)
      → IsSearch s (poll_leader env rounds skip all s)
  unfolding poll_leader
  poll_leader-IsSearch zero skip all s = (refl, refl)
  poll_leader-IsSearch (suc rounds) skip all s =
      let x = find_leader env skip all s in
      found_or-IsSearch s x (poll_leader env rounds skip all x.0) (find_leader-IsSearch skip all s)
        (poll_leader-IsSearch rounds skip all x.0)

  pub IsSearch-SameControl :
      (s : Sidecar W) (x : Sidecar W × Option NodeDef) → IsSearch s x → SameControl s x.0
  IsSearch-SameControl s (s', none) h = h
  IsSearch-SameControl s (s', some n) h = h.0

  -- A passed scenario has the registry and the flags of its start; a failed one the registry.
  abbrev pub IsRestored : Sidecar W → Sidecar W × Option String → Type 0
  IsRestored s (s', none) = (s'.nodes ≡ s.nodes) × ((j : String) → is_paused j s' ≡ is_paused j s)
  IsRestored s (s', some err) = s'.nodes ≡ s.nodes

  IsRestored-after :
      (s s' : Sidecar W) (x : Sidecar W × Option String)
      → SameControl s s'
      → IsRestored s' x
      → IsRestored s x
  IsRestored-after s s' (s'', none) h k = (k.0 ∙ h.0, λ j. k.1 j ∙ is_paused-same s s' j h)
  IsRestored-after s s' (s'', some err) h k = k ∙ h.0

  pub IsRestored-then :
      (what : String) (s : Sidecar W) (x next : Sidecar W × Option String)
      → IsRestored s x
      → IsRestored x.0 next
      → IsRestored s (unless_failed env what x next)
  IsRestored-then what s (s', some e) next h k = h
  IsRestored-then what s (s', none) (s'', none) h k = (k.0 ∙ h.0, λ j. k.1 j ∙ h.1 j)
  IsRestored-then what s (s', none) (s'', some e) h k = k ∙ h.0

  -- Paused, searched for another node, unpaused.
  pub cycle-IsRestored :
      (what no_leader no_restore : String) (node : NodeDef) (s s₂ : Sidecar W)
      (found : Option NodeDef) (x₁ x₃ : Sidecar W × Option String)
      → is_paused node.id s ≡ false
      → IsSwitched env true node s x₁
      → SameControl x₁.0 s₂
      → IsSwitched env false node s₂ x₃
      → IsRestored s (unless_failed env what x₁ (finished env no_leader no_restore found x₃))
  cycle-IsRestored what a b node s s₂ found (s₁, some e) x₃ free h same k = h.0
  cycle-IsRestored what a b node s s₂ none (s₁, none) (s₃, none) free h same k = k.0 ∙ same.0 ∙ h.0
  cycle-IsRestored what a b node s s₂ none (s₁, none) (s₃, some e) free h same k =
      k.0 ∙ same.0 ∙ h.0
  cycle-IsRestored what a b node s s₂ (some n) (s₁, none) (s₃, some e) free h same k =
      k.0 ∙ same.0 ∙ h.0
  cycle-IsRestored what a b node s s₂ (some n) (s₁, none) (s₃, none) free h same k = (
    k.0 ∙ same.0 ∙ h.0,
    λ j.
        k.1 j
        ∙ flag_back node.id j (is_paused j s₁) (is_paused j s₂) (λ id. is_paused id s) free (h.1 j)
            (is_paused-same s₁ s₂ j same),
  )

  fail_over-IsRestored :
      (rounds : ℕ) (all : List NodeDef) (no_pause no_leader no_restore : String) (leader : NodeDef)
      (s : Sidecar W)
      → is_paused leader.id s ≡ false
      → IsRestored s (fail_over env rounds all no_pause no_leader no_restore leader s)
  unfolding fail_over
  fail_over-IsRestored rounds all a b c leader s free =
      let x₁ = pause_node env leader s in
      let found = poll_leader env rounds (λ id. str_eq id leader.id) all x₁.0 in
      let same = IsSearch-SameControl x₁.0 found (poll_leader-IsSearch rounds _ all x₁.0) in
      cycle-IsRestored a b c leader s found.0 found.1 x₁ (unpause_node env leader found.0) free
        (pause_node-IsSwitched env leader s) same (unpause_node-IsSwitched env leader found.0)

  pub with_found-IsRestored :
      (no_leader : String) (s : Sidecar W) (x : Sidecar W × Option NodeDef)
      (go : NodeDef → Sidecar W → Sidecar W × Option String)
      → IsSearch s x
      → ((n : NodeDef) (s' : Sidecar W) → is_paused n.id s' ≡ false → IsRestored s' (go n s'))
      → IsRestored s (with_found env no_leader x go)
  with_found-IsRestored t s (s', none) go h k = h.0
  with_found-IsRestored t s (s', some n) go h k =
      IsRestored-after s s' (go n s') h.0 (k n s' (is_paused-same s s' n.id h.0 ∙ h.1))

  pub isolate_leader-IsRestored :
      (rounds : ℕ) (s : Sidecar W) → IsRestored s (isolate_leader env rounds s)
  unfolding isolate_leader
  isolate_leader-IsRestored rounds s =
      with_found-IsRestored _ s (find_leader env (λ id. false) s.nodes s) _
        (find_leader-IsSearch (λ id. false) s.nodes s)
        (λ n s' free. fail_over-IsRestored rounds s.nodes _ _ _ n s' free)

  churn_round-IsRestored :
      (rounds round : ℕ) (all : List NodeDef) (s : Sidecar W)
      → IsRestored s (churn_round env rounds round all s)
  unfolding churn_round
  churn_round-IsRestored rounds round all s =
      let x = find_leader env (λ id. false) all s in
      let y = find_leader env (λ id. false) all x.0 in
      with_found-IsRestored _ s (found_or env x y) _
        (found_or-IsSearch s x y (find_leader-IsSearch (λ id. false) all s)
          (find_leader-IsSearch (λ id. false) all x.0))
        (λ n s' free. fail_over-IsRestored rounds all _ _ _ n s' free)

  churn-IsRestored :
      (left rounds round : ℕ) (all : List NodeDef) (s : Sidecar W)
      → IsRestored s (churn env left rounds round all s)
  unfolding churn
  churn-IsRestored zero rounds round all s = (refl, λ j. refl)
  churn-IsRestored (suc left) rounds round all s =
      let x = churn_round env rounds round all s in
      IsRestored-then "" s x _ (churn_round-IsRestored rounds round all s)
        (churn-IsRestored left rounds (round + 1) all x.0)

  pub leader_churn-IsRestored :
      (rounds : ℕ) (s : Sidecar W) → IsRestored s (leader_churn env rounds s)
  unfolding leader_churn
  leader_churn-IsRestored rounds s = churn-IsRestored 3 rounds 1 s.nodes s
