-- ===== src/Sidecar/Stops.antt =====
-- `POST /nodes/{id}/stop` for a preset node that is paused, and what `GET /nodes` then shows.
use raft_implementation.Prelude.{
  ℕ, ◌≡◌, ◌⊎◌, inl, inr, refl, sym, ◌∙◌, true, false, none, some, String, Bool, Option, List, [],
  ◌∷◌, arith, ap, map, string_eq, str_eq, subst, Bool-cases,
}
use raft_implementation.Sidecar.Registry.{
  NodeDef, RaftStatus, Sidecar, is_paused, find_registered, find_in,
}
use raft_implementation.Sidecar.Docker.{Environment}
use raft_implementation.Sidecar.Lifecycle.{stop_node}
use raft_implementation.Sidecar.Status.{
  NodeInfo, StatusByPort, node_info, info_of, asked, handle_nodes,
}
use raft_implementation.Sidecar.Handlers.{on_parts, node_reply, node_action}
use raft_implementation.Sidecar.Pauses.{stop_node-is_paused}

-- The list has an entry of that node, as running, in the cluster and paused.
abbrev pub ShowsPaused : NodeDef → List NodeInfo → Type 0
ShowsPaused node [] = ⊥
ShowsPaused node (i ∷ is) =
    ((i.node ≡ node) × (i.running ≡ true) × (i.in_cluster ≡ true) × (i.paused ≡ true))
    ⊎ ShowsPaused node is

node_info_paused :
    (n : NodeDef) (member : Bool) (st : Option RaftStatus)
    → let i = node_info n true member st in
      (i.node ≡ n) × (i.running ≡ true) × (i.in_cluster ≡ true) × (i.paused ≡ true)
node_info_paused n member none = (refl, refl, ground arith, refl)
node_info_paused n member (some st) = (refl, refl, ground arith, refl)

module _ {W : Type 0} (env : Environment W) where
  info_of_paused :
      (node : NodeDef) (s : Sidecar W) (m : StatusByPort)
      → is_paused node.id s ≡ true
      → let i = info_of env m s node in
        (i.node ≡ node) × (i.running ≡ true) × (i.in_cluster ≡ true) × (i.paused ≡ true)
  unfolding info_of
  info_of_paused node s m h = rw h (node_info_paused node _ _)

  -- Whichever node is found by its id is in the list of what is shown.
  found-ShowsPaused :
      (id : String) (node : NodeDef) (s : Sidecar W) (m : StatusByPort) (ns : List NodeDef)
      → is_paused node.id s ≡ true
      → find_in id ns ≡ some node
      → ShowsPaused node (map (info_of env m s) ns)
  unfolding find_in
  found-ShowsPaused id node s m [] h e = absurd (ground arith)
  found-ShowsPaused id node s m (n ∷ ns) h e = elim (Bool-cases (str_eq n.id id)) [
    | inl here ↦
        let e' = rw here at e in
        let same : n ≡ node = cc in
        inl (
          subst
            (λ k.
              let i = info_of env m s k in
              (i.node ≡ node) × (i.running ≡ true) × (i.in_cluster ≡ true) × (i.paused ≡ true))
            (sym same) (info_of_paused node s m h))
    | inr there ↦ inr (found-ShowsPaused id node s m ns h (rw there at e))
  ]

  stop_node-nodes :
      (node : NodeDef) (s : Sidecar W)
      → node.dynamic ≡ false
      → (stop_node env node s).0.nodes ≡ s.nodes
  unfolding stop_node
  stop_node-nodes node s preset = rw preset refl

  node_reply-state : (id : String) (x : Sidecar W × Option String) → (node_reply id x).0 ≡ x.0
  node_reply-state id (s, none) = refl
  node_reply-state id (s, some e) = refl

  -- The request stops the node that it names.
  on_parts_stop :
      (rounds : ℕ) (id : String) (node : NodeDef) (s : Sidecar W)
      → find_registered id s ≡ some node
      → (on_parts env rounds (id ∷ "stop" ∷ []) s).0 ≡ (stop_node env node s).0
  unfolding on_parts node_action
  on_parts_stop rounds id node s found =
      rw (found, on_parts) (node_reply-state node.id (stop_node env node s))

  shows_paused :
      (id : String) (node : NodeDef) (s : Sidecar W)
      → find_in id s.nodes ≡ some node
      → is_paused node.id s ≡ true
      → ShowsPaused node (handle_nodes env s).1
  unfolding handle_nodes
  shows_paused id node s found paused =
      found-ShowsPaused id node s (asked env s).1 s.nodes paused found

  -- After a stop request for a registered node that is not dynamic and is flagged as paused, the
  -- view of the nodes shows it as running, paused and in the cluster, whatever docker and the
  -- nodes answer.
  pub on_parts-ShowsPaused :
      (rounds : ℕ) (id : String) (node : NodeDef) (s : Sidecar W)
      → find_registered id s ≡ some node
      → node.dynamic ≡ false
      → is_paused node.id s ≡ true
      → ShowsPaused node (handle_nodes env (on_parts env rounds (id ∷ "stop" ∷ []) s).0).1
  on_parts-ShowsPaused rounds id node s found preset paused =
      let s₁ = (stop_node env node s).0 in
      subst (λ r. ShowsPaused node (handle_nodes env r).1)
        (sym (on_parts_stop rounds id node s found))
        (shows_paused id node s₁ (ap (find_in id) (stop_node-nodes node s preset) ∙ found)
          (stop_node-is_paused env node s node.id ∙ paused))
