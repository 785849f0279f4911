-- ===== src/Sidecar/Presets.antt =====
-- What starting, stopping and restarting a node does to the registry.
use raft_implementation.Prelude.{
  ℕ, ◌≡◌, refl, sym, ap, ◌∙◌, subst, true, false, ◌&&◌, arith, String, Bool, Option, none, some,
  List, [], ◌∷◌, ◌++◌, str_eq, if◌then◌else◌, if-elim, Option-both, All,
}
use raft_implementation.Sidecar.Registry.{
  NodeDef, Sidecar, preset_nodes, is_paused, without_dynamic, add_dynamic_node, remove_dynamic_node,
}
use raft_implementation.Sidecar.Docker.{Environment, run_error, get_built_image}
use raft_implementation.Sidecar.Lifecycle.{
  with_world, wrapped, and_then, started, dynamic_node, join_dynamic, create_dynamic_node,
  stop_node, unpause_node, restart_node, start_preset_node, start_again,
}
use raft_implementation.Sidecar.Pauses.{IsSwitched, unpause_node-IsSwitched}
use raft_implementation.Sidecar.Restores.{IsRestored}

-- The preset nodes in their order, and after them dynamic nodes only.
abbrev pub IsRegistry : List NodeDef → Type 0
IsRegistry nodes =
    (extra : List NodeDef) × (nodes ≡ preset_nodes ++ extra) × All (λ n. n.dynamic ≡ true) extra

without_dynamic-append :
    (id : String) (xs ys : List NodeDef)
    → All (λ n. n.dynamic ≡ false) xs
    → without_dynamic id (xs ++ ys) ≡ xs ++ without_dynamic id ys
unfolding without_dynamic
without_dynamic-append id [] ys h = refl
without_dynamic-append id (n ∷ xs) ys h =
    if-elim (λ r. r ≡ n ∷ (xs ++ without_dynamic id ys)) (str_eq n.id id && n.dynamic) (xs ++ ys)
      (n ∷ without_dynamic id (xs ++ ys)) (λ e. absurd (ground (arith, h.0)))
      (λ e. ap (λ r. n ∷ r) (without_dynamic-append id xs ys h.1))

All-without_dynamic :
    (P : NodeDef → Type 0) (id : String) (ns : List NodeDef)
    → All P ns
    → All P (without_dynamic id ns)
unfolding without_dynamic
All-without_dynamic P id [] h = tt
All-without_dynamic P id (n ∷ ns) h =
    if-elim (All P) (str_eq n.id id && n.dynamic) ns (n ∷ without_dynamic id ns) (λ e. h.1)
      (λ e. (h.0, All-without_dynamic P id ns h.1))

All-snoc :
    (P : NodeDef → Type 0) (ns : List NodeDef) (n : NodeDef) → All P ns → P n → All P (ns ++ n ∷ [])
All-snoc P [] n h k = (k, tt)
All-snoc P (m ∷ ns) n h k = (h.0, All-snoc P ns n h.1 k)

pub without_dynamic-IsRegistry :
    (id : String) (nodes : List NodeDef) → IsRegistry nodes → IsRegistry (without_dynamic id nodes)
without_dynamic-IsRegistry id nodes (extra, e, h) = (
  without_dynamic id extra,
  ap (without_dynamic id) e
      ∙ without_dynamic-append id preset_nodes extra (refl, (refl, (refl, (refl, (refl, tt))))),
  All-without_dynamic (λ n. n.dynamic ≡ true) id extra h,
)

snoc-IsRegistry :
    (n : NodeDef) (nodes : List NodeDef)
    → n.dynamic ≡ true
    → IsRegistry nodes
    → IsRegistry (nodes ++ n ∷ [])
snoc-IsRegistry n nodes k (extra, e, h) =
    (extra ++ n ∷ [], ap (λ ns. ns ++ n ∷ []) e, All-snoc (λ n. n.dynamic ≡ true) extra n h k)

-- A state whose registry is unchanged.
pub same-IsRegistry : (ns ns' : List NodeDef) → ns' ≡ ns → IsRegistry ns → IsRegistry ns'
same-IsRegistry ns ns' e h = subst IsRegistry (sym e) h

module _ {W : Type 0} (env : Environment W) (rounds : ℕ) where
  and_then-IsRegistry :
      (x : Sidecar W × Option String) (f : Sidecar W → Sidecar W × Option String)
      → IsRegistry x.0.nodes
      → ((s : Sidecar W) → IsRegistry s.nodes → IsRegistry (f s).0.nodes)
      → IsRegistry (and_then x f).0.nodes
  and_then-IsRegistry (s, none) f h k = k s h
  and_then-IsRegistry (s, some err) f h k = h

  pub switched-nodes :
      (v : Bool) (n : NodeDef) (s : Sidecar W) (x : Sidecar W × Option String)
      → IsSwitched env v n s x
      → IsRegistry s.nodes
      → IsRegistry x.0.nodes
  switched-nodes v n s (s', none) h r = same-IsRegistry s.nodes s'.nodes h.0 r
  switched-nodes v n s (s', some e) h r = same-IsRegistry s.nodes s'.nodes h.0 r

  pub restored-nodes :
      (s : Sidecar W) (x : Sidecar W × Option String)
      → IsRestored env s x
      → IsRegistry s.nodes
      → IsRegistry x.0.nodes
  restored-nodes s (s', none) h r = same-IsRegistry s.nodes s'.nodes h.0 r
  restored-nodes s (s', some e) h r = same-IsRegistry s.nodes s'.nodes h r

  pub stop_node-IsRegistry :
      (n : NodeDef) (s : Sidecar W) → IsRegistry s.nodes → IsRegistry (stop_node env n s).0.nodes
  unfolding stop_node remove_dynamic_node
  stop_node-IsRegistry n s r =
      if-elim {A = Sidecar W × Option String} (λ x. IsRegistry x.0.nodes) n.dynamic _ _
        (λ h. without_dynamic-IsRegistry n.id s.nodes r) (λ h. r)

  pub create_dynamic_node-IsRegistry :
      (id : String) (http_port rpc_port : ℕ) (s : Sidecar W)
      → IsRegistry s.nodes
      → IsRegistry (create_dynamic_node env rounds id http_port rpc_port s).0.nodes
  unfolding create_dynamic_node join_dynamic add_dynamic_node
  create_dynamic_node-IsRegistry id http_port rpc_port s r =
      Option-both {B = Sidecar W × Option String} (λ x. IsRegistry x.0.nodes)
        (get_built_image env s.world).1 _ _ r
        (λ image.
          Option-both {B = Sidecar W × Option String} (λ x. IsRegistry x.0.nodes)
            (run_error "docker run: " _) _ _
            (snoc-IsRegistry (dynamic_node id http_port rpc_port) s.nodes refl r) (λ err. r))

  start_again-IsRegistry :
      (n : NodeDef) (s : Sidecar W)
      → IsRegistry s.nodes
      → IsRegistry (start_again env rounds n s).0.nodes
  unfolding start_again
  start_again-IsRegistry n s r =
      if-elim {A = Sidecar W × Option String} (λ x. IsRegistry x.0.nodes) n.dynamic
        (create_dynamic_node env rounds n.id n.http_port n.rpc_port s)
        (started (λ w. with_world w s) (start_preset_node env rounds n s.nodes s.world))
        (λ h. create_dynamic_node-IsRegistry n.id n.http_port n.rpc_port s r) (λ h. r)

  pub restart_node-IsRegistry :
      (n : NodeDef) (s : Sidecar W)
      → IsRegistry s.nodes
      → IsRegistry (restart_node env rounds n s).0.nodes
  unfolding restart_node
  restart_node-IsRegistry n s r =
      let s₁ = if is_paused n.id s then (unpause_node env n s).0 else s in
      let resumed : IsRegistry s₁.nodes =
        if-elim {A = Sidecar W} (λ x. IsRegistry x.nodes) (is_paused n.id s) _ _
          (λ h. switched-nodes false n s (unpause_node env n s) (unpause_node-IsSwitched env n s) r)
          (λ h. r) in
      and_then-IsRegistry (wrapped "restart: stop failed: " (stop_node env n s₁))
        (start_again env rounds n) (stop_node-IsRegistry n s₁ resumed)
        (λ s₂ r₂. start_again-IsRegistry n s₂ r₂)
