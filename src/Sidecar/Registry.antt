-- ===== src/Sidecar/Registry.antt =====
-- cmd/sidecar/main.go: the node registry and the set of paused nodes, with the state that the handlers
-- share. The two mutexes are not modelled: each function under one is one step.
use raft_implementation.Prelude.{
  ℕ, String, Bool, true, false, ◌&&◌, Option, none, some, List, [], ◌∷◌, ◌++◌, str_eq,
  if◌then◌else◌, GoMap, lookup_or, insert, delete, string_eq,
}

pub record NodeDef : Type 0 where
  pub id : String
  pub rpc_addr : String
  pub http_port : ℕ
  pub rpc_port : ℕ
  pub bootstrap : Bool
  pub dynamic : Bool

pub record RaftStatus : Type 0 where
  pub state : String
  pub term : ℕ
  pub leader : String
  pub peers : List String
  pub commit_index : ℕ
  pub last_applied : ℕ
  pub heartbeats_sent : ℕ
  pub heartbeats_received : ℕ
  pub snapshot_index : ℕ

abbrev preset : String → String → ℕ → Bool → NodeDef
preset id rpc_addr http_port bootstrap = record {
  id = id;
  rpc_addr = rpc_addr;
  http_port = http_port;
  rpc_port = 0;
  bootstrap = bootstrap;
  dynamic = false;
}

abbrev pub preset_nodes : List NodeDef
preset_nodes =
    preset "node1" "node1:7001" 8081 true
    ∷ preset "node2" "node2:7001" 8082 true
    ∷ preset "node3" "node3:7001" 8083 true
    ∷ preset "node4" "node4:7001" 8084 false
    ∷ preset "node5" "node5:7001" 8085 false
    ∷ []

-- The registry, the paused nodes, and whatever is outside the process.
pub record Sidecar (W : Type 0) : Type 0 where
  pub nodes : List NodeDef
  pub paused_nodes : GoMap String Bool
  pub world : W

unfoldable pub find_in : String → List NodeDef → Option NodeDef
find_in id [] = none
find_in id (n ∷ ns) = let rest = find_in id ns in if str_eq n.id id then some n else rest

unfoldable pub without_dynamic : String → List NodeDef → List NodeDef
without_dynamic id [] = []
without_dynamic id (n ∷ ns) =
    let rest = without_dynamic id ns in if str_eq n.id id && n.dynamic then ns else n ∷ rest

module _ {W : Type 0} where
  -- `init`.
  abbrev pub new_sidecar : W → Sidecar W
  new_sidecar w = record { nodes = preset_nodes; paused_nodes = []; world = w }

  abbrev pub find_registered : String → Sidecar W → Option NodeDef
  find_registered id s = find_in id s.nodes

  unfoldable pub add_dynamic_node : NodeDef → Sidecar W → Sidecar W
  add_dynamic_node n s = record s { nodes = s.nodes ++ n ∷ [] }

  unfoldable pub remove_dynamic_node : String → Sidecar W → Sidecar W
  unfolding without_dynamic
  remove_dynamic_node id s = record s { nodes = without_dynamic id s.nodes }

  unfoldable pub is_paused : String → Sidecar W → Bool
  is_paused id s = lookup_or false id s.paused_nodes

  unfoldable pub set_paused : String → Bool → Sidecar W → Sidecar W
  set_paused id v s = record s {
    paused_nodes = if v then insert id true s.paused_nodes else delete id s.paused_nodes;
  }
