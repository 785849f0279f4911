-- ===== src/Sidecar/Docker.antt =====
-- cmd/sidecar/main.go: the commands given to docker. What a command does and prints is a parameter, as
-- is what the node's HTTP API answers; the log lines are left out.
use raft_implementation.Prelude.{
  ℕ, ◌⊎◌, String, Option, none, some, List, [], ◌∷◌, ◌++◌, map, str_eq, if◌then◌else◌, any, ◌<>◌,
  trim_space, join_with, decimal,
}
use raft_implementation.Sidecar.Registry.{NodeDef, RaftStatus, preset_nodes}

-- os/exec: the output of a command that succeeds, or the error and the output of one that fails.
pub data Run : Type 0 where
  succeeded : String → Run
  exited : String → String → Run

-- What the program asks of the rest of the world. `compose_file` and `project_name` are the global and
-- the name of its folder; `get_status` is a GET of a URL with its JSON decoded, none for an error;
-- `post_addr` is a POST with the address as its JSON field addr: the status code, or the error.
pub record Environment (W : Type 0) : Type 0 where
  pub compose_file : String
  pub project_name : String
  pub docker : List String → W → W × Run
  pub get_status : String → W → W × Option RaftStatus
  pub post_addr : String → String → W → W × (String ⊎ ℕ)

-- The error of a command under a name, or nil.
abbrev pub run_error : String → Run → Option String
run_error what (succeeded out) = none
run_error what (exited err out) = some (what <> err <> "\n" <> out)

-- `buildPeerHTTPAddrs`: one pair of an id and an address for each node.
abbrev pub http_pair : String → ℕ → String
http_pair id port = id <> "=localhost:" <> decimal port

unfoldable pub build_peer_http_addrs : List NodeDef → String → ℕ → String
unfolding decimal join_with
build_peer_http_addrs nodes new_id new_http_port =
    let parts = map (λ n. http_pair n.id n.http_port) nodes in
    let all =
      if any (λ n. str_eq n.id new_id) nodes
      then parts
      else parts ++ http_pair new_id new_http_port ∷ [] in
    join_with "," all

abbrev pub container_name : String → String
container_name id = "raft-" <> id

module _ {W : Type 0} (env : Environment W) where
  unfoldable pub compose : List String → W → W × Option String
  compose args w =
      let (w', r) = env.docker ("compose" ∷ "-f" ∷ env.compose_file ∷ args) w in
      (w', run_error "" r)

  abbrev pub compose_network_name : String
  compose_network_name = env.project_name <> "_default"

  -- Errors of both commands are only logged.
  unfoldable pub clear_node_data : String → W → W
  clear_node_data node_id w =
      let (w₁, removed) =
        env.docker ("compose" ∷ "-f" ∷ env.compose_file ∷ "rm" ∷ "-f" ∷ "-s" ∷ node_id ∷ []) w in
      (env.docker ("volume" ∷ "rm" ∷ (env.project_name <> "_" <> node_id <> "-data") ∷ []) w₁).0

  -- The first loop of `getBuiltImage`.
  unfoldable pub named_image : List NodeDef → W → W × Option String
  named_image [] w = (w, none)
  named_image (n ∷ ns) w =
      let image = env.project_name <> "-" <> n.id in
      let (w', r) = env.docker ("image" ∷ "inspect" ∷ image ∷ []) w in
      elim r [ succeeded out ↦ (w', some image) | exited err out ↦ named_image ns w' ]

  -- The second loop, the fallback.
  unfoldable pub listed_image : List NodeDef → W → W × Option String
  listed_image [] w = (w, none)
  listed_image (n ∷ ns) w =
      let (w', r) =
        env.docker ("compose" ∷ "-f" ∷ env.compose_file ∷ "images" ∷ "-q" ∷ n.id ∷ []) w in
      let rest = listed_image ns w' in
      elim r [
        | succeeded out ↦ if str_eq (trim_space out) "" then rest else (w', some (trim_space out))
        | exited err out ↦ rest
      ]

  unfoldable pub get_built_image : W → W × Option String
  unfolding named_image listed_image
  get_built_image w =
      let (w', found) = named_image preset_nodes w in
      elim found [ some image ↦ (w', some image) | none ↦ listed_image preset_nodes w' ]

  -- The arguments of docker run for a new node.
  unfoldable pub run_args : List NodeDef → String → ℕ → ℕ → String → List String
  unfolding build_peer_http_addrs decimal
  run_args nodes id http_port rpc_port image =
      "run"
      ∷ "-d"
      ∷ "--name"
      ∷ container_name id
      ∷ "--network"
      ∷ compose_network_name
      ∷ "--hostname"
      ∷ id
      ∷ "-p"
      ∷ (decimal http_port <> ":" <> decimal http_port)
      ∷ "-p"
      ∷ (decimal rpc_port <> ":7001")
      ∷ "-e"
      ∷ ("NODE_ID=" <> id)
      ∷ "-e"
      ∷ "RAFT_RPC_ADDR=:7001"
      ∷ "-e"
      ∷ ("HTTP_ADDR=:" <> decimal http_port)
      ∷ "-e"
      ∷ "RAFT_PEERS="
      ∷ "-e"
      ∷ "DATA_DIR=/data"
      ∷ "-e"
      ∷ ("PEER_HTTP_ADDRS=" <> build_peer_http_addrs nodes id http_port)
      ∷ "-e"
      ∷ "ELECTION_TIMEOUT_MIN_MS=250"
      ∷ "-e"
      ∷ "ELECTION_TIMEOUT_MAX_MS=500"
      ∷ "-e"
      ∷ "HEARTBEAT_INTERVAL_MS=50"
      ∷ image
      ∷ []
