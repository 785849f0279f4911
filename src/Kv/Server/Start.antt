-- ===== src/Kv/Server/Start.antt =====
-- cmd/kvstore/main.go: how `main` builds a node from its environment, and the timeouts that it gets.
-- os.Getenv and os.MkdirAll are arguments, and none stands for log.Fatalf.
use raft_implementation.Prelude.{
  ℕ, ◌+◌, ◌-◌, ◌<◌, ◌≤◌, ◌≡◌, ◌⊎◌, refl, sym, ltb, ltb→lt, ltb→le, String, Bool, Option, none, some,
  arith, str_eq, if◌then◌else◌, Bool-cases, inl, inr,
}
use raft_implementation.Raft.Disk.{Disk}
use raft_implementation.Raft.Node.{Config, RaftNode, new_raft_node}
use raft_implementation.Raft.EventLoop.{random_election_timeout}
use raft_implementation.Kv.Store.{Data, Calls}
use raft_implementation.Kv.Store.Snapshots.{new_store}
use raft_implementation.Kv.Server.Addrs.{split_non_empty, env_int_or_default, derive_self_addr}

infixl 20 ◌>>=◌
-- A step that may end the process.
abbrev pub ◌>>=◌ : {A B : Type 0} → Option A → (A → Option B) → Option B
none >>= f = none
some x >>= f = f x

module _ (atoi : String → Option ℕ) (env : String → String) (makes_dir : String → Bool) where
  unfoldable pub must_env : String → Option String
  must_env key = let v = env key in if str_eq v "" then none else some v

  -- The settings of the node; 44 is the code of the comma.
  unfoldable pub config_of_env : String → String → Config
  unfolding split_non_empty env_int_or_default derive_self_addr
  config_of_env node_id raft_rpc_addr = record {
    id = node_id;
    self_addr = derive_self_addr (env "NODE_RPC_ADDR") node_id raft_rpc_addr;
    peers = split_non_empty (env "RAFT_PEERS") 44;
    election_timeout_min_ms = env_int_or_default atoi (env "ELECTION_TIMEOUT_MIN_MS") 150;
    election_timeout_max_ms = env_int_or_default atoi (env "ELECTION_TIMEOUT_MAX_MS") 300;
    heartbeat_interval_ms = env_int_or_default atoi (env "HEARTBEAT_INTERVAL_MS") 50;
  }

  -- `main`, up to the start of its servers.
  unfoldable pub start_node : Disk → Option (Data × Calls × RaftNode)
  unfolding must_env config_of_env
  start_node disk = do
    node_id ← must_env "NODE_ID"
    raft_rpc_addr ← must_env "RAFT_RPC_ADDR"
    http_addr ← must_env "HTTP_ADDR"
    data_dir ← must_env "DATA_DIR"
    if makes_dir data_dir then some (new_store (config_of_env node_id raft_rpc_addr) disk) else none

positive_or_default :
    (atoi : String → Option ℕ) (v : String) (d : ℕ) → 0 < d → 0 < env_int_or_default atoi v d
unfolding env_int_or_default
positive_or_default atoi v d pos = ground arith

-- A node is started with the bounds of its settings.
start_node-bounds :
    (atoi : String → Option ℕ) (env : String → String) (makes_dir : String → Bool) (disk : Disk)
    (d : Data) (cs : Calls) (n : RaftNode)
    → start_node atoi env makes_dir disk ≡ some (d, cs, n)
    → (n.config.election_timeout_min_ms
        ≡ env_int_or_default atoi (env "ELECTION_TIMEOUT_MIN_MS") 150)
      × (n.config.election_timeout_max_ms
          ≡ env_int_or_default atoi (env "ELECTION_TIMEOUT_MAX_MS") 300)
unfolding start_node must_env new_raft_node
start_node-bounds atoi env makes_dir disk d cs n h =
    let low = positive_or_default atoi (env "ELECTION_TIMEOUT_MIN_MS") 150 (omega arith) in
    let high = positive_or_default atoi (env "ELECTION_TIMEOUT_MAX_MS") 300 (omega arith) in
    ground arith

-- rand.Intn is documented to give a number below its bound, and to panic unless the bound is
-- positive.
pub record IsIntn (intn : ℕ → Option ℕ) : Type 0 where
  pub below : (k : ℕ) → 0 < k → (r : ℕ) × (intn k ≡ some r) × (r < k)
  pub panics : intn 0 ≡ none

drawn_between :
    (intn : ℕ → Option ℕ) (cfg : Config)
    → IsIntn intn
    → let lowest = cfg.election_timeout_min_ms in
      let highest = cfg.election_timeout_max_ms in
      ((lowest < highest)
        × ((w : ℕ) × (random_election_timeout intn cfg ≡ some w) × (lowest ≤ w) × (w < highest)))
      ⊎ ((highest ≤ lowest) × (random_election_timeout intn cfg ≡ none))
unfolding random_election_timeout
drawn_between intn cfg h =
    let lowest = cfg.election_timeout_min_ms in
    let highest = cfg.election_timeout_max_ms in
    elim (Bool-cases (ltb lowest highest)) [
      | inl apart ↦
          let gap = ltb→lt lowest highest apart in
          let (r, drawn, under) = h.below (highest - lowest) (omega arith) in
          inl
            (gap, (lowest + r, rw (random_election_timeout, drawn) refl, omega arith, omega arith))
      | inr crossed ↦
          let gap = ltb→le lowest highest crossed in
          let nothing : highest - lowest ≡ 0 = omega arith in
          inr (gap, rw (random_election_timeout, nothing, h.panics) refl)
    ]

-- A node that `main` builds, with a rand.Intn as documented: either the lower bound that its
-- settings give is below the upper one, and the election timeout that it draws is at least the
-- lower and below the upper bound, or the lower bound is not below the upper one, and the draw
-- panics.
pub start_node-timeout :
    (atoi : String → Option ℕ) (env : String → String) (makes_dir : String → Bool) (disk : Disk)
    (intn : ℕ → Option ℕ) (d : Data) (cs : Calls) (n : RaftNode)
    → IsIntn intn
    → start_node atoi env makes_dir disk ≡ some (d, cs, n)
    → let lowest = env_int_or_default atoi (env "ELECTION_TIMEOUT_MIN_MS") 150 in
      let highest = env_int_or_default atoi (env "ELECTION_TIMEOUT_MAX_MS") 300 in
      ((lowest < highest)
        × ((w : ℕ) × (random_election_timeout intn n.config ≡ some w)
            × (lowest ≤ w)
            × (w < highest)))
      ⊎ ((highest ≤ lowest) × (random_election_timeout intn n.config ≡ none))
start_node-timeout atoi env makes_dir disk intn d cs n h started =
    let (low, high) = start_node-bounds atoi env makes_dir disk d cs n started in
    let drawn = drawn_between intn n.config h in rw (sym low, sym high) drawn
