-- ===== src/Chaos/Live.antt =====
-- chaos/scenarios.go: the four scenarios, on a cluster that lives beside them. What the nodes do in
-- the meantime is a parameter: it happens while the scenario sleeps. A scenario is a script over the
-- nodes, the rules and the records of the injector and the calls on the harness; a panic of Fatal
-- ends it. A wait up to a deadline is a number of rounds.
pub mod Waits
pub mod Scripts
pub mod Rules
pub mod Heals
use raft_implementation.Prelude.{
  ℕ, zero, suc, ◌+◌, String, Bool, not, ltb, leb, Option, none, some, List, [], ◌∷◌, ◌++◌, map,
  filter, str_eq, if◌then◌else◌, ◌<>◌, decimal,
}
use raft_implementation.Raft.Log.{Bytes}
use raft_implementation.Raft.Disk.{empty_disk}
use raft_implementation.Raft.Node.{Config, RaftNode, new_raft_node, is_leader}
use raft_implementation.Raft.Accessors.{node_id, node_state, node_last_index, current_term}
use raft_implementation.Raft.Replication.{Message}
use raft_implementation.Raft.Membership.{Outcome, accepted_at, refused, submit}
use raft_implementation.Chaos.Harness.{
  TbCall, log_call, error_call, fatal_call, look_for_leader, two_leaders, found, nodes_consistent,
}
use raft_implementation.Chaos.Network.{Rule, remove_rule}
use raft_implementation.Chaos.Network.Calls.{next_id}
use raft_implementation.Chaos.Network.Injector.{
  partition_node, heal_partition, inject_packet_loss, heal_all,
}

-- A part of a scenario: nothing is returned after a panic.
abbrev pub Script : Type 0 → Type 0 → Type 0
Script S A = S → Option A × S

unfoldable pub pure : {S A : Type 0} → A → Script S A
pure a l = (some a, l)

abbrev pub proceed : {S A B : Type 0} → (A → Script S B) → Option A × S → Option B × S
proceed f (none, l) = (none, l)
proceed f (some a, l) = f a l

infixl 5 ◌>>=◌ ◌>>◌
unfoldable pub ◌>>=◌ : {S A B : Type 0} → Script S A → (A → Script S B) → Script S B
◌>>=◌ m f l = proceed f (m l)

abbrev pub ◌>>◌ : {S A B : Type 0} → Script S A → Script S B → Script S B
m >> k = m >>= λ _. k

unfoldable pub gets : {S A : Type 0} → (S → A) → Script S A
gets f l = (some (f l), l)

abbrev pub modify : {S : Type 0} → (S → S) → Script S Unit
modify f l = (some tt, f l)

-- `At` as the scenarios print it.
pub record Observation : Type 0 where
  pub at : String
  pub msg : String

abbrev pub Nodes : Type 0
Nodes = String → RaftNode

-- What runs beside a scenario: the goroutines of the nodes over a time and under the rules of the
-- network, the messages that a submission sends, the clock, the bytes of a string, and the number of
-- rounds of a wait of so many milliseconds.
pub record Surroundings : Type 1 where
  pub World : Type 0
  pub elapse : ℕ → List Rule → World → Nodes → World × Nodes
  pub send : String → List (String × Message) → World → World
  pub clock : World → String
  pub bytes_of : String → Bytes
  pub rounds : ℕ → ℕ

-- The names that `chaosClusterTB` gives, and the configuration of one of them.
unfoldable pub names_from : ℕ → ℕ → List String
unfolding decimal
names_from i zero = []
names_from i (suc count) = ("node" <> decimal i) ∷ names_from (i + 1) count

abbrev pub config_of : List String → String → Config
config_of ids id = record {
  id = id;
  peers = filter (λ other. not (str_eq other id)) ids;
  election_timeout_min_ms = 200;
  election_timeout_max_ms = 400;
  heartbeat_interval_ms = 60;
  self_addr = "";
}

module _ (env : Surroundings) where
  open env use {World, elapse, send, clock, bytes_of}

  pub record Live : Type 0 where
    pub ids : List String
    pub nodes : Nodes
    pub rules : List Rule
    pub counter : ℕ
    pub observations : List Observation
    pub calls : List TbCall
    pub world : World

module _ (env : Surroundings) where
  open env use {World, elapse, send, clock, bytes_of}

  abbrev pub called : TbCall → Live env → Live env
  called c l = record l { calls = l.calls ++ c ∷ [] }

  unfoldable pub tb_log : String → Script (Live env) Unit
  tb_log msg = modify (called (log_call msg))

  unfoldable pub tb_error : String → Script (Live env) Unit
  tb_error msg = modify (called (error_call msg))

  unfoldable pub tb_fatal : {A : Type 0} → String → Script (Live env) A
  tb_fatal msg l = (none, called (fatal_call msg) l)

  unfoldable pub sleep : ℕ → Script (Live env) Unit
  sleep ms l =
      let (w, nodes) = elapse ms l.rules l.world l.nodes in
      (some tt, record l { world = w; nodes = nodes })

  -- `record` of the injector.
  unfoldable pub observe : String → Script (Live env) Unit
  observe msg l = (
    some tt,
    record l { observations = l.observations ++ record { at = clock l.world; msg = msg } ∷ [] },
  )

  -- The injector with its observations; the rule identifiers come from the counter.
  unfoldable pub partition : String → Script (Live env) (String × String)
  unfolding observe next_id
  partition id l =
      let (one, out_id) = next_id "part-out" l.counter in
      let (two, in_id) = next_id "part-in" one in
      let injected = record l { counter = two; rules = partition_node out_id in_id id l.rules } in
      (observe ("partition: isolated " <> id) >> pure (out_id, in_id)) injected

  unfoldable pub heal : String → String × String → Script (Live env) Unit
  unfolding observe
  heal id rule_ids l =
      observe ("partition: healed " <> id)
        (record l { rules = heal_partition rule_ids.0 rule_ids.1 l.rules })

  unfoldable pub heal_all_links : Script (Live env) Unit
  unfolding observe
  heal_all_links l =
      observe "heal-all: full connectivity restored" (record l { rules = heal_all l.rules })

  -- `InjectPacketLoss("", "", 0.30)`, in hundredths.
  unfoldable pub lose_packets : ℕ → Script (Live env) String
  unfolding observe next_id
  lose_packets percent l =
      let (counter, id) = next_id "loss" l.counter in
      let injected = record l {
        counter = counter;
        rules = inject_packet_loss id "" "" percent l.rules;
      } in
      (observe ("packet-loss: → @ " <> decimal percent <> "%") >> pure id) injected

  unfoldable pub restore_packets : String → Script (Live env) Unit
  unfolding observe
  restore_packets id l =
      observe "packet-loss: removed → rule" (record l { rules = remove_rule id l.rules })

  unfoldable pub submit_to : String → String → Script (Live env) Outcome
  submit_to id text l =
      let (n, outcome, sent) = submit (bytes_of text) (l.nodes id) in
      (
        some outcome,
        record l {
          nodes = λ j. if str_eq id j then n else l.nodes j;
          world = send id sent l.world;
        },
      )

  -- `chaosClusterTB`, where the temporary directories can be made.
  unfoldable pub chaos_cluster : ℕ → World → Live env
  unfolding names_from
  chaos_cluster count w =
      let ids = names_from 1 count in
      record {
        ids = ids;
        nodes = λ id. new_raft_node (config_of ids id) empty_disk;
        rules = [];
        counter = 0;
        observations = [];
        calls = [];
        world = w;
      }
