-- ===== src/Raft/Matching.antt =====
-- A cluster whose nodes replicate: the steps of Cluster with the commands that leaders take and the
-- append messages that they send, which arrive any number of times, in any order, at any node. No
-- node takes or installs a snapshot here.
pub mod Merging
pub mod Logs
pub mod Nodes
pub mod Deliver
pub mod Written
pub mod Growth
pub mod Preserve
pub mod Safety
pub mod Applied
use raft_implementation.Prelude.{
  ℕ, ◌+◌, ◌<◌, String, true, false, Option, none, some, List, ◌≡◌, ◌==◌, ◌&&◌, if◌then◌else◌,
  length, u64_mod,
}
use raft_implementation.Raft.Log.{Bytes, Log}
use raft_implementation.Raft.Rpc.{AppendEntriesArgs}
use raft_implementation.Raft.Node.{RaftNode, leader, is_leader}
use raft_implementation.Raft.Replication.{message_for, append_entries}
use raft_implementation.Raft.Steps.{
  Event, vote_request, append_request, append_reply, snapshot_reply, heartbeat_tick, command, step,
}
use raft_implementation.Raft.Cluster.{
  Cluster, Poll, Step, quiet, restart, campaign, open_poll, vote, count_answer, set_node, counted,
}
use raft_implementation.Raft.Cluster.Quorum.{mem}

-- For each term its leader with the log that it has, or had when it last led: a record of the past,
-- which no step reads.
abbrev pub Book : Type 0
Book = ℕ → Option (String × Log)

abbrev pub write_book : Book → ℕ → String → Log → Book
write_book book t i l u = if t == u then some (i, l) else book u

-- `mail k` is the k-th append message, once it is sent.
pub record Replicas : Type 0 where
  pub cluster : Cluster
  pub mail : ℕ → Option AppendEntriesArgs
  pub book : Book

-- The events that touch no log.
abbrev pub IsPlain : Event → Type 0
IsPlain (vote_request now args) = Unit
IsPlain (append_reply now peer term args r) = Unit
IsPlain (snapshot_reply peer term args r) = Unit
IsPlain (heartbeat_tick now) = Unit
IsPlain _ = ⊥

-- The steps of a cluster that touch no log and elect nobody; a restarted node has no snapshot file.
abbrev pub IsApart : (ids : List String) (c d : Cluster) → Step ids c d → Type 0
IsApart ids c _ (quiet i e m q r) = IsPlain e
IsApart ids c _ (restart i cfg m h) = (c.node i).disk.snapshot_file ≡ none
IsApart ids c _ (campaign i m e room) = Unit
IsApart ids c _ (open_poll i k m) = Unit
IsApart ids c _ (vote k v now args m q) = Unit
IsApart ids c _ (count_answer k v now m fresh) = ⊥

-- The book after node i went from n to m: a new leader is entered, and so is what a leader appends.
abbrev pub entered : Book → String → RaftNode → Book
entered book i m = if is_leader m.state then write_book book m.current_term i m.log else book

-- The owner of poll k takes v's answer.
abbrev pub counting : Replicas → ℕ → String → ℕ → Replicas
counting s k v now =
    let d = counted s.cluster k v now in
    let i = (s.cluster.poll k).owner in record s { cluster = d; book = entered s.book i (d.node i) }

abbrev pub sending : Replicas → ℕ → AppendEntriesArgs → Replicas
sending s k args = record s { mail = λ j. if k == j then some args else s.mail j }

abbrev pub delivering : Replicas → String → ℕ → AppendEntriesArgs → Replicas
delivering s i now args = record s {
  cluster = set_node s.cluster i (step (append_request now args) (s.cluster.node i));
}

-- The application submits a command to node i.
abbrev pub commanding : Replicas → String → Bytes → Replicas
commanding s i b =
    let d = set_node s.cluster i (step (command b) (s.cluster.node i)) in
    record s { cluster = d; book = entered s.book i (d.node i) }

module _ (ids : List String) where
  pub data Move (s : Replicas) : Replicas → Type 0 where
    apart :
        (d : Cluster) (st : Step ids s.cluster d)
        → IsApart ids s.cluster d st
        → Move s (record s { cluster = d })
    count :
        (k : ℕ) (v : String) (now : ℕ)
        → mem v ids ≡ true
        → (s.cluster.poll k).tally v ≡ false
        → Move s (counting s k v now)
    send :
        (k : ℕ) (i peer : String) (args : AppendEntriesArgs)
        → mem i ids ≡ true
        → (s.cluster.node i).state ≡ leader
        → message_for (s.cluster.node i) peer ≡ append_entries args
        → Move s (sending s k args)
    arrive :
        (k : ℕ) (i : String) (now : ℕ) (args : AppendEntriesArgs)
        → mem i ids ≡ true
        → s.mail k ≡ some args
        → Move s (delivering s i now args)
    take_command :
        (i : String) (b : Bytes)
        → mem i ids ≡ true
        → length (s.cluster.node i).log.entries + 1 < u64_mod
        → Move s (commanding s i b)

  pub data Replicate (s : Replicas) : Replicas → Type 0 where
    begin : Replicate s s
    next : {r u : Replicas} → Replicate s r → Move r u → Replicate s u
