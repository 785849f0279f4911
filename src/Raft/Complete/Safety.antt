-- ===== src/Raft/Complete/Safety.antt =====
-- Leader completeness over all runs of the cluster.
use raft_implementation.Prelude.{
  ℕ, ◌<◌, ◌≤◌, ◌≡◌, ap, ◌∙◌, String, Bool, true, List, arith, count as count_of, sub64, add64,
}
use raft_implementation.Raft.Log.{LogEntry, get, last_index, snapshot_index}
use raft_implementation.Raft.Node.{Config, leader, new_raft_node}
use raft_implementation.Raft.Cluster.Quorum.{mem}
use raft_implementation.Raft.Cluster.Invariant.{quorum}
use raft_implementation.Raft.Cluster.Preserve.{AreNames}
use raft_implementation.Raft.Cluster.Safety.{AreConfigs, start}
use raft_implementation.Raft.Matching.{
  Replicas, Move, apart, count, send, arrive, take_command, Replicate, begin, next,
}
use raft_implementation.Raft.Matching.Safety.{fresh_replicas, fresh-Matched, Move-Keeps}
use raft_implementation.Raft.Complete.{IsHolding, HasHeld, Past, seen_in, Complete}
use raft_implementation.Raft.Complete.Steps.{apart-Complete, sending-Complete, delivering-Complete}
use raft_implementation.Raft.Complete.Counted.{counting-Complete}
use raft_implementation.Raft.Complete.Commands.{commanding-Complete}
use raft_implementation.Raft.Complete.Later.{leader-Holds}

module _ (ids : List String) (names : AreNames ids) where
  Move-Complete :
      (past : Past) {s r : Replicas}
      → Move ids s r
      → Complete ids past s
      → Complete ids (seen_in past r.cluster) r
  Move-Complete past {s} (apart d st a) h = apart-Complete ids names past s h d st a
  Move-Complete past {s} (count k v now m fresh) h =
      counting-Complete ids names past s h k v now m fresh
  Move-Complete past {s} (send k i peer args m leads e) h =
      sending-Complete ids names past s h _
        (Move-Keeps ids names (send k i peer args m leads e) h.matched).0
  Move-Complete past {s} (arrive k i now args m e) h =
      delivering-Complete ids names past s h k i now args m e
        (Move-Keeps ids names (arrive k i now args m e) h.matched).0
  Move-Complete past {s} (take_command i b m room) h =
      commanding-Complete ids names past s h i b m room

  pub Replicate-Complete :
      {s r : Replicas} (run : Replicate ids s r)
      → Complete ids (λ v t x. IsHolding (s.cluster.node v) t x) s
      → Complete ids (HasHeld ids run) r
  Replicate-Complete begin h = h
  Replicate-Complete (next run m) h = Move-Complete (HasHeld ids run) m (Replicate-Complete run h)

pub fresh-Complete :
    (ids : List String) (o : String) (cfg : String → Config)
    → AreConfigs ids cfg
    → mem o ids ≡ true
    → let s = fresh_replicas ids o cfg in Complete ids (λ v t x. IsHolding (s.cluster.node v) t x) s
unfolding fresh_replicas start new_raft_node get snapshot_index last_index add64 sub64
fresh-Complete ids o cfg h m = record {
  matched = fresh-Matched ids o cfg h m;
  aged = λ v mv k a b. absurd (omega arith);
  zeroth = λ v mv. ground arith;
  booked = λ t j l e. cc;
  held = λ v t x mv was. absurd (omega (arith, was.positive, was.within));
  polls = λ k. record {
    opened_at = omega arith;
    described = λ e. absurd (ground arith);
    answered = λ v r e g. cc;
    tallied = λ v ne e. absurd (ground arith);
  };
  won = λ u j l e. cc;
}

-- Leader completeness. From fresh nodes with distinct names that are not empty and with the same
-- membership, by any steps without snapshots (elections, clean restarts, commands that fit 64
-- bits, append messages of leaders that arrive late, twice or never, where no leader steps down
-- for want of a quorum): if a majority of the nodes have each, in some state of the run, been in
-- term t with an entry of term t at index x, then every node that leads a later term has an entry
-- of term t at index x.
pub leader_completeness :
    (ids : List String) (o : String) (cfg : String → Config) (s : Replicas)
    (run : Replicate ids (fresh_replicas ids o cfg) s) (holders : String → Bool) (t x : ℕ)
    (j : String)
    → AreNames ids
    → AreConfigs ids cfg
    → mem o ids ≡ true
    → quorum ids ≤ count_of holders ids
    → ((v : String) → holders v ≡ true → HasHeld ids run v t x)
    → mem j ids ≡ true
    → (s.cluster.node j).state ≡ leader
    → t < (s.cluster.node j).current_term
    → (x ≤ last_index (s.cluster.node j).log) × ((get (s.cluster.node j).log x).term ≡ t)
leader_completeness ids o cfg s run holders t x j names h m majority have mj leads later =
    let k = Replicate-Complete ids names run (fresh-Complete ids o cfg h m) in
    let n = s.cluster.node j in
    let held =
      leader-Holds ids _ s k t x holders majority have n.current_term n.current_term j n.log
        (omega arith) later ((k.matched.nodes j mj).leads leads) in
    (
      held.same.within,
      ap (λ (e : LogEntry). e.term) (held.same.reads x held.positive (omega arith)) ∙ held.its_term,
    )
