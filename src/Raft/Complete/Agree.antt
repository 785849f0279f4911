-- ===== src/Raft/Complete/Agree.antt =====
-- Entries that majorities have held never conflict.
use raft_implementation.Prelude.{
  ℕ, ◌<◌, ◌≤◌, ◌≡◌, inl, inr, sym, ap, ◌∙◌, String, Bool, true, List, arith, count as count_of,
  Bool-cases, ltb, ltb→lt, ltb→le,
}
use raft_implementation.Raft.Log.{Log, get, last_index}
use raft_implementation.Raft.Node.{Config}
use raft_implementation.Raft.Cluster.Quorum.{mem}
use raft_implementation.Raft.Cluster.Invariant.{quorum}
use raft_implementation.Raft.Cluster.Preserve.{AreNames}
use raft_implementation.Raft.Cluster.Safety.{AreConfigs}
use raft_implementation.Raft.Matching.{Replicas, Replicate}
use raft_implementation.Raft.Matching.Logs.{IsTraced}
use raft_implementation.Raft.Matching.Safety.{fresh_replicas}
use raft_implementation.Raft.Complete.{HasHeld, Past, Complete}
use raft_implementation.Raft.Complete.Later.{leader-Holds}
use raft_implementation.Raft.Complete.Safety.{Replicate-Complete, fresh-Complete}

-- A majority of the nodes have each held an entry of term t at index x while in that term.
pub record IsChosen (ids : List String) (past : Past) (t x : ℕ) : Type 0 where
  pub holders : String → Bool
  pub majority : quorum ids ≤ count_of holders ids
  pub held : (v : String) → holders v ≡ true → past v t x

module _ (ids : List String) (past : Past) (s : Replicas) (h : Complete ids past s) where
  -- The log of the later leader is the earlier one's up to the earlier chosen entry.
  leaders_agree :
      (t u x : ℕ) (l m : Log) (i : ℕ)
      → IsChosen ids past t x
      → t ≤ u
      → IsTraced s.book t l x
      → IsTraced s.book u m i
      → (y : ℕ) → 0 < y
      → y ≤ x
      → y ≤ i
      → get l y ≡ get m y
  leaders_agree t u x l m i chosen low from from' y pos in_l in_m =
      let reads = from.same.reads y pos in_l in
      let reads' = from'.same.reads y pos in_m in
      elim (Bool-cases (ltb t u)) [
        | inl later ↦
            let held =
              leader-Holds ids past s h t x chosen.holders chosen.majority chosen.held u u from'.by
                from'.its_log (omega arith) (ltb→lt t u later) from'.listed in
            let listed = held.listed in
            let listed' = from.listed in
            let one : held.its_log ≡ from.its_log = cc in
            reads
            ∙ ap (λ (k : Log). get k y) (sym one)
            ∙ sym (held.same.reads y pos in_l)
            ∙ sym reads'
        | inr same ↦
            let tie : t ≡ u = omega (arith, ltb→le t u same) in
            let listed = ap s.book (sym tie) ∙ from.listed in
            let listed' = from'.listed in
            let one : from.its_log ≡ from'.its_log = cc in
            reads ∙ ap (λ (k : Log). get k y) one ∙ sym reads'
      ]

-- In the runs of leader_completeness: where two logs each have an entry, at x and at z, such that
-- a majority of the nodes have each held an entry of the same term and index, in some state of the
-- run, while in that term, the two logs are the same from index 1 up to the smaller of x and z.
pub chosen_agree :
    (ids : List String) (o : String) (cfg : String → Config) (s : Replicas)
    (run : Replicate ids (fresh_replicas ids o cfg) s) (i j : String) (x z y : ℕ)
    → AreNames ids
    → AreConfigs ids cfg
    → mem o ids ≡ true
    → mem i ids ≡ true
    → mem j ids ≡ true
    → let l = (s.cluster.node i).log in
      let m = (s.cluster.node j).log in
      x ≤ last_index l
      → z ≤ last_index m
      → IsChosen ids (HasHeld ids run) (get l x).term x
      → IsChosen ids (HasHeld ids run) (get m z).term z
      → 0 < y
      → y ≤ x
      → y ≤ z
      → get l y ≡ get m y
chosen_agree ids o cfg s run i j x z y names h m mi mj in_l in_m chosen chosen' pos low low' =
    let k = Replicate-Complete ids names run (fresh-Complete ids o cfg h m) in
    let l = (s.cluster.node i).log in
    let l' = (s.cluster.node j).log in
    let t = (get l x).term in
    let u = (get l' z).term in
    let from = (k.matched.nodes i mi).good.traced x (omega arith) in_l in
    let from' = (k.matched.nodes j mj).good.traced z (omega arith) in_m in
    elim (Bool-cases (ltb u t)) [
      | inr first ↦
          leaders_agree ids (HasHeld ids run) s k t u x l l' z chosen (ltb→le u t first) from from'
            y pos low low'
      | inl second ↦
          let before = ltb→lt u t second in
          sym (
            leaders_agree ids (HasHeld ids run) s k u t z l' l x chosen' (omega arith) from' from y
              pos low' low)
    ]
