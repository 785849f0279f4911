-- ===== src/Raft/Complete.antt =====
-- Leader completeness over the cluster of Matching: what a run has shown that nodes held, what a voter
-- knew when it voted, and the invariant that carries both to later leaders.
pub mod Kept
pub mod Logs
pub mod Nodes
pub mod Polls
pub mod Wins
pub mod Carry
pub mod Steps
pub mod Leading
pub mod Counted
pub mod Commands
pub mod Later
pub mod Safety
pub mod Agree
pub mod Acks
use raft_implementation.Prelude.{
  ℕ, ◌-◌, ◌<◌, ◌≤◌, ◌≡◌, ◌≢◌, ◌⊎◌, String, Bool, true, some, List, count,
}
use raft_implementation.Raft.Log.{Log, get, last_index, last_term}
use raft_implementation.Raft.Rpc.{RequestVoteArgs, RequestVoteReply}
use raft_implementation.Raft.Node.{RaftNode, candidate}
use raft_implementation.Raft.Election.{up_to_date}
use raft_implementation.Raft.Cluster.{Cluster, Poll}
use raft_implementation.Raft.Cluster.Quorum.{mem}
use raft_implementation.Raft.Cluster.Invariant.{quorum}
use raft_implementation.Raft.Matching.{Book, Replicas, Replicate, begin, next}
use raft_implementation.Raft.Matching.Logs.{AreSame, IsGood}
use raft_implementation.Raft.Matching.Preserve.{Matched}

-- A node in term t that has an entry of that term at index x.
pub record IsHolding (n : RaftNode) (t x : ℕ) : Type 0 where
  pub in_term : n.current_term ≡ t
  pub positive : 0 < x
  pub within : x ≤ last_index n.log
  pub its_term : (get n.log x).term ≡ t

-- Node v has held such an entry in some state of the run.
abbrev pub HasHeld :
    (ids : List String) {s r : Replicas} → Replicate ids s r → String → ℕ → ℕ → Type 0
HasHeld ids {s} begin v t x = IsHolding (s.cluster.node v) t x
HasHeld ids (next {u = u} run m) v t x = HasHeld ids run v t x ⊎ IsHolding (u.cluster.node v) t x

-- Which nodes have held an entry of which term at which index.
abbrev pub Past : Type 1
Past = String → ℕ → ℕ → Type 0

-- The past with one more state.
abbrev pub seen_in : Past → Cluster → Past
seen_in past c v t x = past v t x ⊎ IsHolding (c.node v) t x

-- The log l is that of the leader of term t up to index x, where that leader has an entry of its
-- own term.
pub record Holds (book : Book) (t x : ℕ) (l : Log) : Type 0 where
  pub by : String
  pub its_log : Log
  pub listed : book t ≡ some (by, its_log)
  pub same : AreSame l its_log x
  pub positive : 0 < x
  pub its_term : (get its_log x).term ≡ t

-- A leader of a term after t, up to b, has another entry than the leader of t at or below index x.
pub record Strays (book : Book) (t x b : ℕ) : Type 0 where
  pub by : String
  pub its_log : Log
  pub listed : book t ≡ some (by, its_log)
  pub within : x ≤ last_index its_log
  pub later : ℕ
  pub after : t < later
  pub until : later ≤ b
  pub rival : String
  pub rival_log : Log
  pub rival_listed : book later ≡ some (rival, rival_log)
  pub place : ℕ
  pub positive : 0 < place
  pub low : place ≤ x
  pub in_rival : place ≤ last_index rival_log
  pub differs : get rival_log place ≢ get its_log place

abbrev pub Kept : Book → ℕ → ℕ → ℕ → Log → Type 0
Kept book t x b l = Holds book t x l ⊎ Strays book t x b

abbrev pub TermsUpTo : Log → ℕ → Type 0
TermsUpTo l t = (k : ℕ) → 0 < k → k ≤ last_index l → (get l k).term ≤ t

-- A vote of v in term u: the log that it had then passed the check of the request, and kept what v
-- had held before, unless a leader up to term b strayed. The voter's term is now c.
pub record Voucher (past : Past) (book : Book) (v : String) (u b : ℕ) (request : RequestVoteArgs)
    (c : ℕ) : Type 0 where
  pub log : Log
  pub good : IsGood book log
  pub passed : up_to_date request log ≡ true
  pub kept : (t x : ℕ) → t < u → past v t x → Kept book t x b log
  pub late : u ≤ c

abbrev pub Describes : RequestVoteArgs → Log → Type 0
Describes request l =
    (request.last_log_index ≡ last_index l) × (request.last_log_term ≡ last_term l)

-- How the leader of term u, whose log is l, was elected: with which log, and by whom.
pub record Win (ids : List String) (past : Past) (book : Book) (c : Cluster) (u : ℕ) (l : Log)
    : Type 0 where
  pub bid : Log
  pub good : IsGood book bid
  pub same : AreSame bid l (last_index bid)
  pub zeroth : (get bid 0).term ≡ 0
  pub older : (k : ℕ) → 0 < k → k ≤ last_index bid → (get bid k).term < u
  pub request : RequestVoteArgs
  pub described : Describes request bid
  pub voters : String → Bool
  pub majority : quorum ids ≤ count voters ids
  pub vouched :
      (v : String) → voters v ≡ true → Voucher past book v u (u - 1) request (c.node v).current_term

-- The request of a poll is that of its owner's log while the owner is a candidate, and each vote in it
-- has a voucher.
pub record IsSincere (past : Past) (book : Book) (c : Cluster) (p : Poll) : Type 0 where
  pub opened_at : p.ballot.term ≤ (c.node p.owner).current_term
  pub described :
      (c.node p.owner).state ≡ candidate
      → (c.node p.owner).current_term ≡ p.ballot.term
      → Describes p.request (c.node p.owner).log
  pub answered :
      (v : String) (r : RequestVoteReply)
      → p.answers v ≡ some r
      → r.vote_granted ≡ true
      → Voucher past book v p.ballot.term p.ballot.term p.request (c.node v).current_term
  pub tallied :
      (v : String)
      → v ≢ p.owner
      → p.tally v ≡ true
      → Voucher past book v p.ballot.term p.ballot.term p.request (c.node v).current_term

pub record Complete (ids : List String) (past : Past) (s : Replicas) : Type 0 where
  pub matched : Matched ids s
  pub aged :
      (v : String)
      → mem v ids ≡ true
      → TermsUpTo (s.cluster.node v).log (s.cluster.node v).current_term
  pub zeroth : (v : String) → mem v ids ≡ true → (get (s.cluster.node v).log 0).term ≡ 0
  pub booked : (t : ℕ) (j : String) (l : Log) → s.book t ≡ some (j, l) → TermsUpTo l t
  pub held :
      (v : String) (t x : ℕ)
      → mem v ids ≡ true
      → past v t x
      → (t ≤ (s.cluster.node v).current_term)
        × Kept s.book t x (s.cluster.node v).current_term (s.cluster.node v).log
  pub polls : (k : ℕ) → IsSincere past s.book s.cluster (s.cluster.poll k)
  pub won :
      (u : ℕ) (j : String) (l : Log) → s.book u ≡ some (j, l) → Win ids past s.book s.cluster u l
