-- ===== src/Raft/Replication/Round.antt =====
-- What a leader builds for a peer: the message and the part of its log that it carries.
use raft_implementation.Prelude.{
  ℕ, ◌+◌, ◌-◌, ◌<◌, ◌≤◌, ◌≡◌, refl, sym, ap, ◌∙◌, String, arith, length, get_or, u64_mod, sub64,
  sub64_lem,
}
use raft_implementation.Raft.Log.{zero_entry, get, last_index, snapshot_index}
use raft_implementation.Raft.Log.Shape.{IsLog}
use raft_implementation.Raft.Log.Keeps.{Contiguous_at}
use raft_implementation.Raft.Log.Basic.{last_index_lem}
use raft_implementation.Raft.Log.Slices.{slice_whole}
use raft_implementation.Raft.Rpc.{AppendEntriesArgs}
use raft_implementation.Raft.Node.{RaftNode}
use raft_implementation.Raft.Replication.{next_index_of, build_args}
use raft_implementation.Raft.Replication.Handler.{IsAppend}

-- The leader can send entries to the peer: its next index is above the boundary, and not past the
-- index after the log.
pub record CanSend (peer : String) (n : RaftNode) : Type 0 where
  pub is_log : IsLog n.log
  pub above : snapshot_index n.log < next_index_of peer n
  pub within : next_index_of peer n ≤ last_index n.log + 1

-- What the message says, in terms of the leader's log.
pub record Carries (peer : String) (n : RaftNode) (args : AppendEntriesArgs) : Type 0 where
  pub prev : args.prev_log_index + 1 ≡ next_index_of peer n
  pub prev_term : args.prev_log_term ≡ (get n.log args.prev_log_index).term
  pub size : args.prev_log_index + length args.entries ≡ last_index n.log
  pub reads :
      (k : ℕ)
      → k < length args.entries
      → get_or args.entries k zero_entry ≡ get n.log (args.prev_log_index + 1 + k)
  pub is_append : IsAppend args

-- The arguments that a leader builds carry the whole of its log from the peer's next index on.
pub build_args-Carries :
    (peer : String) (n : RaftNode) → CanSend peer n → Carries peer n (build_args peer n)
unfolding build_args
build_args-Carries peer n h =
    let next = next_index_of peer n in
    let bound = last_index_lem n.log h.is_log in
    let fits : last_index n.log + 1 < u64_mod =
      omega (arith, h.is_log.fits, h.is_log.has_sentinel) in
    let prev : sub64 next 1 ≡ next - 1 =
      sub64_lem next 1 (omega (arith, h.above)) (omega (arith, h.within)) in
    let succ : sub64 next 1 + 1 ≡ next = omega (arith, h.above) in
    let (size, in_order, reads) = slice_whole n.log next h.is_log h.above h.within in
    record {
      prev = succ;
      prev_term = refl;
      size = omega arith;
      reads = λ k lt. reads k lt ∙ ap (λ i. get n.log (i + k)) (sym succ);
      is_append = record { in_order = Contiguous_at _ (sym succ) in_order; fits = omega arith };
    }
