-- ===== src/Raft/MemoryNetwork/Delivery.antt =====
-- What a call over the registry can do.
use raft_implementation.Prelude.{
  ◌≡◌, ◌⊎◌, inl, inr, refl, String, Bool, true, false, some, arith, Bool-cases, str_eq, eq_iff,
  if◌then◌else◌, lookup, lookup_or, string_eq, lookup-insert, lookup_or-insert,
}
use raft_implementation.Raft.Node.{RaftNode}
use raft_implementation.Raft.MemoryNetwork.{
  MemoryNetwork, Answer, answer, fault, RpcError, disconnected_node, context_done, disconnect,
  is_cut, find_node, deliver,
}

pub Answer-cases {ℓ} :
    {A : Type ℓ} (a : Answer A) → ((e : RpcError) × (a ≡ fault e)) ⊎ ((r : A) × (a ≡ answer r))
Answer-cases (answer r) = inr (r, refl)
Answer-cases (fault e) = inl (e, refl)

find_node_answer :
    (self addr : String) (net : MemoryNetwork) (n : RaftNode)
    → find_node self addr net ≡ answer n
    → (is_cut self net ≡ false) × (is_cut addr net ≡ false) × (lookup addr net.nodes ≡ some n)
unfolding find_node
find_node_answer self addr net n h = ground arith

find_node-disconnect :
    (x self addr : String) (net : MemoryNetwork)
    → (x ≡ self) ⊎ (x ≡ addr)
    → find_node self addr (disconnect x net)
      ≡ fault (disconnected_node (if is_cut self (disconnect x net) then self else addr))
unfolding find_node disconnect
find_node-disconnect x self addr net h = ground (
  arith,
  lookup_or-insert false x self true net.disconnected,
  lookup_or-insert false x addr true net.disconnected,
  eq_iff x self,
  eq_iff x addr,
)

-- A call either fails and leaves the network as it was, or both ends are connected, the context is
-- alive, the receiver is registered, its handler has run and its answer is returned, the
-- connections are as before, and no other node has changed.
pub deliver_outcomes :
    {R : Type 0} (handle : RaftNode → RaftNode × R) (done : Bool) (self addr : String)
    (net : MemoryNetwork)
    → let (m, a) = deliver handle done self addr net in
      ((m ≡ net) × (e : RpcError) × (a ≡ fault e))
      ⊎ ((is_cut self net ≡ false)
          × (is_cut addr net ≡ false)
          × (done ≡ false)
          × (m.disconnected ≡ net.disconnected)
          × (n : RaftNode) × (lookup addr net.nodes ≡ some n)
          × (a ≡ answer (handle n).1)
          × ((j : String)
              → lookup j m.nodes
                ≡ (if str_eq addr j then some (handle n).0 else lookup j net.nodes)))
unfolding deliver lookup_or lookup
deliver_outcomes handle done self addr net = elim (Answer-cases (find_node self addr net)) [
  | inl (e, failed) ↦ rw (failed, deliver) (inl (refl, e, refl))
  | inr (n, found) ↦ elim (Bool-cases done) [
    | inl t ↦ rw (found, t, deliver) (inl (refl, context_done, refl))
    | inr f ↦
        let (own, other, there) = find_node_answer self addr net n found in
        rw (found, f, deliver)
          (inr (
            own,
            other,
            refl,
            refl,
            n,
            there,
            refl,
            λ j. lookup-insert addr j (handle n).0 net.nodes,
          ))
  ]
]

-- A call from or to a disconnected node fails with an error that names a disconnected node, and
-- leaves the network as it was.
pub disconnect-deliver :
    {R : Type 0} (handle : RaftNode → RaftNode × R) (done : Bool) (x self addr : String)
    (net : MemoryNetwork)
    → (x ≡ self) ⊎ (x ≡ addr)
    → ((deliver handle done self addr (disconnect x net)).0 ≡ disconnect x net)
      × (y : String) × ((deliver handle done self addr (disconnect x net)).1
          ≡ fault (disconnected_node y))
unfolding deliver disconnect
disconnect-deliver handle done x self addr net h =
    let e = find_node-disconnect x self addr net h in
    rw (e, deliver) (refl, (if is_cut self (disconnect x net) then self else addr), refl)
