-- ===== src/Raft/Membership/Peers.antt =====
-- raft/node.go: whom a node counts as a peer after a committed membership change.
use raft_implementation.Prelude.{
  ℕ, ◌≡◌, String, Bool, not, ◌||◌, ◌&&◌, List, [], ◌∷◌, ◌++◌, str_eq, eq_iff, filter, arith,
  if◌then◌else◌,
}
use raft_implementation.Raft.Log.{LogEntry}
use raft_implementation.Raft.Node.{RaftNode, is_member}
use raft_implementation.Raft.Membership.{apply_config_entry, apply_add, apply_remove}

is_member-add :
    (p a : String) (ps : List String) → is_member p (ps ++ a ∷ []) ≡ (str_eq a p || is_member p ps)
is_member-add p a [] = ground arith
is_member-add p a (q ∷ qs) = let ih = is_member-add p a qs in ground arith

is_member-filter :
    (p a : String) (ps : List String)
    → is_member p (filter (λ q. not (str_eq q a)) ps) ≡ (not (str_eq a p) && is_member p ps)
is_member-filter p a [] = ground arith
is_member-filter p a (q ∷ qs) =
    let ih = is_member-filter p a qs in ground (arith, eq_iff q a, eq_iff q p, eq_iff a p)

-- Whether p is a peer after the change, from whether it was one: a node's own address is not added,
-- and a node that is removed has no peers.
abbrev pub peer_after : String → String → String → String → Bool → Bool
peer_after op addr self p was =
    if str_eq op "add"
    then was || (str_eq addr p && not (str_eq addr self))
    else if str_eq op "remove"
    then not (str_eq addr self) && (not (str_eq addr p) && was)
    else was

-- Which addresses are peers of a node after `applyConfigEntry`: an add makes its address a peer,
-- unless it is the node's own; a removal of the node itself leaves no peer, any other removal
-- takes its address away; all other addresses stay as they were, and an entry of another kind
-- changes none.
pub apply_config_entry-is_member :
    (now : ℕ) (e : LogEntry) (n : RaftNode) (p : String)
    → is_member p (apply_config_entry now e n).peers
      ≡ peer_after e.config_op e.config_peer n.config.self_addr p (is_member p n.peers)
unfolding apply_config_entry apply_add apply_remove
apply_config_entry-is_member now e n p =
    let added = is_member-add p e.config_peer n.peers in
    let kept = is_member-filter p e.config_peer n.peers in ground (arith, eq_iff e.config_peer p)
