-- ===== src/Kv/Server/Writes.antt =====
-- What a request can change, and what a write that is served comes to.
use raft_implementation.Prelude.{
  ℕ, ◌≡◌, inl, inr, refl, sym, subst, ◌&&◌, true, false, not, String, Option, none, some, List, [],
  str_eq, if◌then◌else◌, GoMap, string_eq, nat_eq, trim_prefix, add64, Bool-cases,
}
use raft_implementation.Raft.Log.{Bytes, last_index}
use raft_implementation.Raft.Node.{RaftNode, is_leader}
use raft_implementation.Raft.Membership.{submit, Outcome, accepted_at, refused, not_leader}
use raft_implementation.Raft.Replication.{Message}
use raft_implementation.Kv.Store.{Op, Codec, register}
use raft_implementation.Kv.Server.{
  Request, Server, Step, answered, waiting, serve_key, put_value, after_submit, set, delete_key,
  call,
}

abbrev pub put_op : Request → Op
put_op r = record { kind = "SET"; key = trim_prefix r.path "/keys/"; value = put_value r }

abbrev pub delete_op : Request → Op
delete_op r = record { kind = "DEL"; key = trim_prefix r.path "/keys/"; value = "" }

-- The operation that a request asks for, if it is a write.
unfoldable pub write_of : Request → Option Op
unfolding trim_prefix
write_of r =
    let k = trim_prefix r.path "/keys/" in
    if str_eq k ""
    then none
    else if str_eq r.method "PUT"
    then some (put_op r)
    else if str_eq r.method "DELETE"
    then some (delete_op r)
    else none

pub write_of_put :
    (r : Request)
    → str_eq (trim_prefix r.path "/keys/") "" ≡ false
    → str_eq r.method "PUT" ≡ true
    → write_of r ≡ some (put_op r)
unfolding write_of
write_of_put r h k = rw (h, k) refl

pub write_of_delete :
    (r : Request)
    → str_eq (trim_prefix r.path "/keys/") "" ≡ false
    → str_eq r.method "PUT" ≡ false
    → str_eq r.method "DELETE" ≡ true
    → write_of r ≡ some (delete_op r)
unfolding write_of
write_of_delete r h k l = rw (h, k, l) refl

-- A handler that answers has changed nothing; one that waits has submitted the request's write as the
-- leader, and waits for that entry on its own channel.
abbrev pub IsServed : Codec → ℕ → Request → Server → Step → Type 0
IsServed c channel r s (s', answered reply, sent) = (s' ≡ s) × (sent ≡ [])
IsServed c channel r s (s', waiting index term, sent) =
    (o : Op) × (write_of r ≡ some o)
    × (is_leader s.node.state ≡ true)
    × (s'.node ≡ (submit (c.encode_op o) s.node).0)
    × (s'.store ≡ s.store)
    × (s'.calls ≡ register index term channel s.calls)
    × (index ≡ add64 (last_index s.node.log) 1)
    × (term ≡ s.node.current_term)

module _ (c : Codec) (gob_text : String) where
  submit_refused :
      (command : Bytes) (n : RaftNode)
      → is_leader n.state ≡ false
      → submit command n ≡ (n, refused not_leader, [])
  unfolding submit
  submit_refused command n h = rw h refl

  pub submit_accepted :
      (command : Bytes) (n : RaftNode)
      → is_leader n.state ≡ true
      → submit command n ≡ (
        (submit command n).0,
        accepted_at (add64 (last_index n.log) 1) n.current_term,
        (submit command n).2,
      )
  unfolding submit
  submit_accepted command n h = rw h refl

  call-IsServed :
      (channel : ℕ) (r : Request) (o : Op) (s : Server)
      → write_of r ≡ some o
      → IsServed c channel r s (call c gob_text channel o s)
  unfolding call
  call-IsServed channel r o s h =
      let n = s.node in
      let command = c.encode_op o in
      let P : RaftNode × Outcome × List (String × Message) → Type 0 =
        λ x. IsServed c channel r s (after_submit c gob_text channel s x) in
      elim (Bool-cases (is_leader n.state)) [
        | inr follows ↦ subst P (sym (submit_refused command n follows)) (refl, refl)
        | inl leads ↦
            subst P (sym (submit_accepted command n leads))
              (o, h, leads, refl, refl, refl, refl, refl)
      ]

  -- Whatever the node was when the handler looked and is when it acts: a handler that answers has
  -- changed nothing and sent nothing; one that waits was asked for a write, has submitted exactly
  -- its operation to a node that leads, and waits on its own channel for the next index at the
  -- current term.
  pub serve_key-IsServed :
      (channel : ℕ) (addrs : GoMap String String) (r : Request) (seen : RaftNode) (s : Server)
      → IsServed c channel r s (serve_key c gob_text channel addrs r seen s)
  unfolding serve_key write_of set delete_key
  serve_key-IsServed channel addrs r seen s =
      let key = trim_prefix r.path "/keys/" in
      elim (Bool-cases (str_eq key "")) [
        | inl h ↦ rw (h, serve_key) (refl, refl)
        | inr a ↦ elim (Bool-cases (not (str_eq r.method "GET") && not (is_leader seen.state))) [
          | inl h ↦ rw (a, h, serve_key) (refl, refl)
          | inr b ↦ elim (Bool-cases (str_eq r.method "GET")) [
            | inl h ↦ rw (a, b, h, serve_key) (refl, refl)
            | inr g ↦ elim (Bool-cases (str_eq r.method "PUT")) [
              | inl h ↦
                  rw (a, b, g, h, serve_key)
                    (call-IsServed channel r (put_op r) s (write_of_put r a h))
              | inr p ↦ elim (Bool-cases (str_eq r.method "DELETE")) [
                | inl h ↦
                    rw (a, b, g, p, h, serve_key)
                      (call-IsServed channel r (delete_op r) s (write_of_delete r a p h))
                | inr h ↦ rw (a, b, g, p, h, serve_key) (refl, refl)
              ]
            ]
          ]
        ]
      ]
