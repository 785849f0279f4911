-- ===== src/Kv/Server/Applied.antt =====
-- A write that a leader takes, from the request to the answer: the entry in the log, its application
-- and the call that waits for it.
use raft_implementation.Prelude.{
  ℕ, ◌+◌, ◌<◌, ◌≡◌, refl, sym, ap, subst, ◌∙◌, ◌⊎◌, inl, inr, true, false, Bool-cases, arith,
  String, none, some, [], ◌∷◌, length, GoMap, lookup, string_eq, u64_mod, add64, add64_lem, eq_iff,
  str_eq, trim_prefix,
}
use raft_implementation.Raft.Log.{Bytes, LogEntry, last_index, append, snapshot_index}
use raft_implementation.Raft.Log
use raft_implementation.Raft.Log.Shape.{IsLog}
use raft_implementation.Raft.Log.Basic.{last_index_lem}
use raft_implementation.Raft.Log.Reads.{get-append}
use raft_implementation.Raft.Node.{RaftNode, is_leader, persist}
use raft_implementation.Raft.Membership.{submit, command_entry}
use raft_implementation.Raft.Apply.{entry_msg}
use raft_implementation.Kv.Store.{
  Op, Data, Codec, apply, apply_op, ApplyResult, Calls, on_apply_msg, register,
}
use raft_implementation.Kv.Store.Laws.{expected, apply_op-lookup, apply-encode_op}
use raft_implementation.Kv.Store.Waiting.{register-on_apply_msg}
use raft_implementation.Kv.Server.{
  Request, Server, serve_key, printed, write_reply, call, set, delete_key, after_submit,
}
use raft_implementation.Kv.Server.Writes.{
  write_of, put_op, delete_op, write_of_put, write_of_delete, submit_accepted,
}

no_write : {o : Op} → some o ≡ none → ⊥
no_write h = ground arith

same_write : {o o' : Op} → some o ≡ some o' → o ≡ o'
same_write h = ground arith

abbrev done : ApplyResult
done = record { value = ""; err = none }

-- What a client may count on once the entry e of its write is applied, with the result given.
abbrev pub IsAnswered :
    ℕ → String → Op → Data → ℕ → Server → LogEntry → Calls → Data × ApplyResult → Type 0
IsAnswered channel gob_text o d i s e calls applied =
    let m = (on_apply_msg (entry_msg i e.term e.command applied.1) calls).0 in
    (m.answered ≡ (channel, done) ∷ s.calls.answered)
    × (write_reply gob_text applied.1.err ≡ printed "OK")
    × ((k : String) → lookup k applied.0 ≡ expected o d k)

write_cases : (r : Request) (o : Op) → write_of r ≡ some o → (o ≡ put_op r) ⊎ (o ≡ delete_op r)
unfolding write_of
write_cases r o h = ground arith

-- A write is of a kind that the state machine knows.
apply_op_of_write :
    (r : Request) (o : Op) (d : Data)
    → write_of r ≡ some o
    → apply_op o d ≡ ((apply_op o d).0, done)
unfolding apply_op
apply_op_of_write r o d h =
    let P : Op → Type 0 = λ o. apply_op o d ≡ ((apply_op o d).0, done) in
    elim (write_cases r o h) [ inl e ↦ subst P (sym e) refl | inr e ↦ subst P (sym e) refl ]

-- The leader's own entry is where `Submit` says that it is.
pub get-submit :
    (command : Bytes) (n : RaftNode)
    → is_leader n.state ≡ true
    → IsLog n.log
    → snapshot_index n.log + length n.log.entries + 1 < u64_mod
    → Log.get (submit command n).0.log (add64 (last_index n.log) 1) ≡ command_entry command n
unfolding submit persist
get-submit command n h w room =
    let next =
      add64_lem (last_index n.log) 1 (omega (arith, last_index_lem n.log w, w.has_sentinel)) in
    let e = command_entry command n in
    let read =
      get-append n.log w (e ∷ []) (add64 (last_index n.log) 1) (omega arith, tt) room
        (omega (arith, last_index_lem n.log w, w.has_sentinel)) in
    rw h (ground (arith, read, next))

module _ (c : Codec) (gob_text : String) where
  serve_key_write :
      (channel : ℕ) (addrs : GoMap String String) (r : Request) (seen : RaftNode) (s : Server)
      (o : Op)
      → write_of r ≡ some o
      → is_leader seen.state ≡ true
      → serve_key c gob_text channel addrs r seen s ≡ call c gob_text channel o s
  unfolding serve_key set delete_key write_of
  serve_key_write channel addrs r seen s o h l =
      let key = trim_prefix r.path "/keys/" in
      let P : Op → Type 0 =
        λ o'. serve_key c gob_text channel addrs r seen s ≡ call c gob_text channel o' s in
      elim (Bool-cases (str_eq key "")) [
        | inl e ↦ absurd (no_write (sym h ∙ rw (e, write_of) refl))
        | inr a ↦ elim (Bool-cases (str_eq r.method "PUT")) [
          | inl put ↦
              let not_get : str_eq r.method "GET" ≡ false =
                rw ((eq_iff r.method "PUT").0 put) refl in
              subst P (same_write (sym (write_of_put r a put) ∙ h))
                (rw (a, l, not_get, put, serve_key) refl)
          | inr p ↦ elim (Bool-cases (str_eq r.method "DELETE")) [
            | inl del ↦
                let not_get : str_eq r.method "GET" ≡ false =
                  rw ((eq_iff r.method "DELETE").0 del) refl in
                subst P (same_write (sym (write_of_delete r a p del) ∙ h))
                  (rw (a, l, not_get, p, del, serve_key) refl)
            | inr d ↦ absurd (no_write (sym h ∙ rw (a, p, d, write_of) refl))
          ]
        ]
      ]

  -- The state that a write leaves behind at a leader.
  abbrev taken : ℕ → Op → Server → Server
  taken channel o s = record s {
    node = (submit (c.encode_op o) s.node).0;
    calls = register (add64 (last_index s.node.log) 1) s.node.current_term channel s.calls;
  }

  serve_key-taken :
      (channel : ℕ) (addrs : GoMap String String) (r : Request) (seen : RaftNode) (s : Server)
      (o : Op)
      → write_of r ≡ some o
      → is_leader seen.state ≡ true
      → is_leader s.node.state ≡ true
      → (serve_key c gob_text channel addrs r seen s).0 ≡ taken channel o s
  unfolding call
  serve_key-taken channel addrs r seen s o h l l' =
      ap (λ x. x.0) (serve_key_write channel addrs r seen s o h l)
      ∙ ap (λ x. (after_submit c gob_text channel s x).0)
          (submit_accepted c gob_text (c.encode_op o) s.node l')

  -- A PUT or DELETE of a key that passes the check for a leader and finds the node still the
  -- leader, with a well-formed log that has room: once the entry at the returned index is applied
  -- to any data, the waiting channel is answered without an error, the handler prints OK, and
  -- every key reads as the write says.
  pub serve_key-applied :
      (channel : ℕ) (addrs : GoMap String String) (r : Request) (seen : RaftNode) (s : Server)
      (o : Op) (d : Data)
      → write_of r ≡ some o
      → is_leader seen.state ≡ true
      → is_leader s.node.state ≡ true
      → IsLog s.node.log
      → snapshot_index s.node.log + length s.node.log.entries + 1 < u64_mod
      → let s' = (serve_key c gob_text channel addrs r seen s).0 in
        let i = add64 (last_index s.node.log) 1 in
        IsAnswered channel gob_text o d i s
          (Log.get s'.node.log i)
          s'.calls
          (apply c (Log.get s'.node.log i).command d)
  unfolding write_reply register
  serve_key-applied channel addrs r seen s o d h l l' w room =
      let i = add64 (last_index s.node.log) 1 in
      let t = s.node.current_term in
      let command = c.encode_op o in
      let A : LogEntry → Calls → Data × ApplyResult → Type 0 =
        IsAnswered channel gob_text o d i s in
      let P : Server → Type 0 =
        λ s'. A (Log.get s'.node.log i) s'.calls (apply c (Log.get s'.node.log i).command d) in
      let Q : LogEntry → Type 0 = λ e. A e (taken channel o s).calls (apply c e.command d) in
      subst P (sym (serve_key-taken channel addrs r seen s o h l l')) (
        subst Q (sym (get-submit command s.node l' w room)) (
          subst (λ x. A (command_entry command s.node) (taken channel o s).calls x)
            (sym (apply-encode_op c o d ∙ apply_op_of_write r o d h))
            (
              (register-on_apply_msg i t t channel command done s.calls).0
                  ∙ ap (λ x. (channel, x) ∷ s.calls.answered) (ground arith),
              refl,
              λ k. ap (λ x. lookup k x.0) (sym (apply_op_of_write r o d h)) ∙ apply_op-lookup o d k,
            )))
