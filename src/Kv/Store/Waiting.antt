-- ===== src/Kv/Store/Waiting.antt =====
-- The calls that wait for their log index: who is answered, and with what.
use raft_implementation.Prelude.{
  ℕ, ◌≡◌, ◌≢◌, refl, some, none, ◌∷◌, arith, ◌==◌, ==_iff, if◌then◌else◌, lookup, insert, delete,
  nat_eq, lookup-insert, lookup-delete,
}
use raft_implementation.Raft.Log.{Bytes}
use raft_implementation.Raft.Apply.{entry_msg}
use raft_implementation.Kv.Store.{
  ApplyResult, Calls, PendingCall, register, give_up, on_apply_msg, failed, not_leader,
}

-- A call registered for an index hears of the entry of that index once: it gets the entry's own result
-- if the entry is of the term in which the command was submitted, and not_leader otherwise. The call
-- is then gone, and every other call is as it was.
pub register-on_apply_msg :
    (index term term' channel : ℕ) (command : Bytes) (r : ApplyResult) (cs : Calls)
    → let m = (on_apply_msg (entry_msg index term' command r) (register index term channel cs)).0 in
      (m.answered ≡ (channel, if term == term' then r else failed not_leader) ∷ cs.answered)
      × (lookup index m.pending ≡ none)
      × ((j : ℕ) → j ≢ index → lookup j m.pending ≡ lookup j cs.pending)
unfolding on_apply_msg register
register-on_apply_msg index term term' channel command r cs =
    let p : PendingCall = record { term = term; channel = channel } in
    let e : lookup index (insert index p cs.pending) ≡ some p =
      ground (arith, lookup-insert index index p cs.pending, ==_iff index index) in
    let gone : lookup index (delete index (insert index p cs.pending)) ≡ none =
      ground (arith, lookup-delete index index (insert index p cs.pending), ==_iff index index) in
    let others : (j : ℕ)
        → j ≢ index
        → lookup j (delete index (insert index p cs.pending)) ≡ lookup j cs.pending =
      λ j ne. ground (
        arith,
        lookup-delete index j (insert index p cs.pending),
        lookup-insert index j p cs.pending,
        ==_iff index j,
      ) in
    rw (e, on_apply_msg, register) (ground arith, gone, others)

-- A call that has given up hears nothing of its entry.
pub give_up-on_apply_msg :
    (index term : ℕ) (command : Bytes) (r : ApplyResult) (cs : Calls)
    → (on_apply_msg (entry_msg index term command r) (give_up index cs).0).0.answered ≡ cs.answered
unfolding on_apply_msg give_up
give_up-on_apply_msg index term command r cs =
    let gone : lookup index (delete index cs.pending) ≡ none =
      ground (arith, lookup-delete index index cs.pending, ==_iff index index) in
    rw (gone, on_apply_msg, give_up) refl
