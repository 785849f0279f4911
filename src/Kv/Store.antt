-- ===== src/Kv/Store.antt =====
-- kvstore/kvstore.go: the state machine, and the calls that wait for their log index. The gob
-- encoding is a parameter. A waiting caller is a number, its channel; what is written to a channel is
-- a list of answers. The wait and its timeout are separate steps.
pub mod Laws
pub mod Waiting
pub mod Snapshots
pub mod Refines
use raft_implementation.Prelude.{
  ℕ, ◌%◌, String, Bool, false, ◌&&◌, Option, none, some, List, [], ◌∷◌, ◌++◌, ◌==◌, ltb, str_eq,
  if◌then◌else◌, GoMap, lookup, insert, delete, string_eq, nat_eq, add64, ◌≡◌,
}
use raft_implementation.Raft.Log.{Bytes}
use raft_implementation.Raft.StateMachine.{StateMachine}
use raft_implementation.Raft.Apply.{ApplyMsg, entry_msg, snapshot_msg}

-- `op`, with its field Type named kind.
pub record Op : Type 0 where
  pub kind : String
  pub key : String
  pub value : String

pub data Failure : Type 0 where
  not_leader key_not_found timeout decode_error : Failure
  unknown_op : String → Failure

pub record ApplyResult : Type 0 where
  pub value : String
  pub err : Option Failure

abbrev pub Data : Type 0
Data = GoMap String String

-- encoding/gob: documented to decode what it encoded.
pub record Codec : Type 0 where
  pub encode_op : Op → Bytes
  pub decode_op : Bytes → Option Op
  pub encode_data : Data → Bytes
  pub decode_data : Bytes → Option Data
  pub decode_op-encode_op : (o : Op) → decode_op (encode_op o) ≡ some o
  pub decode_data-encode_data : (d : Data) → decode_data (encode_data d) ≡ some d

abbrev no_error : ApplyResult
no_error = record { value = ""; err = none }

abbrev pub failed : Failure → ApplyResult
failed f = record { value = ""; err = some f }

-- The `switch` of `Apply`.
unfoldable pub apply_op : Op → Data → Data × ApplyResult
apply_op o d =
    if str_eq o.kind "SET"
    then (insert o.key o.value d, no_error)
    else if str_eq o.kind "DEL"
    then (delete o.key d, no_error)
    else (d, failed (unknown_op o.kind))

unfoldable pub get : String → Data → String × Option Failure
get k d = elim (lookup k d) [ none ↦ ("", some key_not_found) | some v ↦ (v, none) ]

module _ (c : Codec) where
  unfoldable pub apply : Bytes → Data → Data × ApplyResult
  unfolding apply_op
  apply command d = elim (c.decode_op command) [
    | none ↦ (d, failed decode_error)
    | some o ↦ apply_op o d
  ]

  unfoldable pub snapshot : Data → Option Bytes
  snapshot d = some (c.encode_data d)

  unfoldable pub restore : Bytes → Data → Data × Option Failure
  restore bytes d = elim (c.decode_data bytes) [
    | none ↦ (d, some decode_error)
    | some d' ↦ (d', none)
  ]

  -- `KVStore` implements `raft.StateMachine`.
  abbrev pub kv_machine : StateMachine
  kv_machine = record {
    State = Data;
    Result = ApplyResult;
    Err = Failure;
    apply = apply;
    snapshot = snapshot;
    restore = restore;
  }

-- `pendingCall`; the channel is a number.
pub record PendingCall : Type 0 where
  pub term : ℕ
  pub channel : ℕ

-- The calls in flight, what was written to their channels (the newest first), and the counter of
-- `readApplyCh`.
pub record Calls : Type 0 where
  pub pending : GoMap ℕ PendingCall
  pub answered : List (ℕ × ApplyResult)
  pub applied : ℕ
  pub snapshot_threshold : ℕ

-- `call`, once `Submit` has returned an index and a term.
unfoldable pub register : ℕ → ℕ → ℕ → Calls → Calls
register index term channel cs = record cs {
  pending = insert index (record { term = term; channel = channel }) cs.pending;
}

-- The timeout branch of `call`.
unfoldable pub give_up : ℕ → Calls → Calls × String × Option Failure
give_up index cs = (record cs { pending = delete index cs.pending }, "", some timeout)

-- The loop of `failAllPending`.
abbrev pub refusals : GoMap ℕ PendingCall → List (ℕ × ApplyResult)
refusals [] = []
refusals ((i, p) ∷ rest) = (p.channel, failed not_leader) ∷ refusals rest

unfoldable pub fail_all_pending : Calls → Calls
fail_all_pending cs = record cs { pending = []; answered = refusals cs.pending ++ cs.answered }

-- The answer for a waiting caller: its own result only if the entry is of its term.
abbrev routed : ℕ → ApplyResult → PendingCall → ApplyResult
routed term r p = if p.term == term then r else failed not_leader

abbrev snapshot_due : Calls → Bool
snapshot_due cs = ltb 0 cs.snapshot_threshold && (cs.applied % cs.snapshot_threshold == 0)

-- One round of `readApplyCh`; the flag says that the round takes a snapshot.
unfoldable pub on_apply_msg : ApplyMsg ApplyResult → Calls → Calls × Bool
unfolding fail_all_pending
on_apply_msg (snapshot_msg index term bytes) cs =
    (record (fail_all_pending cs) { applied = index }, false)
on_apply_msg (entry_msg index term command r) cs₀ =
    let cs = record cs₀ { applied = add64 cs₀.applied 1 } in
    elim (lookup index cs.pending) [
      | none ↦ (cs, snapshot_due cs)
      | some p ↦ (
        record cs {
          pending = delete index cs.pending;
          answered = (p.channel, routed term r p) ∷ cs.answered;
        },
        snapshot_due cs,
      )
    ]
