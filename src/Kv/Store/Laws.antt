-- ===== src/Kv/Store/Laws.antt =====
-- The state machine against a map from keys to values, and snapshots of it.
use raft_implementation.Prelude.{
  String, Option, none, some, ◌≡◌, arith, str_eq, if◌then◌else◌, lookup, string_eq, lookup-insert,
  lookup-delete,
}
use raft_implementation.Raft.Log.{Bytes}
use raft_implementation.Kv.Store.{Op, Data, Codec, apply_op, apply, snapshot, restore}

-- What every key reads after an operation.
abbrev pub expected : Op → Data → String → Option String
expected o d k =
    if str_eq o.kind "SET"
    then (if str_eq o.key k then some o.value else lookup k d)
    else if str_eq o.kind "DEL"
    then (if str_eq o.key k then none else lookup k d)
    else lookup k d

-- What each key reads after an operation: SET sets and DEL removes its own key and no other, and
-- any other operation changes no key.
pub apply_op-lookup : (o : Op) (d : Data) (k : String) → lookup k (apply_op o d).0 ≡ expected o d k
unfolding apply_op
apply_op-lookup o d k = ground (arith, lookup-insert o.key k o.value d, lookup-delete o.key k d)

module _ (c : Codec) where
  -- The bytes of an operation act as the operation.
  pub apply-encode_op : (o : Op) (d : Data) → apply c (c.encode_op o) d ≡ apply_op o d
  unfolding apply
  apply-encode_op o d =
      let e : c.decode_op (c.encode_op o) ≡ some o = c.decode_op-encode_op o in rw (e, apply)

  -- A snapshot restores the data it was taken of, whatever the node held before; and an operation
  -- that a client submitted then acts on it as it acts on the original.
  pub restore-snapshot :
      (d d' : Data) (bytes : Bytes) → snapshot c d ≡ some bytes → restore c bytes d' ≡ (d, none)
  unfolding restore snapshot
  restore-snapshot d d' bytes h =
      let e : c.decode_data (c.encode_data d) ≡ some d = c.decode_data-encode_data d in ground arith
