-- ===== src/Kv/Examples/Requests.antt =====
-- A PUT at a leader, and at a follower.
use raft_implementation.Prelude.{refl, [], ◌∷◌, arith, string_eq, nat_eq, add64, trim_prefix}
use raft_implementation.Raft.Log.{get, last_index, snapshot_index}
use raft_implementation.Raft.Node.{RaftNode, leader, new_raft_node}
use raft_implementation.Raft.Examples.{two_old, two_old-IsLog, follower_b}
use raft_implementation.Kv.Store.{Op, Calls, apply}
use raft_implementation.Kv.Server.{Request, Server, serve_key, put_value}
use raft_implementation.Kv.Server.Writes.{IsServed, write_of, serve_key-IsServed}
use raft_implementation.Kv.Server.Applied.{IsAnswered, serve_key-applied}
use raft_implementation.Kv.Examples.Plain.{plain}

abbrev put_x : Request
put_x = record { method = "PUT"; path = "/keys/x"; uri = "/keys/x"; body = "1"; query_value = "" }

abbrev leader_b : RaftNode
leader_b = record follower_b { state = leader }

abbrev idle : Calls
idle = record { pending = []; answered = []; applied = 0; snapshot_threshold = 100 }

abbrev server : Server
server = record { node = leader_b; store = ("y", "2") ∷ []; calls = idle }

abbrev set_x : Op
set_x = record { kind = "SET"; key = "x"; value = put_value put_x }

serve_key-IsServed_example :
    IsServed plain 7 put_x server
      (serve_key plain "bad" 7 (("a", "localhost:8081") ∷ []) put_x leader_b server)
serve_key-IsServed_example =
    serve_key-IsServed plain "bad" 7 (("a", "localhost:8081") ∷ []) put_x leader_b server

serve_key-applied_example :
    let s' = (serve_key plain "bad" 7 [] put_x leader_b server).0 in
    let i = add64 (last_index two_old) 1 in
    IsAnswered 7 "bad" set_x server.store i server
      (get s'.node.log i)
      s'.calls
      (apply plain (get s'.node.log i).command server.store)
unfolding write_of trim_prefix new_raft_node snapshot_index
serve_key-applied_example =
    serve_key-applied plain "bad" 7 [] put_x leader_b server set_x server.store refl refl refl
      two_old-IsLog (ground arith)
