-- ===== src/Raft/Examples/Logs.antt =====
-- The log operations on the log of two entries of term 1.
use raft_implementation.Prelude.{ℕ, ◌+◌, ◌<◌, ◌≡◌, refl, [], ◌∷◌, arith, u64_mod, add64, sub64}
use raft_implementation.Raft.Log.{Log, get, last_index, snapshot_index, append}
use raft_implementation.Raft.Log.Shape.{IsLog, Contiguous}
use raft_implementation.Raft.Log.Operations.{append_op, read_after, act-IsLog}
use raft_implementation.Raft.Examples.{entry, two_old, two_old-IsLog}

abbrev grown : Log
grown = append two_old (entry 3 2 ∷ [])

next : Contiguous (last_index two_old + 1) (entry 3 2 ∷ [])
unfolding last_index snapshot_index add64 sub64
next = (refl, tt)

boundary : snapshot_index two_old ≡ 0
unfolding snapshot_index
boundary = refl

act-IsLog_example :
    IsLog grown
    × ((j : ℕ) → j < u64_mod → get grown j ≡ read_after (append_op (entry 3 2 ∷ [])) two_old j)
act-IsLog_example =
    act-IsLog (append_op (entry 3 2 ∷ [])) two_old two_old-IsLog (next, omega (arith, boundary))
