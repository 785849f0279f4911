-- ===== src/Raft/StateMachine.antt =====
-- raft/state_machine.go: the interface of the application, which is a parameter of the apply loop.
use raft_implementation.Prelude.{Option}
use raft_implementation.Raft.Log.{Bytes}

-- The methods as functions of the application's state. `Err` is Go's `error`; a failed `restore`
-- keeps its state.
pub record StateMachine : Type 1 where
  pub State : Type 0
  pub Result : Type 0
  pub Err : Type 0
  pub apply : Bytes → State → State × Result
  pub snapshot : State → Option Bytes
  pub restore : Bytes → State → State × Option Err
