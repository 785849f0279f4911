-- ===== src/Chaos/Network.antt =====
-- chaos/network.go and chaos/injector.go: the rule engine in front of the memory network. The random
-- number of a loss rule is a parameter, the same scale as its probability; delays cost no model time.
pub mod Injector
pub mod Calls
use raft_implementation.Prelude.{
  ℕ, String, Bool, ◌&&◌, ◌||◌, not, List, [], ◌∷◌, ◌++◌, ltb, str_eq, if◌then◌else◌, filter,
}

pub data Action : Type 0 where
  action_drop action_loss action_delay : Action

pub record Rule : Type 0 where
  pub id : String
  pub from : String
  pub to : String
  pub act : Action
  pub prob : ℕ
  pub d : ℕ

pub data EvalResult : Type 0 where
  eval_forward eval_drop : EvalResult

unfoldable pub add_rule : Rule → List Rule → List Rule
add_rule r rules = rules ++ r ∷ []

unfoldable pub remove_rule : String → List Rule → List Rule
remove_rule id rules = filter (λ (r : Rule). not (str_eq r.id id)) rules

unfoldable pub clear_rules : List Rule → List Rule
clear_rules rules = []

-- An empty name is a wildcard.
abbrev pub matches : Rule → String → String → Bool
matches r from to = (str_eq r.from "" || str_eq r.from from) && (str_eq r.to "" || str_eq r.to to)

-- What the first matching rule says.
abbrev pub perform : Action → ℕ → ℕ → EvalResult
perform action_drop prob random = eval_drop
perform action_loss prob random = if ltb random prob then eval_drop else eval_forward
perform action_delay prob random = eval_forward

unfoldable pub evaluate : ℕ → String → String → List Rule → EvalResult
evaluate random from to [] = eval_forward
evaluate random from to (r ∷ rs) =
    let rest = evaluate random from to rs in
    if matches r from to then perform r.act r.prob random else rest
