-- ===== src/Chaos/Network/Injector.antt =====
-- chaos/injector.go: the faults as rules. The identifiers that `nextID` makes are arguments; the log
-- of observations is left out.
use raft_implementation.Prelude.{
  ℕ, ◌≡◌, ◌≢◌, refl, ap, ◌∙◌, String, Bool, false, ◌||◌, List, [], ◌∷◌, ◌++◌, arith, str_eq, eq_iff,
  if◌then◌else◌, any, append-nil, append_assoc,
}
use raft_implementation.Chaos.Network.{
  action_drop, action_loss, action_delay, Rule, eval_forward, eval_drop, add_rule, remove_rule,
  clear_rules, matches, perform, evaluate,
}

unfoldable pub partition_node : String → String → String → List Rule → List Rule
unfolding add_rule
partition_node out_id in_id node_id rules =
    let outward : Rule = record {
      id = out_id;
      from = node_id;
      to = "";
      act = action_drop;
      prob = 0;
      d = 0;
    } in
    let inward : Rule = record {
      id = in_id;
      from = "";
      to = node_id;
      act = action_drop;
      prob = 0;
      d = 0;
    } in
    add_rule inward (add_rule outward rules)

-- The heal function that `PartitionNode` returns.
unfoldable pub heal_partition : String → String → List Rule → List Rule
unfolding remove_rule
heal_partition out_id in_id rules = remove_rule in_id (remove_rule out_id rules)

unfoldable pub partition_asymmetric : String → String → String → List Rule → List Rule
unfolding add_rule
partition_asymmetric id src dst rules =
    add_rule (record { id = id; from = src; to = dst; act = action_drop; prob = 0; d = 0 }) rules

unfoldable pub inject_packet_loss : String → String → String → ℕ → List Rule → List Rule
unfolding add_rule
inject_packet_loss id src dst prob rules =
    add_rule (record { id = id; from = src; to = dst; act = action_loss; prob = prob; d = 0 }) rules

unfoldable pub inject_delay : String → String → String → ℕ → List Rule → List Rule
unfolding add_rule
inject_delay id src dst d rules =
    add_rule (record { id = id; from = src; to = dst; act = action_delay; prob = 0; d = d }) rules

unfoldable pub heal_all : List Rule → List Rule
unfolding clear_rules
heal_all rules = clear_rules rules

-- Whether some rule says what happens to a message.
abbrev pub decided : String → String → List Rule → Bool
decided from to rules = any (λ (r : Rule). matches r from to) rules

evaluate-append :
    (random : ℕ) (from to : String) (rules more : List Rule)
    → evaluate random from to (rules ++ more) ≡ (
        if decided from to rules
        then evaluate random from to rules
        else evaluate random from to more)
unfolding evaluate
evaluate-append random from to [] more = refl
evaluate-append random from to (r ∷ rules) more =
    ground (arith, evaluate-append random from to rules more)

two_rules :
    (random : ℕ) (from to : String) (a b : Rule)
    → evaluate random from to (a ∷ b ∷ []) ≡ (
        if matches a from to
        then perform a.act a.prob random
        else if matches b from to
        then perform b.act b.prob random
        else eval_forward)
unfolding evaluate
two_rules random from to a b = ground arith

-- Of a node with a name, messages are dropped in both directions once it is partitioned, except
-- those for which an older rule decides; a message of other nodes is forwarded where no older rule
-- decides.
pub partition_node-evaluate :
    (random : ℕ) (out_id in_id node_id from to : String) (rules : List Rule)
    → node_id ≢ ""
    → evaluate random from to (partition_node out_id in_id node_id rules) ≡ (
        if decided from to rules
        then evaluate random from to rules
        else if str_eq node_id from || str_eq node_id to
        then eval_drop
        else eval_forward)
unfolding partition_node
partition_node-evaluate random out_id in_id node_id from to rules named =
    let outward : Rule = record {
      id = out_id;
      from = node_id;
      to = "";
      act = action_drop;
      prob = 0;
      d = 0;
    } in
    let inward : Rule = record {
      id = in_id;
      from = "";
      to = node_id;
      act = action_drop;
      prob = 0;
      d = 0;
    } in
    ground (
      arith,
      append_assoc rules (outward ∷ []) (inward ∷ []),
      evaluate-append random from to rules (outward ∷ inward ∷ []),
      two_rules random from to outward inward,
      eq_iff node_id "",
      eq_iff node_id from,
      eq_iff node_id to,
    )

-- Whether a rule has this identifier.
abbrev pub uses_id : String → List Rule → Bool
uses_id id rules = any (λ (r : Rule). str_eq r.id id) rules

remove_rule-append :
    (id : String) (rules more : List Rule)
    → uses_id id rules ≡ false
    → remove_rule id (rules ++ more) ≡ rules ++ remove_rule id more
unfolding remove_rule
remove_rule-append id [] more h = refl
remove_rule-append id (r ∷ rules) more h =
    ground (arith, remove_rule-append id rules more (ground arith))

-- Healing a partition whose two identifiers are fresh and distinct gives back exactly the rules
-- from before.
pub heal-partition_node :
    (out_id in_id node_id : String) (rules : List Rule)
    → uses_id out_id rules ≡ false
    → uses_id in_id rules ≡ false
    → out_id ≢ in_id
    → heal_partition out_id in_id (partition_node out_id in_id node_id rules) ≡ rules
unfolding heal_partition partition_node remove_rule
heal-partition_node out_id in_id node_id rules h k differ =
    let outward : Rule = record {
      id = out_id;
      from = node_id;
      to = "";
      act = action_drop;
      prob = 0;
      d = 0;
    } in
    let inward : Rule = record {
      id = in_id;
      from = "";
      to = node_id;
      act = action_drop;
      prob = 0;
      d = 0;
    } in
    let two = rules ++ (outward ∷ inward ∷ []) in
    let joined : (rules ++ (outward ∷ [])) ++ (inward ∷ []) ≡ two =
      append_assoc rules (outward ∷ []) (inward ∷ []) in
    let left : remove_rule out_id (outward ∷ inward ∷ []) ≡ inward ∷ [] =
      ground (arith, eq_iff out_id out_id, eq_iff in_id out_id) in
    let none_left : remove_rule in_id (inward ∷ []) ≡ [] = ground (arith, eq_iff in_id in_id) in
    ap (λ x. remove_rule in_id (remove_rule out_id x)) joined
    ∙ ap (remove_rule in_id)
        (remove_rule-append out_id rules (outward ∷ inward ∷ []) h ∙ ap (λ x. rules ++ x) left)
    ∙ remove_rule-append in_id rules (inward ∷ []) k
    ∙ ap (λ x. rules ++ x) none_left
    ∙ append-nil rules
