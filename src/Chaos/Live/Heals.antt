-- ===== src/Chaos/Live/Heals.antt =====
-- The scenarios leave the network as they found it.
use raft_implementation.Prelude.{
  ℕ, ◌≡◌, refl, ◌∙◌, ap, String, ltb, leb, Option, none, some, List, [], eq_iff, arith,
}
use raft_implementation.Raft.Membership.{Outcome, accepted_at, refused}
use raft_implementation.Chaos.Network.{Rule, remove_rule}
use raft_implementation.Chaos.Network.Calls.{next_id}
use raft_implementation.Chaos.Network.Injector.{
  partition_node, heal_partition, inject_packet_loss, heal_all,
}
use raft_implementation.Chaos.Live.{
  Surroundings, Live, proceed, ◌>>=◌, pure, partition, heal, heal_all_links, lose_packets,
  restore_packets,
}
use raft_implementation.Chaos.Live.Waits.{Play, submitted}
use raft_implementation.Chaos.Live.Scripts.{
  split_brain, stale_log_cannot_win, leader_isolation, Scenario, split_brain_id, stale_log_id,
  isolation_id, packet_loss_id, script, lossy_part, packet_loss_converges,
}
use raft_implementation.Chaos.Live.Rules.{
  OrPanics, KeepsRules, Triple, triple, stays, tb_log_keeps, tb_fatal_keeps, sleep_keeps,
  submit_to_keeps, pure_keeps, gets_keeps, wait_for_leader_keeps, wait_consistent_keeps,
  submit_each_keeps, count_accepted_keeps, show_observations_keeps, error_if_keeps,
  check_stepped_down_keeps, submit_lossy_keeps,
}

abbrev NoRules : List Rule → Type 0
NoRules rules = rules ≡ []

-- What a heal function would leave.
abbrev Heals : String × String → List Rule → Type 0
Heals ids rules = heal_partition ids.0 ids.1 rules ≡ []

partition_healed :
    (out_id in_id id : String)
    → heal_partition out_id in_id (partition_node out_id in_id id []) ≡ []
unfolding heal_partition partition_node remove_rule
partition_healed out_id in_id id =
    ground (arith, eq_iff out_id out_id, eq_iff in_id in_id, eq_iff in_id out_id)

module _ (env : Surroundings) where
  open env use {rounds}

  partition_triple : (id : String) → Triple env NoRules (partition env id) Heals
  unfolding partition ◌>>=◌ pure
  partition_triple id = record { holds = λ l p. rw p (partition_healed _ _ id) }

  heal_triple :
      (id : String) (ids : String × String)
      → Triple env (Heals ids) (heal env id ids) (λ _. NoRules)
  unfolding heal
  heal_triple id ids = record { holds = λ l p. p }

  split_brain-NoRules : Triple env NoRules (split_brain env) (λ _. NoRules)
  unfolding split_brain
  split_brain-NoRules = triple env (stays env (wait_for_leader_keeps env _ _)) λ _.
      triple env (stays env (sleep_keeps env 200)) λ _.
        triple env (stays env (wait_for_leader_keeps env _ _)) λ leader.
          triple env (stays env (gets_keeps env _)) λ term.
            triple env (stays env (tb_log_keeps env _)) λ _.
              triple env (stays env (submit_each_keeps env leader _ _ 0 3)) λ _.
                triple env (stays env (sleep_keeps env 200)) λ _.
                  triple env (partition_triple leader) λ cut.
                    triple env
                      (stays env (count_accepted_keeps env leader _ _ 0 0 5 (pure_keeps env tt)))
                      λ accepted. triple env (stays env (tb_log_keeps env _)) λ _.
                        triple env (stays env (wait_for_leader_keeps env _ _)) λ new_leader.
                          triple env (stays env (gets_keeps env _)) λ new_term.
                            triple env (stays env (tb_log_keeps env _)) λ _.
                              triple env (stays env (gets_keeps env _)) λ old_term.
                                triple env
                                  (stays env (error_if_keeps env (leb new_term old_term) _))
                                  λ _.
                                    triple env
                                      (stays env (submit_each_keeps env new_leader _ _ 0 3))
                                      λ _. triple env (stays env (sleep_keeps env 200)) λ _.
                                        triple env (heal_triple leader cut) λ _.
                                          triple env (stays env (sleep_keeps env 800)) λ _.
                                            triple env
                                              (stays env (check_stepped_down_keeps env leader _))
                                              λ _.
                                                triple env
                                                  (stays env (wait_consistent_keeps env _ _))
                                                  λ _. stays env (show_observations_keeps env)

  stale_log-NoRules : Triple env NoRules (stale_log_cannot_win env) (λ _. NoRules)
  unfolding stale_log_cannot_win
  stale_log-NoRules = triple env (stays env (wait_for_leader_keeps env _ _)) λ leader.
      triple env (stays env (tb_log_keeps env _)) λ _.
        triple env (stays env (tb_log_keeps env _)) λ _. triple env (partition_triple _) λ cut.
          triple env (stays env (submit_each_keeps env leader _ _ 0 10)) λ _.
            triple env (stays env (sleep_keeps env 200)) λ _. triple env (heal_triple _ cut) λ _.
              triple env (stays env (sleep_keeps env 500)) λ _.
                triple env (stays env (check_stepped_down_keeps env _ _)) λ _.
                  triple env (stays env (wait_for_leader_keeps env _ _)) λ new_leader.
                    triple env (stays env (gets_keeps env _)) λ term.
                      triple env (stays env (tb_log_keeps env _)) λ _.
                        triple env (stays env (wait_consistent_keeps env _ _))
                          λ _. stays env (show_observations_keeps env)

  heal_all_triple : (P : List Rule → Type 0) → Triple env P (heal_all_links env) (λ _. NoRules)
  unfolding heal_all_links heal_all
  heal_all_triple P = record { holds = λ l p. refl }

  submitted_keeps : (r : Outcome) (what : String) → KeepsRules env (submitted env what r)
  submitted_keeps (accepted_at index term) what = pure_keeps env tt
  submitted_keeps (refused e) what = tb_fatal_keeps env _

  isolation-NoRules : Triple env NoRules (leader_isolation env) (λ _. NoRules)
  unfolding leader_isolation
  isolation-NoRules = triple env (stays env (wait_for_leader_keeps env _ _)) λ leader.
      triple env (stays env (tb_log_keeps env _)) λ _.
        triple env (stays env (gets_keeps env _)) λ baseline.
          triple env (partition_triple leader) λ cut.
            triple env (stays env (count_accepted_keeps env leader _ _ 0 0 5 (sleep_keeps env 10)))
              λ accepted. triple env (stays env (tb_log_keeps env _)) λ _.
                triple env (stays env (wait_for_leader_keeps env _ _)) λ new_leader.
                  triple env (stays env (gets_keeps env _)) λ term.
                    triple env (stays env (tb_log_keeps env _)) λ _.
                      triple env (stays env (gets_keeps env _)) λ isolated.
                        triple env (stays env (error_if_keeps env (ltb baseline isolated) _)) λ _.
                          triple env (stays env (tb_log_keeps env _)) λ _.
                            triple env (heal_all_triple (Heals cut)) λ _.
                              triple env (stays env (sleep_keeps env 600)) λ _.
                                triple env (stays env (check_stepped_down_keeps env leader _)) λ _.
                                  triple env (stays env (submit_to_keeps env new_leader _)) λ r.
                                    triple env (stays env (submitted_keeps r "post-heal Submit"))
                                      λ _.
                                        triple env (stays env (wait_consistent_keeps env _ _))
                                          λ _. stays env (show_observations_keeps env)

  -- Without the rule of that identifier there are no rules, and so it stays, also by a panic.
  record IsLossOnly {A : Type 0} (id : String) (m : Play env A) : Type 0 where
    pub only : (l : Live env) → remove_rule id l.rules ≡ [] → remove_rule id (m l).1.rules ≡ []

  kept_only : {A : Type 0} {id : String} {m : Play env A} → KeepsRules env m → IsLossOnly id m
  kept_only {id = id} h = record { only = λ l e. ap (remove_rule id) (h.kept l) ∙ e }

  after_only :
      {A B : Type 0} (id : String) (f : A → Play env B) (x : Option A × Live env)
      → remove_rule id x.1.rules ≡ []
      → ((a : A) → IsLossOnly id (f a))
      → remove_rule id (proceed f x).1.rules ≡ []
  after_only id f (none, l) e k = e
  after_only id f (some a, l) e k = (k a).only l e

  only_loss :
      {A B : Type 0} {id : String} {m : Play env A} {f : A → Play env B}
      → IsLossOnly id m
      → ((a : A) → IsLossOnly id (f a))
      → IsLossOnly id (m >>= f)
  unfolding ◌>>=◌
  only_loss {id = id} {m = m} {f = f} h k = record {
    only = λ l e. after_only id f (m l) (h.only l e) k;
  }

  restore_only : (id : String) → IsLossOnly id (restore_packets env id)
  unfolding restore_packets remove_rule
  restore_only id = record { only = λ l e. ap (remove_rule id) e }

  lossy_part-IsLossOnly : (id : String) → IsLossOnly id (lossy_part env id)
  unfolding lossy_part
  lossy_part-IsLossOnly id = only_loss (kept_only (wait_for_leader_keeps env _ _)) λ leader.
      only_loss (kept_only (gets_keeps env _)) λ term.
        only_loss (kept_only (tb_log_keeps env _)) λ _.
          only_loss (kept_only (submit_lossy_keeps env leader 0 5)) λ _.
            only_loss (kept_only (sleep_keeps env 1000)) λ _. only_loss (restore_only id) λ _.
              only_loss (kept_only (wait_consistent_keeps env _ _))
                λ _. kept_only (show_observations_keeps env)

  loss_removed :
      (id : String) (percent : ℕ) → remove_rule id (inject_packet_loss id "" "" percent []) ≡ []
  unfolding remove_rule inject_packet_loss
  loss_removed id percent = ground (arith, eq_iff id id)

  packet_loss-NoRules :
      (l : Live env) → NoRules l.rules → NoRules (packet_loss_converges env l).1.rules
  unfolding packet_loss_converges lose_packets ◌>>=◌ pure restore_packets
  packet_loss-NoRules l p =
      let id = (next_id "loss" l.counter).1 in
      (lossy_part-IsLossOnly id).only _ (rw p (loss_removed id 30))

  ended : (x : Option Unit × Live env) → NoRules x.1.rules → OrPanics env (λ _. NoRules) x
  ended (none, l) e = tt
  ended (some a, l) e = e

  scenario-NoRules : (s : Scenario) → Triple env NoRules (script env s) (λ _. NoRules)
  scenario-NoRules split_brain_id = split_brain-NoRules
  scenario-NoRules stale_log_id = stale_log-NoRules
  scenario-NoRules isolation_id = isolation-NoRules
  scenario-NoRules packet_loss_id = record { holds = λ l p. ended _ (packet_loss-NoRules l p) }

returned_rules :
    (env : Surroundings) (x : Option Unit × Live env)
    → x.0 ≡ some tt
    → OrPanics env (λ _. NoRules) x
    → x.1.rules ≡ []
returned_rules env (none, l) e h = cc
returned_rules env (some a, l) e h = h

-- A scenario that starts without rules and ends without a panic leaves no rules, whatever the
-- nodes do while it sleeps and however many rounds its waits have.
pub script-heals :
    (env : Surroundings) (s : Scenario) (l : Live env)
    → l.rules ≡ []
    → (script env s l).0 ≡ some tt
    → (script env s l).1.rules ≡ []
script-heals env s l start ends =
    returned_rules env (script env s l) ends ((scenario-NoRules env s).holds l start)
