-- ===== src/Chaos/Live/Rules.antt =====
-- What the parts of a scenario do to the rules of the network: all but the injections keep them.
use raft_implementation.Prelude.{
  ℕ, zero, suc, ◌+◌, ◌≡◌, refl, sym, ◌∙◌, String, Bool, true, false, Option, none, some, List, [],
  ◌∷◌, map, if◌then◌else◌, Bool-cases, inl, inr, subst,
}
use raft_implementation.Raft.Node.{is_leader}
use raft_implementation.Raft.Membership.{accepted_at, refused}
use raft_implementation.Chaos.Harness.{look_for_leader, Found, two_leaders, found, nodes_consistent}
use raft_implementation.Chaos.Network.{Rule}
use raft_implementation.Chaos.Live.{
  Surroundings, Live, proceed, ◌>>=◌, pure, gets, Observation, tb_log, tb_error, tb_fatal, sleep,
  submit_to,
}
use raft_implementation.Chaos.Live.Waits.{
  Play, leader_or, wait_for_leader, log_indexes, wait_consistent, submit_each, count_accepted,
  log_observations, show_observations, check_stepped_down,
}
use raft_implementation.Chaos.Live.Scripts.{submit_lossy}

module _ (env : Surroundings) where
  open env use {rounds}

  -- Whatever it returns, also by a panic, the rules stay.
  pub record KeepsRules {A : Type 0} (m : Play env A) : Type 0 where
    pub kept : (l : Live env) → (m l).1.rules ≡ l.rules

  abbrev pub OrPanics : {A : Type 0} → (A → List Rule → Type 0) → Option A × Live env → Type 0
  OrPanics Q (none, l) = Unit
  OrPanics Q (some a, l) = Q a l.rules

  -- From rules with P, the script panics or ends with Q.
  pub record Triple {A : Type 0} (P : List Rule → Type 0) (m : Play env A)
      (Q : A → List Rule → Type 0) : Type 0 where
    pub holds : (l : Live env) → P l.rules → OrPanics Q (m l)

  after_keeps :
      {A B : Type 0} (f : A → Play env B) (R : List Rule) (x : Option A × Live env)
      → x.1.rules ≡ R
      → ((a : A) → KeepsRules (f a))
      → (proceed f x).1.rules ≡ R
  after_keeps f R (none, l) e k = e
  after_keeps f R (some a, l) e k = (k a).kept l ∙ e

  pub keeps :
      {A B : Type 0} {m : Play env A} {f : A → Play env B}
      → KeepsRules m
      → ((a : A) → KeepsRules (f a))
      → KeepsRules (m >>= f)
  unfolding ◌>>=◌
  keeps {m = m} {f = f} h k = record { kept = λ l. after_keeps f l.rules (m l) (h.kept l) k }

  after_triple :
      {A B : Type 0} (f : A → Play env B) (Q : A → List Rule → Type 0) (R : B → List Rule → Type 0)
      (x : Option A × Live env)
      → OrPanics Q x
      → ((a : A) → Triple (Q a) (f a) R)
      → OrPanics R (proceed f x)
  after_triple f Q R (none, l) e k = tt
  after_triple f Q R (some a, l) e k = (k a).holds l e

  pub triple :
      {A B : Type 0} {P : List Rule → Type 0} {Q : A → List Rule → Type 0}
      {R : B → List Rule → Type 0} {m : Play env A} {f : A → Play env B}
      → Triple P m Q
      → ((a : A) → Triple (Q a) (f a) R)
      → Triple P (m >>= f) R
  unfolding ◌>>=◌
  triple {Q = Q} {R = R} {m = m} {f = f} h k = record {
    holds = λ l p. after_triple f Q R (m l) (h.holds l p) k;
  }

  kept_after :
      {A : Type 0} (P : List Rule → Type 0) (R : List Rule) (x : Option A × Live env)
      → x.1.rules ≡ R
      → P R
      → OrPanics (λ a. P) x
  kept_after P R (none, l) e p = tt
  kept_after P R (some a, l) e p = subst P (sym e) p

  -- What keeps the rules keeps every statement of them.
  pub stays :
      {A : Type 0} {P : List Rule → Type 0} {m : Play env A} → KeepsRules m → Triple P m (λ a. P)
  stays {P = P} {m = m} h = record { holds = λ l p. kept_after P l.rules (m l) (h.kept l) p }

  pub tb_log_keeps : (msg : String) → KeepsRules (tb_log env msg)
  unfolding tb_log
  tb_log_keeps msg = record { kept = λ l. refl }

  pub tb_error_keeps : (msg : String) → KeepsRules (tb_error env msg)
  unfolding tb_error
  tb_error_keeps msg = record { kept = λ l. refl }

  pub tb_fatal_keeps : {A : Type 0} (msg : String) → KeepsRules {A = A} (tb_fatal env msg)
  unfolding tb_fatal
  tb_fatal_keeps msg = record { kept = λ l. refl }

  pub sleep_keeps : (ms : ℕ) → KeepsRules (sleep env ms)
  unfolding sleep
  sleep_keeps ms = record { kept = λ l. refl }

  pub submit_to_keeps : (id text : String) → KeepsRules (submit_to env id text)
  unfolding submit_to
  submit_to_keeps id text = record { kept = λ l. refl }

  pub pure_keeps : {A : Type 0} (a : A) → KeepsRules {A = A} (pure a)
  unfolding pure
  pure_keeps a = record { kept = λ l. refl }

  pub gets_keeps : {A : Type 0} (f : Live env → A) → KeepsRules (gets f)
  unfolding gets
  gets_keeps f = record { kept = λ l. refl }

  leader_or_keeps :
      (later : Option String × Live env) (l : Live env) (x : Found)
      → later.1.rules ≡ l.rules
      → (leader_or env later l x).1.rules ≡ l.rules
  unfolding pure
  leader_or_keeps later l two_leaders e =
      (tb_fatal_keeps {A = String} "two leaders elected simultaneously").kept l
  leader_or_keeps later l (found none) e = e
  leader_or_keeps later l (found (some n)) e = refl

  pub wait_for_leader_keeps : (k : ℕ) (ids : List String) → KeepsRules (wait_for_leader env k ids)
  unfolding wait_for_leader
  wait_for_leader_keeps zero ids = tb_fatal_keeps "no leader elected within timeout"
  wait_for_leader_keeps (suc k) ids = record {
    kept = λ l.
        leader_or_keeps _ l (look_for_leader (map l.nodes ids) none)
          ((keeps (sleep_keeps 15) (λ _. wait_for_leader_keeps k ids)).kept l);
  }

  log_indexes_keeps : (ids : List String) → KeepsRules (log_indexes env ids)
  unfolding log_indexes
  log_indexes_keeps [] = pure_keeps tt
  log_indexes_keeps (i ∷ ids) =
      keeps (gets_keeps _) λ last. keeps (tb_log_keeps _) λ _. log_indexes_keeps ids

  pub wait_consistent_keeps : (k : ℕ) (ids : List String) → KeepsRules (wait_consistent env k ids)
  unfolding wait_consistent
  wait_consistent_keeps zero ids = record {
    kept = λ l. (keeps (log_indexes_keeps ids) (λ _. tb_fatal_keeps _)).kept l;
  }
  wait_consistent_keeps (suc k) ids = record {
    kept = λ l.
        let later = keeps (sleep_keeps 20) (λ _. wait_consistent_keeps k ids) in
        elim (Bool-cases (nodes_consistent (map l.nodes ids))) [
          | inl agree ↦ rw agree ((pure_keeps tt).kept l)
          | inr differ ↦ rw differ (later.kept l)
        ];
  }

  pub submit_each_keeps :
      (leader prefix what : String) (i count : ℕ)
      → KeepsRules (submit_each env leader prefix what i count)
  unfolding submit_each
  submit_each_keeps leader prefix what i zero = pure_keeps tt
  submit_each_keeps leader prefix what i (suc count) = keeps (submit_to_keeps leader _) (elim [
    | accepted_at index term ↦ submit_each_keeps leader prefix what (i + 1) count
    | refused e ↦ tb_fatal_keeps _
  ])

  pub count_accepted_keeps :
      (leader prefix : String) (pause : Play env Unit) (n i count : ℕ)
      → KeepsRules pause
      → KeepsRules (count_accepted env leader prefix pause n i count)
  unfolding count_accepted
  count_accepted_keeps leader prefix pause n i zero h = pure_keeps n
  count_accepted_keeps leader prefix pause n i (suc count) h =
      keeps (submit_to_keeps leader _) (elim [
        | accepted_at index term ↦
            keeps h λ _. count_accepted_keeps leader prefix pause (n + 1) (i + 1) count h
        | refused e ↦ keeps h λ _. count_accepted_keeps leader prefix pause n (i + 1) count h
      ])

  log_observations_keeps : (obs : List Observation) → KeepsRules (log_observations env obs)
  unfolding log_observations
  log_observations_keeps [] = pure_keeps tt
  log_observations_keeps (o ∷ obs) = keeps (tb_log_keeps _) λ _. log_observations_keeps obs

  pub show_observations_keeps : KeepsRules (show_observations env)
  unfolding show_observations
  show_observations_keeps = keeps (gets_keeps _) log_observations_keeps

  pub error_if_keeps :
      (b : Bool) (msg : String) → KeepsRules (if b then tb_error env msg else pure tt)
  error_if_keeps true msg = tb_error_keeps msg
  error_if_keeps false msg = pure_keeps tt

  pub check_stepped_down_keeps : (id msg : String) → KeepsRules (check_stepped_down env id msg)
  unfolding check_stepped_down
  check_stepped_down_keeps id msg =
      keeps (gets_keeps _) λ state. error_if_keeps (is_leader state) msg

  pub submit_lossy_keeps :
      (leader : String) (i count : ℕ) → KeepsRules (submit_lossy env leader i count)
  unfolding submit_lossy
  submit_lossy_keeps leader i zero = pure_keeps tt
  submit_lossy_keeps leader i (suc count) =
      let go_on =
        λ (next : String). keeps (sleep_keeps 100) λ _. submit_lossy_keeps next (i + 1) count in
      keeps (submit_to_keeps leader _) (elim [
        | accepted_at index term ↦ keeps (pure_keeps leader) go_on
        | refused e ↦
            keeps
              (keeps (wait_for_leader_keeps _ _) λ again. keeps (submit_to_keeps again _) (elim [
                | accepted_at index term ↦ keeps (pure_keeps tt) λ _. pure_keeps again
                | refused e' ↦ keeps (tb_log_keeps _) λ _. pure_keeps again
              ]))
              go_on
      ])
