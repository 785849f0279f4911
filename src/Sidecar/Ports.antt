-- ===== src/Sidecar/Ports.antt =====
-- Which port a change of the membership is sent to.
use raft_implementation.Prelude.{
  ℕ, ◌≡◌, ◌≢◌, ◌⊎◌, inl, inr, refl, not, ◌&&◌, arith, String, Option, none, some, List, [], ◌∷◌,
  ◌==◌, str_eq, ==_iff, if-elim,
}
use raft_implementation.Sidecar.Registry.{NodeDef, RaftStatus}
use raft_implementation.Sidecar.Docker.{Environment}
use raft_implementation.Sidecar.Cluster.{
  Live, leader_port, port_of, host_of, known_leader_port, any_port, choose_port, first_of, or_else,
  fetch_raft_status, ask_other, add_live, live_nodes, find_online_port_excluding,
}

-- A port of a registered node, other than the excluded one.
abbrev pub IsOther : ℕ → List NodeDef → ℕ → Type 0
IsOther exclude [] port = ⊥
IsOther exclude (n ∷ ns) port = ((n.http_port ≡ port) × (port ≢ exclude)) ⊎ IsOther exclude ns port

abbrev AllOther : ℕ → List NodeDef → Live → Type 0
AllOther exclude all [] = Unit
AllOther exclude all ((n, st) ∷ live) = IsOther exclude all n.http_port × AllOther exclude all live

abbrev Holds : (ℕ → Type 0) → Option ℕ → Type 0
Holds P none = Unit
Holds P (some port) = P port

Holds-first_of :
    (P : ℕ → Type 0) (o o' : Option ℕ) → Holds P o → Holds P o' → Holds P (first_of o o')
Holds-first_of P none o' h k = k
Holds-first_of P (some port) o' h k = h

Holds-or_else :
    (P : ℕ → Type 0) (o : Option ℕ) (port : ℕ)
    → Holds P o
    → (port ≡ 0) ⊎ P port
    → (or_else o port ≡ 0) ⊎ P (or_else o port)
Holds-or_else P none port h k = k
Holds-or_else P (some p) port h k = inr h

module _ (exclude : ℕ) (all : List NodeDef) where
  leader_port-IsOther :
      (live : Live) → AllOther exclude all live → Holds (IsOther exclude all) (leader_port live)
  unfolding leader_port
  leader_port-IsOther [] a = tt
  leader_port-IsOther ((n, st) ∷ live) a =
      if-elim (Holds (IsOther exclude all)) (str_eq st.state "leader") (some n.http_port)
        (leader_port live) (λ h. a.0) (λ h. leader_port-IsOther live a.1)

  any_port-IsOther :
      (live : Live)
      → AllOther exclude all live
      → (any_port live ≡ 0) ⊎ IsOther exclude all (any_port live)
  any_port-IsOther [] a = inl refl
  any_port-IsOther ((n, st) ∷ live) a = inr a.0

Holds-there :
    (exclude : ℕ) (n : NodeDef) (ns : List NodeDef) (o : Option ℕ)
    → Holds (IsOther exclude ns) o
    → Holds (IsOther exclude (n ∷ ns)) o
Holds-there exclude n ns none h = tt
Holds-there exclude n ns (some port) h = inr h

port_of-IsOther :
    (exclude : ℕ) (id : String) (ns : List NodeDef)
    → Holds (IsOther exclude ns) (port_of exclude id ns)
unfolding port_of
port_of-IsOther exclude id [] = tt
port_of-IsOther exclude id (n ∷ ns) =
    if-elim (Holds (IsOther exclude (n ∷ ns))) (str_eq n.id id && not (n.http_port == exclude))
      (some n.http_port) (port_of exclude id ns)
      (λ h. inl (refl, ground (arith, ==_iff n.http_port exclude)))
      (λ h. Holds-there exclude n ns _ (port_of-IsOther exclude id ns))

known_leader_port-IsOther :
    (exclude : ℕ) (all : List NodeDef) (live : Live)
    → Holds (IsOther exclude all) (known_leader_port exclude all live)
unfolding known_leader_port
known_leader_port-IsOther exclude all [] = tt
known_leader_port-IsOther exclude all ((n, st) ∷ live) =
    let P = Holds (IsOther exclude all) in
    let rest = known_leader_port-IsOther exclude all live in
    if-elim P (str_eq st.leader "") _ _ (λ h. rest)
      (λ h.
        Holds-first_of (IsOther exclude all) _ _ (port_of-IsOther exclude (host_of st.leader) all)
          rest)

choose_port-IsOther :
    (exclude : ℕ) (all : List NodeDef) (live : Live)
    → AllOther exclude all live
    → (choose_port exclude all live ≡ 0) ⊎ IsOther exclude all (choose_port exclude all live)
unfolding choose_port
choose_port-IsOther exclude all live a =
    let P = IsOther exclude all in
    Holds-or_else P _ (any_port live)
      (Holds-first_of P _ _ (leader_port-IsOther exclude all live a)
        (known_leader_port-IsOther exclude all live))
      (any_port-IsOther exclude all live a)

AllOther-there :
    (exclude : ℕ) (n : NodeDef) (ns : List NodeDef) (live : Live)
    → AllOther exclude ns live
    → AllOther exclude (n ∷ ns) live
AllOther-there exclude n ns [] h = tt
AllOther-there exclude n ns ((m, st) ∷ live) h = (inr h.0, AllOther-there exclude n ns live h.1)

abbrev Answered : Type 0 → Option RaftStatus → Type 0
Answered P none = Unit
Answered P (some st) = P

Answered-any : (P : Type 0) (o : Option RaftStatus) → P → Answered P o
Answered-any P none h = tt
Answered-any P (some st) h = h

module _ {W : Type 0} (env : Environment W) (exclude : ℕ) where
  ask_other-Answered :
      (n : NodeDef) (w : W) → Answered (n.http_port ≢ exclude) (ask_other env exclude n w).1
  unfolding ask_other
  ask_other-Answered n w =
      if-elim {A = W × Option RaftStatus} (λ x. Answered (n.http_port ≢ exclude) x.1)
        (n.http_port == exclude) (w, none) (fetch_raft_status env n.http_port w) (λ h. tt)
        (λ h. Answered-any (n.http_port ≢ exclude) _ (ground (arith, ==_iff n.http_port exclude)))

  add_live-AllOther :
      (n : NodeDef) (ns : List NodeDef) (st : Option RaftStatus) (x : W × Live)
      → Answered (n.http_port ≢ exclude) st
      → AllOther exclude ns x.1
      → AllOther exclude (n ∷ ns) (add_live env n st x).1
  add_live-AllOther n ns none (w, live) h k = AllOther-there exclude n ns live k
  add_live-AllOther n ns (some st) (w, live) h k =
      (inl (refl, h), AllOther-there exclude n ns live k)

  live_nodes-AllOther :
      (ns : List NodeDef) (w : W) → AllOther exclude ns (live_nodes env exclude ns w).1
  unfolding live_nodes
  live_nodes-AllOther [] w = tt
  live_nodes-AllOther (n ∷ ns) w =
      let (w', st) = ask_other env exclude n w in
      add_live-AllOther n ns st (live_nodes env exclude ns w') (ask_other-Answered n w)
        (live_nodes-AllOther ns w')

  -- The port that a change of the membership is sent to is 0, for none, or the port of a node in
  -- the registry that is not the excluded one, whatever the nodes answer.
  pub find_online_port_excluding-IsOther :
      (all : List NodeDef) (w : W)
      → let port = (find_online_port_excluding env exclude all w).1 in
        (port ≡ 0) ⊎ IsOther exclude all port
  unfolding find_online_port_excluding
  find_online_port_excluding-IsOther all w =
      choose_port-IsOther exclude all _ (live_nodes-AllOther all w)
