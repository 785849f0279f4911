-- ===== src/Raft/Complete/Carry.antt =====
-- A step carries the invariant if each node passes and each poll stays sincere.
use raft_implementation.Prelude.{
  ℕ, ◌≡◌, ◌⊎◌, inl, inr, subst, String, true, some, Option, List, arith, Bool-cases, ◌==◌, ==_iff,
}
use raft_implementation.Raft.Log.{Log}
use raft_implementation.Raft.Rpc.{AppendEntriesArgs}
use raft_implementation.Raft.Node.{RaftNode, leader, is_leader}
use raft_implementation.Raft.Cluster.{Cluster}
use raft_implementation.Raft.Cluster.Quorum.{mem}
use raft_implementation.Raft.Matching.{Book, Replicas, entered}
use raft_implementation.Raft.Matching.Logs.{AreSame-refl, Grows, Grows-refl}
use raft_implementation.Raft.Matching.Written.{entry_parts}
use raft_implementation.Raft.Matching.Preserve.{Matched}
use raft_implementation.Raft.Complete.{Past, seen_in, TermsUpTo, Win, IsSincere, Complete}
use raft_implementation.Raft.Complete.Kept.{Win-later, IsHolding-Holds}
use raft_implementation.Raft.Complete.Nodes.{Passes}

-- What stands in the book after node m was entered: what stood there, or m.
entered_entry :
    (book : Book) (i : String) (m : RaftNode) (u : ℕ) (j : String) (l : Log)
    → entered book i m u ≡ some (j, l)
    → (book u ≡ some (j, l)) ⊎ ((m.state ≡ leader) × (m.current_term ≡ u) × (m.log ≡ l))
entered_entry book i m u j l e = elim (Bool-cases (is_leader m.state)) [
  | inr other ↦ inl (rw other at e)
  | inl leads ↦ elim (Bool-cases (m.current_term == u)) [
    | inr elsewhere ↦ inl (rw (leads, elsewhere) at e)
    | inl here ↦
        inr (ground arith, (==_iff _ _).0 here, (entry_parts i j m.log l (rw (leads, here) at e)).1)
  ]
]

module _ (ids : List String) (past : Past) (s : Replicas) (h : Complete ids past s) where
  pub carry :
      (r : Replicas)
      → Matched ids r
      → Grows s.book r.book
      → ((v : String) → Passes s.book r.book (s.cluster.node v) (r.cluster.node v))
      → ((t : ℕ) (j : String) (l : Log) → r.book t ≡ some (j, l) → TermsUpTo l t)
      → ((k : ℕ) → IsSincere (seen_in past r.cluster) r.book r.cluster (r.cluster.poll k))
      → ((u : ℕ) (j : String) (l : Log)
          → r.book u ≡ some (j, l)
          → Win ids (seen_in past r.cluster) r.book r.cluster u l)
      → Complete ids (seen_in past r.cluster) r
  carry r matched grows passes booked polls won = record {
    matched = matched;
    aged = λ v m. (passes v).aged (h.aged v m);
    zeroth = λ v m. (passes v).zeroth (h.zeroth v m);
    booked = booked;
    held = λ v t x m was. elim was [
      | inl before ↦
          let (low, kept) = h.held v t x m before in
          (omega (arith, (passes v).older), (passes v).kept t x low kept)
      | inr now ↦ (
        omega (arith, now.in_term),
        inl (IsHolding-Holds r.book (r.cluster.node v) t x (matched.nodes v m).good now),
      )
    ];
    polls = polls;
    won = won;
  }

  -- A step that leaves the book.
  pub carry_same :
      (d : Cluster) (mail : ℕ → Option AppendEntriesArgs)
      → Matched ids (record s { cluster = d; mail = mail })
      → ((v : String) → Passes s.book s.book (s.cluster.node v) (d.node v))
      → ((k : ℕ) → IsSincere (seen_in past d) s.book d (d.poll k))
      → Complete ids (seen_in past d) (record s { cluster = d; mail = mail })
  carry_same d mail matched passes polls =
      carry (record s { cluster = d; mail = mail }) matched (Grows-refl s.book) passes h.booked
        polls
        (λ u j l e.
          Win-later s.book s.book (Grows-refl s.book) ids past s.cluster d u l l
            (λ v. (passes v).older) (AreSame-refl l) (h.won u j l e))

  -- A step that enters node i into the book, if it leads.
  pub carry_entered :
      (d : Cluster) (i : String)
      → let book' = entered s.book i (d.node i) in
        mem i ids ≡ true
        → Matched ids (record s { cluster = d; book = book' })
        → Grows s.book book'
        → ((v : String) → Passes s.book book' (s.cluster.node v) (d.node v))
        → ((k : ℕ) → IsSincere (seen_in past d) book' d (d.poll k))
        → ((d.node i).state ≡ leader
            → Win ids (seen_in past d) book' d (d.node i).current_term (d.node i).log)
        → Complete ids (seen_in past d) (record s { cluster = d; book = book' })
  carry_entered d i mi matched grows passes polls top =
      let book' = entered s.book i (d.node i) in
      let m = d.node i in
      carry (record s { cluster = d; book = book' }) matched grows passes
        (λ t j l e. elim (entered_entry s.book i m t j l e) [
          | inl old ↦ h.booked t j l old
          | inr (leads, at, same) ↦
              subst (λ y. TermsUpTo l y) at
                (subst (λ y. TermsUpTo y m.current_term) same ((passes i).aged (h.aged i mi)))
        ])
        polls
        (λ u j l e. elim (entered_entry s.book i m u j l e) [
          | inl old ↦
              Win-later s.book book' grows ids past s.cluster d u l l (λ v. (passes v).older)
                (AreSame-refl l) (h.won u j l old)
          | inr (leads, at, same) ↦
              subst (λ y. Win ids (seen_in past d) book' d y l) at
                (subst (λ y. Win ids (seen_in past d) book' d m.current_term y) same (top leads))
        ])
