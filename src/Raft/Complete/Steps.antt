-- ===== src/Raft/Complete/Steps.antt =====
-- Every step of the cluster carries the invariant.
use raft_implementation.Prelude.{
  ℕ, ◌≡◌, inl, inr, refl, String, true, some, Option, List, Bool-cases, ◌==◌,
}
use raft_implementation.Raft.Rpc.{RequestVoteArgs, AppendEntriesArgs}
use raft_implementation.Raft.Node.{RaftNode}
use raft_implementation.Raft.Election.{handle_request_vote}
use raft_implementation.Raft.Steps.{append_request, step}
use raft_implementation.Raft.Votes.Once.{step-VoteKept}
use raft_implementation.Raft.Cluster.{
  Cluster, Step, quiet, restart, campaign, open_poll, vote, count_answer, IsRequestOf, voted,
}
use raft_implementation.Raft.Cluster.Quorum.{mem}
use raft_implementation.Raft.Cluster.Steady.{quiet-Steady}
use raft_implementation.Raft.Cluster.Preserve.{AreNames, update_all}
use raft_implementation.Raft.Matching.{Book, Replicas, IsApart, delivering}
use raft_implementation.Raft.Matching.Logs.{Grows, Grows-refl}
use raft_implementation.Raft.Matching.Nodes.{Follows-refl, apart-Follows}
use raft_implementation.Raft.Matching.Preserve.{Matched, apart-Matched}
use raft_implementation.Raft.Matching.Growth.{update_self}
use raft_implementation.Raft.Complete.{Past, seen_in, IsSincere, Complete}
use raft_implementation.Raft.Complete.Nodes.{Passes, Follows-Passes, arrival-Passes}
use raft_implementation.Raft.Complete.Polls.{
  IsSincere-step, opened-IsSincere, vote-Voucher, answered-IsSincere,
}
use raft_implementation.Raft.Complete.Carry.{carry_same}

pub Passes-refl : (book book' : Book) (n : RaftNode) → Grows book book' → Passes book book' n n
Passes-refl book book' n g = Follows-Passes book book' g n n (Follows-refl n)

module _ (ids : List String) (names : AreNames ids) (past : Past) (s : Replicas)
    (h : Complete ids past s) where
  -- A vote in poll k.
  voted-IsSincere :
      (k : ℕ) (v : String) (now : ℕ) (args : RequestVoteArgs)
      → mem v ids ≡ true
      → IsRequestOf (s.cluster.poll k) args
      → let d = voted s.cluster k v now args in
        ((j : ℕ) → IsSincere (seen_in past d) s.book d (s.cluster.poll j))
        → (j : ℕ) → IsSincere (seen_in past d) s.book d (d.poll j)
  voted-IsSincere k v now args mv q others j =
      let c = s.cluster in
      let n = c.node v in
      let r = handle_request_vote now args n in
      let d = voted c k v now args in
      elim (Bool-cases (k == j)) [
        | inr other ↦ rw other (others j)
        | inl this ↦ rw this (
            answered-IsSincere (seen_in past d) s.book d (c.poll k) v r.1
              (vote-Voucher past s.book d (c.poll k) v now args n q (h.matched.nodes v mv).good
                (λ t x was. (h.held v t x mv was).1) (update_self c.node v r.0))
              (others k))
      ]

  apart-IsSincere :
      (d : Cluster) (st : Step ids s.cluster d)
      → IsApart ids s.cluster d st
      → ((v : String) → Passes s.book s.book (s.cluster.node v) (d.node v))
      → (j : ℕ) → IsSincere (seen_in past d) s.book d (d.poll j)
  apart-IsSincere d st a passes j =
      let old : (i : ℕ) → IsSincere (seen_in past d) s.book d (s.cluster.poll i) = λ i.
        IsSincere-step past s.book s.book (Grows-refl s.book) s.cluster d passes (s.cluster.poll i)
          (h.polls i) in
      apart_polls d st a old j
    where
      apart_polls :
          (d : Cluster) (st : Step ids s.cluster d)
          → IsApart ids s.cluster d st
          → ((i : ℕ) → IsSincere (seen_in past d) s.book d (s.cluster.poll i))
          → (j : ℕ) → IsSincere (seen_in past d) s.book d (d.poll j)
      apart_polls _ (quiet i e m q r) a old j = old j
      apart_polls _ (restart i cfg m clean) a old j = old j
      apart_polls _ (campaign i m may room) a old j = old j
      apart_polls d (open_poll i k m) a old j = elim (Bool-cases (k == j)) [
        | inr other ↦ rw other (old j)
        | inl this ↦ rw this (opened-IsSincere (seen_in past d) s.book d i (s.cluster.node i) refl)
      ]
      apart_polls _ (vote k v now args m q) a old j = voted-IsSincere k v now args m q old j
      apart_polls _ (count_answer k v now m fresh) a old j = absurd a

  pub apart-Complete :
      (d : Cluster) (st : Step ids s.cluster d)
      → IsApart ids s.cluster d st
      → Complete ids (seen_in past d) (record s { cluster = d })
  apart-Complete d st a =
      let passes : (v : String) → Passes s.book s.book (s.cluster.node v) (d.node v) = λ v.
        Follows-Passes s.book s.book (Grows-refl s.book) _ _
          (apart-Follows ids s.cluster d st a v) in
      carry_same ids past s h d s.mail (apart-Matched ids names s d st a h.matched) passes
        (apart-IsSincere d st a passes)

  pub sending-Complete :
      (mail : ℕ → Option AppendEntriesArgs)
      → Matched ids (record s { mail = mail })
      → Complete ids (seen_in past s.cluster) (record s { mail = mail })
  sending-Complete mail matched =
      let passes : (v : String) → Passes s.book s.book (s.cluster.node v) (s.cluster.node v) =
        λ v. Passes-refl s.book s.book (s.cluster.node v) (Grows-refl s.book) in
      carry_same ids past s h s.cluster mail matched passes (λ k.
        IsSincere-step past s.book s.book (Grows-refl s.book) s.cluster s.cluster passes
          (s.cluster.poll k) (h.polls k))

  arrived-Passes :
      (i : String) (now : ℕ) (args : AppendEntriesArgs) (k : ℕ)
      → mem i ids ≡ true
      → s.mail k ≡ some args
      → Passes s.book s.book (s.cluster.node i) (step (append_request now args) (s.cluster.node i))
  unfolding step
  arrived-Passes i now args k mi e =
      let n = s.cluster.node i in
      let steady = quiet-Steady (append_request now args) n tt tt in
      let aged = step-VoteKept (append_request now args) n tt in
      arrival-Passes s.book now args n aged.term_grows steady.no_new_candidate
        (h.matched.nodes i mi).good (h.matched.honest k args e)
        (λ by l listed.
          ((h.matched.listed args.term by l listed).good, h.booked args.term by l listed))

  pub delivering-Complete :
      (k : ℕ) (i : String) (now : ℕ) (args : AppendEntriesArgs)
      → mem i ids ≡ true
      → s.mail k ≡ some args
      → Matched ids (delivering s i now args)
      → Complete ids (seen_in past (delivering s i now args).cluster) (delivering s i now args)
  delivering-Complete k i now args mi e matched =
      let d = (delivering s i now args).cluster in
      let m = step (append_request now args) (s.cluster.node i) in
      let passes : (v : String) → Passes s.book s.book (s.cluster.node v) (d.node v) = λ v.
        update_all (λ u r. Passes s.book s.book (s.cluster.node u) r) s.cluster.node i m v
          (arrived-Passes i now args k mi e)
          (λ ne. Passes-refl s.book s.book (s.cluster.node v) (Grows-refl s.book)) in
      carry_same ids past s h d s.mail matched passes (λ j.
        IsSincere-step past s.book s.book (Grows-refl s.book) s.cluster d passes (s.cluster.poll j)
          (h.polls j))
