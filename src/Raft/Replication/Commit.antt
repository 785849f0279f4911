-- ===== src/Raft/Replication/Commit.antt =====
-- The commit rule of a leader: the quorum index is the greatest index that a majority of the
-- leader's records reach.
use raft_implementation.Prelude.{
  ℕ, zero, suc, ◌+◌, ◌-◌, ◌/◌, ◌<◌, ◌≤◌, ◌≡◌, ◌↔◌, ◌⊎◌, inl, inr, refl, ap, ◌∙◌, true, List, [],
  ◌∷◌, arith, length, count, get_or, ltb, leb, leb→le, leb→lt, length-map, Bool-cases, map,
  lookup_or, String, string_eq, subst, if◌then◌else◌,
}
use raft_implementation.Raft.Log.{get, last_index}
use raft_implementation.Raft.Node.{RaftNode, majority_of}
use raft_implementation.Raft.Replication.{
  insert_desc, sort_desc, replicated, match_index_of, quorum_index, maybe_commit,
}

-- How many of the numbers are x or more.
abbrev pub count_from : ℕ → List ℕ → ℕ
count_from x ys = count (leb x) ys

count_from-insert_desc :
    (x y : ℕ) (ys : List ℕ) → count_from x (insert_desc y ys) ≡ count_from x (y ∷ ys)
unfolding insert_desc
count_from-insert_desc x y [] = refl
count_from-insert_desc x y (z ∷ zs) = ground (arith, count_from-insert_desc x y zs)

count_from-sort_desc : (x : ℕ) (ys : List ℕ) → count_from x (sort_desc ys) ≡ count_from x ys
unfolding sort_desc
count_from-sort_desc x [] = refl
count_from-sort_desc x (y ∷ ys) =
    ground (arith, count_from-insert_desc x y (sort_desc ys), count_from-sort_desc x ys)

length-insert_desc : (y : ℕ) (ys : List ℕ) → length (insert_desc y ys) ≡ suc (length ys)
unfolding insert_desc
length-insert_desc y [] = refl
length-insert_desc y (z ∷ zs) = ground (arith, length-insert_desc y zs)

length-sort_desc : (ys : List ℕ) → length (sort_desc ys) ≡ length ys
unfolding sort_desc
length-sort_desc [] = refl
length-sort_desc (y ∷ ys) = length-insert_desc y (sort_desc ys) ∙ ap suc (length-sort_desc ys)

-- Each number bounds what follows.
abbrev Descending : List ℕ → Type 0
Descending [] = Unit
Descending (y ∷ ys) = ((x : ℕ) → y < x → count_from x ys ≡ 0) × Descending ys

Descending-insert_desc : (y : ℕ) (ys : List ℕ) → Descending ys → Descending (insert_desc y ys)
unfolding insert_desc
Descending-insert_desc y [] d = (λ x h. refl, tt)
Descending-insert_desc y (z ∷ zs) d = elim (Bool-cases (ltb y z)) [
  | inl below ↦ rw below (
    λ x h. count_from-insert_desc x y zs ∙ ground (arith, d.0 x h),
    Descending-insert_desc y zs d.1,
  )
  | inr above ↦ rw above (λ x h. ground (arith, d.0 x), d)
]

Descending-sort_desc : (ys : List ℕ) → Descending (sort_desc ys)
unfolding sort_desc
Descending-sort_desc [] = tt
Descending-sort_desc (y ∷ ys) = Descending-insert_desc y (sort_desc ys) (Descending-sort_desc ys)

-- In a descending list the k-th number is the greatest that k + 1 numbers reach.
nth_iff :
    (k x : ℕ) (ys : List ℕ)
    → Descending ys
    → k < length ys
    → (suc k ≤ count_from x ys) ↔ (x ≤ get_or ys k 0)
nth_iff k x [] d lt = elim lt [ ]
nth_iff zero x (y ∷ ys) d lt = ground (arith, d.0 x)
nth_iff (suc k) x (y ∷ ys) d lt = ground (arith, d.0 x, nth_iff k x ys d.1 (omega arith))

length-replicated : (n : RaftNode) → length (replicated n) ≡ length n.peers + 1
unfolding replicated
length-replicated n = omega (arith, length-map n.peers (λ p. match_index_of p n))

-- `indices[majority-1]` after the sort is the greatest index that a majority of the cluster, the
-- leader included, is known to hold.
pub quorum_index_iff :
    (n : RaftNode) (x : ℕ)
    → (majority_of n.peers ≤ count_from x (replicated n)) ↔ (x ≤ quorum_index n)
unfolding quorum_index
quorum_index_iff n x =
    let ys = replicated n in
    let size = length-replicated n in
    let place = (length n.peers + 1) / 2 + 1 - 1 in
    let nth =
      nth_iff place x (sort_desc ys) (Descending-sort_desc ys)
        (omega (arith, length-sort_desc ys)) in
    let same = count_from-sort_desc x ys in (λ h. nth.0 (omega arith), λ h. omega (arith, nth.1 h))

maybe_commit_cases :
    (n : RaftNode)
    → ((maybe_commit n).commit_index ≡ n.commit_index)
      ⊎ ((n.commit_index < quorum_index n)
          × ((maybe_commit n).commit_index ≡ quorum_index n)
          × ((get n.log (quorum_index n)).term ≡ n.current_term))
unfolding maybe_commit
maybe_commit_cases n = ground arith

-- The peers whose entry of the `matchIndex` map is x or more, and the leader itself if its log reaches
-- x.
abbrev pub recorded : ℕ → RaftNode → ℕ
recorded x n =
    count (λ p. leb x (lookup_or 0 p n.match_index)) n.peers
    + (if leb x (last_index n.log) then 1 else 0)

count_from-map :
    (x : ℕ) (f : String → ℕ) (ps : List String)
    → count_from x (map f ps) ≡ count (λ p. leb x (f p)) ps
count_from-map x f [] = refl
count_from-map x f (p ∷ ps) = ground (arith, count_from-map x f ps)

count_from-replicated : (n : RaftNode) (x : ℕ) → count_from x (replicated n) ≡ recorded x n
unfolding replicated
count_from-replicated n x =
    ground (arith, count_from-map x (λ p. lookup_or 0 p n.match_index) n.peers)

recorded_iff : (n : RaftNode) (x : ℕ) → (majority_of n.peers ≤ recorded x n) ↔ (x ≤ quorum_index n)
recorded_iff n x =
    subst (λ c. (majority_of n.peers ≤ c) ↔ (x ≤ quorum_index n)) (count_from-replicated n x)
      (quorum_index_iff n x)

-- A commit by the leader: the index does not fall; and if it changes, the recorded match indexes
-- and the leader's own log reach the new index for a majority of the cluster, they reach no
-- greater index for a majority, and its entry is of the current term.
pub maybe_commit_quorum :
    (n : RaftNode)
    → (n.commit_index ≤ (maybe_commit n).commit_index)
      × (((maybe_commit n).commit_index ≡ n.commit_index)
          ⊎ ((majority_of n.peers ≤ recorded (maybe_commit n).commit_index n)
              × ((x : ℕ) → majority_of n.peers ≤ recorded x n → x ≤ (maybe_commit n).commit_index)
              × ((get n.log (maybe_commit n).commit_index).term ≡ n.current_term)))
maybe_commit_quorum n = elim (maybe_commit_cases n) [
  | inl kept ↦ (omega arith, inl kept)
  | inr (ahead, new, current) ↦ (
    omega arith,
    inr (
      rw new ((recorded_iff n (quorum_index n)).1 (omega arith)),
      λ x h. rw new ((recorded_iff n x).0 h),
      rw new current,
    ),
  )
]

-- Where the recorded match indexes and the leader's own log reach an index past the commit index
-- for a majority of the cluster, do not reach the next one for a majority, and the entry at the
-- index is of the current term, the leader commits it and wakes the apply loop.
pub maybe_commit_commits :
    (n : RaftNode) (q : ℕ)
    → n.commit_index < q
    → majority_of n.peers ≤ recorded q n
    → recorded (q + 1) n < majority_of n.peers
    → (get n.log q).term ≡ n.current_term
    → ((maybe_commit n).commit_index ≡ q) × ((maybe_commit n).commit_pending ≡ true)
unfolding maybe_commit
maybe_commit_commits n q ahead held not_beyond current =
    let reach = (recorded_iff n q).0 held in
    let exact : quorum_index n ≡ q = elim (Bool-cases (leb (q + 1) (quorum_index n))) [
      | inl more ↦
          let beyond = (recorded_iff n (q + 1)).1 (leb→le (q + 1) (quorum_index n) more) in
          absurd (omega arith)
      | inr here ↦ omega (arith, leb→lt (q + 1) (quorum_index n) here)
    ] in
    ground arith
