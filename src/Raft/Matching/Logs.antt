-- ===== src/Raft/Matching/Logs.antt =====
-- What the book says of a log: each entry is one that the leader of its term had at that index, and
-- so is all that comes before.
use raft_implementation.Prelude.{
  ℕ, ◌+◌, ◌<◌, ◌≤◌, ◌≡◌, ◌⊎◌, inl, inr, refl, sym, ap, ◌∙◌, subst, String, some, none, [], arith,
  length, get_or, Bool-cases, ◌==◌,
}
use raft_implementation.Raft.Log.{Log, LogEntry, zero_entry, snapshot_index, get, last_index}
use raft_implementation.Raft.Log.Shape.{IsLog}
use raft_implementation.Raft.Rpc.{AppendEntriesArgs}
use raft_implementation.Raft.Replication.Merge.{HasTerms}
use raft_implementation.Raft.Replication.Handler.{IsAppend}
use raft_implementation.Raft.Matching.{Book, write_book}

-- Two logs are the same up to an index.
pub record AreSame (l m : Log) (i : ℕ) : Type 0 where
  pub within : i ≤ last_index l
  pub within' : i ≤ last_index m
  pub reads : (k : ℕ) → 0 < k → k ≤ i → get l k ≡ get m k

-- The leader of term t is in the book, and its log is the same up to an index.
pub record IsTraced (book : Book) (t : ℕ) (l : Log) (i : ℕ) : Type 0 where
  pub by : String
  pub its_log : Log
  pub listed : book t ≡ some (by, its_log)
  pub same : AreSame l its_log i

-- A log that was never compacted, each entry of which is traced.
pub record IsGood (book : Book) (l : Log) : Type 0 where
  pub is_log : IsLog l
  pub whole : snapshot_index l ≡ 0
  pub has_terms : HasTerms l
  pub traced : (i : ℕ) → 0 < i → i ≤ last_index l → IsTraced book (get l i).term l i

-- One book has the leaders of the other, with logs that have only grown.
abbrev pub Grows : Book → Book → Type 0
Grows book book' =
    (t : ℕ) (j : String) (l : Log)
    → book t ≡ some (j, l)
    → (m : Log) × (book' t ≡ some (j, m)) × AreSame l m (last_index l)

pub AreSame-refl : (l : Log) → AreSame l l (last_index l)
AreSame-refl l = record { within = omega arith; within' = omega arith; reads = λ k a b. refl }

pub AreSame-sym : (l m : Log) (i : ℕ) → AreSame l m i → AreSame m l i
AreSame-sym l m i h = record {
  within = h.within';
  within' = h.within;
  reads = λ k a b. sym (h.reads k a b);
}

pub AreSame-trans : (l m n : Log) (i j : ℕ) → AreSame l m i → AreSame m n j → i ≤ j → AreSame l n i
AreSame-trans l m n i j h h' low = record {
  within = h.within;
  within' = omega (arith, low, h'.within');
  reads = λ k a b. h.reads k a b ∙ h'.reads k a (omega arith);
}

pub AreSame-below : (l m : Log) (i j : ℕ) → AreSame l m i → j ≤ i → AreSame l m j
AreSame-below l m i j h low = record {
  within = omega (arith, h.within);
  within' = omega (arith, h.within');
  reads = λ k a b. h.reads k a (omega arith);
}

pub Grows-refl : (book : Book) → Grows book book
Grows-refl book t j l e = (l, e, AreSame-refl l)

pub Grows-trans :
    (book book' book'' : Book) → Grows book book' → Grows book' book'' → Grows book book''
Grows-trans book book' book'' g g' t j l e =
    let (m, listed, same) = g t j l e in
    let (m', listed', same') = g' t j m listed in
    (m', listed', AreSame-trans l m m' _ _ same same' same.within')

-- A new entry for a term with no leader, or a longer log of its leader.
pub Grows-write :
    (book : Book) (t : ℕ) (i : String) (l : Log)
    → (book t ≡ none) ⊎ ((m : Log) × (book t ≡ some (i, m)) × AreSame m l (last_index m))
    → Grows book (write_book book t i l)
Grows-write book t i l h u j m e = elim (Bool-cases (t == u)) [
  | inr other ↦ (m, rw other e, AreSame-refl m)
  | inl this ↦
      let at : t ≡ u = ground arith in
      elim h [
        | inl free ↦ absurd (let f : book u ≡ none = subst (λ x. book x ≡ none) at free in cc)
        | inr (m', listed, same) ↦
            let f : book u ≡ some (i, m') = subst (λ x. book x ≡ some (i, m')) at listed in
            let p : i ≡ j = cc in
            let q : m' ≡ m = cc in
            (l, rw (this, p) refl, subst (λ x. AreSame x l (last_index x)) q same)
      ]
]

module _ (book book' : Book) (grows : Grows book book') where
  pub IsTraced-Grows : (t : ℕ) (l : Log) (i : ℕ) → IsTraced book t l i → IsTraced book' t l i
  IsTraced-Grows t l i h =
      let (m, listed, same) = grows t h.by h.its_log h.listed in
      record {
        by = h.by;
        its_log = m;
        listed = listed;
        same = AreSame-trans l h.its_log m i _ h.same same h.same.within';
      }

  pub IsGood-Grows : (l : Log) → IsGood book l → IsGood book' l
  IsGood-Grows l h = record {
    is_log = h.is_log;
    whole = h.whole;
    has_terms = h.has_terms;
    traced = λ i a b. IsTraced-Grows _ l i (h.traced i a b);
  }

-- Where two good logs have the same term, they are the same up to there.
pub IsGood-match :
    (book : Book) (l m : Log) (i : ℕ)
    → IsGood book l
    → IsGood book m
    → 0 < i
    → i ≤ last_index l
    → i ≤ last_index m
    → (get l i).term ≡ (get m i).term
    → AreSame l m i
IsGood-match book l m i h h' pos low low' e =
    let a = h.traced i pos low in
    let b = h'.traced i pos low' in
    let listed : book (get l i).term ≡ some (b.by, b.its_log) = ap book e ∙ b.listed in
    let one : a.its_log ≡ b.its_log = cc in
    let back = AreSame-sym m b.its_log i b.same in
    AreSame-trans l b.its_log m i i (subst (λ x. AreSame l x i) one a.same) back (omega arith)

-- An append message: nothing but a heartbeat, or entries of the log of the leader of its term.
pub record IsCopied (book : Book) (args : AppendEntriesArgs) : Type 0 where
  pub by : String
  pub its_log : Log
  pub listed : book args.term ≡ some (by, its_log)
  pub is_append : IsAppend args
  pub prev_term :
      0 < args.prev_log_index → args.prev_log_term ≡ (get its_log args.prev_log_index).term
  pub covers : args.prev_log_index + length args.entries ≤ last_index its_log
  pub copies :
      (k : ℕ)
      → k < length args.entries
      → get_or args.entries k zero_entry ≡ get its_log (args.prev_log_index + 1 + k)

abbrev pub IsHonest : Book → AppendEntriesArgs → Type 0
IsHonest book args = (args.entries ≡ []) ⊎ IsCopied book args

pub IsHonest-Grows :
    (book book' : Book)
    → Grows book book'
    → (args : AppendEntriesArgs) → IsHonest book args
    → IsHonest book' args
IsHonest-Grows book book' grows args (inl e) = inl e
IsHonest-Grows book book' grows args (inr h) =
    let (m, listed, same) = grows args.term h.by h.its_log h.listed in
    inr (record {
      by = h.by;
      its_log = m;
      listed = listed;
      is_append = h.is_append;
      prev_term = λ pos.
          h.prev_term pos
          ∙ ap (λ (e : LogEntry). e.term)
              (same.reads args.prev_log_index pos (omega (arith, h.covers)));
      covers = omega (arith, h.covers, same.within');
      copies = λ k lt.
          h.copies k lt
          ∙ same.reads (args.prev_log_index + 1 + k) (omega arith) (omega (arith, h.covers));
    })

-- A log that is the same as a good one up to its own end is good.
pub IsGood-AreSame :
    (book : Book) (l m : Log)
    → IsGood book l
    → IsLog m
    → snapshot_index m ≡ 0
    → AreSame m l (last_index m)
    → IsGood book m
IsGood-AreSame book l m h w whole same = record {
  is_log = w;
  whole = whole;
  has_terms = λ i a b.
      let pos : 0 < i = omega arith in
      let reads = same.reads i pos b in
      subst (λ (e : LogEntry). 0 < e.term) (sym reads)
        (h.has_terms i (omega (arith, h.whole)) (omega (arith, b, same.within')));
  traced = λ i a b.
      let reads = same.reads i a b in
      let t = h.traced i a (omega (arith, b, same.within')) in
      record {
        by = t.by;
        its_log = t.its_log;
        listed = ap (λ (e : LogEntry). book e.term) reads ∙ t.listed;
        same = AreSame-trans m l t.its_log i i (AreSame-below m l _ i same b) t.same (omega arith);
      };
}
