-- ===== src/Raft/Complete/Logs.antt =====
-- Terms in logs, and what a message does to a log that holds entries of earlier leaders.
use raft_implementation.Prelude.{
  ℕ, ◌+◌, ◌-◌, ◌<◌, ◌≤◌, ◌≡◌, inl, inr, sym, ap, ◌∙◌, subst, some, arith, length, get_or, String,
  Bool-cases, leb, leb→le, leb→lt,
}
use raft_implementation.Raft.Log.{
  Log, LogEntry, zero_entry, get, last_index, last_term, snapshot_index,
}
use raft_implementation.Raft.Log.Shape.{IsLog}
use raft_implementation.Raft.Log.Basic.{last_index_lem, get_lem}
use raft_implementation.Raft.Matching.{Book}
use raft_implementation.Raft.Matching.Logs.{AreSame, Grows-refl}
use raft_implementation.Raft.Matching.Deliver.{IsCut}
use raft_implementation.Raft.Complete.{Holds, Strays, Kept, TermsUpTo}
use raft_implementation.Raft.Complete.Kept.{Strays-Grows}

-- The last term is that of the last entry.
pub last_term-get :
    (l : Log) → IsLog l → snapshot_index l ≡ 0 → last_term l ≡ (get l (last_index l)).term
unfolding last_term
last_term-get l w whole =
    let bound = last_index_lem l w in
    let at : last_index l - snapshot_index l ≡ length l.entries - 1 =
      omega (arith, w.has_sentinel) in
    ground (
      arith,
      w.has_sentinel,
      get_lem l w (last_index l) (omega (arith, w.fits, w.has_sentinel)),
      ap (λ j. get_or l.entries j zero_entry) at,
    )

pub TermsUpTo-AreSame :
    (l m : Log) (t : ℕ) → AreSame m l (last_index m) → TermsUpTo l t → TermsUpTo m t
TermsUpTo-AreSame l m t same h k a b =
    subst (λ (e : LogEntry). e.term ≤ t) (sym (same.reads k a b))
      (h k a (omega (arith, b, same.within')))

pub TermsUpTo-later : (l : Log) (t u : ℕ) → t ≤ u → TermsUpTo l t → TermsUpTo l u
TermsUpTo-later l t u more h k a b = omega (arith, h k a b)

module _ (book : Book) (l m theirs : Log) (cut : IsCut l theirs m) where
  -- An entry held below the cut is kept.
  kept_below : (t x : ℕ) → x ≤ cut.place → Holds book t x l → Holds book t x m
  kept_below t x low h = record {
    by = h.by;
    its_log = h.its_log;
    listed = h.listed;
    same = record {
      within = omega (arith, cut.below);
      within' = h.same.within';
      reads = λ k a b. cut.before k (omega arith) ∙ h.same.reads k a b;
    };
    positive = h.positive;
    its_term = h.its_term;
  }

  -- One above it was not the leader's whose message made the cut.
  strayed :
      (t x w : ℕ) (by : String)
      → t < w
      → book w ≡ some (by, theirs)
      → cut.place < x
      → Holds book t x l
      → Strays book t x w
  strayed t x w by after listed high h = record {
    by = h.by;
    its_log = h.its_log;
    listed = h.listed;
    within = h.same.within';
    later = w;
    after = after;
    until = omega arith;
    rival = by;
    rival_log = theirs;
    rival_listed = listed;
    place = cut.place + 1;
    positive = omega arith;
    low = omega arith;
    in_rival = omega (arith, cut.below, cut.same.within');
    differs = λ e. cut.differs (h.same.reads (cut.place + 1) (omega arith) (omega arith) ∙ sym e);
  }

  -- So what a log has held of terms up to w is kept, or the leader of term w strayed.
  pub cut-Kept :
      (t x b w : ℕ) (by : String)
      → t ≤ w
      → b ≤ w
      → book w ≡ some (by, theirs)
      → Kept book t x b l
      → Kept book t x w m
  cut-Kept t x b w by low more listed (inr h) =
      inr (Strays-Grows book book (Grows-refl book) t x b w more h)
  cut-Kept t x b w by low more listed (inl h) = elim (Bool-cases (leb x cut.place)) [
    | inl below ↦ inl (kept_below t x (leb→le x cut.place below) h)
    | inr above ↦
        let high : cut.place < x = leb→lt x cut.place above in
        elim (Bool-cases (leb w t)) [
          | inr newer ↦ inr (strayed t x w by (leb→lt w t newer) listed high h)
          | inl old ↦
              let same_term : t ≡ w = omega (arith, leb→le w t old) in
              let here : book t ≡ some (by, theirs) = ap book same_term ∙ listed in
              let there = h.listed in
              let one : h.its_log ≡ theirs = cc in
              absurd (
                cut.differs (
                  h.same.reads (cut.place + 1) (omega arith) (omega arith)
                  ∙ ap (λ y. get y (cut.place + 1)) one))
        ]
  ]
