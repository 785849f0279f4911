-- ===== src/Kv/Store/Refines.antt =====
-- The store under the apply loop against the map that the committed commands describe.
use raft_implementation.Prelude.{
  ℕ, zero, suc, ◌+◌, ◌-◌, ◌<◌, ◌≤◌, ◌≡◌, refl, ap, ◌∙◌, true, String, false, Option, none, some,
  Option-cases, inl, inr, Bool-cases, arith, str_eq, if◌then◌else◌, lookup, string_eq, u64_mod,
}
use raft_implementation.Raft.Log.{Log, LogEntry, get}
use raft_implementation.Raft.Apply.{Applier, on_commit_notify}
use raft_implementation.Raft.Apply.Replay.{replay, replay_one, apply_loop-replay}
use raft_implementation.Kv.Store.{Op, Data, Codec, apply, kv_machine}
use raft_implementation.Kv.Store.Laws.{apply_op-lookup}

-- A map as its readers see it.
abbrev pub View : Type 0
View = String → Option String

abbrev pub op_view : Op → View → View
op_view o f k =
    if str_eq o.kind "SET"
    then (if str_eq o.key k then some o.value else f k)
    else if str_eq o.kind "DEL"
    then (if str_eq o.key k then none else f k)
    else f k

module _ (c : Codec) where
  -- A membership change and a command that does not decode change nothing.
  abbrev pub entry_view : LogEntry → View → View
  entry_view e f k =
      if e.is_config
      then f k
      else elim (c.decode_op e.command) [ none ↦ f k | some o ↦ op_view o f k ]

  -- The map after the n entries that follow index i.
  unfoldable pub log_view : ℕ → ℕ → Log → View → View
  log_view zero i l f = f
  log_view (suc n) i l f = log_view n (i + 1) l (entry_view (get l (i + 1)) f)

  abbrev view : Data → View
  view d k = lookup k d

  replay_one-view :
      (e : LogEntry) (d : Data) (k : String)
      → lookup k (replay_one (kv_machine c) e d) ≡ entry_view e (view d) k
  unfolding apply
  replay_one-view e d k = elim (Bool-cases e.is_config) [
    | inl config ↦ rw config refl
    | inr command ↦ elim (Option-cases (c.decode_op e.command)) [
      | inl bad ↦ rw (command, apply, bad) refl
      | inr (o, good) ↦ rw (command, apply, good) (apply_op-lookup o d k)
    ]
  ]

  replay-view :
      (n i : ℕ) (l : Log) (d : Data) (f : View)
      → ((k : String) → lookup k d ≡ f k)
      → (k : String) → lookup k (replay (kv_machine c) n i l d) ≡ log_view n i l f k
  unfolding replay log_view
  replay-view zero i l d f same k = same k
  replay-view (suc n) i l d f same k =
      replay-view n (i + 1) l (replay_one (kv_machine c) (get l (i + 1)) d) _
        (λ k'. replay_one-view (get l (i + 1)) d k' ∙ entry_same k') k
    where
      entry_same :
          (k' : String) → entry_view (get l (i + 1)) (view d) k' ≡ entry_view (get l (i + 1)) f k'
      entry_same k' = ap (λ (g : View). entry_view (get l (i + 1)) g k') (λ j y. same y j)

  -- A woken apply loop, where the last applied index is at most the commit index and that fits 64
  -- bits: it has applied everything committed, and each key of the store then reads as in the map
  -- that starts as the store did and follows the newly applied entries of the log, one after the
  -- other; a membership change, a command that does not decode and an operation of another kind
  -- change no key there.
  pub on_commit_notify-log_view :
      (now : ℕ) (a : Applier (kv_machine c)) (k : String)
      → a.node.commit_pending ≡ true
      → a.node.last_applied ≤ a.node.commit_index
      → a.node.commit_index < u64_mod
      → let b = on_commit_notify (kv_machine c) now a in
        (b.node.last_applied ≡ a.node.commit_index)
        × (lookup k b.app
            ≡ log_view
                (a.node.commit_index - a.node.last_applied)
                a.node.last_applied
                a.node.log
                (λ y. lookup y a.app)
                k)
  unfolding on_commit_notify
  on_commit_notify-log_view now a k pending low fits =
      let n = a.node.commit_index - a.node.last_applied in
      let woken : Applier (kv_machine c) = record a {
        node = record a.node { commit_pending = false };
      } in
      let (log, applied, app) =
        apply_loop-replay (kv_machine c) n now woken (omega (arith, low)) fits in
      rw pending (
        applied,
        ap (lookup k) app
            ∙ replay-view n a.node.last_applied a.node.log a.app (λ y. lookup y a.app) (λ y. refl)
                k,
      )
