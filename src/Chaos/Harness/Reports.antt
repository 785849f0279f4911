-- ===== src/Chaos/Harness/Reports.antt =====
-- What the result of a scenario says of its calls.
use raft_implementation.Prelude.{true, false, String, Bool, List, [], ◌∷◌, append_assoc, ◌<>◌}
use text.Mathlib.TextLemmas.{append_assoc as text_append_assoc}
use raft_implementation.Chaos.Harness.{Harness, TbCall, log_call, error_call, fatal_call}

-- The lines that calls leave, and whether one of them reports a failure.
unfoldable pub lines_of : List TbCall → List String
lines_of [] = []
lines_of (log_call msg ∷ calls) = msg ∷ lines_of calls
lines_of (error_call msg ∷ calls) = ("ERROR: " <> msg) ∷ lines_of calls
lines_of (fatal_call msg ∷ calls) = ("FATAL: " <> msg) ∷ []

unfoldable pub fails : List TbCall → Bool
fails [] = false
fails (log_call msg ∷ calls) = fails calls
fails (error_call msg ∷ calls) = true
fails (fatal_call msg ∷ calls) = true
