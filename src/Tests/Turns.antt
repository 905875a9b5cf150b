-- ===== src/Tests/Turns.antt =====
-- A run of the writer: an error of Redis, a batch that is inserted, one that a shutdown ends.
use mathlib.Core.List.{Perm}
use halley.Common.{◌≡◌, refl, true, false, none, some, List, [], ◌∷◌, ◌++◌}
use halley.Pipeline.Writer.{Attempt, Turn, run, process_batch}
use halley.Pipeline.Writer.Settle.{acked}
use halley.Pipeline.Writer.Conserved.{read, left, run-Perm}
use halley.Tests.Batches.{test_host, two_entries, network_down, inserted}

abbrev interrupted : Attempt
interrupted = record network_down { interrupted = true }

abbrev three_turns : List Turn
three_turns =
    record { shutdown = false; reply = none; attempts = [] }
    ∷ record { shutdown = false; reply = some two_entries; attempts = network_down ∷ inserted ∷ [] }
    ∷ record { shutdown = false; reply = some two_entries; attempts = interrupted ∷ [] }
    ∷ record { shutdown = false; reply = some two_entries; attempts = inserted ∷ [] }
    ∷ []

left_test : left test_host three_turns ≡ "1-0" ∷ []
unfolding left process_batch
left_test = refl

run-Perm_example :
    Perm
      (acked (run test_host three_turns) ++ left test_host three_turns)
      (read test_host three_turns)
run-Perm_example = run-Perm test_host three_turns
