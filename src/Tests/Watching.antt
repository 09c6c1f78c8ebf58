-- ===== src/Tests/Watching.antt =====
-- Calls of BlockingQuery and rounds of its loops, with their theorems.
use raft_example.Prelude.{ℕ, false, none, List, [], ◌∷◌, Bytes, bytes_of, ok, arith}
use raft_example.Watch.{Event, replied, ticked, restored, Turn, watch_key}
use raft_example.Watch.Loops.{Advances, watch_key-Advances}

abbrev reply : ℕ → Event Bytes
reply i = replied (ok (bytes_of "v", i))

abbrev round : List (Event Bytes) → Turn Bytes
round es = record { cancelled = false; events = es; callback = none }

abbrev rounds : List (Turn Bytes)
rounds =
    round (reply 5 ∷ [])
    ∷ round (reply 5 ∷ ticked ∷ reply 7 ∷ [])
    ∷ round (reply 7 ∷ restored ∷ [])
    ∷ []

watch_key-Advances_example : Advances 1 1 (watch_key (bytes_of "done") 0 rounds).delivered
watch_key-Advances_example =
    watch_key-Advances (bytes_of "done") 0 rounds (omega arith) (omega arith)
