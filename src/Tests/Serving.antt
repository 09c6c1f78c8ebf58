-- ===== src/Tests/Serving.antt =====
-- A linearizable read of engine/kv.go beside the goroutines of engine/raft.go, at concrete steps.
use raft_example.Prelude.{
  ◌≡◌, refl, true, false, Option, none, List, [], ◌∷◌, ◌++◌, Bytes, bytes_of,
}
use raft_example.Fsm.Command.{CommandResponse}
use raft_example.Engine.{
  RaftServer, query, on_consistent, local_read, read_result, consistent_read, poll,
}
use raft_example.Engine.Leadership.{
  Step, notified, barrier, polled, elapsed, caught_up, failed, run, step, started,
}
use raft_example.Engine.Leadership
use raft_example.Engine.Leadership.Held.{HeldSinceBarrier}
use raft_example.Engine.Leadership.Serving.{
  Moment, moved, ticked, steps_of, linearizable_query, linearizable_query_held, seen,
}

abbrev node : RaftServer
node = record {
  raft_id = bytes_of "A";
  raft_addr = bytes_of "Ar";
  db_applied_index = 3;
  ready_for_consistent_reads = 0;
}

-- The first barrier fails, and the second succeeds between two ticks of the read.
abbrev before : List Step
before = notified true ∷ barrier failed false [] ∷ polled ∷ elapsed ∷ []

abbrev moments : List Moment
moments = ticked ∷ moved (barrier caught_up false []) ∷ ticked ∷ []

abbrev reply : CommandResponse
reply = record { val = bytes_of "v"; error = none }

linearizable_query_held_example :
    (◌≡◌ {A = Option Bytes} none none)
    × (front : List Moment) × (back : List Moment) × (moments ≡ front ++ back)
    × HeldSinceBarrier (before ++ steps_of front) started
unfolding linearizable_query query seen run step Leadership.on_acquired Leadership.on_barrier
    Leadership.on_establish Leadership.reconcile Leadership.on_polled Leadership.on_elapsed
    Leadership.establish_leadership Leadership.set_consistent_read_ready on_consistent local_read
    read_result consistent_read poll
linearizable_query_held_example =
    linearizable_query_held before none 5000000000 moments 9 9 reply node (bytes_of "v") refl
