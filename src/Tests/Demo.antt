-- ===== src/Tests/Demo.antt =====
-- The demonstration of cmd/cmd.go against a node of concrete components.
use raft_example.Prelude.{
  ℕ, zero, suc, ◌≡◌, refl, true, false, some, List, [], ◌∷◌, Bytes, bytes_of, All, Result, ok, err,
  ◌↔◌,
}
use raft_example.Fsm.Machine.{StateMachine}
use raft_example.Engine.{RaftServer}
use raft_example.Client.{random_id, random_bytes_mod, take_bytes, chars_of}
use raft_example.Client.Demo.{Reading, draw_pairs, run_kv_demo}
use raft_example.Client.Demo.Answers.{written, keys_of, IsKey, AnswersTo}
use raft_example.Client.Demo.Node.{node, node_value}
use raft_example.Client.Demo.Completes.{run_kv_demo_completes}
use raft_example.Client.Following.{
  Closing, eof, broken, Round, watch_stream, watch_loop, SawDone, watch_loop_returns,
}
use raft_example.Watch.{BlockingQueryResult}
use raft_example.Tests.Memory.{
  memory, memory-PebbleIsLawful, memory-IsReliable, memory-IsReadable, tagged, tagged-JsonIsLawful,
}
use raft_example.Fsm.Sizes
use raft_example.Fsm.Sizes.{dir_size}
use raft_example.Engine.{is_voter}
use raft_example.Engine.Nodes.{nodes}
use raft_example.Engine.Stats.{log_size}
use raft_example.Service.Stats.{stat}
use raft_example.Tests.Requests.{answered, show}
use raft_example.Tests.Store.{machine}

abbrev copies : ℕ → ℕ → Bytes
copies zero c = []
copies (suc n) c = c ∷ copies n c

-- Each call of randomId has a source of one byte, so its id is of one character.
abbrev random : ℕ → ℕ → ℕ → Bytes
random call round n = copies n call

abbrev pairs : List (Bytes × Bytes)
pairs =
    (copies 10 65, copies 32 66)
    ∷ (copies 10 67, copies 32 68)
    ∷ (copies 10 69, copies 32 70)
    ∷ (copies 10 71, copies 32 72)
    ∷ (copies 10 73, copies 32 74)
    ∷ []

abbrev start : StateMachine memory × RaftServer
start = (
  machine 7 [],
  record {
    raft_id = bytes_of "A";
    raft_addr = bytes_of "r";
    db_applied_index = 7;
    ready_for_consistent_reads = 1;
  },
)

run_kv_demo_completes_example :
    (readings : List Reading) × (finish : StateMachine memory × RaftServer) × (stats : Bytes)
    × (run_kv_demo random 1 (node memory tagged 0 [] show (bytes_of "d") answered) start
        ≡ some (some (readings, stats), finish))
    × All IsKey (keys_of pairs)
    × AnswersTo (written (node_value memory start) pairs) 0 (keys_of pairs) readings
unfolding draw_pairs random_id random_bytes_mod take_bytes chars_of stat log_size nodes is_voter
    dir_size Sizes.stats
run_kv_demo_completes_example =
    run_kv_demo_completes memory tagged memory-IsReliable memory-IsReadable tagged-JsonIsLawful
      memory-PebbleIsLawful 0 [] show (bytes_of "d") answered random 1 pairs start refl (refl, refl)
      (λ m s. (s.raft_id, refl))

abbrev update : BlockingQueryResult
update = record { value = bytes_of "v"; current_index = 8; abandoned = false }

abbrev round : Result Bytes (List BlockingQueryResult × Closing Bytes) → Round Bytes
round stream = record { cancelled = false; stream = stream; cancelled_after = false }

-- A stream that breaks, one that cannot be opened, and the end of the context.
abbrev rounds : List (Round Bytes)
rounds =
    round (ok (update ∷ [], broken (bytes_of "reset")))
    ∷ round (err (bytes_of "refused"))
    ∷ record { cancelled = true; stream = ok ([], eof); cancelled_after = true }
    ∷ []

watch_loop_returns_example : ((watch_loop rounds).1 ≡ true) ↔ SawDone rounds
unfolding watch_stream
watch_loop_returns_example = watch_loop_returns rounds (tt, (tt, (tt, tt)))
