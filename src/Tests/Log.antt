-- ===== src/Tests/Log.antt =====
-- Commands of the log at concrete bytes, with the theorems on what they do and on the reads.
use raft_example.Prelude.{
  ℕ, ◌≡◌, refl, some, List, [], ◌∷◌, Bytes, bytes_of, ok, same, if◌then◌else◌,
}
use raft_example.Fsm.Store.{Store}
use raft_example.Fsm.Command.{CommandResponse, insert, apply_command, insert_type}
use raft_example.Fsm.Machine
use raft_example.Fsm.Machine.{StateMachine, Log, read_local}
use raft_example.Fsm.Machine.Replay.{apply_all, last_write, machine_value, apply_all-last_write}
use raft_example.Engine.{RaftServer, insert_command, apply, local_read}
use raft_example.Engine.Writes.{apply-local_read}
use raft_example.Tests.Memory.{
  memory, memory-PebbleIsLawful, memory-IsReliable, tagged, tagged-JsonIsLawful,
}
use raft_example.Tests.Store.{machine, pairs}

abbrev store : Store memory
store = (machine 7 pairs).store

-- The command that sets "k" to "w".
abbrev set_k : Bytes
set_k = insert_type ∷ 1 ∷ bytes_of "kw"

abbrev logs : List Log
logs =
    record { index = 8; payload = set_k }
    ∷ record { index = 9; payload = 9 ∷ [] }
    ∷ record { index = 10; payload = insert_type ∷ 1 ∷ bytes_of "kx" }
    ∷ []

apply_all-last_write_example :
    (machine_value memory (apply_all memory tagged logs (machine 7 pairs)) (bytes_of "k")
      ≡ last_write tagged logs
          (bytes_of "k")
          (machine_value memory (machine 7 pairs) (bytes_of "k")))
    × ((apply_all memory tagged logs (machine 7 pairs)).fsm_index ≡ 10)
apply_all-last_write_example =
    apply_all-last_write memory tagged memory-PebbleIsLawful memory-IsReliable logs
      (machine 7 pairs) (bytes_of "k") refl

abbrev server : RaftServer
server = record {
  raft_id = bytes_of "A";
  raft_addr = bytes_of "r";
  db_applied_index = 7;
  ready_for_consistent_reads = 0;
}

abbrev after : CommandResponse × StateMachine memory
after =
    Machine.apply memory tagged
      (record { index = 8; payload = insert_command tagged (bytes_of "k") (bytes_of "w") })
      (machine 7 pairs)

apply-local_read_example :
    (◌≡◌ {A = ℕ} 8 8)
    × ((record server { db_applied_index = 8 }).db_applied_index ≡ 8)
    × ((k : Bytes)
        → machine_value memory after.1 k ≡ (
            if same (bytes_of "k") k
            then some (bytes_of "w")
            else machine_value memory (machine 7 pairs) k))
    × ((applied i : ℕ) (v : Bytes)
        → local_read applied (read_local memory tagged (bytes_of "k") after.1) ≡ ok (i, v)
        → v ≡ bytes_of "w")
unfolding Machine.apply apply_command insert apply insert_command
apply-local_read_example =
    apply-local_read memory tagged memory-PebbleIsLawful memory-IsReliable tagged-JsonIsLawful
      (bytes_of "k") (bytes_of "w") 8 8 after.0 (machine 7 pairs) after.1 server
      (record server { db_applied_index = 8 }) refl refl
