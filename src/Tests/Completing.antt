-- ===== src/Tests/Completing.antt =====
-- Calls that complete, at concrete sinks and disks.
use raft_example.Prelude.{◌≡◌, ◌↔◌, ◌⊎◌, refl, false, List, [], ◌∷◌, Bytes, bytes_of, ok, arith}
use raft_example.Prelude.Map
use raft_example.Prelude.Map.{lookup}
use raft_example.Fsm.Save.{SnapshotResult, save_snapshot}
use raft_example.Fsm.Save.Completes.{save_snapshot_completes}
use raft_example.Fsm.Disk.{done}
use raft_example.Fsm.DataDir.{parse_pointer}
use raft_example.Fsm.Machine.{restore}
use raft_example.Fsm.Machine.Completes.{restore_completes}
use raft_example.Fsm.Machine.Abandoning.{
  MachineCall, applies, restores, closes, abandon_channel, calls, HasRestored,
}
use raft_example.Watch.{Phase, waiting, answered}
use raft_example.Watch.Abandoning.{abandoned_result, look, look-HasRestored}
use raft_example.Tests.Memory.{
  tagged, memory, memory-PebbleIsLawful, memory-IsReliable, plain, plain-CodecIsLawful,
}
use raft_example.Tests.Store.{
  md5, pairs, machine, empty_sink, disk, saved, two_records, pairs_fit, saving_runs,
}

save_snapshot_completes_example :
    (r : SnapshotResult) × ((save_snapshot plain memory (bytes_of "A") 7 5 pairs empty_sink).0
      ≡ ok r)
unfolding Map.remove
save_snapshot_completes_example =
    save_snapshot_completes plain plain-CodecIsLawful memory (bytes_of "A") 7 5 pairs empty_sink
      pairs refl refl

restore_completes_example :
    (restore memory plain md5 1000
      (bytes_of "n")
      (record { bytes = saved.1.written; broken = false })
      (machine 2 [])
      disk).0
    ≡ done tt
unfolding saving_runs lookup parse_pointer
restore_completes_example =
    restore_completes plain memory 1000 plain-CodecIsLawful memory-PebbleIsLawful memory-IsReliable
      (omega arith) md5 (bytes_of "A") 7 5 pairs empty_sink saved.1 two_records (bytes_of "n")
      (9 ∷ 9 ∷ 9 ∷ 9 ∷ 9 ∷ 9 ∷ 9 ∷ 9 ∷ bytes_of "d/o") (bytes_of "d/o") (machine 2 []) disk refl
      refl (omega arith) (omega arith) (omega arith) pairs_fit refl
      ((refl, refl), refl, refl, refl, refl)

-- An entry is applied, the snapshot is restored, and the state machine is closed.
abbrev made : List (MachineCall memory)
made =
    applies (record { index = 3; payload = [] })
    ∷ restores (bytes_of "n") (record { bytes = saved.1.written; broken = false }) disk
    ∷ closes
    ∷ []

abbrev looked : Phase Bytes
looked = look 9 0 (calls memory tagged plain md5 1000 made (machine 2 [])) (waiting [] 2)

look-HasRestored_example :
    ((looked ≡ answered (ok abandoned_result))
      ↔ HasRestored memory tagged plain md5 1000 made (machine 2 []))
    × ((looked ≡ answered (ok abandoned_result)) ⊎ (looked ≡ waiting [] 2))
unfolding abandon_channel
look-HasRestored_example =
    look-HasRestored memory tagged plain md5 1000 Bytes 9 [] 2 made (machine 2 [])
