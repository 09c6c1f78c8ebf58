-- ===== src/Tests/Store.antt =====
-- Runs of the package fsm over the concrete components, and its theorems at concrete inputs.
use raft_example.Prelude.{
  ℕ, ◌≡◌, ◌≢◌, refl, subst, true, false, none, some, [], ◌∷◌, ◌++◌, Bytes, bytes_of, Result, ok,
  arith, All,
}
use raft_example.Prelude.Map
use raft_example.Prelude.Map.{Map, lookup}
use raft_example.Fsm.Endian.{put_le, get_le}
use raft_example.Fsm.Stream.{Reader, read_full, Sink, SinkState, writing, closed, write, cancel}
use raft_example.Fsm.Stream
use raft_example.Fsm.Disk
use raft_example.Fsm.Batch
use raft_example.Fsm.Header.{read_snapshot_header, header_bytes}
use raft_example.Fsm.Save.{
  SnapshotResult, save_snapshot, save_iterated, save_body, save_records, save_record, count_record,
  write_or_cancel, write_hashed, gzip_or_cancel, gzip_encode, finish,
}
use raft_example.Fsm.Restore.{
  loaded, failed, stuck, load_snapshot, load_records, next_round, restore_round, put_value, flush,
}
use raft_example.Fsm.Restore.Loop.{Fits}
use raft_example.Fsm.Errors.{StoreError, sink_failed, checksum_mismatch}
use raft_example.Fsm.Disk.{
  Disk, file, folder, Exit, done, read_file, create, rename, remove_all, prune, make_dir, stat,
  touch,
}
use raft_example.Fsm.DataDir.{
  get_current_db_dir_name, save_current_db_dir_name, replace_current_db_file, sync_dir,
}
use raft_example.Fsm.Store.{recover_snapshot, install, switch_to}
use raft_example.Fsm.Machine.{StateMachine, FsmSnapshot, snapshot, persist, restore}
use raft_example.Fsm.Machine.Replay.{machine_value}
use raft_example.Fsm.Machine.Restoring.{persist-restore}
use raft_example.Fsm.Platform.{DistinctKeys}
use raft_example.Fsm.Header.Laws.{written_header}
use raft_example.Fsm.Save.Steps.{records_bytes}
use raft_example.Fsm.Stream.{cancelled}
use raft_example.Fsm.Platform.{PebbleError}
use raft_example.Fsm.Errors.{pebble_error}
use raft_example.Prelude.{err, ◌⊎◌}
use raft_example.Fsm.Save.Written.{
  IsUnclosed, IsFinished, save_snapshot-IsFinished, save_snapshot_fails,
}
use raft_example.Fsm.Restore.Ends.{load_snapshot-ne-stuck}
use raft_example.Fsm.RoundTrip.{save-restore, records_refused, records_loaded_unchecked}
use raft_example.Tests.Memory.{
  memory, memory-PebbleIsLawful, memory-IsReliable, plain, plain-CodecIsLawful,
}

abbrev pub md5 : Bytes → Bytes
md5 b = 9 ∷ 9 ∷ 9 ∷ 9 ∷ 9 ∷ 9 ∷ 9 ∷ 9 ∷ 9 ∷ 9 ∷ 9 ∷ 9 ∷ 9 ∷ 9 ∷ 9 ∷ 9 ∷ []

abbrev pub base : Bytes
base = bytes_of "d"

abbrev pub pairs : Map Bytes
pairs = (1 ∷ bytes_of "k", bytes_of "v") ∷ (1 ∷ bytes_of "e", []) ∷ []

abbrev pub machine : ℕ → Map Bytes → StateMachine memory
machine index db = record {
  raft_addr = bytes_of "r";
  node_id = bytes_of "A";
  fsm_index = index;
  store = record { base_dir = base; db = db; closed = false };
  abandon_ch = 0;
  metrics = record {
    last_snapshot_size = 0;
    last_snapshot_records = 0;
    snapshot_count = 0;
    restore_count = 0;
  };
}

abbrev pub empty_sink : Sink
empty_sink = record { written = []; state = writing; plan = [] }

-- d holds the folder d/o, and the pointer file names it.
abbrev pub disk : Disk
disk = record {
  nodes =
      (base, folder)
      ∷ (bytes_of "d/o", folder)
      ∷ (bytes_of "d/pebble.running", file (9 ∷ 9 ∷ 9 ∷ 9 ∷ 9 ∷ 9 ∷ 9 ∷ 9 ∷ bytes_of "d/o"))
      ∷ [];
  plan = [];
  windows = false;
}

abbrev taken : FsmSnapshot memory
taken = record { snapshot = pairs; last_index = 7 }

abbrev pub written : Result StoreError Unit × Sink × StateMachine memory
written = persist memory plain 5 taken empty_sink (machine 7 pairs)

-- A run of the save and the restore, all calls going through.
unfoldable pub saving_runs : ℕ
unfolding persist save_snapshot save_iterated save_body save_records save_record count_record
    write_or_cancel write_hashed gzip_or_cancel gzip_encode finish header_bytes put_le write cancel
    Stream.close Map.remove snapshot
saving_runs = 0

abbrev restored : Exit Unit × StateMachine memory × Disk
restored =
    restore memory plain md5 1000 (bytes_of "n")
      (record { bytes = written.1.written; broken = false }) (machine 2 []) disk

unfoldable pub restoring_runs : ℕ
unfolding saving_runs restore recover_snapshot install read_snapshot_header read_full get_le
    load_snapshot load_records next_round restore_round put_value flush Batch.put Batch.commit
    Batch.new_write_batch Map.insert lookup read_file create Disk.write rename remove_all prune
    make_dir stat touch get_current_db_dir_name save_current_db_dir_name replace_current_db_file
    sync_dir switch_to
restoring_runs = 0

pub pairs_fit :
    (es : Map Bytes) → memory.iterate pairs ≡ ok (es, none) → All (Fits plain memory 1000) es
unfolding Map.remove
pairs_fit es h =
    let e : pairs ≡ es = ground arith in subst (All (Fits plain memory 1000)) e (omega arith)

persist-restore_example :
    ((key : Bytes)
      → machine_value memory restored.1 key ≡ machine_value memory (machine 7 pairs) key)
    × (restored.1.fsm_index ≡ 7)
    × (restored.1.abandon_ch ≡ 1)
    × (restored.1.metrics.restore_count ≡ 1)
unfolding restoring_runs
persist-restore_example =
    persist-restore plain memory 1000 plain-CodecIsLawful memory-PebbleIsLawful memory-IsReliable
      (omega arith) md5 5 (bytes_of "n") (machine 7 pairs) written.2 (machine 2 []) restored.1 disk
      restored.2 taken empty_sink written.1 refl refl refl (omega arith) (omega arith) (omega arith)
      pairs_fit refl

abbrev pub saved : Result StoreError SnapshotResult × Sink
saved = save_snapshot plain memory (bytes_of "A") 7 5 pairs empty_sink

abbrev pub two_records : SnapshotResult
two_records = record { size = 72; records = 2; checksum = 333 }

save_snapshot-IsFinished_example :
    (es : Map Bytes) × (memory.iterate pairs ≡ ok (es, none))
    × IsFinished plain (bytes_of "A") 7 5 es empty_sink two_records saved.1
unfolding saving_runs
save_snapshot-IsFinished_example =
    save_snapshot-IsFinished plain memory (bytes_of "A") 7 5 pairs empty_sink saved.1 two_records
      refl

-- The second write to this sink fails.
abbrev broken_sink : Sink
broken_sink = record { written = []; state = writing; plan = none ∷ some 0 ∷ [] }

abbrev unsaved : Result StoreError SnapshotResult × Sink
unsaved = save_snapshot plain memory (bytes_of "A") 7 5 pairs broken_sink

save_snapshot_fails_example :
    (unsaved.1.state ≡ cancelled)
    ⊎ ((x : PebbleError) × (memory.iterate pairs ≡ err x)
        × (sink_failed ≡ pebble_error x)
        × (unsaved.1 ≡ broken_sink))
    ⊎ ((es : Map Bytes) × (memory.iterate pairs ≡ ok (es, none))
        × IsUnclosed plain (bytes_of "A") 7 5 es broken_sink sink_failed unsaved.1)
unfolding saving_runs
save_snapshot_fails_example =
    save_snapshot_fails plain memory (bytes_of "A") 7 5 pairs broken_sink unsaved.1 sink_failed refl

save-restore_example :
    (rest : Reader) × (read_snapshot_header (record { bytes = saved.1.written; broken = false })
      ≡ ok (written_header (bytes_of "A") 7 5, rest))
    × (newdb : Map Bytes) × (load_snapshot plain memory 1000 [] rest ≡ loaded newdb)
    × ((k : Bytes) → lookup k newdb ≡ lookup k pairs)
unfolding saving_runs
save-restore_example =
    save-restore plain memory 1000 plain-CodecIsLawful memory-PebbleIsLawful memory-IsReliable
      (omega arith) (bytes_of "A") 7 5 pairs empty_sink saved.1 two_records refl refl (omega arith)
      (omega arith) (omega arith) pairs_fit

load_snapshot-ne-stuck_example :
    load_snapshot plain memory 1000 pairs (record { bytes = 1 ∷ 2 ∷ 3 ∷ []; broken = true }) ≢ stuck
load_snapshot-ne-stuck_example =
    load_snapshot-ne-stuck plain memory 1000 pairs
      (record { bytes = 1 ∷ 2 ∷ 3 ∷ []; broken = true })

pairs_distinct : DistinctKeys pairs
unfolding lookup
pairs_distinct = (refl, (refl, tt))

records_refused_example :
    load_snapshot plain memory 1000 []
      (record { bytes = records_bytes plain pairs ++ put_le 4 334; broken = false })
    ≡ failed (checksum_mismatch 334 333)
unfolding put_le Map.remove
records_refused_example =
    records_refused plain memory 1000 plain-CodecIsLawful memory-PebbleIsLawful memory-IsReliable
      (omega arith) pairs pairs_distinct (pairs_fit pairs refl) 334 (omega arith) (omega arith)

records_loaded_unchecked_example :
    (db : Map Bytes) × (load_snapshot plain memory 1000 []
        (record { bytes = records_bytes plain pairs; broken = false })
      ≡ loaded db)
    × ((k : Bytes) → lookup k db ≡ lookup k pairs)
unfolding Map.remove
records_loaded_unchecked_example =
    records_loaded_unchecked plain memory 1000 plain-CodecIsLawful memory-PebbleIsLawful
      memory-IsReliable (omega arith) pairs pairs_distinct (pairs_fit pairs refl)
