-- ===== src/Tests/Cluster.antt =====
-- Two machines of a cluster, one of which takes over the other's snapshot.
use raft_example.Prelude.{
  ℕ, ◌⊎◌, ◌≡◌, refl, subst, false, Option, none, [], ◌∷◌, Bytes, bytes_of, Result, ok, All, arith,
}
use raft_example.Prelude.Map.{Map}
use raft_example.Fsm.Errors.{StoreError}
use raft_example.Fsm.Disk.{Disk, Exit}
use raft_example.Fsm.Stream.{Sink}
use raft_example.Fsm.Command.{insert, apply_command, insert_type}
use raft_example.Fsm.Machine
use raft_example.Fsm.Machine.{StateMachine, FsmSnapshot, Log, snapshot, persist, restore}
use raft_example.Fsm.Machine.Replay.{last_index, machine_value, last_write}
use raft_example.Fsm.Machine.Replicas.{
  Reaches, fresh, applied, installed, Transfer, reaches-refines,
}
use raft_example.Fsm.Restore.Loop.{Fits}
use raft_example.Tests.Memory.{
  memory, memory-PebbleIsLawful, memory-IsReliable, plain, plain-CodecIsLawful, tagged,
}
use raft_example.Tests.Store.{md5, pairs, machine, empty_sink, disk, restoring_runs}

-- The entry that sets "k" to "w".
abbrev log : Log
log = record { index = 7; payload = insert_type ∷ 1 ∷ bytes_of "kw" }

abbrev values : Bytes → Option Bytes
values = machine_value memory (machine 0 pairs)

abbrev leader : StateMachine memory
leader = (Machine.apply memory tagged log (machine 0 pairs)).1

abbrev taken : FsmSnapshot memory
taken = record { snapshot = leader.store.db; last_index = 7 }

abbrev written : Result StoreError Unit × Sink × StateMachine memory
written = persist memory plain 5 taken empty_sink leader

abbrev came : Exit Unit × StateMachine memory × Disk
came =
    restore memory plain md5 1000 (bytes_of "n")
      (record { bytes = written.1.written; broken = false }) (machine 0 pairs) disk

unfoldable cluster_runs : ℕ
unfolding restoring_runs Machine.apply apply_command insert
cluster_runs = 0

leader-Fits :
    (es : Map Bytes)
    → memory.iterate leader.store.db ≡ ok (es, none)
    → All (Fits plain memory 1000) es
unfolding cluster_runs
leader-Fits es h =
    let e : leader.store.db ≡ es = ground arith in
    subst (All (Fits plain memory 1000)) e (omega arith)

transfer : Transfer memory plain tagged 1000 md5 values leader (machine 0 pairs) came.1
unfolding cluster_runs
transfer = record {
  snap = taken;
  now = 5;
  sink = empty_sink;
  after = written.1;
  m' = written.2;
  name = bytes_of "n";
  d = disk;
  d' = came.2;
  taken = refl;
  persisted = refl;
  empty = refl;
  id_fits = omega arith;
  index_fits = omega arith;
  now_fits = omega arith;
  can = leader-Fits;
  came = refl;
}

started : Reaches memory plain tagged 1000 md5 values (machine 0 pairs) []
started = fresh (machine 0 pairs) refl refl (λ key. refl)

followed : Reaches memory plain tagged 1000 md5 values came.1 (log ∷ [])
followed =
    installed leader (machine 0 pairs) came.1 (log ∷ []) []
      (applied (machine 0 pairs) [] log started) started transfer

reaches-refines_example :
    ((key : Bytes)
      → machine_value memory came.1 key ≡ last_write tagged (log ∷ []) key (values key))
    × ((last_index (log ∷ []) 0 ≡ 0) ⊎ (came.1.fsm_index ≡ 7))
reaches-refines_example =
    reaches-refines memory plain tagged 1000 md5 values plain-CodecIsLawful memory-PebbleIsLawful
      memory-IsReliable (omega arith) came.1 (log ∷ []) followed
