-- ===== src/Fsm/Machine.antt =====
-- The raft.FSM of fsm/fsm.go: StateMachine with Apply, Snapshot, Persist, Restore and Close.
pub mod Replay
pub mod Restoring
pub mod Completes
pub mod Replicas
pub mod Abandoning
use raft_example.Prelude.{
  ℕ, suc, ◌+◌, ◌≡◌, Bool, true, false, Option, none, some, List, [], ◌∷◌, Bytes, Result, ok, err,
  ltb, if◌then◌else◌,
}
use raft_example.Fsm.Platform.{Pebble, Codec}
use raft_example.Fsm.Stream.{Reader, Sink}
use raft_example.Fsm.Errors.{StoreError, db_closed}
use raft_example.Fsm.Header.{SnapshotHeader}
use raft_example.Fsm.Save.{SnapshotResult, save_snapshot}
use raft_example.Fsm.Disk.{Disk, Exit, done, error, panicked, crashed, Io, ◌>>=◌, pure}
use raft_example.Fsm.Store
use raft_example.Fsm.Store.{Store, new_store, recover_snapshot}
use raft_example.Fsm.Command.{Json, CommandResponse, respond, query, apply_command}

-- The durations and times of the last snapshot and restore are left out.
pub record SnapshotMetrics : Type 0 where
  pub last_snapshot_size : ℕ
  pub last_snapshot_records : ℕ
  pub snapshot_count : ℕ
  pub restore_count : ℕ

-- `abandon_ch` numbers the channels that were made for it: those below it are closed, and it is open.
pub record StateMachine (P : Pebble) : Type 0 where
  pub raft_addr : Bytes
  pub node_id : Bytes
  pub fsm_index : ℕ
  pub store : Store P
  pub abandon_ch : ℕ
  pub metrics : SnapshotMetrics

-- A `raft.Log`: its index, and its data.
pub record Log : Type 0 where
  pub index : ℕ
  pub payload : Bytes

pub record FsmSnapshot (P : Pebble) : Type 0 where
  pub snapshot : P.DB
  pub last_index : ℕ

abbrev no_metrics : SnapshotMetrics
no_metrics = record {
  last_snapshot_size = 0;
  last_snapshot_records = 0;
  snapshot_count = 0;
  restore_count = 0;
}

module _ (P : Pebble) where
  unfoldable pub new_state_machine :
      (Bytes → Bytes) → Bytes → Bytes → Bytes → Bytes → P.DB → Io (StateMachine P)
  new_state_machine md5 raft_addr node_id dir name opened = do
    s ← new_store P md5 dir name opened
    pure (record {
      raft_addr = raft_addr;
      node_id = node_id;
      fsm_index = 0;
      store = s;
      abandon_ch = 0;
      metrics = no_metrics;
    })

  unfoldable pub get_fsm_index : StateMachine P → ℕ
  get_fsm_index m = m.fsm_index

  unfoldable pub update_fsm_index : ℕ → StateMachine P → StateMachine P
  update_fsm_index index m = if ltb m.fsm_index index then record m { fsm_index = index } else m

  unfoldable pub abandon : StateMachine P → StateMachine P
  abandon m = record m { abandon_ch = m.abandon_ch + 1 }

  -- Close of a store that is closed already does nothing.
  unfoldable pub close : StateMachine P → StateMachine P
  close m = if m.store.closed then m else record m { store = Store.close P m.store }

  unfoldable pub snapshot : StateMachine P → Result StoreError (FsmSnapshot P)
  snapshot m =
      if m.store.closed
      then err db_closed
      else ok (record { snapshot = m.store.db; last_index = m.fsm_index })

  module _ (J : Json) where
    unfoldable pub read_local : Bytes → StateMachine P → CommandResponse
    read_local key m = respond (query J P key m.store)

    -- The index is stored before the command is run, also if the command fails.
    unfoldable pub apply : Log → StateMachine P → CommandResponse × StateMachine P
    apply log m =
        if m.store.closed
        then (respond (err db_closed), m)
        else (let (r, s) = apply_command J P log.payload m.store in
            (r, record m { fsm_index = log.index; store = s }))

  module _ (C : Codec) where
    persisted : SnapshotResult → StateMachine P → StateMachine P
    persisted r m = record m {
      metrics = record m.metrics {
        last_snapshot_size = r.size;
        last_snapshot_records = r.records;
        snapshot_count = m.metrics.snapshot_count + 1;
      };
    }

    on_persist :
        Result StoreError SnapshotResult → StateMachine P → Result StoreError Unit × StateMachine P
    unfolding persisted
    on_persist (err e) m = (err e, m)
    on_persist (ok r) m = (ok tt, persisted r m)

    -- `now` is the clock's Unix time.
    unfoldable pub persist :
        ℕ → FsmSnapshot P → Sink → StateMachine P → Result StoreError Unit × Sink × StateMachine P
    unfolding on_persist
    persist now snap sink m =
        let (r, sink') = save_snapshot C P m.node_id snap.last_index now snap.snapshot sink in
        let (r', m') = on_persist r m in (r', sink', m')

    -- What Restore does when the snapshot has been recovered.
    unfoldable pub restored : SnapshotHeader → StateMachine P → StateMachine P
    unfolding abandon
    restored h m =
        let n = (if ltb 0 h.last_index then record m { fsm_index = h.last_index } else m) in
        abandon
          (record n { metrics = record n.metrics { restore_count = n.metrics.restore_count + 1 } })

    on_restore : Exit SnapshotHeader → StateMachine P → Exit Unit × StateMachine P
    unfolding restored
    on_restore (done h) m = (done tt, restored h m)
    on_restore (error e) m = (error e, m)
    on_restore panicked m = (panicked, m)
    on_restore crashed m = (crashed, m)

    restore_open :
        (Bytes → Bytes)
        → ℕ
        → Bytes
        → Reader
        → StateMachine P
        → Disk
        → Exit Unit × StateMachine P × Disk
    unfolding on_restore
    restore_open md5 max_alloc name reader m d =
        let (r, s, d') = recover_snapshot md5 C P max_alloc name reader m.store d in
        let (r', m') = on_restore r (record m { store = s }) in (r', m', d')

    unfoldable pub restore :
        (Bytes → Bytes)
        → ℕ
        → Bytes
        → Reader
        → StateMachine P
        → Disk
        → Exit Unit × StateMachine P × Disk
    unfolding restore_open
    restore md5 max_alloc name reader m d =
        if m.store.closed
        then (error db_closed, m, d)
        else restore_open md5 max_alloc name reader m d
