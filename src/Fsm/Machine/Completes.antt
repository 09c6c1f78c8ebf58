-- ===== src/Fsm/Machine/Completes.antt =====
-- Restore on a disk whose calls all go through, from what Persist wrote.
use raft_example.Prelude.{
  ℕ, ◌<◌, ◌^◌, ◌≡◌, ap, sym, subst, false, none, [], Bytes, length, ok, All, if◌then◌else◌,
}
use raft_example.Prelude.Map.{Map}
use raft_example.Fsm.Platform.{Pebble, PebbleIsLawful, IsReliable, Codec, CodecIsLawful}
use raft_example.Fsm.Stream.{Reader, Sink}
use raft_example.Fsm.Restore.Loop.{Fits}
use raft_example.Fsm.RoundTrip.{save-restore}
use raft_example.Fsm.Save.{SnapshotResult, save_snapshot}
use raft_example.Fsm.Disk.{Disk, done, error}
use raft_example.Fsm.Errors.{db_closed}
use raft_example.Fsm.Header.Laws.{written_header}
use raft_example.Fsm.Store.{recover_snapshot}
use raft_example.Fsm.Store.Completes.{Names, recover_snapshot_completes}
use raft_example.Fsm.Machine.{StateMachine, on_restore, restore, restore_open}

module _ (C : Codec) (P : Pebble) (max_alloc : ℕ) (codec : CodecIsLawful C)
    (lawful : PebbleIsLawful P) (reliable : IsReliable P) (alloc_fits : max_alloc < 2 ^ 64)
    (md5 : Bytes → Bytes) where
  -- Over a lawful codec and a lawful database whose commits succeed, and with less than 2 ^ 64
  -- bytes to allocate: let saveSnapShot return without an error from an empty sink, with a node id,
  -- an index and a time that fit their fields and pairs that can all be restored. On an open
  -- machine, on a disk whose calls all go through, with the data directory there and pebble.running
  -- naming a folder that stands directly in it, Restore from a reader of what was written returns
  -- without an error.
  pub restore_completes :
      (node_id : Bytes) (last_index now : ℕ) (db : P.DB) (sink after : Sink) (r : SnapshotResult)
      (name content old : Bytes) (n : StateMachine P) (d : Disk)
      → save_snapshot C P node_id last_index now db sink ≡ (ok r, after)
      → sink.written ≡ []
      → length node_id < 2 ^ 16
      → last_index < 2 ^ 64
      → now < 2 ^ 64
      → ((es : Map Bytes) → P.iterate db ≡ ok (es, none) → All (Fits C P max_alloc) es)
      → n.store.closed ≡ false
      → Names md5 C P max_alloc n.store content old d
      → (restore P C md5 max_alloc name (record { bytes = after.written; broken = false }) n d).0
        ≡ done tt
  unfolding restore restore_open on_restore
  restore_completes node_id last_index now db sink after r name content old n d saved empty id_fits
        index_fits now_fits can is_open names =
      let (rest, header, newdb, load, found) =
        save-restore C P max_alloc codec lawful reliable alloc_fits node_id last_index now db sink
          after r saved empty id_fits index_fits now_fits can in
      let reader : Reader = record { bytes = after.written; broken = false } in
      let run = recover_snapshot md5 C P max_alloc name reader n.store d in
      let e =
        recover_snapshot_completes md5 C P max_alloc n.store name content old reader rest
          (written_header node_id last_index now) newdb d names header load in
      let opened : (restore_open P C md5 max_alloc name reader n d).0 ≡ done tt =
        ap (λ x. (on_restore P C x (record n { store = run.1 })).0) e in
      subst
        (λ b.
          (if b then (error db_closed, n, d) else restore_open P C md5 max_alloc name reader n d).0
          ≡ done tt)
        (sym is_open) opened
