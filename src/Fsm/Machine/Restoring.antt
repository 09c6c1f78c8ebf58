-- ===== src/Fsm/Machine/Restoring.antt =====
-- A snapshot that one state machine persists, restored by another.
use raft_example.Prelude.{
  ℕ, ◌+◌, ◌<◌, ◌^◌, ◌≡◌, refl, ap, sym, ◌∙◌, subst, Bool, Bool-cases, inl, inr, false, none, [],
  ◌∷◌, Bytes, length, Result, ok, err, ltb, if◌then◌else◌, arith, All,
}
use raft_example.Prelude.Map.{Map}
use raft_example.Fsm.Platform.{Pebble, PebbleIsLawful, IsReliable, Codec, CodecIsLawful}
use raft_example.Fsm.Stream.{Reader, Sink}
use raft_example.Fsm.Errors.{StoreError, db_closed}
use raft_example.Fsm.Header.{SnapshotHeader}
use raft_example.Fsm.Save.{SnapshotResult, save_snapshot}
use raft_example.Fsm.Restore.{Loaded, loaded, load_snapshot}
use raft_example.Fsm.Restore.Loop.{Fits}
use raft_example.Fsm.RoundTrip.{save-restore}
use raft_example.Fsm.Disk.{Disk, Exit, done, error, panicked, crashed}
use raft_example.Fsm.Store.{Store, cf_default, recover_snapshot}
use raft_example.Fsm.Store.Install.{recover_snapshot_done}
use raft_example.Fsm.Machine.{
  StateMachine, FsmSnapshot, snapshot, persist, on_persist, restore, restore_open, restored,
  on_restore,
}
use raft_example.Fsm.Machine.Replay.{machine_value}

module _ (C : Codec) (P : Pebble) where
  snapshot_lem :
      (m : StateMachine P) (snap : FsmSnapshot P)
      → snapshot P m ≡ ok snap
      → snap ≡ record { snapshot = m.store.db; last_index = m.fsm_index }
  unfolding snapshot
  snapshot_lem m snap h = ground arith

  -- A persist with no error is a save with no error.
  persist_saves :
      (now : ℕ) (snap : FsmSnapshot P) (sink after : Sink) (m m' : StateMachine P)
      → persist P C now snap sink m ≡ (ok tt, after, m')
      → (r : SnapshotResult) × (save_snapshot C P m.node_id snap.last_index now snap.snapshot sink
          ≡ (ok r, after))
  unfolding persist
  persist_saves now snap sink after m m' h =
      by_save (save_snapshot C P m.node_id snap.last_index now snap.snapshot sink).0
        (save_snapshot C P m.node_id snap.last_index now snap.snapshot sink).1 refl h
    where
      by_save :
          (r : Result StoreError SnapshotResult) (s : Sink)
          → save_snapshot C P m.node_id snap.last_index now snap.snapshot sink ≡ (r, s)
          → ◌≡◌ {A = Result StoreError Unit × Sink × StateMachine P}
              ((on_persist P C r m).0, s, (on_persist P C r m).1)
              (ok tt, after, m')
          → (r : SnapshotResult) × (save_snapshot C P m.node_id snap.last_index now snap.snapshot
                sink
              ≡ (ok r, after))
      by_save (ok r) s e k =
          (r, e ∙ ap (λ (z : Result StoreError Unit × Sink × StateMachine P). (ok r, z.1)) k)
      by_save (err x) s e k = cc

  restore_done :
      (md5 : Bytes → Bytes) (max_alloc : ℕ) (name : Bytes) (reader : Reader) (m m' : StateMachine P)
      (d d' : Disk)
      → restore P C md5 max_alloc name reader m d ≡ (done tt, m', d')
      → (h : SnapshotHeader) × (s : Store P) × (recover_snapshot md5 C P max_alloc name reader
            m.store d
          ≡ (done h, s, d'))
        × (m' ≡ restored P C h (record m { store = s }))
  unfolding restore
  restore_done md5 max_alloc name reader m m' d d' h = elim (Bool-cases m.store.closed) [
    | inl e ↦ absurd (closed_fails (subst (λ b. branch b ≡ (done tt, m', d')) e h))
    | inr e ↦
        let run = recover_snapshot md5 C P max_alloc name reader m.store d in
        by_recover run.0 run.1 run.2 refl (subst (λ b. branch b ≡ (done tt, m', d')) e h)
  ]
    where
      branch : Bool → Exit Unit × StateMachine P × Disk
      branch b =
          if b then (error db_closed, m, d) else restore_open P C md5 max_alloc name reader m d

      closed_fails :
          ◌≡◌ {A = Exit Unit × StateMachine P × Disk} (error db_closed, m, d) (done tt, m', d') → ⊥
      closed_fails k = cc

      by_recover :
          (r : Exit SnapshotHeader) (s : Store P) (d₁ : Disk)
          → recover_snapshot md5 C P max_alloc name reader m.store d ≡ (r, s, d₁)
          → ◌≡◌ {A = Exit Unit × StateMachine P × Disk}
              (
                (on_restore P C r (record m { store = s })).0,
                (on_restore P C r (record m { store = s })).1,
                d₁,
              )
              (done tt, m', d')
          → (h : SnapshotHeader) × (s : Store P) × (recover_snapshot md5 C P max_alloc name reader
                m.store d
              ≡ (done h, s, d'))
            × (m' ≡ restored P C h (record m { store = s }))
      by_recover (done h) s d₁ e k = (
        h,
        s,
        e ∙ ap (λ (z : Exit Unit × StateMachine P × Disk). (done h, s, z.2)) k,
        sym (ap (λ (z : Exit Unit × StateMachine P × Disk). z.1) k),
      )
      by_recover (error x) s d₁ e k = cc
      by_recover panicked s d₁ e k = cc
      by_recover crashed s d₁ e k = cc

module _ (C : Codec) (P : Pebble) (h : SnapshotHeader) (m : StateMachine P) where
  restored_lem :
      ((restored P C h m).store ≡ m.store)
      × ((restored P C h m).fsm_index ≡ (if ltb 0 h.last_index then h.last_index else m.fsm_index))
      × ((restored P C h m).abandon_ch ≡ m.abandon_ch + 1)
      × ((restored P C h m).metrics.restore_count ≡ m.metrics.restore_count + 1)
  unfolding restored
  restored_lem = ground arith

ok_pair :
    {A B : Type 0} {a a' : A} {b b' : B}
    → ◌≡◌ {A = Result StoreError (A × B)} (ok (a, b)) (ok (a', b'))
    → (a ≡ a') × (b ≡ b')
ok_pair h = ground arith

same_load : {P : Pebble} {a b : P.DB} → ◌≡◌ {A = Loaded P} (loaded a) (loaded b) → a ≡ b
same_load h = ground arith

-- A restore neither opens nor closes the store.
pub restore-closed :
    (C : Codec) (P : Pebble) (md5 : Bytes → Bytes) (max_alloc : ℕ) (name : Bytes) (reader : Reader)
    (n n' : StateMachine P) (d d' : Disk)
    → restore P C md5 max_alloc name reader n d ≡ (done tt, n', d')
    → n'.store.closed ≡ n.store.closed
restore-closed C P md5 max_alloc name reader n n' d d' came =
    let (h, s, recovered, result) = restore_done C P md5 max_alloc name reader n n' d d' came in
    let (rest, newdb, header, load, swap) =
      recover_snapshot_done md5 C P max_alloc name reader n.store s d d' h recovered in
    ap (λ (x : StateMachine P). x.store.closed) result
    ∙ ap (λ (x : Store P). x.closed) ((restored_lem C P h (record n { store = s })).0 ∙ swap)

-- Two machines, the disk of the one that restores, and the sink between them.
module _ (C : Codec) (P : Pebble) (max_alloc : ℕ) (codec : CodecIsLawful C)
    (lawful : PebbleIsLawful P) (reliable : IsReliable P) (alloc_fits : max_alloc < 2 ^ 64)
    (md5 : Bytes → Bytes) (now : ℕ) (name : Bytes) (m m' n n' : StateMachine P) (d d' : Disk)
    (snap : FsmSnapshot P) (sink after : Sink) where
  -- Over a lawful codec and a lawful database whose commits succeed, and with less than 2 ^ 64
  -- bytes to allocate: let Snapshot on `m` return a snapshot, Persist write it to an empty sink
  -- with no error, and Restore on `n` return with no error from a reader of what was written. If
  -- the node id, the index and the time fit their fields and every pair can be restored, then `n`
  -- holds the value of `m` under every key, has its index unless that is zero, has replaced the
  -- channel that watchers wait on, and has counted one restore.
  pub persist-restore :
      snapshot P m ≡ ok snap
      → persist P C now snap sink m ≡ (ok tt, after, m')
      → sink.written ≡ []
      → length m.node_id < 2 ^ 16
      → m.fsm_index < 2 ^ 64
      → now < 2 ^ 64
      → ((es : Map Bytes) → P.iterate m.store.db ≡ ok (es, none) → All (Fits C P max_alloc) es)
      → restore P C md5 max_alloc name (record { bytes = after.written; broken = false }) n d
        ≡ (done tt, n', d')
      → ((key : Bytes) → machine_value P n' key ≡ machine_value P m key)
        × (n'.fsm_index ≡ (if ltb 0 m.fsm_index then m.fsm_index else n.fsm_index))
        × (n'.abandon_ch ≡ n.abandon_ch + 1)
        × (n'.metrics.restore_count ≡ n.metrics.restore_count + 1)
  persist-restore taken persisted empty id_fits index_fits now_fits can came =
      let e = snapshot_lem C P m snap taken in
      let (r, saved) = persist_saves C P now snap sink after m m' persisted in
      let saved' =
        subst
          (λ (x : FsmSnapshot P).
            save_snapshot C P m.node_id x.last_index now x.snapshot sink ≡ (ok r, after))
          e saved in
      let (rest, header, newdb, load, found) =
        save-restore C P max_alloc codec lawful reliable alloc_fits m.node_id m.fsm_index now
          m.store.db sink after r saved' empty id_fits index_fits now_fits can in
      let (h, s, recovered, result) = restore_done C P md5 max_alloc name _ n n' d d' came in
      let (rest', newdb', header', load', swap) =
        recover_snapshot_done md5 C P max_alloc name _ n.store s d d' h recovered in
      let (same_header, same_rest) = ok_pair (sym header ∙ header') in
      let same_db =
        same_load (sym load ∙ ap (load_snapshot C P max_alloc P.open_new) same_rest ∙ load') in
      let (store, index, ch, count) = restored_lem C P h (record n { store = s }) in
      let db : n'.store.db ≡ newdb =
        ap (λ (x : StateMachine P). x.store.db) result
        ∙ ap (λ (x : Store P). x.db) (store ∙ swap)
        ∙ sym same_db in
      (
        λ key. ap (λ (x : P.DB). P.find x (cf_default ∷ key)) db ∙ found (cf_default ∷ key),
        ap (λ (x : StateMachine P). x.fsm_index) result
            ∙ index
            ∙ ap (λ (x : SnapshotHeader). if ltb 0 x.last_index then x.last_index else n.fsm_index)
                (sym same_header),
        ap (λ (x : StateMachine P). x.abandon_ch) result ∙ ch,
        ap (λ (x : StateMachine P). x.metrics.restore_count) result ∙ count,
      )
