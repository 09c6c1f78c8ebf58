-- ===== src/Fsm/Store/Crash/Once.antt =====
-- recoverSnapShot and its parts on a disk on which each path stands once.
use raft_example.Prelude.{ℕ, Bytes, Result, ok, err}
use raft_example.Fsm.Platform.{Pebble, Codec}
use raft_example.Fsm.Stream.{Reader}
use raft_example.Fsm.Errors.{StoreError}
use raft_example.Fsm.Header.{read_snapshot_header}
use raft_example.Fsm.Restore.{
  Loaded, loaded, failed, panicked as load_panicked, stuck, load_snapshot,
}
use raft_example.Fsm.Disk.{
  Disk, Exit, done, error, panicked, crashed, pure, lift, remove_all, make_dir, parent_dir, join,
}
use raft_example.Fsm.Disk.Paths.{Unique}
use raft_example.Fsm.Disk.Once.{
  KeepsOnce, KeepsOnce-here, KeepsOnce-lift, KeepsOnce-try, KeepsOnce-bind, KeepsOnce-make_dir,
  KeepsOnce-remove_all,
}
use raft_example.Fsm.DataDir.{get_current_db_dir_name}
use raft_example.Fsm.DataDir.Once.{
  KeepsOnce-sync_dir, KeepsOnce-replace, KeepsOnce-save, KeepsOnce-current,
}
use raft_example.Fsm.Store.{
  Store, Installed, cleanup_new_db, or_cleanup, loaded_or_cleanup, switch_replace, switch_to,
  install, retire, after_install, recover_snapshot,
}
use raft_example.Fsm.Store.Install.{behind_load, behind_open, behind_old_dir, behind_header}

KeepsOnce-cleanup : (p : Bytes) → KeepsOnce (cleanup_new_db p)
unfolding cleanup_new_db
KeepsOnce-cleanup p =
    KeepsOnce-bind _ _ (KeepsOnce-try (remove_all p) (KeepsOnce-remove_all p))
      (λ _. KeepsOnce-here (done tt))

KeepsOnce-or_cleanup : (p : Bytes) (r : Result StoreError Unit) → KeepsOnce (or_cleanup p r)
unfolding or_cleanup
KeepsOnce-or_cleanup p (ok tt) = KeepsOnce-here (done tt)
KeepsOnce-or_cleanup p (err e) =
    KeepsOnce-bind _ _ (KeepsOnce-cleanup p) (λ _. KeepsOnce-here (error e))

module _ (md5 : Bytes → Bytes) where
  module _ (C : Codec) (P : Pebble) (max_alloc : ℕ) where
    KeepsOnce-switch_replace :
        (dir dbdir : Bytes) → KeepsOnce (switch_replace md5 C P max_alloc dir dbdir)
    unfolding switch_replace
    KeepsOnce-switch_replace dir dbdir =
        KeepsOnce-bind _ _ (KeepsOnce-try _ (KeepsOnce-replace dir))
          (λ r. KeepsOnce-or_cleanup dbdir r)

    KeepsOnce-switch_to : (dir dbdir : Bytes) → KeepsOnce (switch_to md5 C P max_alloc dir dbdir)
    unfolding switch_to
    KeepsOnce-switch_to dir dbdir =
        KeepsOnce-bind _ _ (KeepsOnce-try _ (KeepsOnce-save md5 dir dbdir)) (λ r.
          KeepsOnce-bind _ _ (KeepsOnce-or_cleanup dbdir r)
            (λ _. KeepsOnce-switch_replace dir dbdir))

    KeepsOnce-loaded :
        (dbdir : Bytes) (l : Loaded P) → KeepsOnce (loaded_or_cleanup md5 C P max_alloc dbdir l)
    unfolding loaded_or_cleanup
    KeepsOnce-loaded dbdir (loaded db) = KeepsOnce-here (done db)
    KeepsOnce-loaded dbdir (failed e) =
        KeepsOnce-bind _ _ (KeepsOnce-cleanup dbdir) (λ _. KeepsOnce-here (error e))
    KeepsOnce-loaded dbdir load_panicked = KeepsOnce-here panicked
    KeepsOnce-loaded dbdir stuck = KeepsOnce-here panicked

    KeepsOnce-install :
        (dir name : Bytes) (reader : Reader) → KeepsOnce (install md5 C P max_alloc dir name reader)
    unfolding install
    KeepsOnce-install dir name reader =
        KeepsOnce-bind (lift (read_snapshot_header reader))
          (behind_header md5 C P max_alloc dir name) (KeepsOnce-lift _)
          (λ (header, rest).
            KeepsOnce-bind (get_current_db_dir_name md5 dir)
              (behind_old_dir md5 C P max_alloc dir name header rest) (KeepsOnce-current md5 dir)
              (λ old.
                KeepsOnce-bind (make_dir (join dir name))
                  (λ _. behind_open md5 C P max_alloc dir name header rest old)
                  (KeepsOnce-make_dir (join dir name))
                  (λ _.
                    KeepsOnce-bind
                      (loaded_or_cleanup md5 C P max_alloc (join dir name)
                        (load_snapshot C P max_alloc P.open_new rest))
                      (behind_load md5 C P max_alloc dir name header old)
                      (KeepsOnce-loaded (join dir name) _)
                      (λ db.
                        KeepsOnce-bind (switch_to md5 C P max_alloc dir (join dir name))
                          (λ _. pure (record { header = header; newdb = db; old_dir = old }))
                          (KeepsOnce-switch_to dir (join dir name))
                          (λ _. KeepsOnce-here (done _))))))

    KeepsOnce-retire : (old : Bytes) → KeepsOnce (retire md5 C P max_alloc old)
    unfolding retire
    KeepsOnce-retire old =
        KeepsOnce-bind _ _ (KeepsOnce-remove_all old) (λ _. KeepsOnce-sync_dir (parent_dir old))

    after_install-Unique :
        (s : Store P) (r : Exit (Installed md5 C P max_alloc)) (d : Disk)
        → Unique d.nodes
        → Unique (after_install md5 C P max_alloc s r d).2.nodes
    unfolding after_install
    after_install-Unique s (done i) d u = (KeepsOnce-retire i.old_dir).at d u
    after_install-Unique s (error e) d u = u
    after_install-Unique s panicked d u = u
    after_install-Unique s crashed d u = u

    pub recover_snapshot-Unique :
        (name : Bytes) (reader : Reader) (s : Store P) (d : Disk)
        → Unique d.nodes
        → Unique (recover_snapshot md5 C P max_alloc name reader s d).2.nodes
    unfolding recover_snapshot
    recover_snapshot-Unique name reader s d u =
        let installed = install md5 C P max_alloc s.base_dir name reader d in
        after_install-Unique s installed.0 installed.1
          ((KeepsOnce-install s.base_dir name reader).at d u)
