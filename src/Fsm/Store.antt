-- ===== src/Fsm/Store.antt =====
-- The store of fsm/store.go: newStore, the reads and writes of the open database, close, and
-- recoverSnapShot, which loads a snapshot into a new database and puts it in place of the old one.
pub mod Install
pub mod Dangling
pub mod Completes
pub mod Crash
use raft_example.Prelude.{
  ℕ, ◌≡◌, Bool, true, false, Option, none, some, List, [], ◌∷◌, ◌++◌, Bytes, Result, ok, err,
  wrap_error, if◌then◌else◌,
}
use raft_example.Fsm.Platform.{Pebble, PebbleError, not_found, io_failed, Op, set, Codec}
use raft_example.Fsm.Stream.{Reader}
use raft_example.Fsm.Errors.{StoreError, db_closed, pebble_error}
use raft_example.Fsm.Disk.{
  Node, folder, Disk, Exit, done, error, panicked, crashed, Io, ◌>>=◌, ◌>>◌, pure, throw, try, lift,
  panic, make_dir, remove_all, parent_dir,
}
use raft_example.Fsm.DataDir.{
  get_new_random_db_dir_name, get_current_db_dir_name, save_current_db_dir_name,
  replace_current_db_file, get_pebble_db_dir, sync_dir,
}
use raft_example.Fsm.Header.{SnapshotHeader, read_snapshot_header}
use raft_example.Fsm.Restore.{
  Loaded, loaded, failed, panicked as load_panicked, stuck, load_snapshot,
}

-- `db` is the database under the pointer; the logger is left out.
pub record Store (P : Pebble) : Type 0 where
  pub base_dir : Bytes
  pub db : P.DB
  pub closed : Bool

abbrev pub cf_default : ℕ
cf_default = 1

-- The key in the one column family: its byte in front.
unfoldable pub build_column_family_key : ℕ → Bytes → Bytes
build_column_family_key cf key = cf ∷ key

module _ (P : Pebble) where
  -- A key that is not there reads as the empty value.
  unfoldable pub found : Result PebbleError Bytes → Result StoreError Bytes
  found (ok val) = ok val
  found (err not_found) = ok []
  found (err io_failed) = err (pebble_error io_failed)

  unfoldable pub get_bytes : Bytes → Store P → Result StoreError Bytes
  unfolding found
  get_bytes key s = if s.closed then err db_closed else found (P.get s.db key)

  -- `db.Flush` and `db.Close` end the database's own work.
  unfoldable pub close : Store P → Store P
  close s = record s { closed = true }

  -- `opened` is what the folder of the database holds, and `name` the random name of a new one.
  unfoldable pub new_store : (Bytes → Bytes) → Bytes → Bytes → P.DB → Io (Store P)
  new_store md5 base_dir name opened = do
    make_dir base_dir
    dbdir ← get_pebble_db_dir md5 base_dir name
    make_dir dbdir
    pure (record { base_dir = base_dir; db = opened; closed = false })

-- `newdb.Close` and `os.RemoveAll`, whose errors are ignored.
unfoldable pub cleanup_new_db : Bytes → Io Unit
cleanup_new_db dbdir = do try (remove_all dbdir); pure tt

unfoldable pub or_cleanup : Bytes → Result StoreError Unit → Io Unit
or_cleanup dbdir (ok tt) = pure tt
or_cleanup dbdir (err e) = cleanup_new_db dbdir >> throw e

module _ (md5 : Bytes → Bytes) (C : Codec) (P : Pebble) (max_alloc : ℕ) where
  -- The end of the loop. A panic runs no cleanup; `stuck` does not occur.
  unfoldable pub loaded_or_cleanup : Bytes → Loaded P → Io P.DB
  loaded_or_cleanup dbdir (loaded db) = pure db
  loaded_or_cleanup dbdir (failed e) = cleanup_new_db dbdir >> throw e
  loaded_or_cleanup dbdir load_panicked = panic
  loaded_or_cleanup dbdir stuck = panic

  -- The second change of the pointer file, with its cleanup.
  unfoldable pub switch_replace : Bytes → Bytes → Io Unit
  unfolding or_cleanup cleanup_new_db
  switch_replace dir dbdir = do
    replaced ← try (replace_current_db_file dir)
    or_cleanup dbdir replaced

  -- The two changes of the pointer file, each with its cleanup.
  unfoldable pub switch_to : Bytes → Bytes → Io Unit
  unfolding switch_replace
  switch_to dir dbdir = do
    saved ← try (save_current_db_dir_name md5 dir dbdir)
    or_cleanup dbdir saved
    switch_replace dir dbdir

  pub record Installed : Type 0 where
    pub header : SnapshotHeader
    pub newdb : P.DB
    pub old_dir : Bytes

  -- recoverSnapShot up to the swap of the databases.
  unfoldable pub install : Bytes → Bytes → Reader → Io Installed
  unfolding loaded_or_cleanup switch_to get_new_random_db_dir_name
  install base_dir name reader = do
    (header, rest) ← lift (read_snapshot_header reader)
    old_dir ← get_current_db_dir_name md5 base_dir
    make_dir (get_new_random_db_dir_name base_dir name)
    newdb ←
        loaded_or_cleanup (get_new_random_db_dir_name base_dir name)
          (load_snapshot C P max_alloc P.open_new rest)
    switch_to base_dir (get_new_random_db_dir_name base_dir name)
    pure (record { header = header; newdb = newdb; old_dir = old_dir })

  -- What is left to do behind the swap.
  unfoldable pub retire : Bytes → Io Unit
  retire old_dir = do remove_all old_dir; sync_dir (parent_dir old_dir)

  unfoldable pub swapped : SnapshotHeader → Exit Unit → Exit SnapshotHeader
  swapped h (done tt) = done h
  swapped h (error e) = error e
  swapped h panicked = panicked
  swapped h crashed = crashed

  unfoldable pub after_install :
      Store P → Exit Installed → Disk → Exit SnapshotHeader × Store P × Disk
  unfolding swapped retire
  after_install s (done i) d =
      let (r, d') = retire i.old_dir d in (swapped i.header r, record s { db = i.newdb }, d')
  after_install s (error e) d = (error e, s, d)
  after_install s panicked d = (panicked, s, d)
  after_install s crashed d = (crashed, s, d)

  -- The store has the new database as soon as the pointer file names it, also where a later call
  -- fails.
  unfoldable pub recover_snapshot :
      Bytes → Reader → Store P → Disk → Exit SnapshotHeader × Store P × Disk
  unfolding after_install install
  recover_snapshot name reader s d =
      let (r, d') = install s.base_dir name reader d in after_install s r d'
