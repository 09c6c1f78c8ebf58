-- ===== src/Fsm/Store/Dangling.antt =====
-- recoverSnapShot where the pointer file has been replaced and the sync behind the rename fails.
use raft_example.Prelude.{ℕ, ◌≡◌, refl, false, none, [], ◌∷◌, Bytes, same_refl, ◌≢◌, ◌++◌, ok, some}
use raft_example.Prelude.Map.{Map, lookup, lookup-insert}
use raft_example.Fsm.Platform.{Pebble, Codec}
use raft_example.Fsm.Errors.{os_failed}
use raft_example.Fsm.Disk.{Node, Disk, file, error, passes, fails, rename, stat, remove_all, within}
use raft_example.Fsm.Disk.Paths.{lookup-prune}
use raft_example.Fsm.DataDir.{
  checksum, parse_pointer, running_path, updating_path, replace_current_db_file, sync_dir,
}
use raft_example.Fsm.DataDir.Pointer.{pointer}
use raft_example.Fsm.DataDir.Reading.{IsMd5, parse_pointer_iff}
use raft_example.Fsm.Store.{switch_replace}

module _ (md5 : Bytes → Bytes) (C : Codec) (P : Pebble) (max_alloc n : ℕ) (dir dbdir : Bytes)
    (nodes : Map Node) where
  -- The rename goes through, the call behind it fails, and all calls behind that go through.
  abbrev pub sync_fails : Disk
  sync_fails = record { nodes = nodes; plan = passes ∷ fails n ∷ []; windows = false }

  -- With a digest of 16 bytes, let pebble.updating hold the pointer to the new folder, that folder
  -- not contain pebble.running, the rename of replaceCurrentDBFile go through, the call behind it
  -- fail, and all calls behind that go through, the removal of the new folder included. Then the
  -- error comes back, but pebble.running holds a pointer that is accepted as one to the new folder,
  -- and that folder has been removed.
  pub switch_replace_dangles :
      IsMd5 md5
      → dbdir ≢ []
      → lookup (updating_path dir) nodes ≡ some (pointer md5 dir dbdir)
      → within dbdir (running_path dir) ≡ false
      → ((switch_replace md5 C P max_alloc dir dbdir sync_fails).0 ≡ error os_failed)
        × (content : Bytes) × (lookup
              (running_path dir)
              (switch_replace md5 C P max_alloc dir dbdir sync_fails).1.nodes
            ≡ some (file content))
        × (parse_pointer md5 content ≡ ok dbdir)
        × (lookup dbdir (switch_replace md5 C P max_alloc dir dbdir sync_fails).1.nodes ≡ none)
  unfolding switch_replace replace_current_db_file rename sync_dir stat remove_all
  switch_replace_dangles digest named there apart = rw there (
    refl,
    checksum md5 dbdir ++ dbdir,
    rw (lookup-prune, apart, lookup-insert, same_refl (running_path dir)),
    (parse_pointer_iff md5 digest (checksum md5 dbdir ++ dbdir) dbdir).1 (refl, named),
    rw (lookup-prune, same_refl dbdir),
  )
