-- ===== src/Fsm/Store/Crash/Restart.antt =====
-- A start of the program after a crash anywhere in recoverSnapShot.
use raft_example.Prelude.{ℕ, ◌≡◌, refl, ◌∙◌, false, some, [], Bytes, same, same_sym}
use raft_example.Prelude.Map.{lookup}
use raft_example.Fsm.Platform.{Pebble, Codec}
use raft_example.Fsm.Errors.{StoreError}
use raft_example.Fsm.DataDir.Pointer.{pointer}
use raft_example.Fsm.Disk.{remove_all, crashed, folder, file, Disk, done, error, join}
use raft_example.Fsm.Disk.Paths.{within-join, same-join}
use raft_example.Fsm.DataDir.{
  replace_current_db_file, current_db_filename, updating_db_filename, get_pebble_db_dir,
}
use raft_example.Fsm.DataDir.Opening.Reopens.{IsFolderName}
use raft_example.Fsm.Store.{Store}
use raft_example.Fsm.Store.Crash.{Apart, Points}

flipped : (a b : Bytes) → same a b ≡ false → same b a ≡ false
flipped a b h = same_sym b a ∙ h

pub names-Apart :
    (dir name old_name : Bytes)
    → IsFolderName name
    → IsFolderName old_name
    → same name old_name ≡ false
    → Apart dir (join dir name) (join dir old_name)
names-Apart dir name old_name n o other = record {
  new_old = within-join dir name old_name o.plain other;
  old_new = within-join dir old_name name n.plain (flipped name old_name other);
  new_running =
      within-join dir name current_db_filename refl
        (flipped current_db_filename name n.not_running);
  old_running =
      within-join dir old_name current_db_filename refl
        (flipped current_db_filename old_name o.not_running);
  updating_new = same-join dir updating_db_filename name ∙ n.not_updating;
  updating_old = same-join dir updating_db_filename old_name ∙ o.not_updating;
  running_new = same-join dir current_db_filename name ∙ n.not_running;
  running_old = same-join dir current_db_filename old_name ∙ o.not_running;
}

module _ (md5 : Bytes → Bytes) (C : Codec) (P : Pebble) (max_alloc : ℕ) (s : Store P) where
  abbrev pub Restarted : Bytes → Disk → Bytes → Type 0
  Restarted random d dbdir =
      ((get_pebble_db_dir md5 s.base_dir random (record d { plan = [] })).0 ≡ done dbdir)
      × (lookup dbdir (get_pebble_db_dir md5 s.base_dir random (record d { plan = [] })).1.nodes
          ≡ some folder)

  -- From a disk that names the old folder and has the new one, replaceCurrentDBFile has put the
  -- complete pointer to the new folder in place and then returned an error, and this disk is the one
  -- on which a crash in the removal of that folder has ended.
  abbrev pub InCleanup : Bytes → Bytes → Bytes → Disk → Type 0
  InCleanup name old_name content d =
      let new = join s.base_dir name in
      (d₀ : Disk) × (e : StoreError) × (Points s.base_dir (file content) (join s.base_dir old_name)
          d₀
        × (lookup new d₀.nodes ≡ some folder))
      × ((replace_current_db_file s.base_dir d₀).0 ≡ error e)
      × Points s.base_dir (pointer md5 s.base_dir new) new (replace_current_db_file s.base_dir d₀).1
      × (remove_all new (replace_current_db_file s.base_dir d₀).1 ≡ (crashed, d))
