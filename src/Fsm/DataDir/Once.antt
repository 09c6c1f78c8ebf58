-- ===== src/Fsm/DataDir/Once.antt =====
-- The calls of fsm/utils.go on a disk on which each path stands once.
use raft_example.Prelude.{true, false, Bool, Bytes, Result, ok, err}
use raft_example.Fsm.Errors.{StoreError}
use raft_example.Fsm.Disk.{Node, folder, file, done, error, panicked, touch}
use raft_example.Fsm.Disk.Once.{
  KeepsOnce, KeepsOnce-here, KeepsOnce-lift, KeepsOnce-try, KeepsOnce-bind, KeepsOnce-stat,
  KeepsOnce-touch, KeepsOnce-create, KeepsOnce-write, KeepsOnce-read_file, KeepsOnce-rename,
}
use raft_example.Fsm.DataDir.{
  running_path, updating_path, sync_dir, sync_folder, on_other_systems, close_synced,
  panic_on_error, replace_current_db_file, checksum, write_pointer, parse_pointer,
  save_current_db_dir_name, get_current_db_dir_name,
}

KeepsOnce-close_synced : (a b : Result StoreError Unit) → KeepsOnce (close_synced a b)
unfolding close_synced
KeepsOnce-close_synced (err e) b = KeepsOnce-here (error e)
KeepsOnce-close_synced (ok tt) b = KeepsOnce-lift b

KeepsOnce-sync_folder : (n : Node) → KeepsOnce (sync_folder n)
unfolding sync_folder
KeepsOnce-sync_folder (file b) = KeepsOnce-here (done tt)
KeepsOnce-sync_folder folder = KeepsOnce-bind _ _ KeepsOnce-touch (λ _.
    KeepsOnce-bind _ _ (KeepsOnce-try touch KeepsOnce-touch) (λ a.
      KeepsOnce-bind _ _ (KeepsOnce-try touch KeepsOnce-touch) (λ b. KeepsOnce-close_synced a b)))

KeepsOnce-on_other_systems : (dir : Bytes) (b : Bool) → KeepsOnce (on_other_systems dir b)
unfolding on_other_systems
KeepsOnce-on_other_systems dir true = KeepsOnce-here (done tt)
KeepsOnce-on_other_systems dir false =
    KeepsOnce-bind _ _ (KeepsOnce-stat dir) (λ n. KeepsOnce-sync_folder n)

pub KeepsOnce-sync_dir : (dir : Bytes) → KeepsOnce (sync_dir dir)
unfolding sync_dir
KeepsOnce-sync_dir dir = record { at = λ d u. (KeepsOnce-on_other_systems dir d.windows).at d u }

KeepsOnce-panic_on_error : (r : Result StoreError Unit) → KeepsOnce (panic_on_error r)
unfolding panic_on_error
KeepsOnce-panic_on_error (ok tt) = KeepsOnce-here (done tt)
KeepsOnce-panic_on_error (err e) = KeepsOnce-here panicked

pub KeepsOnce-replace : (dir : Bytes) → KeepsOnce (replace_current_db_file dir)
unfolding replace_current_db_file
KeepsOnce-replace dir =
    KeepsOnce-bind _ _ (KeepsOnce-rename (updating_path dir) (running_path dir))
      (λ _. KeepsOnce-sync_dir dir)

module _ (md5 : Bytes → Bytes) where
  KeepsOnce-write_pointer : (path dbdir : Bytes) → KeepsOnce (write_pointer md5 path dbdir)
  unfolding write_pointer
  KeepsOnce-write_pointer path dbdir =
      KeepsOnce-bind _ _ (KeepsOnce-write path (checksum md5 dbdir))
        (λ _. KeepsOnce-bind _ _ (KeepsOnce-write path dbdir) (λ _. KeepsOnce-touch))

  pub KeepsOnce-save : (dir dbdir : Bytes) → KeepsOnce (save_current_db_dir_name md5 dir dbdir)
  unfolding save_current_db_dir_name
  KeepsOnce-save dir dbdir = KeepsOnce-bind _ _ (KeepsOnce-create (updating_path dir)) (λ _.
      KeepsOnce-bind _ _ (KeepsOnce-try _ (KeepsOnce-write_pointer (updating_path dir) dbdir)) (λ w.
        KeepsOnce-bind _ _ (KeepsOnce-try touch KeepsOnce-touch) (λ a.
          KeepsOnce-bind _ _ (KeepsOnce-panic_on_error a) (λ _.
            KeepsOnce-bind _ _ (KeepsOnce-try (sync_dir dir) (KeepsOnce-sync_dir dir))
              (λ b. KeepsOnce-bind _ _ (KeepsOnce-panic_on_error b) (λ _. KeepsOnce-lift w))))))

  pub KeepsOnce-current : (dir : Bytes) → KeepsOnce (get_current_db_dir_name md5 dir)
  unfolding get_current_db_dir_name
  KeepsOnce-current dir =
      KeepsOnce-bind _ _ (KeepsOnce-read_file (running_path dir))
        (λ c. KeepsOnce-lift (parse_pointer md5 c))
