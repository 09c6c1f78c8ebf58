-- ===== src/Fsm/DataDir.antt =====
-- The data directory of fsm/utils.go: which of its folders holds the database is written to the file
-- pebble.running, behind a digest, and changed by a rename of pebble.updating.
pub mod Pointer
pub mod Reading
pub mod Completes
pub mod Opening
pub mod Once
use raft_example.Prelude.{
  ℕ, ◌≡◌, Bool, true, false, Option, none, some, List, [], ◌∷◌, ◌++◌, Bytes, bytes_of, same, leb,
  length, take, drop, if◌then◌else◌, Result, ok, err,
}
use raft_example.Fsm.Errors.{
  StoreError, os_failed, not_exist, corrupted_content, corrupted_crc, db_dir_deleted,
}
use raft_example.Fsm.Disk.{
  Node, folder, file, Disk, Io, ◌>>=◌, ◌>>◌, pure, throw, try, lift, panic, stat, touch, create,
  write, read_file, rename, remove_all, read_dir, join, slash,
}

abbrev pub current_db_filename : Bytes
current_db_filename = bytes_of "pebble.running"

abbrev pub updating_db_filename : Bytes
updating_db_filename = bytes_of "pebble.updating"

abbrev pub running_path : Bytes → Bytes
running_path dir = join dir current_db_filename

abbrev pub updating_path : Bytes → Bytes
updating_path dir = join dir updating_db_filename

is_folder : Node → Bool
is_folder folder = true
is_folder (file b) = false

is_not_exist : StoreError → Bool
is_not_exist not_exist = true
is_not_exist e = false

-- The deferred close, whose error is returned if there is no other.
close_synced : Result StoreError Unit → Result StoreError Unit → Io Unit
close_synced (err e) closing = throw e
close_synced (ok tt) closing = lift closing

sync_folder : Node → Io Unit
unfolding close_synced
sync_folder (file b) = pure tt
sync_folder folder = do touch; synced ← try touch; closing ← try touch; close_synced synced closing

on_other_systems : Bytes → Bool → Io Unit
unfolding sync_folder
on_other_systems dir true = pure tt
on_other_systems dir false = do info ← stat dir; sync_folder info

unfoldable pub sync_dir : Bytes → Io Unit
unfolding on_other_systems
sync_dir dir d = on_other_systems dir d.windows d

unfoldable pub replace_current_db_file : Bytes → Io Unit
replace_current_db_file dir = do rename (updating_path dir) (running_path dir); sync_dir dir

panic_on_error : Result StoreError Unit → Io Unit
panic_on_error (ok tt) = pure tt
panic_on_error (err e) = panic

-- `filepath.Join` of the directory and a name that stands for the two random numbers.
unfoldable pub get_new_random_db_dir_name : Bytes → Bytes → Bytes
get_new_random_db_dir_name dir name = join dir name

-- `md5` is `md5.New()` written once and summed.
module _ (md5 : Bytes → Bytes) where
  abbrev pub checksum : Bytes → Bytes
  checksum content = take 8 (md5 content)

  write_pointer : Bytes → Bytes → Io Unit
  write_pointer path dbdir = do write path (checksum dbdir); write path dbdir; touch

  -- The deferred close and sync, which panic on an error, stand behind the writes, whether these
  -- went through or not.
  unfoldable pub save_current_db_dir_name : Bytes → Bytes → Io Unit
  unfolding write_pointer panic_on_error
  save_current_db_dir_name dir dbdir = do
    create (updating_path dir)
    written ← try (write_pointer (updating_path dir) dbdir)
    closing ← try touch
    panic_on_error closing
    synced ← try (sync_dir dir)
    panic_on_error synced
    lift written

  -- The check of the file's content.
  unfoldable pub parse_pointer : Bytes → Result StoreError Bytes
  parse_pointer content =
      if leb (length content) 8
      then err corrupted_content
      else if same (take 8 content) (checksum (drop 8 content))
      then ok (drop 8 content)
      else err corrupted_crc

  unfoldable pub get_current_db_dir_name : Bytes → Io Bytes
  unfolding parse_pointer
  get_current_db_dir_name dir = do
    content ← read_file (running_path dir)
    lift (parse_pointer content)

  keep_or_remove : Bytes → Bytes → Node → Io Unit
  keep_or_remove dbdir to_delete (file b) = pure tt
  keep_or_remove dbdir to_delete folder =
      if same to_delete dbdir then pure tt else remove_all to_delete

  unfoldable pub remove_others : Bytes → Bytes → List (Bytes × Node) → Io Unit
  unfolding keep_or_remove
  remove_others dir dbdir [] = pure tt
  remove_others dir dbdir ((name, n) ∷ files) = do
    keep_or_remove dbdir (join dir name) n
    remove_others dir dbdir files

  unfoldable pub cleanup_node_data_dir : Bytes → Io Unit
  unfolding remove_others get_current_db_dir_name
  cleanup_node_data_dir dir = do
    try (remove_all (updating_path dir))
    dbdir ← get_current_db_dir_name dir
    files ← read_dir dir
    remove_others dir dbdir files

  -- Only `os.IsNotExist` makes a new run.
  new_run : Result StoreError Node → Bool
  unfolding is_not_exist
  new_run (ok n) = false
  new_run (err e) = is_not_exist e

  unfoldable pub is_new_run : Bytes → Io Bool
  unfolding new_run
  is_new_run dir = do r ← try (stat (running_path dir)); pure (new_run r)

  -- An error of the last Stat other than that the folder is not there is let pass.
  existing : Bytes → Result StoreError Node → Io Bytes
  unfolding is_not_exist
  existing dbdir (ok n) = pure dbdir
  existing dbdir (err e) = if is_not_exist e then throw db_dir_deleted else pure dbdir

  unfoldable pub open_existing : Bytes → Io Bytes
  unfolding existing
  open_existing dir = do
    cleanup_node_data_dir dir
    dbdir ← get_current_db_dir_name dir
    r ← try (stat dbdir)
    existing dbdir r

  unfoldable pub open_new_run : Bytes → Bytes → Io Bytes
  unfolding get_new_random_db_dir_name
  open_new_run dir name = do
    save_current_db_dir_name dir (get_new_random_db_dir_name dir name)
    replace_current_db_file dir
    pure (get_new_random_db_dir_name dir name)

  -- `name` is the random name that a new run takes.
  unfoldable pub get_pebble_db_dir : Bytes → Bytes → Io Bytes
  unfolding open_existing open_new_run is_new_run
  get_pebble_db_dir dir name = do
    fresh ← is_new_run dir
    if fresh then open_new_run dir name else open_existing dir
