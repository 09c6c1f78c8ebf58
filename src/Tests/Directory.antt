-- ===== src/Tests/Directory.antt =====
-- The data directory at a concrete disk, and its theorems there.
use raft_example.Prelude.{
  ◌≡◌, ◌≢◌, ◌↔◌, ◌⊎◌, refl, false, none, some, Bytes, [], ◌∷◌, ◌++◌, bytes_of, ok,
}
use raft_example.Prelude.Map.{Map, lookup}
use raft_example.Fsm.Stream.{Reader}
use raft_example.Fsm.Header.{read_snapshot_header}
use raft_example.Fsm.Restore.{loaded, load_snapshot}
use raft_example.Fsm.Errors.{os_failed}
use raft_example.Fsm.Disk.{Node, passes, fails, Disk, file, folder, Exit, error, join}
use raft_example.Fsm.DataDir.{checksum, parse_pointer, running_path}
use raft_example.Fsm.DataDir.Pointer.{pointer, set_pointer, running, set_pointer_atomic}
use raft_example.Fsm.DataDir.Reading.{parse_pointer_iff}
use raft_example.Fsm.Store.{Installed, install, switch_replace}
use raft_example.Fsm.Store.Install.{install_lem}
use raft_example.Fsm.Store.Dangling.{sync_fails, switch_replace_dangles}
use raft_example.Tests.Memory.{memory, plain}
use raft_example.Fsm.Header.Laws.{written_header}
use raft_example.Tests.Store.{pairs, md5, base, disk, written, restoring_runs}

-- A disk on which the third call fails.
abbrev failing : Disk
failing = record disk { plan = passes ∷ passes ∷ fails 0 ∷ [] }

set_pointer_atomic_example :
    (running md5 base (bytes_of "d/n") (set_pointer md5 base (bytes_of "d/n") failing).1
      ≡ running md5 base (bytes_of "d/n") failing)
    ⊎ (running md5 base (bytes_of "d/n") (set_pointer md5 base (bytes_of "d/n") failing).1
        ≡ some (pointer md5 base (bytes_of "d/n")))
set_pointer_atomic_example = set_pointer_atomic md5 base (bytes_of "d/n") failing

parse_pointer_iff_example :
    (parse_pointer md5 (checksum md5 (bytes_of "d/o") ++ bytes_of "d/o") ≡ ok (bytes_of "d/o")) ↔ (
      (checksum md5 (bytes_of "d/o") ++ bytes_of "d/o"
        ≡ checksum md5 (bytes_of "d/o") ++ bytes_of "d/o")
      × (bytes_of "d/o" ≢ []))
parse_pointer_iff_example =
    parse_pointer_iff md5 (λ x. refl) (checksum md5 (bytes_of "d/o") ++ bytes_of "d/o")
      (bytes_of "d/o")

abbrev reader : Reader
reader = record { bytes = written.1.written; broken = false }

abbrev installed : Exit (Installed md5 plain memory 1000) × Disk
installed = install md5 plain memory 1000 base (bytes_of "n") reader disk

abbrev found : Installed md5 plain memory 1000
found = record {
  header = written_header (bytes_of "A") 7 5;
  newdb = pairs;
  old_dir = bytes_of "d/o";
}

install_lem_example :
    (rest : Reader) × (read_snapshot_header reader ≡ ok (found.header, rest))
    × (load_snapshot plain memory 1000 [] rest ≡ loaded found.newdb)
    × (lookup (running_path base) installed.1.nodes
        ≡ some (pointer md5 base (join base (bytes_of "n"))))
unfolding restoring_runs
install_lem_example =
    install_lem md5 plain memory 1000 base (bytes_of "n") reader disk installed.1 found refl

-- d holds the new folder d/n, and pebble.updating names it.
abbrev nodes : Map Node
nodes =
    (base, folder)
    ∷ (bytes_of "d/n", folder)
    ∷ (bytes_of "d/pebble.updating", pointer md5 base (bytes_of "d/n"))
    ∷ (bytes_of "d/pebble.running", file (bytes_of "q"))
    ∷ []

abbrev unsynced : Disk
unsynced = sync_fails md5 plain memory 1000 0 base (bytes_of "d/n") nodes

switch_replace_dangles_example :
    ((switch_replace md5 plain memory 1000 base (bytes_of "d/n") unsynced).0 ≡ error os_failed)
    × (content : Bytes) × (lookup
          (running_path base)
          (switch_replace md5 plain memory 1000 base (bytes_of "d/n") unsynced).1.nodes
        ≡ some (file content))
    × (parse_pointer md5 content ≡ ok (bytes_of "d/n"))
    × (lookup
          (bytes_of "d/n")
          (switch_replace md5 plain memory 1000 base (bytes_of "d/n") unsynced).1.nodes
        ≡ none)
unfolding lookup
switch_replace_dangles_example =
    switch_replace_dangles md5 plain memory 1000 0 base (bytes_of "d/n") nodes (λ x. refl) (λ e. cc)
      refl refl
