-- ===== src/Tests/Crashing.antt =====
-- Crashes in a restore, and the starts after them, at concrete disks.
use raft_example.Prelude.{◌≡◌, ◌≢◌, refl, false, some, [], ◌∷◌, Bytes, bytes_of}
use raft_example.Prelude.Map.{lookup}
use raft_example.Fsm.Header.{SnapshotHeader}
use raft_example.Fsm.Disk.{Disk, folder, Exit, done, passes, crashes}
use raft_example.Fsm.Disk.Paths.{Unique}
use raft_example.Fsm.DataDir.{parse_pointer, get_pebble_db_dir}
use raft_example.Fsm.DataDir.Opening.Reopens.{IsFolderName, get_pebble_db_dir_reopens}
use raft_example.Fsm.Stream.{Reader}
use raft_example.Fsm.Store.{Store, recover_snapshot}
use raft_example.Tests.Memory.{memory, plain}
use raft_example.Tests.Store.{md5, base, disk, written, machine}

abbrev name : Bytes
name = bytes_of "n"

abbrev old_name : Bytes
old_name = bytes_of "o"

abbrev content : Bytes
content = 9 ∷ 9 ∷ 9 ∷ 9 ∷ 9 ∷ 9 ∷ 9 ∷ 9 ∷ bytes_of "d/o"

old_name-IsFolderName : IsFolderName old_name
old_name-IsFolderName = record { plain = refl; not_running = refl; not_updating = refl }

-- The machine stops in the sixth call.
abbrev failing : Disk
failing = record disk { plan = passes ∷ passes ∷ passes ∷ passes ∷ passes ∷ crashes 3 ∷ [] }

abbrev reader : Reader
reader = record { bytes = written.1.written; broken = false }

abbrev ended : Exit SnapshotHeader × Store memory × Disk
ended = recover_snapshot md5 plain memory 1000 name reader (machine 2 []).store failing

abbrev used : Disk
used = record disk { nodes = (bytes_of "d/n", folder) ∷ disk.nodes }

abbrev opened : Exit Bytes × Disk
opened = get_pebble_db_dir md5 base (bytes_of "x") used

get_pebble_db_dir_reopens_example :
    (opened.0 ≡ done (bytes_of "d/o"))
    × (lookup (bytes_of "d/o") opened.1.nodes ≡ some folder)
    × (lookup (bytes_of "d/n") opened.1.nodes ≢ some folder)
unfolding lookup parse_pointer Unique
get_pebble_db_dir_reopens_example =
    get_pebble_db_dir_reopens md5 base old_name content old_name-IsFolderName refl name refl refl
      (bytes_of "x") used (refl, refl, refl) (refl, (refl, (refl, (refl, tt))))
